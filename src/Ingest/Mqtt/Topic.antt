-- ===== src/Ingest/Mqtt/Topic.antt =====
-- crates/ingest/src/mqtt/topic.rs: matching a topic against a filter. The index `idx` of the source is
-- here the rest of the parts, `parts[idx..]`.
pub mod Filled
use Prim.Native.String
use percept.Prelude.{String, Char, List, [], ◌∷◌, ◌++◌, Option, none, some, if◌then◌else◌, code}
use percept.Prelude.Eq.{string_eq, ◌=?◌}
use percept.Prelude.Text.{split, join}

pub data TopicSegment : Type 0 where
  literal : String → TopicSegment
  single_plus hash : TopicSegment

pub record TopicCaptures : Type 0 where
  pub pluses : List String
  pub hash_tail : Option String

abbrev pub slash : Char
slash = "/"

unfoldable pub segment : String → TopicSegment
segment part = if part =? "+" then single_plus else if part =? "#" then hash else literal part

abbrev pub segments : List String → List TopicSegment
segments [] = []
segments (p ∷ ps) = segment p ∷ segments ps

-- `TopicMatcher::new`.
unfoldable pub new : String → List TopicSegment
new filter = segments (split (code slash) filter)

-- The loop of `captures` over the filter.
unfoldable pub capture : List TopicSegment → List String → List String → Option TopicCaptures
capture [] [] pluses = some (record { pluses = pluses; hash_tail = none })
capture [] (_ ∷ _) pluses = none
capture (hash ∷ _) parts pluses =
    some (record { pluses = pluses; hash_tail = some (join slash parts) })
capture (single_plus ∷ segs) [] pluses = none
capture (single_plus ∷ segs) (p ∷ parts) pluses = capture segs parts (pluses ++ p ∷ [])
capture (literal s ∷ segs) [] pluses = none
capture (literal s ∷ segs) (p ∷ parts) pluses =
    let rest = capture segs parts pluses in if p =? s then rest else none

unfoldable pub captures : List TopicSegment → String → Option TopicCaptures
captures filter topic = capture filter (split (code slash) topic) []
