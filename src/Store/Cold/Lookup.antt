-- ===== src/Store/Cold/Lookup.antt =====
-- crates/store/src/cold/store.rs: an event by its id, the number of events, and the pairs of source and
-- kind in the store.
use percept.Prelude.{
  ℕ, String, List, [], ◌∷◌, Option, none, some, Bool, if◌then◌else◌, any, length, map, ◌==◌,
}
use percept.Prelude.Eq.{pair_eq, string_eq, ◌=?◌}
use percept.Prelude.Sorting.{sort}
use percept.Prelude.Text.{str_le}
use percept.Core.Event.{Event, Ulid}
use percept.Store.Cold.Rows.{JsonCodec, Row, row_to_event}
use percept.Store.Cold.Append.{ColdStore, row_key}

-- `WHERE event_id = ?`: the primary key.
unfoldable pub find_row : Ulid → List Row → Option Row
find_row id [] = none
find_row id (r ∷ rows) = let rest = find_row id rows in if r.event_id == id then some r else rest

-- `optional()`: no row is no error, and a row that cannot be read is one.
abbrev pub read_found : JsonCodec → Option Row → Option (Option Event)
read_found codec none = some none
read_found codec (some r) = elim (row_to_event codec r) [ none ↦ none | some e ↦ some (some e) ]

unfoldable pub get_by_id : JsonCodec → ColdStore → Ulid → Option (Option Event)
get_by_id codec s id = read_found codec (find_row id s.events)

unfoldable pub event_count : ColdStore → ℕ
event_count s = length s.events

-- `SELECT DISTINCT`.
unfoldable pub distinct : List (String × String) → List (String × String)
distinct [] = []
distinct (p ∷ ps) = let rest = distinct ps in if any (λ q. q =? p) rest then rest else p ∷ rest

-- `ORDER BY 1, 2`.
abbrev pub pair_le : String × String → String × String → Bool
pair_le (a, b) (c, d) = if a =? c then str_le b d else str_le a c

unfoldable pub distinct_source_kind_pairs : ColdStore → List (String × String)
distinct_source_kind_pairs s = sort pair_le (distinct (map row_key s.events))
