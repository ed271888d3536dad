-- ===== src/Store/Vector/Selector.antt =====
-- crates/store/src/vector/selector.rs: whether an event is embedded.
use percept.Prelude.{
  String, List, [], Option, none, some, Bool, if◌then◌else◌, ◌≡◌, refl, inl, inr, arith, unwrap_or,
  Option-cases,
}
use percept.Prelude.Eq.{string_eq, ◌=?◌, =?_refl}
use percept.Prelude.Assoc.{lookup, insert, lookup-insert}
use percept.Core.KindRef.{KindRef, display}
use percept.Core.KindRef.RoundTrip.{IsWellFormed}
use percept.Store.Retention.Policy.{bare_kind}
use percept.Store.Retention.Policy.Matching.{bare_kind-display}

pub record EmbedSelector : Type 0 where
  pub embed_default : Bool
  pub by_kind : List (String × Bool)
  pub by_source : List (String × Bool)

unfoldable pub new : Bool → EmbedSelector
new embed_default = record { embed_default = embed_default; by_kind = []; by_source = [] }

unfoldable pub set_kind : EmbedSelector → String → Bool → EmbedSelector
set_kind s kind embed = record s { by_kind = insert kind embed s.by_kind }

unfoldable pub set_source : EmbedSelector → String → Bool → EmbedSelector
set_source s source_id embed = record s { by_source = insert source_id embed s.by_source }

abbrev first_of_three : Option Bool → Option Bool → Bool → Bool
first_of_three (some v) _ _ = v
first_of_three none (some v) _ = v
first_of_three none none d = d

unfoldable pub should_embed : EmbedSelector → String → String → Bool
should_embed s source_id kind =
    first_of_three (lookup source_id s.by_source) (lookup (bare_kind kind) s.by_kind)
      s.embed_default

-- A choice for a source decides all its kinds and no other source's; a choice for a kind by its bare
-- name decides every well-formed reference to it, whatever its version, at the sources for which
-- nothing is chosen, and changes nothing at the others.
pub should_embed-set :
    (s : EmbedSelector) (source_id other : String) (k : KindRef) (embed : Bool)
    → IsWellFormed k
    → (should_embed (set_source s source_id embed) other (display k)
        ≡ (if source_id =? other then embed else should_embed s other (display k)))
      × (should_embed (set_kind s k.name embed) other (display k)
          ≡ unwrap_or (lookup other s.by_source) embed)
unfolding should_embed set_source set_kind
should_embed-set s source_id other k embed h = (
  ground (arith, lookup-insert source_id other embed s.by_source),
  elim (Option-cases (lookup other s.by_source)) [
    | inl unset ↦
        rw (unset, bare_kind-display k h)
          (rw (lookup-insert k.name k.name embed s.by_kind) (rw (=?_refl k.name)))
    | inr (b, set) ↦ rw set refl
  ],
)
