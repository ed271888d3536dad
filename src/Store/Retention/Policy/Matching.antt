-- ===== src/Store/Retention/Policy/Matching.antt =====
-- Which policies a versioned kind matches.
use percept.Prelude.{String, none, some, Option-cases, inl, inr, true, ◌≡◌}
use percept.Prelude.Eq.{string_eq, =?_refl}
use percept.Prelude.Text.{split_once-none, split_once-append}
use percept.Core.KindRef.{KindRef, at_sign, display}
use percept.Core.KindRef.RoundTrip.{IsWellFormed}
use percept.Store.Retention.Policy.{RetentionPolicy, bare_kind, matches}

pub bare_kind-display : (k : KindRef) → IsWellFormed k → bare_kind (display k) ≡ k.name
unfolding bare_kind display
bare_kind-display k h = elim (Option-cases k.version) [
  | inl e ↦ rw e (rw (split_once-none b'@' k.name h.plain))
  | inr (v, e) ↦ rw e (rw (split_once-append at_sign k.name v h.plain))
]

-- A policy for a kind by its bare name matches the kind at every version, and without one.
pub matches-display :
    (p : RetentionPolicy) (source_id : String) (k : KindRef)
    → IsWellFormed k
    → p.match_source_id ≡ none
    → p.match_kind ≡ some k.name
    → matches p source_id (display k) ≡ true
unfolding matches
matches-display p source_id k h any named =
    rw (any, named) (rw (bare_kind-display k h) (rw (=?_refl k.name)))
