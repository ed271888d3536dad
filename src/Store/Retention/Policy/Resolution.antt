-- ===== src/Store/Retention/Policy/Resolution.antt =====
-- On `resolve_effective` of crates/store/src/retention/policy.rs: each dimension, and the policies.
use percept.Prelude.{
  ℕ, ◌≤◌, ◌<◌, String, List, [], ◌∷◌, Option, none, true, false, if◌then◌else◌, or_else, filter,
  ◌≡◌, refl, ◌∙◌, arith, All, ◌==◌,
}
use mathlib.Core.Option
use percept.Prelude.Int.{duration_to_ms}
use percept.Prelude.Sorting.{sort, insert, IsSorted, sort-IsSorted}
use percept.Store.Retention.Policy.{
  RetentionPolicy, EffectiveRetention, matches, tier, tier_le, fill_from, fill_all, no_retention,
  resolve_effective,
}

tier-le : (p : RetentionPolicy) → tier p ≤ 2
unfolding tier
tier-le p = ground arith

tier_le-total : (p q : RetentionPolicy) → tier_le p q ≡ false → tier_le q p ≡ true
tier_le-total p q h = ground arith

tier_le_trans :
    (p q r : RetentionPolicy) → tier_le p q ≡ true → tier_le q r ≡ true → tier_le p r ≡ true
tier_le_trans p q r h k = ground arith

module _ {A : Type 0} (f : RetentionPolicy → Option A) where
  -- The first value that a list of policies sets.
  abbrev pub first_set : List RetentionPolicy → Option A
  first_set [] = none
  first_set (p ∷ ps) = or_else (f p) (first_set ps)

  -- The first value that its policies of one tier set.
  abbrev pub first_in_tier : ℕ → List RetentionPolicy → Option A
  first_in_tier t [] = none
  first_in_tier t (p ∷ ps) =
      let rest = first_in_tier t ps in if tier p == t then or_else (f p) rest else rest

  -- Source-level, then kind-level, then the global default.
  abbrev pub by_tiers : List RetentionPolicy → Option A
  by_tiers ps = or_else (first_in_tier 0 ps) (or_else (first_in_tier 1 ps) (first_in_tier 2 ps))

  first_in_tier-insert :
      (t : ℕ) (p : RetentionPolicy) (ps : List RetentionPolicy)
      → first_in_tier t (insert tier_le p ps) ≡ first_in_tier t (p ∷ ps)
  unfolding insert
  first_in_tier-insert t p [] = refl
  first_in_tier-insert t p (q ∷ ps) = ground (arith, first_in_tier-insert t p ps)

  first_in_tier-sort :
      (t : ℕ) (ps : List RetentionPolicy) → first_in_tier t (sort tier_le ps) ≡ first_in_tier t ps
  unfolding sort
  first_in_tier-sort t [] = refl
  first_in_tier-sort t (p ∷ ps) =
      ground (arith, first_in_tier-insert t p (sort tier_le ps), first_in_tier-sort t ps)

  none_below :
      (t : ℕ) (p : RetentionPolicy) (ps : List RetentionPolicy)
      → t < tier p
      → All (λ q. tier_le p q ≡ true) ps
      → first_in_tier t ps ≡ none
  none_below t p [] lt h = refl
  none_below t p (q ∷ ps) lt (le, h) = ground (arith, none_below t p ps lt h)

  -- On a sorted list the tiers come one after the other.
  first_set-by_tiers :
      (ps : List RetentionPolicy) → IsSorted tier_le ps → first_set ps ≡ by_tiers ps
  first_set-by_tiers [] h = refl
  first_set-by_tiers (p ∷ ps) (a, h) = ground (
    arith,
    tier-le p,
    first_set-by_tiers ps h,
    λ (lt : 0 < tier p). none_below 0 p ps lt a,
    λ (lt : 1 < tier p). none_below 1 p ps lt a,
  )

  first_set-sort : (ps : List RetentionPolicy) → first_set (sort tier_le ps) ≡ by_tiers ps
  first_set-sort ps = ground (
    arith,
    first_set-by_tiers (sort tier_le ps) (sort-IsSorted tier_le tier_le-total tier_le_trans ps),
    first_in_tier-sort 0 ps,
    first_in_tier-sort 1 ps,
    first_in_tier-sort 2 ps,
  )

-- The loop gives each dimension its first value in the list.
fill_all_lem :
    (eff : EffectiveRetention) (ps : List RetentionPolicy)
    → (((fill_all eff ps).max_age_ms
          ≡ or_else eff.max_age_ms (first_set (λ p. Option.map duration_to_ms p.max_age) ps))
        × ((fill_all eff ps).max_count ≡ or_else eff.max_count (first_set (λ p. p.max_count) ps))
        × ((fill_all eff ps).max_bytes ≡ or_else eff.max_bytes (first_set (λ p. p.max_bytes) ps))
        × ((fill_all eff ps).vector_max_age_ms
            ≡ or_else eff.vector_max_age_ms
                (first_set (λ p. Option.map duration_to_ms p.vector_max_age) ps)))
unfolding fill_all fill_from
fill_all_lem eff [] = ground arith
fill_all_lem eff (p ∷ ps) = ground (arith, fill_all_lem (fill_from eff p) ps)

-- Each dimension is resolved on its own: among the policies that match, the first in the order of the
-- configuration that sets it, of the source-level ones, else of the kind-level ones, else of the rest.
pub resolve_effective-by_tiers :
    (policies : List RetentionPolicy) (source_id kind : String)
    → let matching = filter (λ p. matches p source_id kind) policies in
      let eff = resolve_effective policies source_id kind in
      (eff.max_age_ms ≡ by_tiers (λ p. Option.map duration_to_ms p.max_age) matching)
      × (eff.max_count ≡ by_tiers (λ p. p.max_count) matching)
      × (eff.max_bytes ≡ by_tiers (λ p. p.max_bytes) matching)
      × (eff.vector_max_age_ms
          ≡ by_tiers (λ p. Option.map duration_to_ms p.vector_max_age) matching)
unfolding resolve_effective
resolve_effective-by_tiers policies source_id kind =
    let matching : List RetentionPolicy = filter (λ p. matches p source_id kind) policies in
    let (age, count, bytes, vector) = fill_all_lem no_retention (sort tier_le matching) in
    (
      age ∙ first_set-sort (λ p. Option.map duration_to_ms p.max_age) matching,
      count ∙ first_set-sort (λ p. p.max_count) matching,
      bytes ∙ first_set-sort (λ p. p.max_bytes) matching,
      vector ∙ first_set-sort (λ p. Option.map duration_to_ms p.vector_max_age) matching,
    )
