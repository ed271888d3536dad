-- ===== src/Config/Descriptors/Policies.antt =====
-- What the rules of `check` give for the retention policies that are built.
use percept.Prelude.{
  ℕ, ◌≤◌, ◌<◌, String, List, [], ◌∷◌, Option, none, some, Bool, true, is_some, All, ◌≡◌, refl, sym,
  arith, some_inj, subst, ◌∙◌, ◌||◌, if◌then◌else◌,
}
use percept.Prelude.Result.{ok, >>=-ok, ok_inj, traverse}
use percept.Store.Retention.Policy.{RetentionPolicy, tier}
use percept.Config.Duration.{parse_duration}
use percept.Config.Entries.{RetentionEntry}
use percept.Config.Schema.{Config}
use percept.Config.Validate.{check}
use percept.Config.Validate.Accepted.{AgesOrdered, ValidEntry, check-iff_IsValid}
use percept.Config.Descriptors.{
  parse_duration_str, optional_age, build_policy, build_retention_policies,
}

-- The age of the vectors is not longer than that of the events, where both are there.
abbrev pub AgeWithin : Option ℕ → Option ℕ → Type 0
AgeWithin (some vec) (some raw) = vec ≤ raw
AgeWithin (some _) none = Unit
AgeWithin none _ = Unit

-- A policy that names a source or a kind.
abbrev pub SafePolicy : RetentionPolicy → Type 0
SafePolicy p = (tier p < 2) × AgeWithin p.vector_max_age p.max_age

same_duration : (s : String) → parse_duration_str s ≡ parse_duration s
unfolding parse_duration_str parse_duration
same_duration s = refl

ages-AgeWithin :
    (a v : Option String) (raw vec : Option ℕ)
    → AgesOrdered a v
    → optional_age a ≡ ok raw
    → optional_age v ≡ ok vec
    → AgeWithin vec raw
ages-AgeWithin a v raw none o p q = tt
ages-AgeWithin a v none (some vec) o p q = tt
ages-AgeWithin none v (some raw) (some vec) o p q = absurd cc
ages-AgeWithin (some a) none (some raw) (some vec) o p q = absurd cc
ages-AgeWithin (some a) (some v) (some raw) (some vec) (x, y, e, f, le) p q =
    let (x', i, i') = >>=-ok (parse_duration_str a) _ p in
    let (y', j, j') = >>=-ok (parse_duration_str v) _ q in
    omega (
      arith,
      le,
      some_inj (ok_inj i'),
      some_inj (ok_inj j'),
      ok_inj (sym e ∙ (sym (same_duration a) ∙ i)),
      ok_inj (sym f ∙ (sym (same_duration v) ∙ j)),
    )

tier_lt : (a b : Bool) → (a || b) ≡ true → (if a then 0 else if b then 1 else 2) < 2
tier_lt a b h = ground arith

build_policy-Safe :
    (r : RetentionEntry) (p : RetentionPolicy) → ValidEntry r → build_policy r ≡ ok p → SafePolicy p
unfolding build_policy tier
build_policy-Safe r p (s, o) h =
    let (raw, a, h) = >>=-ok (optional_age r.max_age) _ h in
    let (vec, b, h) = >>=-ok (optional_age r.vector_max_age) _ h in
    subst SafePolicy (ok_inj h) (
      tier_lt (is_some r.match_.source_id) (is_some r.match_.kind) s,
      ages-AgeWithin r.max_age r.vector_max_age raw vec o a b,
    )

policies-Safe :
    (rs : List RetentionEntry) (ps : List RetentionPolicy)
    → All ValidEntry rs
    → traverse build_policy rs ≡ ok ps
    → All SafePolicy ps
policies-Safe [] [] v h = tt
policies-Safe [] (p ∷ ps) v h = absurd cc
policies-Safe (r ∷ rs) ps (v, vs) h =
    let (p, a, h) = >>=-ok (build_policy r) _ h in
    let (qs, b, h) = >>=-ok (traverse build_policy rs) _ h in
    subst (All SafePolicy) (ok_inj h) (build_policy-Safe r p v a, policies-Safe rs qs vs b)

-- Where `check` accepts a configuration, each retention policy built from it names a source or a kind,
-- so that none is a catch-all, and lets vectors live no longer than their events where it limits both.
pub build_retention_policies-Safe :
    (cfg : Config) (ps : List RetentionPolicy)
    → check cfg ≡ ok tt
    → build_retention_policies cfg ≡ ok ps
    → All SafePolicy ps
unfolding build_retention_policies
build_retention_policies-Safe cfg ps c h =
    policies-Safe cfg.retention ps (((check-iff_IsValid cfg).0 c).retention) h
