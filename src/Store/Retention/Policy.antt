-- ===== src/Store/Retention/Policy.antt =====
-- crates/store/src/retention/policy.rs: retention policies and their resolution. A `Duration` is its
-- number of milliseconds.
pub mod Matching
pub mod Resolution
use percept.Prelude.{
  ℕ, String, List, [], ◌∷◌, Option, none, some, Bool, true, false, if◌then◌else◌, leb, is_some,
  filter, ◌&&◌, ◌||◌, not,
}
use mathlib.Core.Option
use percept.Prelude.Int.{ℤ, duration_to_ms}
use percept.Prelude.Eq.{string_eq, ◌=?◌}
use percept.Prelude.Sorting.{sort}
use percept.Prelude.Text.{split_once}

pub record RetentionPolicy : Type 0 where
  pub match_source_id : Option String
  pub match_kind : Option String
  pub max_age : Option ℕ
  pub max_count : Option ℤ
  pub max_bytes : Option ℤ
  pub vector_max_age : Option ℕ

-- `kind.split_once('@').map_or(kind, |(n, _)| n)`.
abbrev before_at : String → Option (String × String) → String
before_at kind none = kind
before_at kind (some (n, _)) = n

unfoldable pub bare_kind : String → String
bare_kind kind = before_at kind (split_once b'@' kind)

-- `Option::is_none_or`.
abbrev pub is_none_or {ℓ} : {A : Type ℓ} → Option A → (A → Bool) → Bool
is_none_or none p = true
is_none_or (some a) p = p a

unfoldable pub matches : RetentionPolicy → String → String → Bool
matches p source_id kind =
    let source_ok = is_none_or p.match_source_id (λ s. s =? source_id) in
    let kind_ok = is_none_or p.match_kind (λ k. (k =? bare_kind kind) || (k =? kind)) in
    source_ok && kind_ok

unfoldable pub tier : RetentionPolicy → ℕ
tier p = if is_some p.match_source_id then 0 else if is_some p.match_kind then 1 else 2

pub record EffectiveRetention : Type 0 where
  pub max_age_ms : Option ℤ
  pub max_count : Option ℤ
  pub max_bytes : Option ℤ
  pub vector_max_age_ms : Option ℤ

abbrev pub no_retention : EffectiveRetention
no_retention = record {
  max_age_ms = none;
  max_count = none;
  max_bytes = none;
  vector_max_age_ms = none;
}

abbrev pub is_empty : EffectiveRetention → Bool
is_empty e =
    not (is_some e.max_age_ms)
    && not (is_some e.max_count)
    && not (is_some e.max_bytes)
    && not (is_some e.vector_max_age_ms)

-- A dimension is written only while it is unset.
abbrev pub fill {ℓ} : {A : Type ℓ} → Option A → Option A → Option A
fill none new = new
fill (some a) new = some a

-- One round of the loop of `resolve_effective`.
unfoldable pub fill_from : EffectiveRetention → RetentionPolicy → EffectiveRetention
fill_from eff p = record {
  max_age_ms = fill eff.max_age_ms (Option.map duration_to_ms p.max_age);
  max_count = fill eff.max_count p.max_count;
  max_bytes = fill eff.max_bytes p.max_bytes;
  vector_max_age_ms = fill eff.vector_max_age_ms (Option.map duration_to_ms p.vector_max_age);
}

unfoldable pub fill_all : EffectiveRetention → List RetentionPolicy → EffectiveRetention
fill_all eff [] = eff
fill_all eff (p ∷ ps) = fill_all (fill_from eff p) ps

abbrev pub tier_le : RetentionPolicy → RetentionPolicy → Bool
tier_le p q = leb (tier p) (tier q)

unfoldable pub resolve_effective : List RetentionPolicy → String → String → EffectiveRetention
resolve_effective policies source_id kind =
    fill_all no_retention (sort tier_le (filter (λ p. matches p source_id kind) policies))
