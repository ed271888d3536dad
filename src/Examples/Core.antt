-- ===== src/Examples/Core.antt =====
-- Kind references, descriptors, retention policies and the selector at concrete inputs.
use percept.Prelude.{
  ℕ, String, List, [], ◌∷◌, Option, none, some, Bool, true, false, code, ◌≡◌, ◌≢◌, refl, arith,
}
use percept.Prelude.Int.{pos}
use percept.Prelude.Text.{Avoids, is_empty}
use percept.Core.KindRef.{KindRef, ok, from_str, display}
use percept.Core.KindRef.RoundTrip.{IsWellFormed, display-from_str}
use percept.Store.Retention.Policy.{RetentionPolicy, matches, resolve_effective}
use percept.Store.Retention.Policy.Resolution.{resolve_effective-by_tiers}
use percept.Store.Vector.Selector.{EmbedSelector}

abbrev temperature : KindRef
temperature = record { name = "temp"; version = some "v1" }

temperature_plain : Avoids b'@' "temp"
temperature_plain = (
  λ e. absurd (omega arith),
  (λ e. absurd (omega arith), (λ e. absurd (omega arith), (λ e. absurd (omega arith), tt))),
)

temperature-IsWellFormed : IsWellFormed temperature
temperature-IsWellFormed = record { named = refl; plain = temperature_plain; versioned = refl }

parse_temperature : from_str "temp@v1" ≡ ok temperature
unfolding from_str percept.Prelude.Text.split_once
parse_temperature = refl

display-from_str_example : (display temperature ≡ "temp@v1") × IsWellFormed temperature
display-from_str_example = display-from_str "temp@v1" temperature parse_temperature

abbrev for_kind : RetentionPolicy
for_kind = record {
  match_source_id = none;
  match_kind = some "temp";
  max_age = some 60;
  max_count = some (pos 9);
  max_bytes = none;
  vector_max_age = none;
}

abbrev for_source : RetentionPolicy
for_source = record {
  match_source_id = some "s";
  match_kind = none;
  max_age = none;
  max_count = some (pos 3);
  max_bytes = none;
  vector_max_age = none;
}

abbrev ResolvedAt : String → String → Type 0
ResolvedAt source_id kind =
    let eff = resolve_effective (for_kind ∷ for_source ∷ []) source_id kind in
    (eff.max_age_ms ≡ some (pos 60))
    × (eff.max_count ≡ some (pos 3))
    × (eff.max_bytes ≡ none)
    × (eff.vector_max_age_ms ≡ none)

resolve_effective-by_tiers_example : ResolvedAt "s" "temp"
unfolding matches percept.Store.Retention.Policy.bare_kind percept.Store.Retention.Policy.tier
    percept.Prelude.Text.split_once
resolve_effective-by_tiers_example =
    resolve_effective-by_tiers (for_kind ∷ for_source ∷ []) "s" "temp"

abbrev selector : EmbedSelector
selector = record { embed_default = false; by_kind = []; by_source = ("cam", false) ∷ [] }
