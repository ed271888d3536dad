-- ===== src/Store/Retention/Sweeper.antt =====
-- crates/store/src/retention/sweeper.rs: one pass over the pairs of source and kind. An error of SQLite
-- ends the pass in the source; here SQLite reports none. The pairs of the store, `SELECT DISTINCT ...
-- ORDER BY`, are an argument, and a warning is its dimension with the pair and the count that it prints.
pub mod Report
use percept.Prelude.{
  ℕ, ◌+◌, String, List, [], ◌∷◌, ◌++◌, Option, none, some, Bool, if◌then◌else◌, ltb, ◌||◌,
}
use percept.Prelude.Int.{ℤ, saturating_sub}
use percept.Store.Cold.Append.{ColdStore}
use percept.Store.Cold.Sweep
use percept.Store.Cold.Sweep.{count_for_pair}
use percept.Store.Vector.Index.{Floats, VectorIndex}
use percept.Store.Vector.Index
use percept.Store.Retention.Policy.{
  RetentionPolicy, EffectiveRetention, is_empty, resolve_effective,
}

abbrev pub expensive_rewrite_threshold : ℕ
expensive_rewrite_threshold = 1_000

pub data Warning : Type 0 where
  max_count_expensive max_bytes_expensive : String → String → ℕ → Warning

pub record PerPairReport : Type 0 where
  pub source_id : String
  pub kind : String
  pub effective : EffectiveRetention
  pub events_dropped : ℕ
  pub vectors_dropped : ℕ

pub record SweepReport : Type 0 where
  pub per_pair : List PerPairReport
  pub events_dropped : ℕ
  pub vectors_dropped : ℕ
  pub warnings : List Warning
  pub dry_run : Bool

abbrev pub no_report : Bool → SweepReport
no_report dry_run = record {
  per_pair = [];
  events_dropped = 0;
  vectors_dropped = 0;
  warnings = [];
  dry_run = dry_run;
}

-- A warning where the pair has more events than the threshold.
abbrev pub warn : (ℕ → Warning) → ℕ → List Warning
warn warning before = if ltb expensive_rewrite_threshold before then warning before ∷ [] else []

-- The three dimensions of the raw events, each with the events that it drops and its warnings.
unfoldable pub by_age : String → String → Option ℤ → ℤ → Bool → ColdStore → ColdStore × ℕ
by_age source_id kind none now_ms dry_run cold = (cold, 0)
by_age source_id kind (some max_age_ms) now_ms dry_run cold =
    Sweep.sweep_max_age source_id kind (saturating_sub now_ms max_age_ms) dry_run cold

unfoldable pub by_count :
    String → String → Option ℤ → Bool → ColdStore → ColdStore × (ℕ × List Warning)
by_count source_id kind none dry_run cold = (cold, (0, []))
by_count source_id kind (some max_count) dry_run cold =
    let (cold', n) = Sweep.sweep_max_count source_id kind max_count dry_run cold in
    (cold', (n, warn (max_count_expensive source_id kind) (count_for_pair cold source_id kind)))

unfoldable pub by_bytes :
    String → String → Option ℤ → Bool → ColdStore → ColdStore × (ℕ × List Warning)
by_bytes source_id kind none dry_run cold = (cold, (0, []))
by_bytes source_id kind (some max_bytes) dry_run cold =
    let (cold', n) = Sweep.sweep_max_bytes source_id kind max_bytes dry_run cold in
    (cold', (n, warn (max_bytes_expensive source_id kind) (count_for_pair cold source_id kind)))

module _ (floats : Floats) where
  -- The store and the index, if there is one.
  pub record Stores : Type 0 where
    pub cold : ColdStore
    pub vector : Option (VectorIndex floats)

  unfoldable pub vectors_by_age :
      String
      → String
      → Option ℤ
      → ℤ
      → Bool
      → Option (VectorIndex floats)
      → Option (VectorIndex floats) × ℕ
  vectors_by_age source_id kind max_age now_ms dry_run none = (none, 0)
  vectors_by_age source_id kind none now_ms dry_run (some idx) = (some idx, 0)
  vectors_by_age source_id kind (some vmax) now_ms dry_run (some idx) =
      let (idx', n) =
        Index.sweep_max_age floats source_id kind (saturating_sub now_ms vmax) dry_run idx in
      (some idx', n)

  -- What a pair adds to the report.
  abbrev pub add_pair : SweepReport → PerPairReport → List Warning → SweepReport
  add_pair report p warnings = record report {
    events_dropped = report.events_dropped + p.events_dropped;
    vectors_dropped = report.vectors_dropped + p.vectors_dropped;
    warnings = report.warnings ++ warnings;
    per_pair =
        if ltb 0 p.events_dropped || ltb 0 p.vectors_dropped
        then report.per_pair ++ p ∷ []
        else report.per_pair;
  }

  -- The body of the loop for a pair whose retention is not empty.
  unfoldable pub sweep_with :
      EffectiveRetention → ℤ → Bool → String × String → Stores × SweepReport → Stores × SweepReport
  sweep_with eff now_ms dry_run (source_id, kind) (stores, report) =
      let (aged, n_age) = by_age source_id kind eff.max_age_ms now_ms dry_run stores.cold in
      let (counted, of_count) = by_count source_id kind eff.max_count dry_run aged in
      let (sized, of_bytes) = by_bytes source_id kind eff.max_bytes dry_run counted in
      let (vector, n_vectors) =
        vectors_by_age source_id kind eff.vector_max_age_ms now_ms dry_run stores.vector in
      (
        record { cold = sized; vector = vector },
        add_pair report
            (record {
              source_id = source_id;
              kind = kind;
              effective = eff;
              events_dropped = n_age + of_count.0 + of_bytes.0;
              vectors_dropped = n_vectors;
            })
            (of_count.1 ++ of_bytes.1),
      )

  unfoldable pub sweep_pair :
      List RetentionPolicy
      → ℤ
      → Bool
      → String × String
      → Stores × SweepReport
      → Stores × SweepReport
  sweep_pair policies now_ms dry_run pair now =
      let eff = resolve_effective policies pair.0 pair.1 in
      if is_empty eff then now else sweep_with eff now_ms dry_run pair now

  unfoldable pub sweep_pairs :
      List RetentionPolicy
      → ℤ
      → Bool
      → List (String × String)
      → Stores × SweepReport
      → Stores × SweepReport
  sweep_pairs policies now_ms dry_run [] now = now
  sweep_pairs policies now_ms dry_run (pair ∷ pairs) now =
      sweep_pairs policies now_ms dry_run pairs (sweep_pair policies now_ms dry_run pair now)

  -- `sweep`.
  unfoldable pub sweep :
      List RetentionPolicy → ℤ → Bool → List (String × String) → Stores → Stores × SweepReport
  sweep policies now_ms dry_run pairs stores =
      sweep_pairs policies now_ms dry_run pairs (stores, no_report dry_run)
