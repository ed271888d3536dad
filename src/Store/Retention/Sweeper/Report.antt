-- ===== src/Store/Retention/Sweeper/Report.antt =====
-- The report of the sweeper, and the dry run.
use percept.Prelude.{
  ℕ, ◌+◌, String, List, [], ◌∷◌, ◌++◌, Option, none, some, Bool, true, ltb, ◌||◌, ◌≡◌, refl, ◌∙◌,
  arith, Bool-cases, inl, inr,
}
use percept.Prelude.Int.{ℤ}
use percept.Store.Cold.Append.{ColdStore}
use percept.Store.Cold.Sweep.{sweep_max_age, sweep_max_count, sweep_max_bytes}
use percept.Store.Vector.Index.{Floats, VectorIndex}
use percept.Store.Vector.Index
use percept.Store.Retention.Policy.{
  RetentionPolicy, EffectiveRetention, is_empty, resolve_effective,
}
use percept.Store.Retention.Sweeper.{
  Warning, PerPairReport, SweepReport, no_report, by_age, by_count, by_bytes, Stores,
  vectors_by_age, add_pair, sweep_with, sweep_pair, sweep_pairs, sweep,
}

by_age_dry :
    (s k : String) (d : Option ℤ) (now_ms : ℤ) (cold : ColdStore)
    → (by_age s k d now_ms true cold).0 ≡ cold
unfolding by_age sweep_max_age
by_age_dry s k none now_ms cold = refl
by_age_dry s k (some d) now_ms cold = refl

by_count_dry :
    (s k : String) (d : Option ℤ) (cold : ColdStore) → (by_count s k d true cold).0 ≡ cold
unfolding by_count sweep_max_count
by_count_dry s k none cold = refl
by_count_dry s k (some d) cold = refl

by_bytes_dry :
    (s k : String) (d : Option ℤ) (cold : ColdStore) → (by_bytes s k d true cold).0 ≡ cold
unfolding by_bytes sweep_max_bytes
by_bytes_dry s k none cold = refl
by_bytes_dry s k (some d) cold = refl

-- The sums over the pairs that are listed.
abbrev pub sum_events : List PerPairReport → ℕ
sum_events [] = 0
sum_events (p ∷ ps) = p.events_dropped + sum_events ps

abbrev pub sum_vectors : List PerPairReport → ℕ
sum_vectors [] = 0
sum_vectors (p ∷ ps) = p.vectors_dropped + sum_vectors ps

sum_events-append :
    (ps : List PerPairReport) (p : PerPairReport)
    → sum_events (ps ++ p ∷ []) ≡ sum_events ps + p.events_dropped
sum_events-append [] p = omega arith
sum_events-append (q ∷ ps) p = omega (arith, sum_events-append ps p)

sum_vectors-append :
    (ps : List PerPairReport) (p : PerPairReport)
    → sum_vectors (ps ++ p ∷ []) ≡ sum_vectors ps + p.vectors_dropped
sum_vectors-append [] p = omega arith
sum_vectors-append (q ∷ ps) p = omega (arith, sum_vectors-append ps p)

-- The totals are the sums over the pairs.
abbrev pub Balanced : SweepReport → Type 0
Balanced r =
    (r.events_dropped ≡ sum_events r.per_pair) × (r.vectors_dropped ≡ sum_vectors r.per_pair)

module _ (floats : Floats) where
  vectors_dry :
      (s k : String) (d : Option ℤ) (now_ms : ℤ) (v : Option (VectorIndex floats))
      → (vectors_by_age floats s k d now_ms true v).0 ≡ v
  unfolding vectors_by_age percept.Store.Vector.Index.sweep_max_age
  vectors_dry s k none now_ms none = refl
  vectors_dry s k (some d) now_ms none = refl
  vectors_dry s k none now_ms (some v) = refl
  vectors_dry s k (some d) now_ms (some v) = refl

  add_pair-Balanced :
      (r : SweepReport) (p : PerPairReport) (ws : List Warning)
      → Balanced r
      → Balanced (add_pair floats r p ws)
  add_pair-Balanced r p ws (h, k) =
      elim (Bool-cases (ltb 0 p.events_dropped || ltb 0 p.vectors_dropped)) [
        | inl listed ↦ rw listed (
          omega (arith, h, sum_events-append r.per_pair p),
          omega (arith, k, sum_vectors-append r.per_pair p),
        )
        | inr nothing ↦ rw nothing (ground arith, ground arith)
      ]

  sweep_with_dry :
      (eff : EffectiveRetention) (now_ms : ℤ) (pair : String × String)
      (now : Stores floats × SweepReport)
      → (sweep_with floats eff now_ms true pair now).0 ≡ now.0
  unfolding sweep_with
  sweep_with_dry eff now_ms (s, k) (stores, report) =
      rw (by_age_dry s k eff.max_age_ms now_ms stores.cold) (
        rw (by_count_dry s k eff.max_count stores.cold) (
          rw (by_bytes_dry s k eff.max_bytes stores.cold)
            (rw (vectors_dry s k eff.vector_max_age_ms now_ms stores.vector) refl)))

  sweep_pairs-Balanced :
      (policies : List RetentionPolicy) (now_ms : ℤ) (dry_run : Bool)
      (pairs : List (String × String)) (now : Stores floats × SweepReport)
      → Balanced now.1
      → Balanced (sweep_pairs floats policies now_ms dry_run pairs now).1
  unfolding sweep_pairs sweep_pair sweep_with
  sweep_pairs-Balanced policies now_ms dry_run [] now h = h
  sweep_pairs-Balanced policies now_ms dry_run (pair ∷ pairs) now h =
      sweep_pairs-Balanced policies now_ms dry_run pairs _
        (elim (Bool-cases (is_empty (resolve_effective policies pair.0 pair.1))) [
          | inl skip ↦ rw skip h
          | inr act ↦ rw act (add_pair-Balanced now.1 _ [] h)
        ])

  sweep_pairs_dry :
      (policies : List RetentionPolicy) (now_ms : ℤ) (pairs : List (String × String))
      (now : Stores floats × SweepReport)
      → (sweep_pairs floats policies now_ms true pairs now).0 ≡ now.0
  unfolding sweep_pairs sweep_pair
  sweep_pairs_dry policies now_ms [] now = refl
  sweep_pairs_dry policies now_ms (pair ∷ pairs) now =
      sweep_pairs_dry policies now_ms pairs _
      ∙ elim (Bool-cases (is_empty (resolve_effective policies pair.0 pair.1))) [
        | inl skip ↦ rw skip refl
        | inr act ↦
            rw act (sweep_with_dry (resolve_effective policies pair.0 pair.1) now_ms pair now)
      ]

  -- The totals of a report are the sums over the pairs that it lists, so no pair that lost anything is
  -- left out of it; and a dry run leaves the store and the index as they were.
  pub sweep-Balanced :
      (policies : List RetentionPolicy) (now_ms : ℤ) (dry_run : Bool)
      (pairs : List (String × String)) (stores : Stores floats)
      → Balanced (sweep floats policies now_ms dry_run pairs stores).1
        × ((sweep floats policies now_ms true pairs stores).0 ≡ stores)
  unfolding sweep
  sweep-Balanced policies now_ms dry_run pairs stores = (
    sweep_pairs-Balanced policies now_ms dry_run pairs (stores, no_report dry_run) (refl, refl),
    sweep_pairs_dry policies now_ms pairs (stores, no_report true),
  )
