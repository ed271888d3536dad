-- ===== src/Mcp/Search/Asked.antt =====
-- On `search_events` of crates/percept/src/mcp/tools.rs: what its arguments ask for.
use mathlib.Core.Option
use percept.Prelude.{
  ℕ, zero, suc, ◌≤◌, ◌<◌, String, List, [], ◌∷◌, Option, none, some, min, ◌≡◌, ◌⊎◌, refl, arith,
  Bool-cases, Option-cases, inl, inr,
}
use percept.Prelude.Int.{ℤ, ◌≤ℤ◌, ◌<ℤ◌, lez}
use percept.Prelude.Result.{ok, err}
use percept.Ingest.Auth.{Globs}
use percept.Store.Vector.Search.{VectorFilter, decode, build_globs}
use percept.Mcp.Window.{invalid_range}
use percept.Mcp.Registry.Picked.{Compiled, BadGlob}
use percept.Mcp.Search.{TimeRange, SearchEventsArgs, top_k_of, check_range, filter_of}

-- The limit: 10 where none is given, and else the number given but within 1 and 50.
abbrev pub asked_limit : Option ℕ → ℕ
asked_limit none = 10
asked_limit (some zero) = 1
asked_limit (some (suc n)) = min (suc n) 50

pub top_k_of-eq-asked_limit : (limit : Option ℕ) → top_k_of limit ≡ asked_limit limit
top_k_of-eq-asked_limit none = refl
top_k_of-eq-asked_limit (some zero) = refl
top_k_of-eq-asked_limit (some (suc n)) = omega arith

pub asked_limit-bounds : (limit : Option ℕ) → (0 < asked_limit limit) × (asked_limit limit ≤ 50)
asked_limit-bounds none = (omega arith, omega arith)
asked_limit-bounds (some zero) = (omega arith, omega arith)
asked_limit-bounds (some (suc n)) = (omega arith, omega arith)

-- A range that is given is not empty, and a time is in it, its end left out.
abbrev pub NonEmpty : Option TimeRange → Type 0
NonEmpty none = Unit
NonEmpty (some t) = t.start_ms <ℤ t.end_ms

abbrev pub Within : Option TimeRange → ℤ → Type 0
Within none ts = Unit
Within (some t) ts = (t.start_ms ≤ℤ ts) × (ts <ℤ t.end_ms)

-- The filter that the arguments ask for.
abbrev pub asked_filter : SearchEventsArgs → VectorFilter
asked_filter args = record {
  start_ms = Option.map (λ t. t.start_ms) args.time_range;
  end_ms = Option.map (λ t. t.end_ms) args.time_range;
  source_filter = args.source_filter;
  kind_filter = args.kind_filter;
}

abbrev pub InRange : SearchEventsArgs → Option TimeRange → Type 0
InRange args tr =
    (r : Option ℤ × Option ℤ) × (check_range tr ≡ ok r)
    × (filter_of args r ≡ asked_filter (record args { time_range = tr }))
    × NonEmpty tr

abbrev pub BadRange : Option TimeRange → Type 0
BadRange tr =
    (t : TimeRange) × (tr ≡ some t)
    × (check_range tr ≡ err (invalid_range t.start_ms t.end_ms))
    × (t.end_ms ≤ℤ t.start_ms)

pub check_range-cases :
    (args : SearchEventsArgs) (tr : Option TimeRange) → InRange args tr ⊎ BadRange tr
unfolding check_range
check_range-cases args none = inl ((none, none), refl, refl, tt)
check_range-cases args (some t) = elim (Bool-cases (lez t.end_ms t.start_ms)) [
  | inl l ↦ inr (t, refl, rw l refl, ground arith)
  | inr l ↦ inl ((some t.start_ms, some t.end_ms), rw l refl, refl, ground arith)
]

module _ (globs : Globs) where
  open globs use {GlobSet, build, is_match}

  pub build_globs-cases :
      (f : Option (List String))
      → ((s : Option GlobSet) × (build_globs globs f ≡ ok s) × Compiled globs f s)
        ⊎ ((build_globs globs f ≡ err decode) × BadGlob globs f)
  unfolding build_globs
  build_globs-cases none = inl (none, refl, refl)
  build_globs-cases (some []) = inl (none, refl, refl)
  build_globs-cases (some (p ∷ ps)) = elim (Option-cases (build (p ∷ ps))) [
    | inl bad ↦ inr (rw bad refl, bad)
    | inr (g, e) ↦ inl (some g, rw e refl, (g, e, refl))
  ]
