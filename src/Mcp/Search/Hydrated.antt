-- ===== src/Mcp/Search/Hydrated.antt =====
-- On `search_events` of crates/percept/src/mcp/tools.rs: what its answer is made of, and its errors.
use mathlib.Core.Option
use percept.Prelude.{
  ℕ, ◌≤◌, ◌<◌, String, List, [], ◌∷◌, Option, none, some, Bool, true, false, length, map, filter,
  ◌≡◌, ◌↔◌, ◌⊎◌, ◌&&◌, refl, sym, ◌∙◌, subst, arith, Bool-cases, Option-cases, inl, inr,
}
use percept.Prelude.Int.{ℤ, ◌≤ℤ◌}
use percept.Prelude.Sorting.{IsSorted}
use percept.Prelude.Text.{is_empty}
use percept.Prelude.Result.{Result, ok, err, ◌>>=◌}
use percept.Core.Event.{Event}
use percept.Ingest.Auth.{Globs}
use percept.Ingest.Auth.RateLimit.{trim}
use percept.Store.Cold.Rows.{JsonCodec}
use percept.Store.Cold.Append.{ColdStore}
use percept.Store.Cold.Lookup.{get_by_id}
use percept.Store.Vector.TopK.{Scores, SearchHit}
use percept.Store.Vector.TopK.Best.{IsBest}
use percept.Store.Vector.Index.{Floats, InMemoryRow, VectorIndex}
use percept.Store.Vector.Search.{
  VectorFilter, SearchError, decode, build_globs, passes, from_start, before_end, glob_passes,
  hit_of, hit_le, search_kn,
}
use percept.Store.Vector.Search.Ranked.{search_kn-IsBest}
use percept.Mcp.Window.{ToolError, empty_query, invalid_range, vector, cold}
use percept.Mcp.Search.Asked.{
  asked_limit, top_k_of-eq-asked_limit, asked_limit-bounds, NonEmpty, Within, asked_filter,
  check_range-cases, build_globs-cases,
}
use percept.Mcp.Registry.Picked.{Compiled, BadGlob, Allowed}
use percept.Mcp.Search.{
  TimeRange, SearchEventsArgs, top_k_of, check_range, SearchHitOut, or_vector, hydrate,
  search_events,
}

module _ (scores : Scores) (json : JsonCodec) (store : ColdStore) where
  -- The hits with their events, in order; one whose event is no longer stored is left out.
  pub data Hydrated : List (SearchHit scores) → List (SearchHitOut scores) → Type 0 where
    done : Hydrated [] []
    gone :
        {h : SearchHit scores} {hits : List (SearchHit scores)} {out : List (SearchHitOut scores)}
        → get_by_id json store h.event_id ≡ some none
        → Hydrated hits out
        → Hydrated (h ∷ hits) out
    there :
        {h : SearchHit scores} {hits : List (SearchHit scores)} {out : List (SearchHitOut scores)}
        {e : Event}
        → get_by_id json store h.event_id ≡ some (some e)
        → Hydrated hits out
        → Hydrated (h ∷ hits) (record { event = e; score = h.score; truncated = h.truncated } ∷ out)

  length-Hydrated :
      {hits : List (SearchHit scores)} {out : List (SearchHitOut scores)}
      → Hydrated hits out
      → length out ≤ length hits
  length-Hydrated Hydrated.done = omega arith
  length-Hydrated (Hydrated.gone g r) = omega (arith, length-Hydrated r)
  length-Hydrated (Hydrated.there g r) = omega (arith, length-Hydrated r)

  -- One of the events cannot be read.
  abbrev pub Unreadable : List (SearchHit scores) → Type 0
  Unreadable [] = ⊥
  Unreadable (h ∷ hits) = (get_by_id json store h.event_id ≡ none) ⊎ Unreadable hits

  hydrate-cases :
      (hits : List (SearchHit scores))
      → ((out : List (SearchHitOut scores)) × (hydrate scores json store hits ≡ ok out)
          × Hydrated hits out)
        ⊎ ((hydrate scores json store hits ≡ err cold) × Unreadable hits)
  unfolding hydrate
  hydrate-cases [] = inl ([], refl, Hydrated.done)
  hydrate-cases (h ∷ hits) = elim (Option-cases (get_by_id json store h.event_id)) [
    | inl bad ↦ inr (rw bad refl, inl bad)
    | inr (f, e) ↦ elim (hydrate-cases hits) [
      | inl (out, p, q) ↦ inl (add f out e p q)
      | inr (p, q) ↦ inr (rw e (rw p refl), inr q)
    ]
  ]
    where
      add :
          (f : Option Event) (out : List (SearchHitOut scores))
          → get_by_id json store h.event_id ≡ some f
          → hydrate scores json store hits ≡ ok out
          → Hydrated hits out
          → (outs : List (SearchHitOut scores)) × (hydrate scores json store (h ∷ hits) ≡ ok outs)
            × Hydrated (h ∷ hits) outs
      add none out e p q = (out, rw e (rw p refl), Hydrated.gone e q)
      add (some v) out e p q = (_, rw e (rw p refl), Hydrated.there e q)

module _ (globs : Globs) (scores : Scores) (floats : Floats) (json : JsonCodec)
    (similarity : List floats.F32 → List floats.F32 → scores.Score) (index : VectorIndex floats)
    (embed : String → List floats.F32) (store : ColdStore) (args : SearchEventsArgs) where
  open globs use {GlobSet, build, is_match}

  -- A row that the arguments ask for, by its time, its source and its kind.
  abbrev pub Chosen : Option GlobSet → Option GlobSet → InMemoryRow floats → Type 0
  Chosen s k row =
      Within args.time_range row.ts_ms_utc
      × Allowed globs s row.source_id
      × Allowed globs k row.kind

  -- The answer: the best of the rows asked for, with their events.
  pub record Found (out : List (SearchHitOut scores)) : Type 0 where
    pub sources : Option GlobSet
    pub kinds : Option GlobSet
    pub hits : List (SearchHit scores)
    pub left_out : List (SearchHit scores)
    pub compiled_sources : Compiled globs args.source_filter sources
    pub compiled_kinds : Compiled globs args.kind_filter kinds
    pub chosen :
        (row : InMemoryRow floats)
        → (passes globs scores floats (asked_filter args) sources kinds row ≡ true)
          ↔ Chosen sources kinds row
    pub best :
        IsBest scores
          (asked_limit args.limit)
          (map
            (hit_of globs scores floats similarity (embed args.query))
            (filter (passes globs scores floats (asked_filter args) sources kinds) index.rows))
          hits
          left_out
    pub descending : IsSorted (hit_le scores) hits
    pub hydrated : Hydrated scores json store hits out
    pub bounded : length out ≤ 50

  pub data SearchOutcome : Result ToolError (List (SearchHitOut scores)) → Type 0 where
    blank_query : is_empty (trim args.query) ≡ true → SearchOutcome (err empty_query)
    empty_range :
        {t : TimeRange}
        → is_empty (trim args.query) ≡ false
        → args.time_range ≡ some t
        → t.end_ms ≤ℤ t.start_ms
        → SearchOutcome (err (invalid_range t.start_ms t.end_ms))
    bad_glob :
        is_empty (trim args.query) ≡ false
        → NonEmpty args.time_range
        → BadGlob globs args.source_filter ⊎ BadGlob globs args.kind_filter
        → SearchOutcome (err vector)
    unreadable :
        {hits : List (SearchHit scores)}
        → is_empty (trim args.query) ≡ false
        → NonEmpty args.time_range
        → Unreadable scores json store hits
        → search_kn globs scores floats similarity index
            (embed args.query)
            (asked_limit args.limit)
            (asked_filter args)
          ≡ ok hits
        → SearchOutcome (err cold)
    answered :
        {out : List (SearchHitOut scores)}
        → is_empty (trim args.query) ≡ false
        → NonEmpty args.time_range
        → Found out
        → SearchOutcome (ok out)

  time-iff_Within :
      (tr : Option TimeRange) (ts : ℤ)
      → ((from_start (Option.map (λ t. t.start_ms) tr) ts
            && before_end (Option.map (λ t. t.end_ms) tr) ts)
          ≡ true)
        ↔ Within tr ts
  time-iff_Within none ts = (λ _. tt, λ _. refl)
  time-iff_Within (some t) ts = (λ h. (ground arith, ground arith), λ (a, b). ground arith)

  glob-iff_Allowed :
      (s : Option GlobSet) (x : String) → (glob_passes globs s x ≡ true) ↔ Allowed globs s x
  glob-iff_Allowed none x = (λ _. tt, λ _. refl)
  glob-iff_Allowed (some g) x = (λ h. h, λ h. h)

  and_all :
      (a b c d : Bool) → ((a && b && c && d) ≡ true) ↔ (((a && b) ≡ true) × (c ≡ true) × (d ≡ true))
  and_all a b c d = (λ h. (ground arith, ground arith, ground arith), λ h. ground arith)

  passes-iff_Chosen :
      (s k : Option GlobSet) (row : InMemoryRow floats)
      → (passes globs scores floats (asked_filter args) s k row ≡ true) ↔ Chosen s k row
  unfolding passes
  passes-iff_Chosen s k row =
      let time = time-iff_Within args.time_range row.ts_ms_utc in
      let source = glob-iff_Allowed s row.source_id in
      let kind = glob-iff_Allowed k row.kind in
      let split =
        and_all (from_start (asked_filter args).start_ms row.ts_ms_utc)
          (before_end (asked_filter args).end_ms row.ts_ms_utc) (glob_passes globs s row.source_id)
          (glob_passes globs k row.kind) in
      (
        λ h. let (t, a, b) = split.0 h in (time.0 t, source.0 a, kind.0 b),
        λ (t, a, b). split.1 (time.1 t, source.1 a, kind.1 b),
      )

  -- The search and its events, behind the checks of the query and the range.
  abbrev behind : VectorFilter → Result ToolError (List (SearchHitOut scores))
  behind f =
      or_vector scores
        (search_kn globs scores floats similarity index (embed args.query) (top_k_of args.limit) f)
      >>= λ hits. hydrate scores json store hits

  search_kn-bad_glob :
      (top_k : ℕ) (f : VectorFilter) (s : Result SearchError (Option GlobSet))
      → build_globs globs f.source_filter ≡ s
      → (s ≡ err decode) ⊎ (build_globs globs f.kind_filter ≡ err decode)
      → ((s' : Option GlobSet) × (s ≡ ok s')) ⊎ (s ≡ err decode)
      → search_kn globs scores floats similarity index (embed args.query) top_k f ≡ err decode
  unfolding search_kn
  search_kn-bad_glob top_k f s e (inl bad) c = rw (e ∙ bad) refl
  search_kn-bad_glob top_k f s e (inr bad) (inl (s', p)) = rw (e ∙ p) (rw bad refl)
  search_kn-bad_glob top_k f s e (inr bad) (inr p) = rw (e ∙ p) refl

  behind-SearchOutcome :
      is_empty (trim args.query) ≡ false
      → NonEmpty args.time_range
      → SearchOutcome (behind (asked_filter args))
  behind-SearchOutcome asked range = elim (build_globs-cases globs args.source_filter) [
    | inr (e, bad) ↦
        rw
          (search_kn-bad_glob (top_k_of args.limit) (asked_filter args) (err decode) e (inl refl)
            (inr refl))
          (SearchOutcome.bad_glob asked range (inl bad))
    | inl (s, p, cs) ↦ elim (build_globs-cases globs args.kind_filter) [
      | inr (e, bad) ↦
          rw
            (search_kn-bad_glob (top_k_of args.limit) (asked_filter args) (ok s) p (inr e)
              (inl (s, refl)))
            (SearchOutcome.bad_glob asked range (inr bad))
      | inl (k, q, ck) ↦
          let (hits, left_out, e, sorted, best) =
            search_kn-IsBest globs scores floats similarity index (embed args.query)
              (top_k_of args.limit) (asked_filter args) s k p q
              (subst (λ n. 0 < n) (sym (top_k_of-eq-asked_limit args.limit))
                (asked_limit-bounds args.limit).0) in
          elim (hydrate-cases scores json store hits) [
            | inl (out, h, hydrated) ↦ rw e (
                rw h (
                  SearchOutcome.answered asked range (record {
                    sources = s;
                    kinds = k;
                    hits = hits;
                    left_out = left_out;
                    compiled_sources = cs;
                    compiled_kinds = ck;
                    chosen = passes-iff_Chosen s k;
                    best =
                        subst
                          (λ n.
                            IsBest scores n
                              (map (hit_of globs scores floats similarity (embed args.query)) (
                                filter (passes globs scores floats (asked_filter args) s k)
                                  index.rows))
                              hits left_out)
                          (top_k_of-eq-asked_limit args.limit) best;
                    descending = sorted;
                    hydrated = hydrated;
                    bounded = omega (
                      arith,
                      length-Hydrated scores json store hydrated,
                      best.bounded,
                      top_k_of-eq-asked_limit args.limit,
                      (asked_limit-bounds args.limit).1,
                    );
                  })))
            | inr (h, bad) ↦ rw e (
                rw h (
                  SearchOutcome.unreadable asked range bad (
                    subst
                      (λ n.
                        search_kn globs scores floats similarity index (embed args.query) n
                          (asked_filter args)
                        ≡ ok hits)
                      (top_k_of-eq-asked_limit args.limit) e)))
          ]
    ]
  ]

  -- What `search_events` answers with an index, an embedder and a store. A query that is blank is an error,
  -- and so is a range whose end is not behind its start, a glob that is not valid, and a hit whose stored
  -- row cannot be read. Else there is an answer, of at most 50 entries: they are the best hits, as many as
  -- the limit (10 if none is given) asks for within 1 and 50, of just the rows in the range whose source
  -- and kind the globs allow, in descending order of their scores, each with the event that the store has
  -- for its id, and without those whose event is gone. The scores must be totally ordered, as they are
  -- where none is a NaN.
  pub search_events-SearchOutcome : SearchOutcome (
      search_events globs scores floats json similarity (some index) (some embed) (some store) args)
  unfolding search_events check_range
  search_events-SearchOutcome = elim (Bool-cases (is_empty (trim args.query))) [
    | inl blank ↦ rw blank (SearchOutcome.blank_query blank)
    | inr asked ↦ rw asked (elim (check_range-cases args args.time_range) [
      | inl (r, e, same, range) ↦
          rw e (subst (λ f. SearchOutcome (behind f)) (sym same) (behind-SearchOutcome asked range))
      | inr (t, given, e, l) ↦ rw e (SearchOutcome.empty_range asked given l)
    ])
  ]
