-- ===== src/Mcp/Registry/Picked.antt =====
-- On `filter` of crates/percept/src/mcp/registry.rs: the rows that the globs allow.
use percept.Prelude.{
  String, List, [], ◌∷◌, Option, none, some, true, false, filter, ◌≡◌, ◌⊎◌, refl, Bool-cases,
  Option-cases, inl, inr,
}
use percept.Core.Descriptor.{ResolvedDescriptor}
use percept.Ingest.Auth.{Globs}
use percept.Mcp.Registry.{DescriptorRegistry, compile, matches_or_empty, filter_rows}

module _ (globs : Globs) where
  open globs use {GlobSet, build, is_match}

  -- What a list of globs is compiled to: no list and an empty one to nothing.
  abbrev pub Compiled : Option (List String) → Option GlobSet → Type 0
  Compiled none s = s ≡ none
  Compiled (some []) s = s ≡ none
  Compiled (some (p ∷ ps)) s = (g : GlobSet) × (build (p ∷ ps) ≡ some g) × (s ≡ some g)

  abbrev pub BadGlob : Option (List String) → Type 0
  BadGlob none = ⊥
  BadGlob (some []) = ⊥
  BadGlob (some (p ∷ ps)) = build (p ∷ ps) ≡ none

  abbrev pub Allowed : Option GlobSet → String → Type 0
  Allowed none s = Unit
  Allowed (some g) s = is_match g s ≡ true

  -- The rows whose source and kind are allowed, in order and no others.
  pub data Picked (s k : Option GlobSet)
      : List ResolvedDescriptor → List ResolvedDescriptor → Type 0 where
    done : Picked s k [] []
    taken :
        {d : ResolvedDescriptor} {ds es : List ResolvedDescriptor}
        → Allowed s d.source_id
        → Allowed k d.kind
        → Picked s k ds es
        → Picked s k (d ∷ ds) (d ∷ es)
    passed_over :
        {d : ResolvedDescriptor} {ds es : List ResolvedDescriptor}
        → (Allowed s d.source_id → Allowed k d.kind → ⊥)
        → Picked s k ds es
        → Picked s k (d ∷ ds) es

  matches_or_empty-cases :
      (s : Option GlobSet) (x : String)
      → ((matches_or_empty globs s x ≡ true) × Allowed s x)
        ⊎ ((matches_or_empty globs s x ≡ false) × (Allowed s x → ⊥))
  matches_or_empty-cases none x = inl (refl, tt)
  matches_or_empty-cases (some g) x = elim (Bool-cases (is_match g x)) [
    | inl h ↦ inl (h, h)
    | inr h ↦ inr (h, λ k. absurd cc)
  ]

  filter-Picked :
      (s k : Option GlobSet) (ds : List ResolvedDescriptor)
      → Picked s k ds (
          filter
            (λ d. matches_or_empty globs k d.kind)
            (filter (λ d. matches_or_empty globs s d.source_id) ds))
  filter-Picked s k [] = Picked.done
  filter-Picked s k (d ∷ ds) = elim (matches_or_empty-cases s d.source_id) [
    | inr (e, n) ↦ rw e (Picked.passed_over (λ a b. n a) (filter-Picked s k ds))
    | inl (e, a) ↦ elim (matches_or_empty-cases k d.kind) [
      | inr (f, n) ↦ rw e (rw f (Picked.passed_over (λ a b. n b) (filter-Picked s k ds)))
      | inl (f, b) ↦ rw e (rw f (Picked.taken a b (filter-Picked s k ds)))
    ]
  ]

  compile-cases :
      (f : Option (List String))
      → ((s : Option GlobSet) × (compile globs f ≡ some s) × Compiled f s)
        ⊎ ((compile globs f ≡ none) × BadGlob f)
  unfolding compile
  compile-cases none = inl (none, refl, refl)
  compile-cases (some []) = inl (none, refl, refl)
  compile-cases (some (p ∷ ps)) = elim (Option-cases (build (p ∷ ps))) [
    | inl bad ↦ inr (rw bad refl, bad)
    | inr (g, e) ↦ inl (some g, rw e refl, (g, e, refl))
  ]

  -- What the filters leave of the rows.
  pub record Chosen (rows : List ResolvedDescriptor)
      (source_filter kind_filter : Option (List String)) (chosen : List ResolvedDescriptor)
      : Type 0 where
    pub sources : Option GlobSet
    pub kinds : Option GlobSet
    pub compiled_sources : Compiled source_filter sources
    pub compiled_kinds : Compiled kind_filter kinds
    pub picked : Picked sources kinds rows chosen

  pub filter_rows-cases :
      (r : DescriptorRegistry) (source_filter kind_filter : Option (List String))
      → ((chosen : List ResolvedDescriptor) × (filter_rows globs r source_filter kind_filter
            ≡ some chosen)
          × Chosen r.rows source_filter kind_filter chosen)
        ⊎ ((filter_rows globs r source_filter kind_filter ≡ none)
            × (BadGlob source_filter ⊎ BadGlob kind_filter))
  unfolding filter_rows
  filter_rows-cases r source_filter kind_filter = elim (compile-cases source_filter) [
    | inr (e, bad) ↦ inr (rw e refl, inl bad)
    | inl (s, p, cs) ↦ elim (compile-cases kind_filter) [
      | inr (e, bad) ↦ inr (rw p (rw e refl), inr bad)
      | inl (k, q, ck) ↦ inl (
        _,
        rw p (rw q refl),
        record {
          sources = s;
          kinds = k;
          compiled_sources = cs;
          compiled_kinds = ck;
          picked = filter-Picked s k r.rows;
        },
      )
    ]
  ]
