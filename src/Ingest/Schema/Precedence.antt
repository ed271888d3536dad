-- ===== src/Ingest/Schema/Precedence.antt =====
-- The version that a kind without one stands for.
use percept.Prelude.{
  String, List, [], ◌∷◌, Option, none, some, false, ◌≡◌, ◌⊎◌, refl, ap, subst, ◌∙◌, Bool-cases, inl,
  inr, All,
}
use percept.Prelude.Eq.{string_eq, ◌=?◌, =?_refl}
use percept.Prelude.Assoc.{lookup, lookup-insert}
use percept.Core.Descriptor.{SourceDescriptor, KindDescriptor}
use percept.Ingest.Schema.{
  Schemas, SchemaIndex, Built, SchemaError, built, failed, no_schemas, newer_version, with_kind,
  track_version, add_kind, compile_opt, build_sources, build_kinds, build, invalid_kind_schema,
}

built_inj : {A : Type 0} {a b : A} → built a ≡ built b → a ≡ b
built_inj h = cc

failed_not_built : {A : Type 0} {e : SchemaError} {a : A} → failed e ≡ built a → ⊥
failed_not_built h = cc

module _ (schemas : Schemas) where
  open schemas use {Schema, less, less_asym, not_less_trans}

  less_irrefl : (a : String) → less a a ≡ false
  less_irrefl a = elim (Bool-cases (less a a)) [ inl h ↦ less_asym a a h | inr h ↦ h ]

  -- The version tracked for a kind is at least that of the descriptor.
  abbrev pub Covers : SchemaIndex schemas → KindDescriptor → Type 0
  Covers idx k =
      (v : String) × (lookup k.kind idx.latest_version ≡ some v) × (less v k.version ≡ false)

  newer_version_lem :
      (cur : Option String) (v : String) → less (newer_version schemas cur v) v ≡ false
  newer_version_lem none v = less_irrefl v
  newer_version_lem (some p) v = elim (Bool-cases (less p v)) [
    | inl h ↦ rw h (less_irrefl v)
    | inr h ↦ rw h h
  ]

  newer_version-keeps :
      (p v w : String) → less p w ≡ false → less (newer_version schemas (some p) v) w ≡ false
  newer_version-keeps p v w h = elim (Bool-cases (less p v)) [
    | inl up ↦ rw up (not_less_trans w p v h (less_asym p v up))
    | inr same ↦ rw same h
  ]

  track_version-Covers :
      (k : KindDescriptor) (idx : SchemaIndex schemas) → Covers (track_version schemas k idx) k
  unfolding track_version
  track_version-Covers k idx = (
    newer_version schemas (lookup k.kind idx.latest_version) k.version,
    rw
        (lookup-insert k.kind k.kind
          (newer_version schemas (lookup k.kind idx.latest_version) k.version) idx.latest_version)
        (rw (=?_refl k.kind) refl),
    newer_version_lem (lookup k.kind idx.latest_version) k.version,
  )

  track_version-keeps :
      (k j : KindDescriptor) (idx : SchemaIndex schemas)
      → Covers idx j
      → Covers (track_version schemas k idx) j
  unfolding track_version
  track_version-keeps k j idx (v, found, up) = elim (Bool-cases (k.kind =? j.kind)) [
    | inl same ↦
        let e : k.kind ≡ j.kind = (string_eq.beq_iff k.kind j.kind).0 same in
        (
          newer_version schemas (some v) k.version,
          rw
              (lookup-insert k.kind j.kind
                (newer_version schemas (lookup k.kind idx.latest_version) k.version)
                idx.latest_version)
              (rw same (
                ap (λ x. some (newer_version schemas x k.version))
                  (ap (λ n. lookup n idx.latest_version) e ∙ found))),
          newer_version-keeps v k.version j.version up,
        )
    | inr other ↦ (
      v,
      rw
          (lookup-insert k.kind j.kind
            (newer_version schemas (lookup k.kind idx.latest_version) k.version) idx.latest_version)
          (rw other found),
      up,
    )
  ]

  with_kind-Covers :
      (k j : KindDescriptor) (idx : SchemaIndex schemas) (schema : Option Schema)
      → Covers idx j
      → Covers (with_kind schemas k idx schema) j
  with_kind-Covers k j idx none h = h
  with_kind-Covers k j idx (some s) h = h

  -- What `add_kind` gives, by what the compiler gave.
  add_kind-Covers :
      (k j : KindDescriptor) (idx out : SchemaIndex schemas) (schema : Built (Option Schema))
      → add_kind schemas k idx schema ≡ built out
      → Covers out k × (Covers idx j → Covers out j)
  add_kind-Covers k j idx out (failed e) h = cc
  add_kind-Covers k j idx out (built schema) h =
      let e : track_version schemas k (with_kind schemas k idx schema) ≡ out = built_inj h in
      (
        subst (λ x. Covers x k) e (track_version-Covers k (with_kind schemas k idx schema)),
        λ c.
            subst (λ x. Covers x j) e
              (track_version-keeps k j _ (with_kind-Covers k j idx schema c)),
      )

  Built-cases :
      {A : Type 0} (b : Built A) → ((a : A) × (b ≡ built a)) ⊎ ((e : SchemaError) × (b ≡ failed e))
  Built-cases (built a) = inl (a, refl)
  Built-cases (failed e) = inr (e, refl)

  abbrev added : KindDescriptor → SchemaIndex schemas → Built (SchemaIndex schemas)
  added k idx =
      add_kind schemas k idx
        (compile_opt schemas (invalid_kind_schema k.kind k.version) k.semantic_schema)

  build_kinds-keeps :
      (ks : List KindDescriptor) (j : KindDescriptor) (idx out : SchemaIndex schemas)
      → build_kinds schemas ks idx ≡ built out
      → Covers idx j
      → Covers out j
  unfolding build_kinds
  build_kinds-keeps [] j idx out h c = subst (λ x. Covers x j) (built_inj h) c
  build_kinds-keeps (k ∷ ks) j idx out h c = elim (Built-cases (added k idx)) [
    | inl (next, e) ↦
        build_kinds-keeps ks j next out (rw (e, build_kinds) at h)
          ((add_kind-Covers k j idx next _ e).1 c)
    | inr (e, f) ↦ absurd (failed_not_built (rw (f, build_kinds) at h))
  ]

  build_kinds-Covers :
      (ks : List KindDescriptor) (idx out : SchemaIndex schemas)
      → build_kinds schemas ks idx ≡ built out
      → All (Covers out) ks
  unfolding build_kinds
  build_kinds-Covers [] idx out h = tt
  build_kinds-Covers (k ∷ ks) idx out h = elim (Built-cases (added k idx)) [
    | inl (next, e) ↦
        let rest = rw (e, build_kinds) at h in
        (
          build_kinds-keeps ks k next out rest (add_kind-Covers k k idx next _ e).0,
          build_kinds-Covers ks next out rest,
        )
    | inr (e, f) ↦ absurd (failed_not_built (rw (f, build_kinds) at h))
  ]

  -- An index that is built has, for every kind that is described, a latest version that is no smaller,
  -- as a text, than any version described of that kind, whatever the order of the descriptors.
  pub build-Covers :
      (sources : List SourceDescriptor) (kinds : List KindDescriptor) (idx : SchemaIndex schemas)
      → build schemas sources kinds ≡ built idx
      → All (Covers idx) kinds
  unfolding build
  build-Covers sources kinds idx h =
      elim (Built-cases (build_sources schemas sources (no_schemas schemas))) [
        | inl (first, e) ↦ build_kinds-Covers kinds first idx (rw (e, build) at h)
        | inr (e, f) ↦ absurd (failed_not_built (rw (f, build) at h))
      ]
