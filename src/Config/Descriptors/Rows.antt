-- ===== src/Config/Descriptors/Rows.antt =====
-- On `resolve_descriptors` of crates/percept/src/config/mod.rs: sources, kinds and rows.
use mathlib.Core.List.{map-append}
use percept.Prelude.{String, List, [], ◌∷◌, ◌++◌, concat, map, ◌≡◌, refl, ap₂, Bool-cases, inl, inr}
use percept.Prelude.Eq.{string_eq, ◌=?◌}
use percept.Core.Descriptor.{ResolvedDescriptor, resolve}
use percept.Config.Entries.{SourceEntry, KindEntry}
use percept.Config.Schema.{Config}
use percept.Config.Descriptors.{
  source_descriptor, kind_descriptor, synthetic_kind, find_kind, resolve_kinds, resolve_sources,
  resolve_descriptors,
}

abbrev pub row_of : ResolvedDescriptor → String × String
row_of d = (d.source_id, d.kind)

abbrev pub pairs_of : SourceEntry → List (String × String)
pairs_of s = map (λ kind. (s.id, kind)) s.kinds

find_kind-kind : (name : String) (ks : List KindEntry) → (find_kind name ks).kind ≡ name
unfolding find_kind synthetic_kind kind_descriptor
find_kind-kind name [] = refl
find_kind-kind name (k ∷ ks) = elim (Bool-cases (k.name =? name)) [
  | inl h ↦ rw h ((string_eq.beq_iff k.name name).0 h)
  | inr h ↦ rw h (find_kind-kind name ks)
]

resolve_kinds-pairs :
    (ks : List KindEntry) (s : SourceEntry) (names : List String)
    → map row_of (resolve_kinds ks (source_descriptor s) names) ≡ map (λ kind. (s.id, kind)) names
unfolding resolve source_descriptor
resolve_kinds-pairs ks s [] = refl
resolve_kinds-pairs ks s (name ∷ names) =
    ap₂ {C = List (String × String)} (λ k rest. (s.id, k) ∷ rest) (find_kind-kind name ks)
      (resolve_kinds-pairs ks s names)

-- The rows stand for the pairs of a source's id and each kind that it lists, in the order of the
-- sources and of their lists, whether or not the configuration describes the kind.
pub resolve_descriptors-pairs :
    (cfg : Config) → map row_of (resolve_descriptors cfg) ≡ concat (map pairs_of cfg.sources)
unfolding resolve_descriptors
resolve_descriptors-pairs cfg = go cfg.sources
  where
    go :
        (ss : List SourceEntry)
        → map row_of (resolve_sources cfg.kinds ss) ≡ concat (map pairs_of ss)
    go [] = refl
    go (s ∷ ss) =
        rw
          (map-append row_of (resolve_kinds cfg.kinds (source_descriptor s) s.kinds)
            (resolve_sources cfg.kinds ss))
          (ap₂ {C = List (String × String)} (◌++◌) (resolve_kinds-pairs cfg.kinds s s.kinds)
            (go ss))
