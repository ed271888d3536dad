-- ===== src/Mcp/Registry.antt =====
-- crates/percept/src/mcp/registry.rs: the descriptors by row and by pair. The crate `globset` is the
-- parameter `globs`.
pub mod Picked
use percept.Prelude.{
  ℕ, suc, String, List, [], ◌∷◌, Option, none, some, Bool, true, filter, get_elem?,
}
use percept.Prelude.Eq.{pair_eq}
use percept.Prelude.Assoc
use percept.Core.Descriptor.{ResolvedDescriptor}
use percept.Ingest.Auth.{Globs}
use percept.Store.Cold.Rows.{◌>>=◌}

pub record DescriptorRegistry : Type 0 where
  pub rows : List ResolvedDescriptor
  pub by_pair : List ((String × String) × ℕ)

-- `enumerate` and `collect` into a map: the last index of a pair stays.
unfoldable pub index_rows :
    ℕ → List ((String × String) × ℕ) → List ResolvedDescriptor → List ((String × String) × ℕ)
index_rows i map [] = map
index_rows i map (r ∷ rows) = index_rows (suc i) (Assoc.insert (r.source_id, r.kind) i map) rows

unfoldable pub new : List ResolvedDescriptor → DescriptorRegistry
new rows = record { rows = rows; by_pair = index_rows 0 [] rows }

unfoldable pub lookup : DescriptorRegistry → String → String → Option ResolvedDescriptor
lookup r source_id kind = do idx ← Assoc.lookup (source_id, kind) r.by_pair; get_elem? r.rows idx

module _ (globs : Globs) where
  open globs use {GlobSet, build, is_match}

  abbrev pub built : Option GlobSet → Option (Option GlobSet)
  built none = none
  built (some g) = some (some g)

  -- `none` is a glob that is not valid; no list and an empty list compile to no set.
  unfoldable pub compile : Option (List String) → Option (Option GlobSet)
  compile none = some none
  compile (some []) = some none
  compile (some (p ∷ ps)) = built (build (p ∷ ps))

  abbrev pub matches_or_empty : Option GlobSet → String → Bool
  matches_or_empty none s = true
  matches_or_empty (some g) s = is_match g s

  unfoldable pub filter_rows :
      DescriptorRegistry
      → Option (List String)
      → Option (List String)
      → Option (List ResolvedDescriptor)
  filter_rows r source_filter kind_filter = do
    src ← compile source_filter
    kind ← compile kind_filter
    some (
        filter (λ d. matches_or_empty kind d.kind)
          (filter (λ d. matches_or_empty src d.source_id) r.rows))
