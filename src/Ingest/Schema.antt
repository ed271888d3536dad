-- ===== src/Ingest/Schema.antt =====
-- crates/ingest/src/schema.rs: which JSON Schema applies to a payload. Compiling a schema and checking a
-- value against it are `jsonschema`'s, a parameter.
pub mod Precedence
use percept.Prelude.{
  String, List, [], ◌∷◌, Option, none, some, Bool, true, false, ◌≡◌, not, if◌then◌else◌, or_else,
}
use percept.Prelude.Eq.{string_eq, pair_eq}
use percept.Prelude.Assoc.{lookup, insert}
use percept.Core.Json.{Value}
use percept.Core.KindRef.{KindRef, Parsed, ok, err, from_str}
use percept.Core.Descriptor.{SourceDescriptor, KindDescriptor}

-- `JSONSchema`, and `<` of strings, the order of their bytes, which is total.
pub record Schemas : Type 1 where
  pub Schema : Type 0
  pub compile : Value → Option Schema
  pub is_valid : Schema → Value → Bool
  pub less : String → String → Bool
  pub less_asym : (a b : String) → less a b ≡ true → less b a ≡ false
  pub not_less_trans : (a b c : String) → less b a ≡ false → less c b ≡ false → less c a ≡ false

pub data SchemaError : Type 0 where
  invalid_source_schema : String → SchemaError
  invalid_kind_schema : String → String → SchemaError

pub data Built (A : Type 0) : Type 0 where
  built : A → Built A
  failed : SchemaError → Built A

module _ (schemas : Schemas) where
  open schemas use {Schema, compile, is_valid, less}

  pub record SchemaIndex : Type 0 where
    pub source : List (String × Schema)
    pub kind : List ((String × String) × Schema)
    pub latest_version : List (String × String)

  abbrev pub no_schemas : SchemaIndex
  no_schemas = record { source = []; kind = []; latest_version = [] }

  abbrev compiled : SchemaError → Option Schema → Built (Option Schema)
  compiled e none = failed e
  compiled e (some s) = built (some s)

  abbrev compile_opt : SchemaError → Option Value → Built (Option Schema)
  compile_opt e none = built none
  compile_opt e (some v) = compiled e (compile v)

  abbrev with_source : SourceDescriptor → SchemaIndex → Option Schema → SchemaIndex
  with_source s idx none = idx
  with_source s idx (some schema) = record idx { source = insert s.source_id schema idx.source }

  abbrev add_source : SourceDescriptor → SchemaIndex → Built (Option Schema) → Built SchemaIndex
  add_source s idx (failed e) = failed e
  add_source s idx (built schema) = built (with_source s idx schema)

  -- The first loop of `build`.
  unfoldable pub build_sources : List SourceDescriptor → SchemaIndex → Built SchemaIndex
  build_sources [] idx = built idx
  build_sources (s ∷ ss) idx =
      elim (add_source s idx (compile_opt (invalid_source_schema s.source_id) s.semantic_schema)) [
        | failed e ↦ failed e
        | built idx' ↦ build_sources ss idx'
      ]

  abbrev pub newer_version : Option String → String → String
  newer_version none v = v
  newer_version (some p) v = if less p v then v else p

  abbrev with_kind : KindDescriptor → SchemaIndex → Option Schema → SchemaIndex
  with_kind k idx none = idx
  with_kind k idx (some schema) = record idx { kind = insert (k.kind, k.version) schema idx.kind }

  -- The latest version is tracked whether or not the kind has a schema.
  unfoldable pub track_version : KindDescriptor → SchemaIndex → SchemaIndex
  track_version k idx = record idx {
    latest_version =
        insert k.kind (newer_version (lookup k.kind idx.latest_version) k.version)
          idx.latest_version;
  }

  abbrev add_kind : KindDescriptor → SchemaIndex → Built (Option Schema) → Built SchemaIndex
  add_kind k idx (failed e) = failed e
  add_kind k idx (built schema) = built (track_version k (with_kind k idx schema))

  -- The second loop of `build`.
  unfoldable pub build_kinds : List KindDescriptor → SchemaIndex → Built SchemaIndex
  build_kinds [] idx = built idx
  build_kinds (k ∷ ks) idx =
      elim (add_kind k idx (compile_opt (invalid_kind_schema k.kind k.version) k.semantic_schema)) [
        | failed e ↦ failed e
        | built idx' ↦ build_kinds ks idx'
      ]

  unfoldable pub build : List SourceDescriptor → List KindDescriptor → Built SchemaIndex
  build sources kinds = elim (build_sources sources no_schemas) [
    | failed e ↦ failed e
    | built idx ↦ build_kinds kinds idx
  ]

  abbrev versioned : SchemaIndex → String → Option String → Option Schema
  versioned idx name none = none
  versioned idx name (some version) = lookup (name, version) idx.kind

  abbrev of_kind : SchemaIndex → Parsed → Option Schema
  of_kind idx (err _) = none
  of_kind idx (ok k) = versioned idx k.name (or_else k.version (lookup k.name idx.latest_version))

  -- `lookup`.
  unfoldable pub schema_for : SchemaIndex → String → String → Option Schema
  schema_for idx source_id raw_kind =
      or_else (lookup source_id idx.source) (of_kind idx (from_str raw_kind))

  abbrev judged : Value → Option Schema → Option Bool
  judged semantic none = none
  judged semantic (some schema) = some (not (is_valid schema semantic))

  -- Whether the payload is invalid, if a schema applies.
  unfoldable pub validate : SchemaIndex → String → String → Value → Option Bool
  validate idx source_id raw_kind semantic = judged semantic (schema_for idx source_id raw_kind)
