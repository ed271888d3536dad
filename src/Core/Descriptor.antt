-- ===== src/Core/Descriptor.antt =====
-- crates/core/src/descriptor.rs: source and kind descriptors, and the view that merges them.
use text.Mathlib.TextLemmas.{cons-ne-nil}
use percept.Prelude.{String, List, Option, none, some, if◌then◌else◌, or_else, ◌≡◌, ◌≢◌, refl}
use percept.Prelude.Int.{ℤ}
use percept.Prelude.Text.{is_empty}
use percept.Core.Json.{Value}

pub record SourceDescriptor : Type 0 where
  pub source_id : String
  pub kinds : List String
  pub description : String
  pub usage : String
  pub caveats : String
  pub semantic_schema : Option Value
  pub units : Option String
  pub sampling_hint_ms : Option ℤ
  pub freshness_ttl_ms : Option ℤ
  pub location : Option String
  pub updated_ts_ms_utc : ℤ

pub record KindDescriptor : Type 0 where
  pub kind : String
  pub version : String
  pub description : String
  pub usage : String
  pub caveats : String
  pub semantic_schema : Option Value
  pub units : Option String
  pub updated_ts_ms_utc : ℤ

pub record ResolvedDescriptor : Type 0 where
  pub source_id : String
  pub kind : String
  pub kind_version : String
  pub description : String
  pub usage : String
  pub caveats : String
  pub semantic_schema : Option Value
  pub units : Option String
  pub sampling_hint_ms : Option ℤ
  pub freshness_ttl_ms : Option ℤ
  pub location : Option String

abbrev pick : String → String → String
pick src fallback = if is_empty src then fallback else src

unfoldable pub resolve : SourceDescriptor → KindDescriptor → ResolvedDescriptor
resolve source kind = record {
  source_id = source.source_id;
  kind = kind.kind;
  kind_version = kind.version;
  description = pick source.description kind.description;
  usage = pick source.usage kind.usage;
  caveats = pick source.caveats kind.caveats;
  semantic_schema = or_else source.semantic_schema kind.semantic_schema;
  units = or_else source.units kind.units;
  sampling_hint_ms = source.sampling_hint_ms;
  freshness_ttl_ms = source.freshness_ttl_ms;
  location = source.location;
}

-- How a text and an optional field of the view come about: the source's where it says something, and
-- only else the kind's.
pub data FromText (src fallback : String) : String → Type 0 where
  own : {s : String} → src ≡ s → src ≢ "" → FromText src fallback s
  inherited : {s : String} → fallback ≡ s → src ≡ "" → FromText src fallback s

pub data FromOption {ℓ} {A : Type ℓ} (src fallback : Option A) : Option A → Type ℓ where
  own : {a : A} → src ≡ some a → FromOption src fallback (some a)
  inherited : {o : Option A} → fallback ≡ o → src ≡ none → FromOption src fallback o

pick-FromText : (src fallback : String) → FromText src fallback (pick src fallback)
pick-FromText String.[] fallback = FromText.inherited refl refl
pick-FromText (String.◌∷◌ c s) fallback = FromText.own refl (cons-ne-nil c s)

or_else-FromOption {ℓ} : {A : Type ℓ} (a b : Option A) → FromOption a b (or_else a b)
or_else-FromOption none b = FromOption.inherited refl refl
or_else-FromOption (some a) b = FromOption.own refl

-- The merge rule: each text is the source's unless that is empty, schema and units are the source's
-- outright where it has any, and identity, version and the source-only fields are never mixed.
pub record IsMerge (s : SourceDescriptor) (k : KindDescriptor) (r : ResolvedDescriptor)
    : Type 0 where
  pub description : FromText s.description k.description r.description
  pub usage : FromText s.usage k.usage r.usage
  pub caveats : FromText s.caveats k.caveats r.caveats
  pub schema : FromOption s.semantic_schema k.semantic_schema r.semantic_schema
  pub units : FromOption s.units k.units r.units
  pub identity : (r.source_id ≡ s.source_id) × (r.kind ≡ k.kind) × (r.kind_version ≡ k.version)
  pub source_only :
      (r.sampling_hint_ms ≡ s.sampling_hint_ms)
      × (r.freshness_ttl_ms ≡ s.freshness_ttl_ms)
      × (r.location ≡ s.location)

-- The view that `resolve` makes follows the merge rule.
pub resolve-IsMerge : (s : SourceDescriptor) (k : KindDescriptor) → IsMerge s k (resolve s k)
unfolding resolve
resolve-IsMerge s k = record {
  description = pick-FromText s.description k.description;
  usage = pick-FromText s.usage k.usage;
  caveats = pick-FromText s.caveats k.caveats;
  schema = or_else-FromOption s.semantic_schema k.semantic_schema;
  units = or_else-FromOption s.units k.units;
  identity = (refl, refl, refl);
  source_only = (refl, refl, refl);
}
