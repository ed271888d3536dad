-- ===== src/Config/Descriptors.antt =====
-- crates/percept/src/config/mod.rs: descriptors and retention policies from the entries.
pub mod Rows
pub mod Policies
use percept.Prelude.{
  ℕ, ◌*◌, String, List, [], ◌∷◌, ◌++◌, Option, none, some, if◌then◌else◌, unwrap_or, map,
}
use percept.Prelude.Int.{pos}
use percept.Prelude.Eq.{string_eq, ◌=?◌}
use percept.Prelude.Result.{Result, ok, ◌>>=◌, traverse}
use percept.Core.Descriptor.{SourceDescriptor, KindDescriptor, ResolvedDescriptor, resolve}
use percept.Ingest.Auth.RateLimit.{trim}
use percept.Store.Retention.Policy.{RetentionPolicy}
use percept.Config.Duration.{DurationError, split_number, of_parts}
use percept.Config.Entries.{SourceEntry, KindEntry, RetentionEntry}
use percept.Config.Schema.{Config}

unfoldable pub source_descriptor : SourceEntry → SourceDescriptor
source_descriptor s = record {
  source_id = s.id;
  kinds = s.kinds;
  description = unwrap_or s.description "";
  usage = unwrap_or s.usage "";
  caveats = unwrap_or s.caveats "";
  semantic_schema = s.semantic_schema;
  units = s.units;
  sampling_hint_ms = s.sampling_hint_ms;
  freshness_ttl_ms = s.freshness_ttl_ms;
  location = s.location;
  updated_ts_ms_utc = pos 0;
}

unfoldable pub kind_descriptor : KindEntry → KindDescriptor
kind_descriptor k = record {
  kind = k.name;
  version = unwrap_or k.version "v1";
  description = unwrap_or k.description "";
  usage = unwrap_or k.usage "";
  caveats = unwrap_or k.caveats "";
  semantic_schema = k.semantic_schema;
  units = k.units;
  updated_ts_ms_utc = pos 0;
}

unfoldable pub synthetic_kind : String → KindDescriptor
synthetic_kind name = record {
  kind = name;
  version = "v1";
  description = "";
  usage = "";
  caveats = "";
  semantic_schema = none;
  units = none;
  updated_ts_ms_utc = pos 0;
}

-- `kinds.iter().find(..).map_or_else(|| synthetic_kind(kind_name), kind_descriptor)`.
unfoldable pub find_kind : String → List KindEntry → KindDescriptor
find_kind kind_name [] = synthetic_kind kind_name
find_kind kind_name (k ∷ ks) =
    let rest = find_kind kind_name ks in if k.name =? kind_name then kind_descriptor k else rest

-- The two loops of `resolve_descriptors`.
abbrev pub resolve_kinds : List KindEntry → SourceDescriptor → List String → List ResolvedDescriptor
resolve_kinds kinds source [] = []
resolve_kinds kinds source (kind_name ∷ names) =
    resolve source (find_kind kind_name kinds) ∷ resolve_kinds kinds source names

abbrev pub resolve_sources : List KindEntry → List SourceEntry → List ResolvedDescriptor
resolve_sources kinds [] = []
resolve_sources kinds (s ∷ ss) =
    resolve_kinds kinds (source_descriptor s) s.kinds ++ resolve_sources kinds ss

unfoldable pub resolve_descriptors : Config → List ResolvedDescriptor
resolve_descriptors cfg = resolve_sources cfg.kinds cfg.sources

unfoldable pub build_source_descriptors : Config → List SourceDescriptor
build_source_descriptors cfg = map source_descriptor cfg.sources

unfoldable pub build_kind_descriptors : Config → List KindDescriptor
build_kind_descriptors cfg = map kind_descriptor cfg.kinds

-- The copy of `parse_duration`, in seconds too.
unfoldable pub parse_duration_str : String → Result DurationError ℕ
unfolding trim split_number
parse_duration_str s = of_parts (split_number (trim s))

-- The duration of a policy is in milliseconds.
abbrev pub optional_age : Option String → Result DurationError (Option ℕ)
optional_age none = ok none
optional_age (some s) = parse_duration_str s >>= λ secs. ok (some (secs * 1000))

unfoldable pub build_policy : RetentionEntry → Result DurationError RetentionPolicy
build_policy r = optional_age r.max_age >>= λ max_age.
    optional_age r.vector_max_age >>= λ vector_max_age. ok (record {
      match_source_id = r.match_.source_id;
      match_kind = r.match_.kind;
      max_age = max_age;
      max_count = r.max_count;
      max_bytes = r.max_bytes;
      vector_max_age = vector_max_age;
    })

unfoldable pub build_retention_policies : Config → Result DurationError (List RetentionPolicy)
build_retention_policies cfg = traverse build_policy cfg.retention
