-- ===== src/Mcp/Sources.antt =====
-- crates/percept/src/mcp/tools.rs, `describe_sources` and `get_current_state`. The serialization of an
-- entry is the parameter `to_value` of each.
pub mod Reported
use percept.Prelude.{
  ℕ, ◌-◌, ◌%◌, ◌^◌, String, List, [], ◌∷◌, ◌++◌, Option, none, some, Bool, true, false,
  if◌then◌else◌, map,
}
use percept.Prelude.Int.{ℤ, pos, negsuc, ◌-ℤ◌, ltz, as_i64}
use percept.Prelude.Result.{Result, ok, err, ◌>>=◌}
use percept.Core.Json.{Value}
use percept.Core.Event.{Event}
use percept.Core.Descriptor.{ResolvedDescriptor}
use percept.Ingest.Auth.{Globs}
use percept.Ingest.Metrics.{Metrics, SourceErrors, recent_errors}
use percept.Store.HotRing.{HotRings, latest}
use percept.Store.Retention.Policy.{
  RetentionPolicy, EffectiveRetention, is_empty, resolve_effective,
}
use percept.Store.Cold.Rows.{JsonCodec, Row, row_to_event}
use percept.Store.Cold.Append.{ColdStore}
use percept.Store.Cold.Append
use percept.Mcp.Values.{set_field}
use percept.Mcp.Registry.{DescriptorRegistry, filter_rows}
use percept.Mcp.Window.{ToolError, glob, cold}
use percept.Mcp.Peer.{PeerHandle, PeerStatus, Reply, fan_out}

-- `DescribeSourcesArgs` and `GetCurrentStateArgs`.
pub record FilterArgs : Type 0 where
  pub source_filter : Option (List String)
  pub kind_filter : Option (List String)

pub record DescribeSourcesEntry : Type 0 where
  pub descriptor : ResolvedDescriptor
  pub recent_errors : Option SourceErrors
  pub effective_retention : Option EffectiveRetention

pub record CurrentStateEntry : Type 0 where
  pub event : Event
  pub age_ms : ℤ
  pub stale : Bool
  pub from_cold : Bool
  pub descriptor : ResolvedDescriptor

-- The object with the field `sources` or `states`, and `peer_status` where that is not empty.
pub record Answer : Type 0 where
  pub rows : List Value
  pub peer_status : List (String × PeerStatus)

abbrev pub to_answer : List Value × List (String × PeerStatus) → Answer
to_answer (rows, statuses) = record { rows = rows; peer_status = statuses }

abbrev pub local : Value → Value
local v = set_field "peer_id" Value.null v

abbrev pub or_glob : Option (List ResolvedDescriptor) → Result ToolError (List ResolvedDescriptor)
or_glob none = err glob
or_glob (some rows) = ok rows

unfoldable pub describe_entry :
    Metrics → List RetentionPolicy → ResolvedDescriptor → DescribeSourcesEntry
describe_entry metrics policies d =
    let eff = resolve_effective policies d.source_id d.kind in
    record {
      descriptor = d;
      recent_errors = recent_errors metrics d.source_id;
      effective_retention = if is_empty eff then none else some eff;
    }

unfoldable pub describe_sources :
    Globs
    → (DescribeSourcesEntry → Value)
    → (PeerHandle → Reply)
    → DescriptorRegistry
    → Metrics
    → List RetentionPolicy
    → List PeerHandle
    → FilterArgs
    → Result ToolError Answer
describe_sources globs to_value reply registry metrics policies peers args =
    or_glob (filter_rows globs registry args.source_filter args.kind_filter) >>= λ rows. ok (
      to_answer (
        fan_out "sources" reply peers
          (map (λ d. local (to_value (describe_entry metrics policies d))) rows) []))

-- `now - event.ts_ms_utc` on `i64`, which wraps around in a release build: the difference modulo 2 ^ 64, read
-- as an `i64`.
abbrev pub mod_u64 : ℤ → ℕ
mod_u64 (pos n) = n % 2 ^ 64
mod_u64 (negsuc n) = 2 ^ 64 - 1 - n % 2 ^ 64

abbrev pub wrapping_sub : ℤ → ℤ → ℤ
wrapping_sub a b = as_i64 (mod_u64 (a -ℤ b))

-- `d.freshness_ttl_ms.is_some_and(|ttl| age_ms > ttl)`.
abbrev pub is_stale : ℤ → Option ℤ → Bool
is_stale age_ms none = false
is_stale age_ms (some ttl) = ltz ttl age_ms

abbrev pub state_entry : ℤ → ResolvedDescriptor → Event → Bool → CurrentStateEntry
state_entry now d event from_cold =
    let age_ms = wrapping_sub now event.ts_ms_utc in
    record {
      event = event;
      age_ms = age_ms;
      stale = is_stale age_ms d.freshness_ttl_ms;
      from_cold = from_cold;
      descriptor = d;
    }

module _ (json : JsonCodec) where
  abbrev pub read_row : Option Row → Result ToolError (Option (Event × Bool))
  read_row none = ok none
  read_row (some r) = elim (row_to_event json r) [ none ↦ err cold | some e ↦ ok (some (e, true)) ]

  abbrev pub from_store :
      Option ColdStore → ResolvedDescriptor → Result ToolError (Option (Event × Bool))
  from_store none d = ok none
  from_store (some store) d = read_row (Append.latest store d.source_id d.kind)

  -- The event of a row and whether it is from the cold store; nothing where the loop continues.
  abbrev pub find_event :
      Option Event
      → Option ColdStore
      → ResolvedDescriptor
      → Result ToolError (Option (Event × Bool))
  find_event none cold_store d = from_store cold_store d
  find_event (some event) cold_store d = ok (some (event, false))

  abbrev pub add_entry :
      ℤ
      → ResolvedDescriptor
      → Option (Event × Bool)
      → List CurrentStateEntry
      → List CurrentStateEntry
  add_entry now d none entries = entries
  add_entry now d (some (event, from_cold)) entries = state_entry now d event from_cold ∷ entries

  -- The loop over the rows.
  unfoldable pub local_states :
      HotRings
      → Option ColdStore
      → ℤ
      → List ResolvedDescriptor
      → Result ToolError (List CurrentStateEntry)
  local_states hot cold_store now [] = ok []
  local_states hot cold_store now (d ∷ rows) =
      find_event (latest hot d.source_id d.kind) cold_store d >>= λ found.
      local_states hot cold_store now rows >>= λ entries. ok (add_entry now d found entries)

  unfoldable pub get_current_state :
      Globs
      → (CurrentStateEntry → Value)
      → (PeerHandle → Reply)
      → ℤ
      → DescriptorRegistry
      → HotRings
      → Option ColdStore
      → List PeerHandle
      → FilterArgs
      → Result ToolError Answer
  get_current_state globs to_value reply now registry hot cold_store peers args =
      or_glob (filter_rows globs registry args.source_filter args.kind_filter) >>= λ rows.
      local_states hot cold_store now rows >>= λ entries.
      ok (to_answer (fan_out "states" reply peers (map (λ e. local (to_value e)) entries) []))
