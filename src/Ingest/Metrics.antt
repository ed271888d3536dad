-- ===== src/Ingest/Metrics.antt =====
-- crates/ingest/src/metrics.rs: the counters that the handlers bump. An `AtomicU64` wraps.
use percept.Prelude.{
  ℕ, ◌+◌, ◌%◌, ◌^◌, String, List, [], ◌∷◌, filter, ltb, Option, none, some, unwrap_or,
}
use percept.Prelude.Int.{ℤ, pos}
use percept.Prelude.Eq.{string_eq}
use percept.Prelude.Assoc.{lookup, insert}

abbrev pub Counters : Type 0
Counters = List (String × ℕ)

pub record SourceErrors : Type 0 where
  pub by_reason : Counters
  pub last_error_ts_ms_utc : ℤ

pub record McpMethodStats : Type 0 where
  pub calls : ℕ
  pub total_latency_ms : ℕ

pub record Metrics : Type 0 where
  pub accepted_total : ℕ
  pub oversized_soft_total : ℕ
  pub schema_invalid_total : ℕ
  pub shed_by_reason : Counters
  pub per_token_accepted : Counters
  pub per_token_shed : Counters
  pub per_source_errors : List (String × SourceErrors)
  pub mcp_calls : List (String × McpMethodStats)
  pub consumer_drops : Counters

abbrev pub new : Metrics
new = record {
  accepted_total = 0;
  oversized_soft_total = 0;
  schema_invalid_total = 0;
  shed_by_reason = [];
  per_token_accepted = [];
  per_token_shed = [];
  per_source_errors = [];
  mcp_calls = [];
  consumer_drops = [];
}

-- `fetch_add` on an `AtomicU64`.
abbrev pub fetch_add : ℕ → ℕ → ℕ
fetch_add n k = (n + k) % 2 ^ 64

-- `inc_in_map`: a missing counter starts at 0.
unfoldable pub inc_in_map : Counters → String → Counters
inc_in_map m name = insert name (fetch_add (unwrap_or (lookup name m) 0) 1) m

abbrev inc_named : Counters → Option String → Counters
inc_named m none = m
inc_named m (some name) = inc_in_map m name

unfoldable pub inc_accepted : Metrics → Option String → Metrics
inc_accepted m token_name = record m {
  accepted_total = fetch_add m.accepted_total 1;
  per_token_accepted = inc_named m.per_token_accepted token_name;
}

unfoldable pub inc_oversized_soft : Metrics → Metrics
inc_oversized_soft m = record m { oversized_soft_total = fetch_add m.oversized_soft_total 1 }

unfoldable pub inc_schema_invalid : Metrics → Metrics
inc_schema_invalid m = record m { schema_invalid_total = fetch_add m.schema_invalid_total 1 }

unfoldable pub inc_shed : Metrics → String → Option String → Metrics
inc_shed m reason token_name = record m {
  shed_by_reason = inc_in_map m.shed_by_reason reason;
  per_token_shed = inc_named m.per_token_shed token_name;
}

unfoldable pub inc_consumer_drop : Metrics → String → Metrics
inc_consumer_drop m consumer = record m { consumer_drops = inc_in_map m.consumer_drops consumer }

unfoldable pub consumer_drop_count : Metrics → String → ℕ
consumer_drop_count m consumer = unwrap_or (lookup consumer m.consumer_drops) 0

abbrev no_errors : SourceErrors
no_errors = record { by_reason = []; last_error_ts_ms_utc = pos 0 }

abbrev bump_reason : SourceErrors → String → ℤ → SourceErrors
bump_reason s reason now_ms = record {
  by_reason = inc_in_map s.by_reason reason;
  last_error_ts_ms_utc = now_ms;
}

-- The read path and the write path of the source do the same to the counter and the time.
unfoldable pub inc_source_error : Metrics → String → String → ℤ → Metrics
inc_source_error m source_id reason now_ms =
    let entry = unwrap_or (lookup source_id m.per_source_errors) no_errors in
    record m {
      per_source_errors = insert source_id (bump_reason entry reason now_ms) m.per_source_errors;
    }

abbrev no_calls : McpMethodStats
no_calls = record { calls = 0; total_latency_ms = 0 }

unfoldable pub inc_mcp_call : Metrics → String → ℕ → Metrics
inc_mcp_call m method latency_ms =
    let s = unwrap_or (lookup method m.mcp_calls) no_calls in
    let s' = record s {
      calls = fetch_add s.calls 1;
      total_latency_ms = fetch_add s.total_latency_ms latency_ms;
    } in
    record m { mcp_calls = insert method s' m.mcp_calls }

abbrev digest : Counters → ℤ → Option SourceErrors
digest [] last = none
digest (c ∷ cs) last = some (record { by_reason = c ∷ cs; last_error_ts_ms_utc = last })

abbrev digest_of : Option SourceErrors → Option SourceErrors
digest_of none = none
digest_of (some s) = digest (filter (λ c. ltb 0 c.1) s.by_reason) s.last_error_ts_ms_utc

-- `recent_errors`: the counters of a source that are not 0, with the time of its last error.
unfoldable pub recent_errors : Metrics → String → Option SourceErrors
recent_errors m source_id = digest_of (lookup source_id m.per_source_errors)

unfoldable pub mcp_call_count : Metrics → String → ℕ
mcp_call_count m method = (unwrap_or (lookup method m.mcp_calls) no_calls).calls
