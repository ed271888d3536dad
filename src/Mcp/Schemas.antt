-- ===== src/Mcp/Schemas.antt =====
-- crates/percept/src/mcp/tools.rs: the input schemas of the tools, and in router.rs their list. The keys
-- of an object are in order.
use percept.Prelude.{String, List, [], ◌∷◌, false}
use percept.Core.Json.{
  Value, string, bool, number, array, object, Items, nil, cons, Fields, end, field,
}
use percept.Mcp.Protocol.{Tool}

abbrev pub texts : List String → Items
texts [] = nil
texts (s ∷ ss) = cons (string s) (texts ss)

-- `{ "type": .. }`, and that with a description in front.
abbrev pub typed : String → Value
typed t = object (field "type" (string t) end)

abbrev pub described : String → String → Value
described t text = object (field "description" (string text) (field "type" (string t) end))

abbrev pub glob_list : Value
glob_list = object (field "items" (typed "string") (field "type" (string "array") end))

abbrev pub described_globs : String → Value
described_globs text = object (
    field "description" (string text)
      (field "items" (typed "string") (field "type" (string "array") end)))

abbrev pub no_extra : Fields → Value
no_extra rest = object (field "additionalProperties" (bool false) rest)

abbrev pub describe_sources_input_schema : Value
describe_sources_input_schema = no_extra (
    field "properties"
      (object (
        field "kind_filter" (described_globs "Shell-style globs against kind. Omit for all.") (
          field "source_filter"
            (described_globs "Shell-style globs against source_id. Omit for all.") end)))
      (field "type" (string "object") end))

abbrev pub get_current_state_input_schema : Value
get_current_state_input_schema = no_extra (
    field "properties"
      (object (field "kind_filter" glob_list (field "source_filter" glob_list end)))
      (field "type" (string "object") end))

abbrev pub get_window_input_schema : Value
get_window_input_schema = no_extra (
    field "properties"
      (object (
        field "cursor" (described "string" "Opaque cursor returned by a previous get_window call.")
          (field "end_ms" (described "integer" "UTC ms, exclusive.") (
            field "kind_filter" glob_list (
              field "limit"
                (object (
                  field "maximum" (number "10000")
                    (field "minimum" (number "1") (field "type" (string "integer") end))))
                (field "source_filter" glob_list
                  (field "start_ms" (described "integer" "UTC ms, inclusive.") end)))))))
      (field "required" (array (texts ("start_ms" ∷ "end_ms" ∷ [])))
        (field "type" (string "object") end)))

abbrev pub time_range_schema : Value
time_range_schema = no_extra (
    field "properties"
      (object (field "end_ms" (typed "integer") (field "start_ms" (typed "integer") end)))
      (field "required" (array (texts ("start_ms" ∷ "end_ms" ∷ [])))
        (field "type" (string "object") end)))

abbrev pub search_events_input_schema : Value
search_events_input_schema = no_extra (
    field "properties"
      (object (
        field "kind_filter" glob_list (
          field "limit"
            (object (
              field "description" (string "Top-k cap (default 10, hard max 50 per DESIGN §11.1).") (
                field "maximum" (number "50")
                  (field "minimum" (number "1") (field "type" (string "integer") end)))))
            (field "query"
              (described "string" "Free-text query to embed and ANN-search the vector index.")
              (field "source_filter" glob_list (field "time_range" time_range_schema end))))))
      (field "required" (array (texts ("query" ∷ []))) (field "type" (string "object") end)))

-- The result of `tools/list`.
abbrev pub tool_list : List Tool
tool_list =
    record {
      name = "describe_sources";
      description =
          "What sensors are available, what they mean, and which are currently misbehaving. Returns merged Source+Kind descriptors plus a recent_errors digest per source.";
      input_schema = describe_sources_input_schema;
    }
    ∷ record {
      name = "get_current_state";
      description =
          "Latest event per (source, kind) from the hot ring. Each entry carries age_ms and a stale flag derived from the descriptor's freshness_ttl_ms. Falls back to the cold store on a hot-ring miss; those rows are tagged from_cold = true.";
      input_schema = get_current_state_input_schema;
    }
    ∷ record {
      name = "get_window";
      description =
          "Time-range scan from the cold store. Paginated via an opaque cursor. Ordered by (ts_ms_utc, event_id) ascending. Per-call hard limit 10,000 events.";
      input_schema = get_window_input_schema;
    }
    ∷ record {
      name = "search_events";
      description =
          "Semantic search via the vector index, with optional time / source / kind filters. Returns the top-k hits with similarity scores and the matching events. Requires the embedder to be configured (see [storage].embed_default and per-kind / per-source `embed`).";
      input_schema = search_events_input_schema;
    }
    ∷ []
