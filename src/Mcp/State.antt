-- ===== src/Mcp/State.antt =====
-- crates/percept/src/mcp/router.rs, `McpState` and the four calls of `dispatch_call`: the tools on the
-- state of the server. What serde reads and writes, and the version of the package, are the record `Serde`.
use percept.Prelude.{ℕ, String, Bool, List, Option, none, some}
use percept.Prelude.Int.{ℤ}
use percept.Prelude.Result.{Result, ok, ◌>>=◌}
use percept.Core.Json.{Value}
use percept.Ingest.Auth.{Globs}
use percept.Ingest.Metrics.{Metrics}
use percept.Store.HotRing.{HotRings}
use percept.Store.Retention.Policy.{RetentionPolicy}
use percept.Store.Cold.Rows.{JsonCodec}
use percept.Store.Cold.Append.{ColdStore}
use percept.Store.Cold.Cursor.{CursorCodec}
use percept.Store.Vector.TopK.{Scores}
use percept.Store.Vector.Index.{Floats, VectorIndex}
use percept.Mcp.Registry.{DescriptorRegistry}
use percept.Mcp.Window.{ToolError, GetWindowArgs, Page, get_window}
use percept.Mcp.Peer.{PeerHandle, Reply}
use percept.Mcp.Sources.{
  FilterArgs, DescribeSourcesEntry, CurrentStateEntry, Answer, describe_sources, get_current_state,
}
use percept.Mcp.Search.{SearchEventsArgs, SearchHitOut, search_events}
use percept.Mcp.Protocol.{CallParams, Request}
use percept.Mcp.Router.{HttpResponse, Tools}
use percept.Mcp.Router

module _ (globs : Globs) (scores : Scores) (floats : Floats) (json : JsonCodec)
    (codec : CursorCodec) (like : String → String → Bool) where
  open scores use {Score, less, less_irrefl, not_less_trans, less_asym}
  open floats use {F32, to_le_bytes, from_le_bytes}

  pub record McpState : Type 0 where
    pub token : String
    pub registry : DescriptorRegistry
    pub hot_rings : HotRings
    pub cold_store : Option ColdStore
    pub vector_index : Option (VectorIndex floats)
    pub embedder : Option (String → List F32)
    pub retention_policies : List RetentionPolicy
    pub peers : List PeerHandle
    pub metrics : Metrics

  pub record Serde : Type 0 where
    pub version : String
    pub read_params : Value → Option CallParams
    pub read_filter : Value → Option FilterArgs
    pub read_window : Value → Option GetWindowArgs
    pub read_search : Value → Option SearchEventsArgs
    pub write_source : DescribeSourcesEntry → Value
    pub write_state : CurrentStateEntry → Value
    pub write_sources : Answer → Value
    pub write_states : Answer → Value
    pub write_page : Page → Value
    pub write_hits : List (SearchHitOut scores) → Value

  -- A tool between what serde reads and what it writes.
  abbrev pub call :
      {A : Type 0} {B : Type 0}
      → (B → Value)
      → (A → Result ToolError B)
      → Option A
      → Option (Result ToolError Value)
  call write tool none = none
  call write tool (some args) = some (tool args >>= λ b. ok (write b))

  -- `sources` and `states` are what becomes of the requests to the peers, `now` the clock.
  unfoldable pub tools_of :
      Serde
      → (List F32 → List F32 → Score)
      → (FilterArgs → PeerHandle → Reply)
      → (FilterArgs → PeerHandle → Reply)
      → ℤ
      → McpState
      → Tools
  tools_of serde similarity sources states now s = record {
    describe_sources = λ v.
        call serde.write_sources
          (λ args.
            describe_sources globs serde.write_source (sources args) s.registry s.metrics
              s.retention_policies s.peers args)
          (serde.read_filter v);
    get_current_state = λ v.
        call serde.write_states
          (λ args.
            get_current_state json globs serde.write_state (states args) now s.registry s.hot_rings
              s.cold_store s.peers args)
          (serde.read_filter v);
    get_window =
        λ v. call serde.write_page (get_window codec like json s.cold_store) (serde.read_window v);
    search_events = λ v.
        call serde.write_hits
          (search_events globs scores floats json similarity s.vector_index s.embedder s.cold_store)
          (serde.read_search v);
    read_params = serde.read_params;
    version = serde.version;
  }

  unfoldable pub handle :
      Serde
      → (List F32 → List F32 → Score)
      → (FilterArgs → PeerHandle → Reply)
      → (FilterArgs → PeerHandle → Reply)
      → ℤ
      → ℕ
      → McpState
      → Option String
      → Option Request
      → McpState × HttpResponse
  unfolding tools_of
  handle serde similarity sources states now elapsed_ms s header body =
      let tools = tools_of serde similarity sources states now s in
      let after = Router.handle s.token tools elapsed_ms s.metrics header body in
      (record s { metrics = after.0 }, after.1)
