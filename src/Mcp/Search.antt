-- ===== src/Mcp/Search.antt =====
-- crates/percept/src/mcp/tools.rs, `search_events`: the hits of the vector index with their events. The
-- embedder's answer is the parameter `embed`.
pub mod Asked
pub mod Hydrated
use percept.Prelude.{
  ℕ, String, List, [], ◌∷◌, Option, none, some, Bool, if◌then◌else◌, unwrap_or, min, max,
}
use percept.Prelude.Int.{ℤ, lez}
use percept.Prelude.Text.{is_empty}
use percept.Prelude.Result.{Result, ok, err, ◌>>=◌}
use percept.Core.Event.{Event}
use percept.Ingest.Auth.{Globs}
use percept.Ingest.Auth.RateLimit.{trim}
use percept.Store.Cold.Rows.{JsonCodec}
use percept.Store.Cold.Append.{ColdStore}
use percept.Store.Cold.Lookup.{get_by_id}
use percept.Store.Vector.TopK.{Scores, SearchHit}
use percept.Store.Vector.Index.{Floats, VectorIndex}
use percept.Store.Vector.Search.{VectorFilter, SearchError, search_kn}
use percept.Mcp.Window.{
  ToolError, no_vector_index, no_cold_store, empty_query, invalid_range, vector, cold,
}

pub record TimeRange : Type 0 where
  pub start_ms : ℤ
  pub end_ms : ℤ

pub record SearchEventsArgs : Type 0 where
  pub query : String
  pub time_range : Option TimeRange
  pub source_filter : Option (List String)
  pub kind_filter : Option (List String)
  pub limit : Option ℕ

abbrev pub default_search_limit : ℕ
default_search_limit = 10

abbrev pub max_search_limit : ℕ
max_search_limit = 50

-- `unwrap_or(DEFAULT_SEARCH_LIMIT).clamp(1, MAX_SEARCH_LIMIT)`.
abbrev pub top_k_of : Option ℕ → ℕ
top_k_of limit = min (max (unwrap_or limit default_search_limit) 1) max_search_limit

unfoldable pub check_range : Option TimeRange → Result ToolError (Option ℤ × Option ℤ)
check_range none = ok (none, none)
check_range (some t) =
    if lez t.end_ms t.start_ms
    then err (invalid_range t.start_ms t.end_ms)
    else ok (some t.start_ms, some t.end_ms)

abbrev pub filter_of : SearchEventsArgs → Option ℤ × Option ℤ → VectorFilter
filter_of args (start_ms, end_ms) = record {
  start_ms = start_ms;
  end_ms = end_ms;
  source_filter = args.source_filter;
  kind_filter = args.kind_filter;
}

module _ (scores : Scores) where
  open scores use {Score, less, less_irrefl, not_less_trans, less_asym}

  pub record SearchHitOut : Type 0 where
    pub event : Event
    pub score : Score
    pub truncated : Bool

  abbrev pub add_hit : SearchHit scores → Option Event → List SearchHitOut → List SearchHitOut
  add_hit hit none out = out
  add_hit hit (some event) out =
      record { event = event; score = hit.score; truncated = hit.truncated } ∷ out

  abbrev pub or_cold : Option (Option Event) → Result ToolError (Option Event)
  or_cold none = err cold
  or_cold (some found) = ok found

  -- The loop over the hits: one whose event is not there is skipped.
  unfoldable pub hydrate :
      JsonCodec → ColdStore → List (SearchHit scores) → Result ToolError (List SearchHitOut)
  hydrate json store [] = ok []
  hydrate json store (hit ∷ hits) = or_cold (get_by_id json store hit.event_id) >>= λ found.
      hydrate json store hits >>= λ out. ok (add_hit hit found out)

  abbrev pub or_vector :
      Result SearchError (List (SearchHit scores)) → Result ToolError (List (SearchHit scores))
  or_vector (ok hits) = ok hits
  or_vector (err _) = err vector

module _ (globs : Globs) (scores : Scores) (floats : Floats) (json : JsonCodec) where
  open scores use {Score, less, less_irrefl, not_less_trans, less_asym}
  open floats use {F32, to_le_bytes, from_le_bytes}

  abbrev pub search_store :
      (List F32 → List F32 → Score)
      → VectorIndex floats
      → (String → List F32)
      → ColdStore
      → SearchEventsArgs
      → Result ToolError (List (SearchHitOut scores))
  search_store similarity index embed store args =
      if is_empty (trim args.query)
      then err empty_query
      else check_range args.time_range >>= λ range.
          or_vector scores (
            search_kn globs scores floats similarity index (embed args.query) (top_k_of args.limit)
              (filter_of args range))
          >>= λ hits. hydrate scores json store hits

  unfoldable pub search_events :
      (List F32 → List F32 → Score)
      → Option (VectorIndex floats)
      → Option (String → List F32)
      → Option ColdStore
      → SearchEventsArgs
      → Result ToolError (List (SearchHitOut scores))
  unfolding trim
  search_events similarity none embedder cold_store args = err no_vector_index
  search_events similarity (some index) none cold_store args = err no_vector_index
  search_events similarity (some index) (some embed) none args = err no_cold_store
  search_events similarity (some index) (some embed) (some store) args =
      search_store similarity index embed store args
