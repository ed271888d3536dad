-- ===== src/Mcp/Window.antt =====
-- crates/percept/src/mcp/tools.rs, `get_window`: one page of a time range, and the cursor to the next.
pub mod Pages
pub mod Complete
use percept.Prelude.{
  ℕ, ◌^◌, String, List, Option, none, some, Bool, if◌then◌else◌, length, last?, unwrap_or, min, ltb,
  leb, ◌&&◌,
}
use mathlib.Core.Option
use percept.Prelude.Int.{ℤ, lez}
use percept.Prelude.Result.{Result, ok, err, ◌>>=◌}
use percept.Core.Event.{Event}
use percept.Store.Cold.Rows.{JsonCodec}
use percept.Store.Cold.Append.{ColdStore}
use percept.Store.Cold.Window.{WindowFilter, Anchor, max_window_limit, query_window}
use percept.Store.Cold.Cursor.{
  Bytes, Cursor, CursorError, malformed, filter_mismatch, CursorCodec, encode, decode, filter_hash,
}

pub record GetWindowArgs : Type 0 where
  pub start_ms : ℤ
  pub end_ms : ℤ
  pub source_filter : Option (List String)
  pub kind_filter : Option (List String)
  pub limit : Option ℕ
  pub cursor : Option String

pub data ToolError : Type 0 where
  glob no_cold_store no_vector_index cold vector empty_query : ToolError
  cursor_filter_mismatch cursor_malformed : ToolError
  invalid_range : ℤ → ℤ → ToolError

-- The answer: the object with the fields `events` and `cursor`.
pub record Page : Type 0 where
  pub events : List Event
  pub cursor : Option String

abbrev pub page_limit : Option ℕ → ℕ
page_limit limit = min (unwrap_or limit max_window_limit) max_window_limit

abbrev pub window_filter : GetWindowArgs → WindowFilter
window_filter args = record {
  start_ms = args.start_ms;
  end_ms = args.end_ms;
  source_filter = args.source_filter;
  kind_filter = args.kind_filter;
  limit = page_limit args.limit;
}

module _ (codec : CursorCodec) where
  abbrev pub anchor_of_cursor : Result CursorError Cursor → Result ToolError (Option Anchor)
  anchor_of_cursor (ok cur) = ok (some cur.anchor)
  anchor_of_cursor (err filter_mismatch) = err cursor_filter_mismatch
  anchor_of_cursor (err malformed) = err cursor_malformed

  unfoldable pub read_anchor : Bytes → Option String → Result ToolError (Option Anchor)
  read_anchor hash none = ok none
  read_anchor hash (some c) = anchor_of_cursor (decode codec c hash)

  abbrev pub cursor_at : Bytes → Event → String
  cursor_at hash e = encode codec (record {
    anchor = record { ts_ms_utc = e.ts_ms_utc; event_id = e.event_id };
    filter_hash = hash;
  })

  -- A short page has no cursor.
  unfoldable pub next_cursor : Bytes → ℕ → List Event → Option String
  next_cursor hash limit events =
      if ltb (length events) (2 ^ 32) && leb limit (length events)
      then Option.map (cursor_at hash) (last? events)
      else none

  abbrev pub hash_of : GetWindowArgs → Bytes
  hash_of args =
      filter_hash codec args.start_ms args.end_ms args.source_filter args.kind_filter
        (page_limit args.limit)

  module _ (like : String → String → Bool) (json : JsonCodec) where
    abbrev pub page_of : GetWindowArgs → Option (List Event) → Result ToolError Page
    page_of args none = err cold
    page_of args (some events) = ok (record {
      events = events;
      cursor = next_cursor (hash_of args) (page_limit args.limit) events;
    })

    unfoldable pub get_window : Option ColdStore → GetWindowArgs → Result ToolError Page
    get_window none args = err no_cold_store
    get_window (some store) args =
        if lez args.end_ms args.start_ms
        then err (invalid_range args.start_ms args.end_ms)
        else read_anchor (hash_of args) args.cursor >>= λ anchor.
            page_of args (query_window like json (window_filter args) anchor store.events)
