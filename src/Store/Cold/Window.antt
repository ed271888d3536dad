-- ===== src/Store/Cold/Window.antt =====
-- crates/store/src/cold/store.rs, `query_window`: the scan of a time range, with its cursor. SQLite's
-- `LIKE` without an `ESCAPE` clause is the parameter `like`, of a pattern and a text.
pub mod Paging
pub mod Escapes
use percept.Prelude.{
  ℕ, zero, suc, ◌≤◌, ◌<◌, String, Char, List, [], ◌∷◌, ◌++◌, Option, none, some, Bool, true, false,
  if◌then◌else◌, filter, take, any, ◌==◌, ltb, leb, ◌&&◌, ◌||◌, not, map, min, code,
}
use Prim.Native.String
use percept.Prelude.Int.{ℤ, ltz, lez}
use percept.Prelude.Sorting.{sort}
use percept.Core.Event.{Event, Ulid}
use percept.Store.Cold.Rows.{JsonCodec, Row, row_to_event, ◌>>=◌}

pub record WindowFilter : Type 0 where
  pub start_ms : ℤ
  pub end_ms : ℤ
  pub source_filter : Option (List String)
  pub kind_filter : Option (List String)
  pub limit : ℕ

pub record Anchor : Type 0 where
  pub ts_ms_utc : ℤ
  pub event_id : Ulid

abbrev pub max_window_limit : ℕ
max_window_limit = 10_000

-- `str::replace` of one character by a text.
unfoldable pub replace : ℕ → String → String → String
replace c by String.[] = String.[]
replace c by (String.◌∷◌ d s) =
    let rest = replace c by s in if code d == c then String.◌++◌ by rest else String.◌∷◌ d rest

unfoldable pub glob_to_like : String → String
unfolding replace
glob_to_like g = replace b'*' "%" (replace b'_' "\\_" (replace b'%' "\\%" g))

-- The order `ts_ms_utc ASC, event_id ASC`.
abbrev pub row_le : Row → Row → Bool
row_le a b =
    ltz a.ts_ms_utc b.ts_ms_utc || (lez a.ts_ms_utc b.ts_ms_utc && leb a.event_id b.event_id)

-- `ts_ms_utc > ? OR (ts_ms_utc = ? AND event_id > ?)`.
abbrev pub past_anchor : Option Anchor → Row → Bool
past_anchor none r = true
past_anchor (some a) r =
    ltz a.ts_ms_utc r.ts_ms_utc
    || (lez a.ts_ms_utc r.ts_ms_utc && lez r.ts_ms_utc a.ts_ms_utc && ltb a.event_id r.event_id)

module _ (like : String → String → Bool) where
  -- The condition of `glob_clause` with the patterns that are bound to it: an empty list adds none.
  abbrev pub glob_clause : Option (List String) → String → Bool
  glob_clause none text = true
  glob_clause (some []) text = true
  glob_clause (some (g ∷ gs)) text = any (λ p. like (glob_to_like p) text) (g ∷ gs)

  -- The `WHERE` condition but for the cursor.
  unfoldable pub in_window : WindowFilter → Row → Bool
  in_window f r =
      lez f.start_ms r.ts_ms_utc
      && ltz r.ts_ms_utc f.end_ms
      && glob_clause f.source_filter r.source_id
      && glob_clause f.kind_filter r.kind

  -- The rows that the statement returns.
  unfoldable pub select_window : WindowFilter → Option Anchor → List Row → List Row
  select_window f anchor rows =
      take (min f.limit max_window_limit)
        (sort row_le (filter (λ r. in_window f r && past_anchor anchor r) rows))

  unfoldable pub to_events : JsonCodec → List Row → Option (List Event)
  to_events codec [] = some []
  to_events codec (r ∷ rs) = do e ← row_to_event codec r; es ← to_events codec rs; some (e ∷ es)

  -- `query_window`: nothing is returned where one of the rows cannot be read.
  unfoldable pub query_window :
      JsonCodec → WindowFilter → Option Anchor → List Row → Option (List Event)
  query_window codec f anchor rows = to_events codec (select_window f anchor rows)
