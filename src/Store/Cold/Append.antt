-- ===== src/Store/Cold/Append.antt =====
-- crates/store/src/cold/store.rs, `append`: the batch transaction on `events` and `latest`.
pub mod Latest
pub mod Atomic
use percept.Prelude.{
  ℕ, String, List, [], ◌∷◌, ◌++◌, Option, none, some, Bool, true, false, if◌then◌else◌, any, ◌==◌,
  ◌≡◌, refl, ap, sym, ◌∙◌, arith, Bool-cases, Option-cases, inl, inr, map,
}
use percept.Prelude.Int.{ℤ, ltz}
use percept.Prelude.Eq.{pair_eq, ◌=?◌, =?_refl}
use percept.Prelude.Assoc.{lookup, insert, lookup-insert}
use percept.Core.Event.{Event}
use percept.Store.Cold.Rows.{JsonCodec, Row, to_row, ◌>>=◌}

pub data ColdError : Type 0 where
  sqlite io encode decode : ColdError

abbrev pub Key : Type 0
Key = String × String

-- The two tables. `latest` has one row for each source and kind, its primary key.
pub record ColdStore : Type 0 where
  pub events : List Row
  pub latest : List (Key × Row)

abbrev pub row_key : Row → Key
row_key r = (r.source_id, r.kind)

-- `INSERT OR IGNORE INTO events`: `event_id` is the primary key.
unfoldable pub insert_row : Row → List Row → List Row
insert_row r rows = if any (λ x. x.event_id == r.event_id) rows then rows else rows ++ r ∷ []

unfoldable pub insert_all : List Row → List Row → List Row
insert_all [] rows = rows
insert_all (r ∷ rs) rows = insert_all rs (insert_row r rows)

-- `if e.ts_ms_utc > cur.ts_ms_utc { *cur = e }`, and the same test of the upsert.
abbrev pub newer : Option Row → Row → Row
newer none r = r
newer (some cur) r = if ltz cur.ts_ms_utc r.ts_ms_utc then r else cur

-- `latest_in_batch`: the entry API on the map of a batch.
unfoldable pub collapse : List (Key × Row) → List Row → List (Key × Row)
collapse m [] = m
collapse m (r ∷ rs) = collapse (insert (row_key r) (newer (lookup (row_key r) m) r) m) rs

-- `INSERT INTO latest ... ON CONFLICT DO UPDATE ... WHERE excluded.ts_ms_utc > latest.ts_ms_utc`.
unfoldable pub upsert : Row → List (Key × Row) → List (Key × Row)
upsert r m = insert (row_key r) (newer (lookup (row_key r) m) r) m

-- One upsert for each value of the map.
unfoldable pub upsert_all : List (Key × Row) → List (Key × Row) → List (Key × Row)
upsert_all [] m = m
upsert_all ((_, r) ∷ entries) m = upsert_all entries (upsert r m)

unfoldable pub to_rows : JsonCodec → List Event → Option (List Row)
to_rows codec [] = some []
to_rows codec (e ∷ es) = do r ← to_row codec e; rs ← to_rows codec es; some (r ∷ rs)

abbrev commit : ColdStore → Option (List Row) → ColdStore × Option ColdError
commit s none = (s, some encode)
commit s (some rows) = (
  record { events = insert_all rows s.events; latest = upsert_all (collapse [] rows) s.latest },
  none,
)

-- `append`. `fault` is what SQLite reports of the transaction, nothing where it is committed; a
-- transaction that is not committed leaves the tables as they were.
unfoldable pub append :
    JsonCodec → Option ColdError → List Event → ColdStore → ColdStore × Option ColdError
append codec fault [] s = (s, none)
append codec (some e) (x ∷ xs) s = (s, some e)
append codec none (x ∷ xs) s = commit s (to_rows codec (x ∷ xs))

-- `latest`, before its row is read back.
unfoldable pub latest : ColdStore → String → String → Option Row
latest s source_id kind = lookup (source_id, kind) s.latest
