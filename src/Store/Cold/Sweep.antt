-- ===== src/Store/Cold/Sweep.antt =====
-- crates/store/src/cold/store.rs: the counts and the three sweeps of the retention sweeper.
pub mod Kept
use Prim.Native.String
use percept.Prelude.{
  ℕ, String, List, [], ◌∷◌, Bool, true, false, if◌then◌else◌, filter, take, any, length, ◌==◌, ◌&&◌,
  ◌||◌, not, map,
}
use percept.Prelude.Int.{ℤ, pos, ltz, pos_part, ◌-ℤ◌, saturating_add}
use percept.Prelude.Eq.{string_eq, ◌=?◌}
use percept.Prelude.Sorting.{sort}
use percept.Core.Event.{Ulid}
use percept.Store.Cold.Rows.{Row}
use percept.Store.Cold.Append.{ColdStore}
use percept.Store.Cold.Window.{row_le}

abbrev pub in_pair : String → String → Row → Bool
in_pair source_id kind r = (r.source_id =? source_id) && (r.kind =? kind)

abbrev pub pair_rows : String → String → List Row → List Row
pair_rows source_id kind = filter (in_pair source_id kind)

unfoldable pub count_for_pair : ColdStore → String → String → ℕ
count_for_pair s source_id kind = length (pair_rows source_id kind s.events)

-- The `WHERE` condition of `sweep_max_age`.
abbrev pub too_old : String → String → ℤ → Row → Bool
too_old source_id kind cutoff_ms r = in_pair source_id kind r && ltz r.ts_ms_utc cutoff_ms

unfoldable pub sweep_max_age : String → String → ℤ → Bool → ColdStore → ColdStore × ℕ
sweep_max_age source_id kind cutoff_ms dry_run s =
    let old = too_old source_id kind cutoff_ms in
    let n = length (filter old s.events) in
    if dry_run then (s, n) else (record s { events = filter (λ r. not (old r)) s.events }, n)

abbrev pub is_victim : List Row → Row → Bool
is_victim victims r = any (λ v. v.event_id == r.event_id) victims

-- `DELETE FROM events WHERE event_id IN (...)`, with the number of rows affected.
abbrev pub delete_rows : List Row → ColdStore → ColdStore × ℕ
delete_rows victims s = (
  record s { events = filter (λ r. not (is_victim victims r)) s.events },
  length (filter (is_victim victims) s.events),
)

unfoldable pub sweep_max_count : String → String → ℤ → Bool → ColdStore → ColdStore × ℕ
sweep_max_count source_id kind keep_last dry_run s =
    let pair = pair_rows source_id kind s.events in
    let drop_count = pos_part (pos (length pair) -ℤ keep_last) in
    if dry_run || (drop_count == 0)
    then (s, drop_count)
    else delete_rows (take drop_count (sort row_le pair)) s

-- The loop of `sweep_max_bytes` over the rows of the pair, newest first. `LENGTH` of a text counts
-- characters.
unfoldable pub over_budget : ℤ → ℤ → List Row → List Row
over_budget max_bytes running [] = []
over_budget max_bytes running (r ∷ rows) =
    let running' = saturating_add running (pos (String.count r.semantic)) in
    let rest = over_budget max_bytes running' rows in
    if ltz max_bytes running' then r ∷ rest else rest

abbrev pub row_ge : Row → Row → Bool
row_ge a b = row_le b a

unfoldable pub sweep_max_bytes : String → String → ℤ → Bool → ColdStore → ColdStore × ℕ
sweep_max_bytes source_id kind max_bytes dry_run s =
    let to_drop = over_budget max_bytes (pos 0) (sort row_ge (pair_rows source_id kind s.events)) in
    if dry_run || (length to_drop == 0) then (s, length to_drop) else delete_rows to_drop s
