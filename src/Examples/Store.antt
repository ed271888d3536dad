-- ===== src/Examples/Store.antt =====
-- The hot rings, the cold store, the vector index and the sweeper at concrete inputs.
use Prim.Native.String
use mathlib.Core.List.{Perm}
use percept.Prelude.{
  ℕ, ◌+◌, ◌≤◌, ◌<◌, String, List, [], ◌∷◌, ◌++◌, Option, none, some, Bool, true, false, length,
  take, drop, last?, SuffixOf, ltb, ◌≡◌, ◌≢◌, refl, arith, All, filter, map, not, ◌&&◌, ◌-◌, ◌↔◌,
}
use percept.Prelude.Int.{ℤ, pos, negsuc, ◌≤ℤ◌}
use percept.Core.Event.{Event}
use percept.Store.HotRing.{push_ring, push, latest, snapshot, new}
use percept.Store.HotRing.Eviction.{IsEviction, push_ring-IsEviction}
use percept.Store.HotRing.Pushes.{run, snapshot-run, latest-push}
use percept.Prelude.Eq.{string_eq, ◌=?◌}
use percept.Prelude.Sorting.{sort, IsSorted}
use percept.Store.Cold.Rows.{JsonCodec, to_row, row_to_event, row_to_event-to_row, ◌>>=◌}
use percept.Store.Cold.Sweep.{pair_rows, count_for_pair, sweep_max_count}
use percept.Store.Cold.Sweep.Kept.{sweep_max_count-newest}
use percept.Store.Cold.Window.Escapes.{contains, in_window-underscore}
use percept.Store.Vector.TopK.{SearchHit}
use percept.Prelude.Result.{ok}
use percept.Store.Vector.Search.{VectorFilter, build_globs, passes, hit_of, hit_le, search_kn}
use percept.Store.Vector.Search.Ranked.{search_kn-IsBest}
use percept.Store.Vector.TopK.Best.{IsBest}
use percept.Store.Cold.Day.{day_of, civil_date}
use percept.Store.Cold.Day.Calendar.{IsDate, civil_date-IsDate}
use percept.Store.Vector.Truncate.{IsTruncation, truncate_utf8, truncate_utf8-IsTruncation}
use percept.Store.Vector.Index.{InMemoryRow, VectorIndex, VectorRecord, read_rows}
use percept.Store.Vector.Index.Mirror.{
  Operation, append_op, sweep_op, apply_all, Distinct, read_rows-apply_all,
}
use percept.Store.Retention.Policy.{RetentionPolicy}
use percept.Store.Retention.Sweeper.{Stores, sweep}
use percept.Store.Retention.Sweeper.Report.{Balanced, sweep-Balanced}
use percept.Store.Cold.Append.{append, to_rows}
use percept.Store.Cold.Append
use percept.Store.Cold.Append.Latest.{offer_all, latest-append}
use percept.Store.Cold.Append.Atomic.{Unique, Extends, append-Extends}
use percept.Store.Cold.Window.{WindowFilter, select_window, in_window, row_le}
use percept.Store.Cold.Window.Paging.{anchor_of, select_window-first, select_window-next}
use percept.Examples.Data.{
  event, fridge, cam, small, null_codec, row, two_rows, numbers, bytes, literals,
}

push_ring-IsEviction_example :
    let (kept, evicted) = push_ring small (pos 30) (fridge 1 10 ∷ fridge 2 20 ∷ []) (fridge 3 30) in
    IsEviction small (pos 30) (fridge 1 10 ∷ fridge 2 20 ∷ fridge 3 30 ∷ []) kept evicted
push_ring-IsEviction_example =
    push_ring-IsEviction small (pos 30) (fridge 1 10 ∷ fridge 2 20 ∷ []) (fridge 3 30)

abbrev history : List (ℤ × Event)
history =
    (pos 10, fridge 1 10) ∷ (pos 20, cam 2 20) ∷ (pos 20, fridge 3 20) ∷ (pos 30, fridge 4 30) ∷ []

snapshot-run_example :
    let kept = snapshot (run (new small) history) "temp.fridge" "temperature@v1" in
    SuffixOf kept (fridge 1 10 ∷ fridge 3 20 ∷ fridge 4 30 ∷ []) × (length kept ≤ 2)
snapshot-run_example = snapshot-run small history "temp.fridge" "temperature@v1"

latest-push_example :
    latest (push (new small) (pos 30) (fridge 1 10)).0 "temp.fridge" "temperature@v1"
    ≡ some (fridge 1 10)
unfolding percept.Prelude.Int.saturating_sub percept.Prelude.Int.◌-ℤ◌ new
latest-push_example = latest-push (new small) (pos 30) (fridge 1 10) (omega arith) (omega arith)

batch_rows : to_rows null_codec (fridge 3 15 ∷ []) ≡ some (row (fridge 3 15) ∷ [])
unfolding to_rows percept.Store.Cold.Rows.to_row percept.Prelude.Int.as_i64
batch_rows = refl

latest-append_example :
    Append.latest
      (append null_codec none (fridge 3 15 ∷ []) two_rows).0
      "temp.fridge"
      "temperature@v1"
    ≡ offer_all
        ("temp.fridge", "temperature@v1")
        (Append.latest two_rows "temp.fridge" "temperature@v1")
        (row (fridge 3 15) ∷ [])
latest-append_example =
    latest-append null_codec (fridge 3 15 ∷ []) (row (fridge 3 15) ∷ []) two_rows "temp.fridge"
      "temperature@v1" batch_rows

two_rows-Unique : Unique two_rows.events
two_rows-Unique = ((λ e. absurd (omega arith), tt), (tt, tt))

append-Extends_example :
    Extends (append null_codec none (fridge 3 15 ∷ []) two_rows).0.events two_rows.events
append-Extends_example = append-Extends null_codec none (fridge 3 15 ∷ []) two_rows

-- A `LIKE` that only knows equality.
abbrev like : String → String → Bool
like p t = p =? t

abbrev whole_window : WindowFilter
whole_window = record {
  start_ms = pos 0;
  end_ms = pos 100;
  source_filter = none;
  kind_filter = none;
  limit = 1;
}

select_window-first_example :
    select_window like whole_window none two_rows.events ≡ row (fridge 1 10) ∷ []
unfolding percept.Store.Cold.Window.in_window percept.Prelude.Sorting.sort
    percept.Prelude.Sorting.insert
select_window-first_example = select_window-first like whole_window two_rows.events

select_window-next_example :
    select_window like whole_window (some (anchor_of (row (fridge 1 10)))) two_rows.events
    ≡ row (fridge 2 20) ∷ []
unfolding percept.Store.Cold.Window.in_window percept.Prelude.Sorting.sort
    percept.Prelude.Sorting.insert
select_window-next_example =
    select_window-next like whole_window two_rows.events 1 (row (fridge 1 10)) two_rows-Unique refl

sweep_max_count-newest_example :
    sort row_le (
      pair_rows "temp.fridge" "temperature@v1"
        (sweep_max_count "temp.fridge" "temperature@v1" (pos 1) false two_rows).0.events)
    ≡ drop
        (count_for_pair two_rows "temp.fridge" "temperature@v1" - 1)
        (sort row_le (pair_rows "temp.fridge" "temperature@v1" two_rows.events))
sweep_max_count-newest_example =
    sweep_max_count-newest "temp.fridge" "temperature@v1" 1 two_rows two_rows-Unique

row_to_event-to_row_example :
    (to_row null_codec (fridge 1 10) >>= row_to_event null_codec) ≡ some (fridge 1 10)
row_to_event-to_row_example = row_to_event-to_row null_codec (fridge 1 10) refl tt (omega arith)

-- A `LIKE` that takes a backslash for itself, as far as the law goes: nothing with one matches.
abbrev no_backslash : String → String → Bool
no_backslash p t = not (contains 0x5c p) && (p =? t)

no_backslash_lem :
    (p t : String) → no_backslash p t ≡ true → contains 0x5c p ≡ true → contains 0x5c t ≡ true
no_backslash_lem p t h k = let f : false ≡ true = rw k at h in cc

abbrev underscored : WindowFilter
underscored = record whole_window { source_filter = some ("my_cam" ∷ []) }

in_window-underscore_example :
    in_window no_backslash underscored (row (event 7 "my_cam" "k" 10)) ≡ false
in_window-underscore_example =
    in_window-underscore no_backslash underscored "my_cam" (row (event 7 "my_cam" "k" 10))
      no_backslash_lem refl refl refl

abbrev stored : ℕ → InMemoryRow bytes
stored n = record {
  event_id = n;
  source_id = "s";
  kind = "k";
  ts_ms_utc = pos n;
  truncated = false;
  vector = [];
}

abbrev three_rows : VectorIndex bytes
three_rows = record { vectors = []; rows = stored 3 ∷ stored 1 ∷ stored 2 ∷ [] }

abbrev of_s : VectorFilter
of_s = record {
  start_ms = some (pos 2);
  end_ms = none;
  source_filter = some ("s" ∷ []);
  kind_filter = none;
}

globs_built : build_globs literals of_s.source_filter ≡ ok (some ("s" ∷ []))
unfolding build_globs
globs_built = refl

no_globs : build_globs literals of_s.kind_filter ≡ ok none
unfolding build_globs
no_globs = refl

search_kn-IsBest_example :
    (hits : List (SearchHit numbers)) × (out : List (SearchHit numbers)) × (search_kn literals
        numbers bytes
        (λ _ _. 5)
        three_rows
        []
        1
        of_s
      ≡ ok hits)
    × IsSorted (hit_le numbers) hits
    × IsBest numbers 1
        (map
          (hit_of literals numbers bytes (λ _ _. 5) [])
          (filter (passes literals numbers bytes of_s (some ("s" ∷ [])) none) three_rows.rows))
        hits
        out
search_kn-IsBest_example =
    search_kn-IsBest literals numbers bytes (λ _ _. 5) three_rows [] 1 of_s (some ("s" ∷ [])) none
      globs_built no_globs (omega arith)

truncate_utf8-IsTruncation_example :
    IsTruncation "aé" 2 (truncate_utf8 "aé" 2).0
    × (((truncate_utf8 "aé" 2).1 ≡ true) ↔ (2 < String.len "aé"))
truncate_utf8-IsTruncation_example = truncate_utf8-IsTruncation "aé" 2

abbrev vector : ℕ → VectorRecord bytes
vector id = record {
  event_id = id;
  source_id = "s";
  kind = "k";
  ts_ms_utc = pos id;
  truncated = false;
  model_id = "hash-v1";
  vector = (1, (2, (3, 4))) ∷ [];
}

abbrev operations : List (Operation bytes)
operations =
    append_op none (vector 1 ∷ vector 2 ∷ vector 1 ∷ []) ∷ sweep_op "s" "k" (pos 2) false ∷ []

read_rows-apply_all_example :
    let idx = apply_all bytes operations (record { vectors = []; rows = [] }) in
    (rows : List (InMemoryRow bytes)) × (read_rows bytes idx.vectors ≡ some rows)
    × Perm rows idx.rows
    × Distinct bytes idx.rows
read_rows-apply_all_example = read_rows-apply_all bytes operations

abbrev keep_one : RetentionPolicy
keep_one = record {
  match_source_id = none;
  match_kind = none;
  max_age = none;
  max_count = some (pos 1);
  max_bytes = none;
  vector_max_age = none;
}

abbrev stores : Stores bytes
stores = record { cold = two_rows; vector = none }

sweep-Balanced_example :
    Balanced
      (sweep bytes
        (keep_one ∷ [])
        (pos 100)
        false
        (("temp.fridge", "temperature@v1") ∷ [])
        stores).1
    × ((sweep bytes
          (keep_one ∷ [])
          (pos 100)
          true
          (("temp.fridge", "temperature@v1") ∷ [])
          stores).0
        ≡ stores)
sweep-Balanced_example =
    sweep-Balanced bytes (keep_one ∷ []) (pos 100) false (("temp.fridge", "temperature@v1") ∷ [])
      stores

-- The test of the source, a leap day, and the millisecond before 1970, which is given the day behind it.
day_of_tests :
    (day_of (pos 1_704_067_200_000) ≡ record { year = pos 2024; month = 1; day = 1 })
    × (day_of (pos 1_709_164_800_000) ≡ record { year = pos 2024; month = 2; day = 29 })
    × (day_of (negsuc 0) ≡ record { year = pos 1970; month = 1; day = 1 })
    × (day_of (negsuc 86_399_999) ≡ record { year = pos 1969; month = 12; day = 31 })
unfolding day_of civil_date
day_of_tests = (refl, refl, refl, refl)

civil_date-IsDate_example : IsDate 19_782 (civil_date (pos 19_782))
civil_date-IsDate_example = civil_date-IsDate 19_782 (omega arith)
