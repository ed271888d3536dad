-- ===== src/Examples/Mcp.antt =====
-- The tools, their cursors and the endpoint at concrete inputs.
use mathlib.Core.Option
use text.Mathlib.TextEquality.{Char-path}
use percept.Prelude.{
  ℕ, zero, suc, ◌+◌, ◌*◌, ◌^◌, ◌≤◌, ◌<◌, String, Char, code, List, [], ◌∷◌, ◌++◌, Option, none,
  some, Bool, true, false, if◌then◌else◌, length, map, concat, ◌==◌, ltb, ◌≡◌, ◌↔◌, refl, sym, ap,
  ap₂, ◌∙◌, arith, All,
}
use native.Mathlib.Nat.{zero-add}
use percept.Prelude.Int.{ℤ, pos, negsuc, as_u64}
use percept.Prelude.Sorting
use percept.Prelude.Eq.{string_eq, ◌=?◌}
use percept.Prelude.Result.{ok, err}
use percept.Core.Json.{Value, string, object, Items, Fields}
use percept.Store.Cold.Append.{ColdStore}
use percept.Store.Cold.Append.Atomic.{Unique}
use percept.Store.Cold.Window.{WindowFilter, Anchor, in_window, to_events}
use percept.Store.Cold.Rows.{row_to_event}
use percept.Store.Cold.Window.Paging.{ordered}
use percept.Store.Cold.Cursor.{Bytes, CursorPayload, CursorCodec}
use percept.Store.Cold.Cursor.Filters.{Hashable, SameFilter, input_of, hash_input-iff_SameFilter}
use percept.Core.Descriptor.{ResolvedDescriptor}
use percept.Store.HotRing
use percept.Store.HotRing.{HotRings}
use percept.Store.Cold.Append
use percept.Store.Cold.Lookup.{get_by_id}
use percept.Store.Vector.TopK.{SearchHit}
use percept.Store.Vector.Index.{InMemoryRow, VectorIndex}
use percept.Store.Vector.Search.{search_kn}
use percept.Ingest.Metrics
use percept.Mcp.Registry
use percept.Mcp.Registry.{DescriptorRegistry, filter_rows}
use percept.Mcp.Peer.{PeerHandle, PeerStatus, Reply}
use percept.Mcp.Sources.{FilterArgs, CurrentStateEntry, Answer, get_current_state}
use percept.Mcp.Sources.Reported.{CurrentState, get_current_state-CurrentState}
use percept.Mcp.Search.{SearchEventsArgs, SearchHitOut, search_events, check_range, hydrate}
use percept.Mcp.Search.Hydrated.{SearchOutcome, search_events-SearchOutcome}
use percept.Mcp.Protocol.{Request}
use percept.Mcp.Router.{Tools, handle}
use percept.Mcp.Router.Counted.{Handled, handle-Handled}
use percept.Mcp.Window.{invalid_range, GetWindowArgs, window_filter}
use percept.Mcp.Window.Complete.{follow, follow_complete}
use percept.Examples.Data.{small, fridge, cam, null_codec, two_rows, literals, numbers, bytes}

-- A codec that can be computed: a payload is its numbers, and a number is written in strokes.
abbrev mark : ℕ → String → String
mark zero s = String.◌∷◌ "b" s
mark (suc n) s = String.◌∷◌ "a" (mark n s)

abbrev strokes : List ℕ → String
strokes [] = String.[]
strokes (n ∷ ns) = mark n (strokes ns)

abbrev count_strokes : String → ℕ → Option (List ℕ)
count_strokes String.[] n = some []
count_strokes (String.◌∷◌ c s) n =
    if code c == b'a' then count_strokes s (suc n) else Option.map (n ∷◌) (count_strokes s 0)

count_strokes-mark :
    (m n : ℕ) (s : String)
    → count_strokes (mark m s) n ≡ Option.map ((m + n) ∷◌) (count_strokes s 0)
count_strokes-mark zero n s = rw zero-add refl
count_strokes-mark (suc m) n s =
    count_strokes-mark m (suc n) s ∙ ap (λ k. Option.map (k ∷◌) (count_strokes s 0)) (omega arith)

count_strokes-strokes : (ns : List ℕ) → count_strokes (strokes ns) 0 ≡ some ns
count_strokes-strokes [] = refl
count_strokes-strokes (n ∷ ns) =
    count_strokes-mark n 0 (strokes ns)
    ∙ ap₂ (λ k o. Option.map (k ∷◌) o) (omega arith) (count_strokes-strokes ns)

abbrev numbers_of : CursorPayload → Bytes
numbers_of p = elim p.a.ts_ms_utc [
  | pos n ↦ 0 ∷ n ∷ p.a.event_id ∷ p.h
  | negsuc n ↦ 1 ∷ n ∷ p.a.event_id ∷ p.h
]

abbrev payload_of : Bytes → Option CursorPayload
payload_of (zero ∷ n ∷ id ∷ h) =
    some (record { p = ""; a = record { ts_ms_utc = pos n; event_id = id }; h = h })
payload_of (suc _ ∷ n ∷ id ∷ h) =
    some (record { p = ""; a = record { ts_ms_utc = negsuc n; event_id = id }; h = h })
payload_of _ = none

payload_of-numbers_of :
    (a : Anchor) (h : Bytes)
    → payload_of (numbers_of (record { p = ""; a = a; h = h }))
      ≡ some (record { p = ""; a = a; h = h })
payload_of-numbers_of a h = go a.ts_ms_utc
  where
    go :
        (ts : ℤ)
        → payload_of (
            numbers_of
              (record { p = ""; a = record { ts_ms_utc = ts; event_id = a.event_id }; h = h }))
          ≡ some (record { p = ""; a = record { ts_ms_utc = ts; event_id = a.event_id }; h = h })
    go (pos n) = refl
    go (negsuc n) = refl

abbrev codes : String → Bytes
codes String.[] = []
codes (String.◌∷◌ c s) = code c ∷ codes s

codes_inj : (s t : String) → codes s ≡ codes t → s ≡ t
codes_inj String.[] String.[] e = refl
codes_inj String.[] (String.◌∷◌ d t) e = absurd cc
codes_inj (String.◌∷◌ c s) String.[] e = absurd cc
codes_inj (String.◌∷◌ c s) (String.◌∷◌ d t) e = ap₂ String.◌∷◌ (Char-path c d cc) (codes_inj s t cc)

abbrev stroke_codec : CursorCodec
stroke_codec = record {
  write_cbor = numbers_of;
  read_cbor = payload_of;
  write_base64 = strokes;
  read_base64 = λ s. count_strokes s 0;
  blake3 = λ b. b;
  as_bytes = codes;
  read-write_cbor = payload_of-numbers_of;
  read-write_base64 = count_strokes-strokes;
  as_bytes-inj = codes_inj;
}

abbrev like : String → String → Bool
like p t = p =? t

abbrev by_one : GetWindowArgs
by_one = record {
  start_ms = pos 0;
  end_ms = pos 100;
  source_filter = none;
  kind_filter = none;
  limit = some 1;
  cursor = none;
}

two_rows_Unique : Unique two_rows.events
two_rows_Unique = ((λ e. absurd (omega arith), tt), (tt, tt))

both_read :
    to_events like null_codec (ordered like (window_filter by_one) two_rows.events)
    ≡ some (fridge 1 10 ∷ fridge 2 20 ∷ [])
unfolding to_events row_to_event in_window Sorting.sort Sorting.insert as_u64
both_read = refl

-- Three pages of one row: the third is empty.
follow_complete_example :
    follow stroke_codec like null_codec 3 two_rows by_one ≡ some (fridge 1 10 ∷ fridge 2 20 ∷ [])
follow_complete_example =
    follow_complete stroke_codec like null_codec 3 two_rows by_one (fridge 1 10 ∷ fridge 2 20 ∷ [])
      two_rows_Unique refl (omega arith) both_read refl (omega arith)

abbrev sources_filter : List String → WindowFilter
sources_filter globs = record {
  start_ms = pos 0;
  end_ms = pos 100;
  source_filter = some globs;
  kind_filter = none;
  limit = 10;
}

small_filter :
    (a b : String)
    → length (codes a) < 2 ^ 32
    → length (codes b) < 2 ^ 32
    → Hashable stroke_codec (sources_filter (a ∷ b ∷ []))
small_filter a b h k = record {
  start = (omega arith, omega arith);
  end = (omega arith, omega arith);
  limit = omega arith;
  sources = (omega arith, (h, (k, tt)));
  kinds = (omega arith, tt);
}

hash_input-iff_SameFilter_example :
    (input_of stroke_codec (sources_filter ("cam" ∷ "temp" ∷ []))
      ≡ input_of stroke_codec (sources_filter ("temp" ∷ "cam" ∷ [])))
    ↔ SameFilter stroke_codec
        (sources_filter ("cam" ∷ "temp" ∷ []))
        (sources_filter ("temp" ∷ "cam" ∷ []))
hash_input-iff_SameFilter_example =
    hash_input-iff_SameFilter stroke_codec (sources_filter ("cam" ∷ "temp" ∷ []))
      (sources_filter ("temp" ∷ "cam" ∷ [])) (small_filter "cam" "temp" (omega arith) (omega arith))
      (small_filter "temp" "cam" (omega arith) (omega arith))

-- A state without a peer's answer: one pair in the rings, one in the store, and one in neither.
abbrev described : String → String → ResolvedDescriptor
described source_id kind = record {
  source_id = source_id;
  kind = kind;
  kind_version = "v1";
  description = "";
  usage = "";
  caveats = "";
  semantic_schema = none;
  units = none;
  sampling_hint_ms = none;
  freshness_ttl_ms = some (pos 50);
  location = none;
}

abbrev in_rings : ResolvedDescriptor
in_rings = described "cam.front" "object_detected"

abbrev in_store : ResolvedDescriptor
in_store = described "temp.fridge" "temperature@v1"

abbrev in_neither : ResolvedDescriptor
in_neither = described "door" "opened"

abbrev registry : DescriptorRegistry
registry = Registry.new (in_rings ∷ in_store ∷ in_neither ∷ [])

abbrev rings : HotRings
rings = (HotRing.push (HotRing.new small) (pos 90) (cam 3 90)).0

abbrev unfiltered : FilterArgs
unfiltered = record { source_filter = none; kind_filter = none }

abbrev neighbour : PeerHandle
neighbour = record { id = "attic"; mcp_url = "http://attic/mcp"; token = "t"; timeout = 3000 }

abbrev cellar : PeerHandle
cellar = record { id = "cellar"; mcp_url = "http://cellar/mcp"; token = "t"; timeout = 3000 }

-- Of an entry, what tells the rows apart.
abbrev write_entry : CurrentStateEntry → Value
write_entry e = object (
    Fields.field "from_cold" (Value.bool e.from_cold)
      (Fields.field "stale" (Value.bool e.stale) Fields.end))

abbrev remote_row : Value
remote_row = object (Fields.field "stale" (Value.bool false) Fields.end)

abbrev states_of : Value → Value
states_of v = object (
    Fields.field "result"
      (object (
        Fields.field "structuredContent"
          (object (Fields.field "states" (Value.array (Items.cons v Items.nil)) Fields.end))
          Fields.end))
      Fields.end)

-- The attic answers, and the cellar is late.
abbrev replies : PeerHandle → Reply
replies p =
    if p.id =? "attic" then Reply.answered 200 (some (states_of remote_row)) else Reply.elapsed

abbrev tagged_row : Bool → Bool → Value
tagged_row from_cold stale = object (
    Fields.field "from_cold" (Value.bool from_cold)
      (Fields.field "peer_id" Value.null (Fields.field "stale" (Value.bool stale) Fields.end)))

abbrev answer : Answer
answer = record {
  rows =
      tagged_row false false
      ∷ tagged_row true true
      ∷ object (
          Fields.field "peer_id" (string "attic")
            (Fields.field "stale" (Value.bool false) Fields.end))
      ∷ [];
  peer_status = ("attic", PeerStatus.ok) ∷ ("cellar", PeerStatus.timeout) ∷ [];
}

current_state_test :
    get_current_state null_codec literals write_entry replies
      (pos 100)
      registry
      rings
      (some two_rows)
      (neighbour ∷ cellar ∷ [])
      unfiltered
    ≡ ok answer
unfolding get_current_state Registry.filter_rows Registry.compile Registry.new
    percept.Mcp.Sources.local_states HotRing.latest percept.Prelude.Assoc.lookup HotRing.push
    percept.Prelude.Assoc.insert HotRing.new HotRing.push_ring HotRing.evict_old
    HotRing.evict_excess HotRing.ring_of percept.Prelude.Int.saturating_sub percept.Prelude.Int.◌-ℤ◌
    Append.latest row_to_event percept.Mcp.Peer.fan_out percept.Mcp.Values.set_field
    percept.Mcp.Peer.rows_of percept.Mcp.Peer.call_tool percept.Prelude.Text.str_le
    percept.Prelude.Int.as_i64
current_state_test = refl

get_current_state-CurrentState_example :
    CurrentState null_codec literals write_entry replies
      (pos 100)
      registry
      rings
      (some two_rows)
      (neighbour ∷ cellar ∷ [])
      unfiltered
      (get_current_state null_codec literals write_entry replies
        (pos 100)
        registry
        rings
        (some two_rows)
        (neighbour ∷ cellar ∷ [])
        unfiltered)
get_current_state-CurrentState_example =
    get_current_state-CurrentState null_codec literals write_entry replies (pos 100) registry rings
      (some two_rows) (neighbour ∷ cellar ∷ []) unfiltered

abbrev no_tools : Tools
no_tools = record {
  describe_sources = λ _. none;
  get_current_state = λ v. some (ok v);
  get_window = λ _. none;
  search_events = λ _. none;
  read_params = λ _. none;
  version = "0.1.0";
}

abbrev ping : Request
ping = record { jsonrpc = "2.0"; id = some (string "1"); method = "ping"; params = none }

handle-Handled_example :
    Handled "secret" no_tools 3 Metrics.new
      (some "Bearer secret")
      (some ping)
      (handle "secret" no_tools 3 Metrics.new (some "Bearer secret") (some ping))
handle-Handled_example =
    handle-Handled "secret" no_tools 3 Metrics.new (some "Bearer secret") (some ping)

-- Of two rows in the range one is stored and one is gone; a third is stored but out of the range.
abbrev indexed : ℕ → InMemoryRow bytes
indexed n = record {
  event_id = n;
  source_id = "temp.fridge";
  kind = "temperature@v1";
  ts_ms_utc = pos (10 * n);
  truncated = false;
  vector = [];
}

abbrev fleeting : InMemoryRow bytes
fleeting = record (indexed 9) { ts_ms_utc = pos 11 }

abbrev index : VectorIndex bytes
index = record { vectors = []; rows = indexed 1 ∷ indexed 2 ∷ fleeting ∷ [] }

abbrev warm : SearchEventsArgs
warm = record {
  query = "warm";
  time_range = some (record { start_ms = pos 10; end_ms = pos 20 });
  source_filter = none;
  kind_filter = none;
  limit = some 5;
}

abbrev found_one : List (SearchHitOut numbers)
found_one = record { event = fridge 1 10; score = 7; truncated = false } ∷ []

one_found :
    search_events literals numbers bytes null_codec
      (λ _ _. 7)
      (some index)
      (some (λ _. []))
      (some two_rows)
      warm
    ≡ ok found_one
unfolding search_events check_range search_kn hydrate get_by_id row_to_event
    percept.Store.Vector.Search.build_globs percept.Store.Vector.TopK.insert_all
    percept.Store.Vector.Search.passes percept.Store.Vector.TopK.insert_top_k Sorting.sort
    percept.Store.Cold.Lookup.find_row as_u64
one_found = refl

no_range :
    search_events literals numbers bytes null_codec
      (λ _ _. 7)
      (some index)
      (some (λ _. []))
      (some two_rows)
      (record warm { time_range = some (record { start_ms = pos 10; end_ms = pos 10 }) })
    ≡ err (invalid_range (pos 10) (pos 10))
unfolding search_events check_range
no_range = refl

search_events-SearchOutcome_example :
    SearchOutcome literals numbers bytes null_codec
      (λ _ _. 7)
      index
      (λ _. [])
      two_rows
      warm
      (search_events literals numbers bytes null_codec
        (λ _ _. 7)
        (some index)
        (some (λ _. []))
        (some two_rows)
        warm)
search_events-SearchOutcome_example =
    search_events-SearchOutcome literals numbers bytes null_codec (λ _ _. 7) index (λ _. [])
      two_rows warm
