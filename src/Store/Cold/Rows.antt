-- ===== src/Store/Cold/Rows.antt =====
-- crates/store/src/cold/store.rs: the columns of a row, and the way from an event to a row and back.
-- `serde_json` is the parameter `codec`. The column `day` is written and never read; it is left out.
use mathlib.Core.Option
use percept.Prelude.{ℕ, ◌<◌, ◌^◌, String, List, Option, none, some, Bool, ◌≡◌, refl, unwrap_or}
use percept.Prelude.Int.{ℤ, as_i64, as_u64, as_u64-as_i64}
use percept.Core.Json.{Value}
use percept.Core.Event.{Event, Link, Ulid}

-- `serde_json::to_string` and `from_str`, for the payload and for the links; `none` is an error.
pub record JsonCodec : Type 0 where
  pub write_value : Value → Option String
  pub read_value : String → Option Value
  pub write_links : List Link → Option String
  pub read_links : String → Option (List Link)

pub record Row : Type 0 where
  pub event_id : Ulid
  pub source_id : String
  pub kind : String
  pub ts_ms_utc : ℤ
  pub ingest_ts_ms_utc : ℤ
  pub seq : Option ℤ
  pub producer_id : Option String
  pub trace_id : Option String
  pub semantic : String
  pub links : Option String
  pub schema_invalid : Option Bool

infixl 5 ◌>>=◌
abbrev pub ◌>>=◌ {ℓ κ} : {A : Type ℓ} {B : Type κ} → Option A → (A → Option B) → Option B
none >>= k = none
some a >>= k = k a

-- An optional column through a step that may fail.
abbrev pub transpose {ℓ κ} :
    {A : Type ℓ} {B : Type κ} → (A → Option B) → Option A → Option (Option B)
transpose f none = some none
transpose f (some a) = Option.map some (f a)

-- What `append` binds to the parameters of its two statements.
unfoldable pub to_row : JsonCodec → Event → Option Row
to_row codec e = do
  semantic ← codec.write_value e.semantic
  links ← transpose codec.write_links e.links
  some (record {
    event_id = e.event_id;
    source_id = e.source_id;
    kind = e.kind;
    ts_ms_utc = e.ts_ms_utc;
    ingest_ts_ms_utc = unwrap_or e.ingest_ts_ms_utc e.ts_ms_utc;
    seq = Option.map as_i64 e.seq;
    producer_id = e.producer_id;
    trace_id = e.trace_id;
    semantic = semantic;
    links = links;
    schema_invalid = e.schema_invalid;
  })

unfoldable pub row_to_event : JsonCodec → Row → Option Event
row_to_event codec r = do
  semantic ← codec.read_value r.semantic
  links ← transpose codec.read_links r.links
  some (record {
    event_id = r.event_id;
    source_id = r.source_id;
    kind = r.kind;
    ts_ms_utc = r.ts_ms_utc;
    semantic = semantic;
    links = links;
    trace_id = r.trace_id;
    ingest_ts_ms_utc = some r.ingest_ts_ms_utc;
    seq = Option.map as_u64 r.seq;
    producer_id = r.producer_id;
    schema_invalid = r.schema_invalid;
  })

-- The counter of an event is a `u64`.
abbrev pub SeqFits : Option ℕ → Type 0
SeqFits none = Unit
SeqFits (some n) = n < 2 ^ 64

-- The codec reads the links that it wrote.
abbrev pub LinksKept : JsonCodec → Option (List Link) → Type 0
LinksKept codec none = Unit
LinksKept codec (some l) = (codec.write_links l >>= codec.read_links) ≡ some l

seq_kept : (s : Option ℕ) → SeqFits s → Option.map as_u64 (Option.map as_i64 s) ≡ s
seq_kept none h = refl
seq_kept (some n) h = rw (as_u64-as_i64 n h)

pub >>=-eq-some {ℓ κ} :
    {A : Type ℓ} {B : Type κ} (m : Option A) (f : A → Option B) {b : B}
    → (m >>= f) ≡ some b
    → (a : A) × (m ≡ some a) × (f a ≡ some b)
>>=-eq-some none f h = cc
>>=-eq-some (some a) f h = (a, refl, h)

links_kept :
    (codec : JsonCodec) (l : Option (List Link))
    → LinksKept codec l
    → (w : Option String) × (transpose codec.write_links l ≡ some w)
      × (transpose codec.read_links w ≡ some l)
links_kept codec none k = (none, refl, refl)
links_kept codec (some l) k =
    let (w, written, read) = >>=-eq-some (codec.write_links l) codec.read_links k in
    (some w, rw written, rw read)

-- An event comes back from its row as it was, but for the ingest time: that is the event's own time
-- where it had none. The codec must read back the payload and the links that it wrote.
pub row_to_event-to_row :
    (codec : JsonCodec) (e : Event)
    → (codec.write_value e.semantic >>= codec.read_value) ≡ some e.semantic
    → LinksKept codec e.links
    → SeqFits e.seq
    → (to_row codec e >>= row_to_event codec)
      ≡ some (record e { ingest_ts_ms_utc = some (unwrap_or e.ingest_ts_ms_utc e.ts_ms_utc) })
unfolding to_row row_to_event
row_to_event-to_row codec e h k fits =
    let (w, written, read) = >>=-eq-some (codec.write_value e.semantic) codec.read_value h in
    let (l, links_written, links_read) = links_kept codec e.links k in
    rw (written, links_written) (rw (read, links_read) (rw (seq_kept e.seq fits)))
