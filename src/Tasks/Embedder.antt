-- ===== src/Tasks/Embedder.antt =====
-- crates/store/src/vector/task.rs: the task that embeds what the normalizer selected. The embedder and
-- `serde_json::to_string` are arguments.
pub mod Indexed
use percept.Prelude.{ℕ, suc, String, List, [], ◌∷◌, Option, none, some, Bool, if◌then◌else◌, length}
use percept.Core.Json.{Value}
use percept.Core.Event.{Event}
use percept.Ingest.Metrics.{fetch_add}
use percept.Store.Vector.Truncate.{truncate_utf8}
use percept.Store.Vector.Index.{Floats, VectorRecord, VectorIndex, VectorError, append}
use percept.Tasks.Loop.{Task, Turn, run}

abbrev pub embed_truncate_bytes : ℕ
embed_truncate_bytes = 2048

pub record EmbedderConfig : Type 0 where
  pub batch_size : ℕ
  pub batch_age : ℕ  -- a `Duration`, in milliseconds

abbrev pub default_config : EmbedderConfig
default_config = record { batch_size = 64; batch_age = 500 }

pub record EmbedderMetrics : Type 0 where
  pub batches_committed : ℕ
  pub events_embedded : ℕ
  pub events_truncated : ℕ
  pub commit_errors : ℕ
  pub pending_buffer : ℕ

module _ (floats : Floats) where
  open floats use {F32}

  -- The trait `Embedder`, with the serializer of payloads.
  pub record Embedder : Type 0 where
    pub model_id : String
    pub embed : String → List F32
    pub to_string : Value → Option String

  -- The index and the counters, with what SQLite will report of the transactions to come.
  pub record Indexer : Type 0 where
    pub index : VectorIndex floats
    pub metrics : EmbedderMetrics
    pub faults : List (Option VectorError)

  abbrev record_of : Embedder → Event → String × Bool → VectorRecord floats
  record_of embedder e (input, truncated) = record {
    event_id = e.event_id;
    source_id = e.source_id;
    kind = e.kind;
    ts_ms_utc = e.ts_ms_utc;
    truncated = truncated;
    model_id = embedder.model_id;
    vector = embedder.embed input;
  }

  abbrev of_text : Embedder → Event → Option String → Option (VectorRecord floats)
  of_text embedder e none = none
  of_text embedder e (some text) =
      some (record_of embedder e (truncate_utf8 text embed_truncate_bytes))

  -- `build_record`, but for its counter.
  unfoldable pub build_record : Embedder → Event → Option (VectorRecord floats)
  build_record embedder e = of_text embedder e (embedder.to_string e.semantic)

  abbrev pub keep :
      Option (VectorRecord floats) → List (VectorRecord floats) → List (VectorRecord floats)
  keep none rs = rs
  keep (some r) rs = r ∷ rs

  -- `filter_map`.
  unfoldable pub build_records : Embedder → List Event → List (VectorRecord floats)
  build_records embedder [] = []
  build_records embedder (e ∷ es) = keep (build_record embedder e) (build_records embedder es)

  -- How many of the records are truncated, which `build_record` counts.
  abbrev pub truncations : List (VectorRecord floats) → ℕ
  truncations [] = 0
  truncations (r ∷ rs) = if r.truncated then suc (truncations rs) else truncations rs

  abbrev pub next_fault : List (Option VectorError) → Option VectorError
  next_fault [] = none
  next_fault (f ∷ _) = f

  abbrev pub later : List (Option VectorError) → List (Option VectorError)
  later [] = []
  later (_ ∷ fs) = fs

  abbrev pub count : ℕ → Option VectorError → EmbedderMetrics → EmbedderMetrics
  count n none m = record m {
    batches_committed = fetch_add m.batches_committed 1;
    events_embedded = fetch_add m.events_embedded n;
    pending_buffer = 0;
  }
  count n (some _) m = record m { commit_errors = fetch_add m.commit_errors 1; pending_buffer = 0 }

  unfoldable pub flush : Embedder → List Event → Indexer → Indexer
  flush embedder buf s =
      let records = build_records embedder buf in
      let m = record s.metrics {
        events_truncated = fetch_add s.metrics.events_truncated (truncations records);
      } in
      let (index, failed) = append floats (next_fault s.faults) records s.index in
      record { index = index; metrics = count (length records) failed m; faults = later s.faults }

  abbrev pub note_pending : ℕ → Indexer → Indexer
  note_pending n s = record s { metrics = record s.metrics { pending_buffer = n } }

  abbrev pub task : Embedder → EmbedderConfig → Task Event Indexer
  task embedder config = record {
    batch_size = config.batch_size;
    note_pending = note_pending;
    flush = flush embedder;
  }

  -- `run`.
  unfoldable pub run_embedder : Embedder → EmbedderConfig → Indexer → List (Turn Event) → Indexer
  run_embedder embedder config s turns = run (task embedder config) s turns
