-- ===== src/Tasks/ColdWriter.antt =====
-- crates/store/src/cold/writer.rs: the task that commits batches to the cold store.
pub mod Accounting
pub mod Stored
use percept.Prelude.{ℕ, List, [], ◌∷◌, Option, none, some, length}
use percept.Core.Event.{Event}
use percept.Ingest.Metrics.{fetch_add}
use percept.Store.Cold.Rows.{JsonCodec}
use percept.Store.Cold.Append.{ColdStore, ColdError, append}
use percept.Tasks.Loop.{Task, Turn, run}

pub record ColdWriterConfig : Type 0 where
  pub batch_size : ℕ
  pub batch_age : ℕ  -- a `Duration`, in milliseconds

abbrev pub default_config : ColdWriterConfig
default_config = record { batch_size = 256; batch_age = 500 }

pub record ColdWriterMetrics : Type 0 where
  pub batches_committed : ℕ
  pub events_committed : ℕ
  pub events_dropped : ℕ
  pub commit_errors : ℕ
  pub pending_buffer : ℕ

abbrev pub no_metrics : ColdWriterMetrics
no_metrics = record {
  batches_committed = 0;
  events_committed = 0;
  events_dropped = 0;
  commit_errors = 0;
  pending_buffer = 0;
}

-- The store and the counters, with what SQLite will report of the transactions to come.
pub record Writer : Type 0 where
  pub store : ColdStore
  pub metrics : ColdWriterMetrics
  pub faults : List (Option ColdError)

abbrev pub next_fault : List (Option ColdError) → Option ColdError
next_fault [] = none
next_fault (f ∷ _) = f

abbrev pub later : List (Option ColdError) → List (Option ColdError)
later [] = []
later (_ ∷ fs) = fs

-- The counters after an attempt to commit `n` events.
unfoldable pub count : ℕ → Option ColdError → ColdWriterMetrics → ColdWriterMetrics
count n none m = record m {
  batches_committed = fetch_add m.batches_committed 1;
  events_committed = fetch_add m.events_committed n;
  pending_buffer = 0;
}
count n (some _) m = record m {
  commit_errors = fetch_add m.commit_errors 1;
  events_dropped = fetch_add m.events_dropped n;
  pending_buffer = 0;
}

unfoldable pub flush : JsonCodec → List Event → Writer → Writer
flush codec buf w =
    let (store, failed) = append codec (next_fault w.faults) buf w.store in
    record { store = store; metrics = count (length buf) failed w.metrics; faults = later w.faults }

abbrev pub note_pending : ℕ → Writer → Writer
note_pending n w = record w { metrics = record w.metrics { pending_buffer = n } }

abbrev pub task : JsonCodec → ColdWriterConfig → Task Event Writer
task codec config = record {
  batch_size = config.batch_size;
  note_pending = note_pending;
  flush = flush codec;
}

-- `run`.
unfoldable pub run_writer : JsonCodec → ColdWriterConfig → Writer → List (Turn Event) → Writer
run_writer codec config w turns = run (task codec config) w turns
