-- ===== src/Tasks/Batcher.antt =====
-- crates/client/src/batcher.rs: the background task that sends what a producer enqueues.
pub mod Handed
use percept.Prelude.{ℕ, suc, String, List, [], ◌∷◌, ◌++◌, Option}
use percept.Client.Event.{ClientEvent}
use percept.Client.Send.{ClientConfig, Answer, Trace, send_batch}
use percept.Tasks.Loop.{Task, Turn, run}

pub record BatcherConfig : Type 0 where
  pub max_batch : ℕ
  pub flush_interval : ℕ  -- a `Duration`, in milliseconds
  pub queue_depth : ℕ

abbrev pub default_config : BatcherConfig
default_config = record { max_batch = 64; flush_interval = 500; queue_depth = 1_024 }

-- The batches handed to `send_batch`, each with what it did; its result is only logged. `server` answers
-- to the number of the batch, the body and the attempt.
abbrev pub Log : Type 0
Log = List (List ClientEvent × Trace)

abbrev pub count : Log → ℕ
count [] = 0
count (_ ∷ log) = suc (count log)

unfoldable pub flush :
    ClientConfig
    → (List ClientEvent → Option String)
    → (ℕ → String → ℕ → Answer)
    → List ClientEvent
    → Log
    → Log
flush client encode server batch log =
    log ++ (batch, send_batch client encode (server (count log)) batch) ∷ []

abbrev pub task :
    BatcherConfig
    → ClientConfig
    → (List ClientEvent → Option String)
    → (ℕ → String → ℕ → Answer)
    → Task ClientEvent Log
task config client encode server = record {
  batch_size = config.max_batch;
  note_pending = λ _ log. log;
  flush = flush client encode server;
}

-- `run`.
unfoldable pub run_batcher :
    BatcherConfig
    → ClientConfig
    → (List ClientEvent → Option String)
    → (ℕ → String → ℕ → Answer)
    → List (Turn ClientEvent)
    → Log
run_batcher config client encode server turns = run (task config client encode server) [] turns
