-- ===== src/Tasks/Loop.antt =====
-- The loop that `run` of batcher.rs, writer.rs, task.rs and forwarder.rs share. What `select!` picks
-- is a list of turns, a message or a tick of the timer; after them the channel is closed.
pub mod Drained
use percept.Prelude.{ℕ, ◌≤◌, List, [], ◌∷◌, ◌++◌, if◌then◌else◌, leb, length, ◌≡◌}

pub data Turn {ℓ} (A : Type ℓ) : Type ℓ where
  received : A → Turn A
  tick : Turn A

-- A task: how many messages fill its batch, what it notes of the buffer's length when it grows, and
-- what a flush does with a batch. `S` is all that the task changes outside its buffer.
pub record Task (A S : Type 0) : Type 0 where
  pub batch_size : ℕ
  pub note_pending : ℕ → S → S
  pub flush : List A → S → S

module _ {A S : Type 0} (task : Task A S) where
  -- `if !buf.is_empty() { flush(&mut buf) }`.
  abbrev pub flush_rest : List A → S → S
  flush_rest [] s = s
  flush_rest (a ∷ buf) s = task.flush (a ∷ buf) s

  -- One turn of the loop.
  unfoldable pub on_turn : List A × S → Turn A → List A × S
  on_turn (buf, s) (received a) =
      let buf' = buf ++ a ∷ [] in
      let s' = task.note_pending (length buf') s in
      if leb task.batch_size (length buf') then ([], task.flush buf' s') else (buf', s')
  on_turn (buf, s) tick = ([], flush_rest buf s)

  unfoldable pub run_from : List A × S → List (Turn A) → S
  run_from now [] = flush_rest now.0 now.1
  run_from now (t ∷ turns) = run_from (on_turn now t) turns

  -- The task from its start until the channel is closed.
  unfoldable pub run : S → List (Turn A) → S
  run s turns = run_from ([], s) turns

-- The messages of a list of turns.
abbrev pub messages {ℓ} : {A : Type ℓ} → List (Turn A) → List A
messages [] = []
messages (received a ∷ turns) = a ∷ messages turns
messages (tick ∷ turns) = messages turns
