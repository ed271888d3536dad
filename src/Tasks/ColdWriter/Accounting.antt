-- ===== src/Tasks/ColdWriter/Accounting.antt =====
-- On crates/store/src/cold/writer.rs: the counters, and the events received.
use percept.Prelude.{
  ℕ, ◌+◌, ◌%◌, ◌^◌, List, [], ◌∷◌, ◌++◌, Option, none, some, length, concat, concat-append,
  length-append, ◌≡◌, refl, ap, ◌∙◌, arith,
}
use percept.Core.Event.{Event}
use percept.Store.Cold.Rows.{JsonCodec}
use percept.Store.Cold.Append.{ColdError, append}
use percept.Tasks.Loop.{Turn, messages}
use percept.Tasks.Loop.Drained.{Tracks, run-Drained}
use percept.Tasks.ColdWriter.{
  ColdWriterConfig, ColdWriterMetrics, no_metrics, Writer, next_fault, count, flush, task,
  run_writer,
}

-- The counters agree with `b` batches of `n` events in all, as far as numbers of 64 bits can.
abbrev pub Accounts : ℕ → ℕ → ColdWriterMetrics → Type 0
Accounts b n m =
    ((m.batches_committed + m.commit_errors) % 2 ^ 64 ≡ b % 2 ^ 64)
    × ((m.events_committed + m.events_dropped) % 2 ^ 64 ≡ n % 2 ^ 64)

count-Accounts :
    (b n k : ℕ) (failed : Option ColdError) (m : ColdWriterMetrics)
    → Accounts b n m
    → Accounts (b + 1) (n + k) (count k failed m)
unfolding count
count-Accounts b n k none m (p, q) = (omega (arith, p), omega (arith, q))
count-Accounts b n k (some e) m (p, q) = (omega (arith, p), omega (arith, q))

abbrev Tracked : List (List Event) → Writer → Type 0
Tracked batches w = Accounts (length batches) (length (concat batches)) w.metrics

flush-Tracked :
    (codec : JsonCodec) (batches : List (List Event)) (batch : List Event) (w : Writer)
    → Tracked batches w
    → Tracked (batches ++ batch ∷ []) (flush codec batch w)
unfolding flush
flush-Tracked codec batches batch w h =
    let more : length (batches ++ batch ∷ []) ≡ length batches + 1 =
      length-append batches (batch ∷ []) in
    let events : length (concat (batches ++ batch ∷ [])) ≡ length (concat batches) + length batch =
      ap length (concat-append batches batch) ∙ length-append (concat batches) batch in
    rw (more, events)
      (count-Accounts (length batches) (length (concat batches)) (length batch)
        (append codec (next_fault w.faults) batch w.store).1 w.metrics h)

-- From counters at 0, once its channel is closed, the writer has counted every event that it received
-- as committed or as dropped, once, modulo 2 ^ 64, whatever SQLite reports and whenever the timer ticks.
pub run_writer-Accounts :
    (codec : JsonCodec) (config : ColdWriterConfig) (w : Writer) (turns : List (Turn Event))
    → w.metrics ≡ no_metrics
    → let m = (run_writer codec config w turns).metrics in
      (m.events_committed + m.events_dropped) % 2 ^ 64 ≡ length (messages turns) % 2 ^ 64
unfolding run_writer
run_writer-Accounts codec config w turns fresh =
    let tracks : Tracks (task codec config) Tracked = record {
      noted = λ batches n s h. h;
      flushed = flush-Tracked codec;
    } in
    let drained = run-Drained (task codec config) Tracked tracks turns w (rw fresh (refl, refl)) in
    drained.related.1 ∙ ap (λ xs. length xs % 2 ^ 64) drained.complete
