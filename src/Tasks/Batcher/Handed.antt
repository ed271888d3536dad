-- ===== src/Tasks/Batcher/Handed.antt =====
-- What the batcher hands to the client.
use percept.Prelude.{ℕ, String, List, [], ◌∷◌, ◌++◌, Option, ◌≡◌, refl, ap, ◌∙◌}
use percept.Client.Event.{ClientEvent}
use percept.Client.Send.{ClientConfig, Answer}
use percept.Tasks.Loop.{Turn, messages}
use percept.Tasks.Loop.Drained.{Tracks, Drained, run-Drained}
use percept.Tasks.Batcher.{BatcherConfig, Log, flush, task, run_batcher}

abbrev pub batches_of : Log → List (List ClientEvent)
batches_of [] = []
batches_of ((batch, _) ∷ log) = batch ∷ batches_of log

batches_of-append : (a b : Log) → batches_of (a ++ b) ≡ batches_of a ++ batches_of b
batches_of-append [] b = refl
batches_of-append ((batch, _) ∷ a) b = ap (◌∷◌ batch) (batches_of-append a b)

abbrev pub Handed : List (List ClientEvent) → Log → Type 0
Handed batches log = batches_of log ≡ batches

-- Once its queue is closed, the batcher has handed every event enqueued to the client once and in order,
-- in batches of at most `max_batch` events (1 if that is 0) and none empty, whatever the server answers.
pub run_batcher-Drained :
    (config : BatcherConfig) (client : ClientConfig) (encode : List ClientEvent → Option String)
    (server : ℕ → String → ℕ → Answer) (turns : List (Turn ClientEvent))
    → Drained config.max_batch Handed
        (messages turns)
        (run_batcher config client encode server turns)
unfolding run_batcher flush
run_batcher-Drained config client encode server turns =
    let tracks : Tracks (task config client encode server) Handed = record {
      noted = λ batches n log h. h;
      flushed = λ batches batch log h. batches_of-append log _ ∙ ap (λ xs. xs ++ batch ∷ []) h;
    } in
    run-Drained (task config client encode server) Handed tracks turns [] refl
