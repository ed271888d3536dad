-- ===== src/Tasks/Embedder/Indexed.antt =====
-- On crates/store/src/vector/task.rs: what the task received, and what searches find.
use percept.Prelude.{
  List, [], ◌∷◌, ◌++◌, none, concat, concat-append, ◌≡◌, refl, ap, ◌∙◌, sym, Option-cases, inl, inr,
}
use percept.Core.Event.{Event}
use percept.Store.Vector.Index.{
  Floats, VectorRecord, VectorIndex, InMemoryRow, append, replace_memories,
}
use percept.Tasks.Loop.{Turn, messages}
use percept.Tasks.Loop.Drained.{Tracks, run-Drained}
use percept.Tasks.Embedder.{
  Embedder, EmbedderConfig, Indexer, build_record, build_records, flush, task, run_embedder,
}

module _ (floats : Floats) where
  build_records-append :
      (embedder : Embedder floats) (es fs : List Event)
      → build_records floats embedder (es ++ fs)
        ≡ build_records floats embedder es ++ build_records floats embedder fs
  unfolding build_records
  build_records-append embedder [] fs = refl
  build_records-append embedder (e ∷ es) fs = elim (Option-cases (build_record floats embedder e)) [
    | inl none_built ↦ rw none_built (build_records-append embedder es fs)
    | inr (r, h) ↦ rw h (ap (◌∷◌ r) (build_records-append embedder es fs))
  ]

  replace_memories-append :
      (rs ss : List (VectorRecord floats)) (rows : List (InMemoryRow floats))
      → replace_memories floats (rs ++ ss) rows
        ≡ replace_memories floats ss (replace_memories floats rs rows)
  unfolding replace_memories
  replace_memories-append [] ss rows = refl
  replace_memories-append (r ∷ rs) ss rows = replace_memories-append rs ss _

  append-rows :
      (records : List (VectorRecord floats)) (idx : VectorIndex floats)
      → (append floats none records idx).0.rows ≡ replace_memories floats records idx.rows
  unfolding append replace_memories
  append-rows [] idx = refl
  append-rows (r ∷ rs) idx = refl

  abbrev Held :
      Embedder floats → List (InMemoryRow floats) → List (List Event) → Indexer floats → Type 0
  Held embedder start batches s =
      (s.faults ≡ [])
      × (s.index.rows
          ≡ replace_memories floats (build_records floats embedder (concat batches)) start)

  flush-Held :
      (embedder : Embedder floats) (start : List (InMemoryRow floats)) (batches : List (List Event))
      (batch : List Event) (s : Indexer floats)
      → Held embedder start batches s
      → Held embedder start (batches ++ batch ∷ []) (flush floats embedder batch s)
  unfolding flush
  flush-Held embedder start batches batch s (sound, held) =
      let records : build_records floats embedder (concat (batches ++ batch ∷ []))
          ≡ build_records floats embedder (concat batches) ++ build_records floats embedder batch =
        ap (build_records floats embedder) (concat-append batches batch)
        ∙ build_records-append embedder (concat batches) batch in
      rw sound (
        refl,
        append-rows (build_records floats embedder batch) s.index
            ∙ ap (replace_memories floats (build_records floats embedder batch)) held
            ∙ sym (
                replace_memories-append (build_records floats embedder (concat batches))
                  (build_records floats embedder batch) start)
            ∙ ap (λ rs. replace_memories floats rs start) (sym records),
      )

  start-Held :
      (embedder : Embedder floats) (s : Indexer floats)
      → s.faults ≡ []
      → Held embedder s.index.rows [] s
  unfolding build_records replace_memories
  start-Held embedder s sound = (sound, refl)

  -- With no fault of SQLite, the mirror that searches read is, once the task's channel is closed, that of
  -- putting in the records of all the events received at once, in order: neither the size of the batches
  -- nor the timer changes what is found.
  pub run_embedder-rows :
      (embedder : Embedder floats) (config : EmbedderConfig) (s : Indexer floats)
      (turns : List (Turn Event))
      → s.faults ≡ []
      → (run_embedder floats embedder config s turns).index.rows
        ≡ replace_memories floats (build_records floats embedder (messages turns)) s.index.rows
  unfolding run_embedder
  run_embedder-rows embedder config s turns sound =
      let tracks : Tracks (task floats embedder config) (Held embedder s.index.rows) = record {
        noted = λ batches n t h. h;
        flushed = flush-Held embedder s.index.rows;
      } in
      let drained =
        run-Drained (task floats embedder config) (Held embedder s.index.rows) tracks turns s
          (start-Held embedder s sound) in
      drained.related.1
      ∙ ap (λ es. replace_memories floats (build_records floats embedder es) s.index.rows)
          drained.complete
