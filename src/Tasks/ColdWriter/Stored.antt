-- ===== src/Tasks/ColdWriter/Stored.antt =====
-- On crates/store/src/cold/writer.rs: what the writer received, and what is stored.
use percept.Prelude.{
  map, List, [], ◌∷◌, ◌++◌, none, some, concat, concat-append, ◌≡◌, refl, ap, ◌∙◌, sym,
}
use percept.Core.Event.{Event}
use percept.Store.Cold.Rows.{JsonCodec, Row, to_row}
use percept.Store.Cold.Append.{ColdStore, append, to_rows, insert_all}
use percept.Tasks.Loop.{Turn, messages}
use percept.Tasks.Loop.Drained.{Tracks, run-Drained}
use percept.Tasks.ColdWriter.{ColdWriterConfig, Writer, flush, task, run_writer}

insert_all-append :
    (rs ss rows : List Row) → insert_all (rs ++ ss) rows ≡ insert_all ss (insert_all rs rows)
unfolding insert_all
insert_all-append [] ss rows = refl
insert_all-append (r ∷ rs) ss rows = insert_all-append rs ss _

module _ (codec : JsonCodec) (row_of : Event → Row)
    (encodes : (e : Event) → to_row codec e ≡ some (row_of e)) where
  to_rows-map : (es : List Event) → to_rows codec es ≡ some (map row_of es)
  unfolding to_rows
  to_rows-map [] = refl
  to_rows-map (e ∷ es) = rw (encodes e) (rw (to_rows-map es) refl)

  append-events :
      (es : List Event) (s : ColdStore)
      → (append codec none es s).0.events ≡ insert_all (map row_of es) s.events
  unfolding append insert_all
  append-events [] s = refl
  append-events (e ∷ es) s = rw (to_rows-map (e ∷ es)) refl

  map-append : (es fs : List Event) → map row_of (es ++ fs) ≡ map row_of es ++ map row_of fs
  map-append [] fs = refl
  map-append (e ∷ es) fs = ap (◌∷◌ (row_of e)) (map-append es fs)

  abbrev Held : List Row → List (List Event) → Writer → Type 0
  Held start batches w =
      (w.faults ≡ []) × (w.store.events ≡ insert_all (map row_of (concat batches)) start)

  flush-Held :
      (start : List Row) (batches : List (List Event)) (batch : List Event) (w : Writer)
      → Held start batches w
      → Held start (batches ++ batch ∷ []) (flush codec batch w)
  unfolding flush
  flush-Held start batches batch w (sound, held) =
      let events : map row_of (concat (batches ++ batch ∷ []))
          ≡ map row_of (concat batches) ++ map row_of batch =
        ap (map row_of) (concat-append batches batch) ∙ map-append (concat batches) batch in
      rw sound (
        refl,
        append-events batch w.store
            ∙ ap (insert_all (map row_of batch)) held
            ∙ sym (insert_all-append (map row_of (concat batches)) (map row_of batch) start)
            ∙ ap (λ rs. insert_all rs start) (sym events),
      )

  insert_all_nothing : (rows : List Row) → insert_all [] rows ≡ rows
  unfolding insert_all
  insert_all_nothing rows = refl

  -- With a codec that can write every event and no fault of SQLite, the `events` of the store, once the
  -- channel of the writer is closed, are those of inserting all that it received at once, in order:
  -- neither the size of the batches nor the timer changes what is stored.
  pub run_writer-stored :
      (config : ColdWriterConfig) (w : Writer) (turns : List (Turn Event))
      → w.faults ≡ []
      → (run_writer codec config w turns).store.events
        ≡ insert_all (map row_of (messages turns)) w.store.events
  unfolding run_writer
  run_writer-stored config w turns sound =
      let tracks : Tracks (task codec config) (Held w.store.events) = record {
        noted = λ batches n s h. h;
        flushed = flush-Held w.store.events;
      } in
      let drained =
        run-Drained (task codec config) (Held w.store.events) tracks turns w
          (sound, sym (insert_all_nothing w.store.events)) in
      drained.related.1 ∙ ap (λ es. insert_all (map row_of es) w.store.events) drained.complete
