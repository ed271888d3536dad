-- ===== src/Tasks/Loop/Drained.antt =====
-- On the loop that the tasks share: the batches it flushes, and the messages it received.
use percept.Prelude.{
  ℕ, ◌≤◌, ◌<◌, List, [], ◌∷◌, ◌++◌, leb, max, length, ◌≡◌, refl, sym, ap, ◌∙◌, arith, Bool-cases,
  inl, inr, append_assoc, append-nil, length-append, concat, concat-append, All, All-append,
}
use percept.Tasks.Loop.{Turn, received, tick, Task, run, run_from, on_turn, flush_rest, messages}

-- A batch is neither empty nor larger than the configured size, or than 1 if that is 0.
abbrev pub GoodBatch : {A : Type 0} → ℕ → List A → Type 0
GoodBatch size batch = (1 ≤ length batch) × (length batch ≤ max size 1)

-- What a property of the state must satisfy to hold from the start to the end: it relates the batches
-- flushed so far to the state, a flush extends them, and the note on the buffer keeps it.
pub record Tracks {A S : Type 0} (task : Task A S) (R : List (List A) → S → Type 0) : Type 0 where
  pub noted :
      (batches : List (List A)) (n : ℕ) (s : S) → R batches s → R batches (task.note_pending n s)
  pub flushed :
      (batches : List (List A)) (batch : List A) (s : S)
      → R batches s
      → R (batches ++ batch ∷ []) (task.flush batch s)

-- The end of a run: good batches whose concatenation is all that was received.
pub record Drained {A S : Type 0} (size : ℕ) (R : List (List A) → S → Type 0) (all : List A) (s : S)
    : Type 0 where
  pub batches : List (List A)
  pub related : R batches s
  pub complete : concat batches ≡ all
  pub good : All (GoodBatch size) batches

module _ {A S : Type 0} (task : Task A S) (R : List (List A) → S → Type 0)
    (tracks : Tracks task R) where
  open tracks use {noted, flushed}

  record Going (now : List A × S) (all : List A) : Type 0 where
    batches : List (List A)
    related : R batches now.1
    complete : concat batches ++ now.0 ≡ all
    good : All (GoodBatch task.batch_size) batches
    short : length now.0 < max task.batch_size 1

  extended :
      (batches : List (List A)) (batch : List A)
      → All (GoodBatch task.batch_size) batches
      → GoodBatch task.batch_size batch
      → All (GoodBatch task.batch_size) (batches ++ batch ∷ [])
  extended batches batch h g = All-append (GoodBatch task.batch_size) batches (batch ∷ []) h (g, tt)

  flush_rest-Going :
      (buf : List A) (s : S) (all : List A)
      → Going (buf, s) all
      → Going ([], flush_rest task buf s) all
  flush_rest-Going [] s all g = g
  flush_rest-Going (a ∷ buf) s all g = record {
    batches = g.batches ++ (a ∷ buf) ∷ [];
    related = flushed g.batches (a ∷ buf) s g.related;
    complete = append-nil _ ∙ concat-append g.batches (a ∷ buf) ∙ g.complete;
    good = extended g.batches (a ∷ buf) g.good (omega arith, omega (arith, g.short));
    short = omega arith;
  }

  -- The buffer with one more message, before the test of its length.
  record Grown (now : List A × S) (all : List A) : Type 0 where
    batches : List (List A)
    related : R batches now.1
    complete : concat batches ++ now.0 ≡ all
    good : All (GoodBatch task.batch_size) batches
    fits : GoodBatch task.batch_size now.0

  received-Grown :
      (buf : List A) (s : S) (a : A) (all : List A)
      → Going (buf, s) all
      → Grown (buf ++ a ∷ [], task.note_pending (length (buf ++ a ∷ [])) s) (all ++ a ∷ [])
  received-Grown buf s a all g = record {
    batches = g.batches;
    related = noted g.batches _ s g.related;
    complete =
        sym (append_assoc (concat g.batches) buf (a ∷ [])) ∙ ap (λ xs. xs ++ a ∷ []) g.complete;
    good = g.good;
    fits = (
      omega (arith, length-append buf (a ∷ [])),
      omega (arith, g.short, length-append buf (a ∷ [])),
    );
  }

  on_turn-received :
      (buf : List A) (s : S) (a : A) (all : List A)
      → Going (buf, s) all
      → Going (on_turn task (buf, s) (received a)) (all ++ a ∷ [])
  unfolding on_turn
  on_turn-received buf s a all g =
      let grown = received-Grown buf s a all g in
      elim (Bool-cases (leb task.batch_size (length (buf ++ a ∷ [])))) [
        | inl full ↦ rw full (record {
          batches = grown.batches ++ (buf ++ a ∷ []) ∷ [];
          related = flushed grown.batches _ _ grown.related;
          complete = append-nil _ ∙ concat-append grown.batches (buf ++ a ∷ []) ∙ grown.complete;
          good = extended grown.batches _ grown.good grown.fits;
          short = omega arith;
        })
        | inr small ↦ rw small (record {
          batches = grown.batches;
          related = grown.related;
          complete = grown.complete;
          good = grown.good;
          short = ground arith;
        })
      ]

  on_turn-tick :
      (buf : List A) (s : S) (all : List A)
      → Going (buf, s) all
      → Going (on_turn task (buf, s) tick) all
  unfolding on_turn
  on_turn-tick buf s all g = flush_rest-Going buf s all g

  run_from-Drained :
      (turns : List (Turn A)) (now : List A × S) (all : List A)
      → Going now all
      → Drained task.batch_size R (all ++ messages turns) (run_from task now turns)
  unfolding run_from
  run_from-Drained [] (buf, s) all g =
      let end = flush_rest-Going buf s all g in
      record {
        batches = end.batches;
        related = end.related;
        complete = sym (append-nil _) ∙ end.complete ∙ sym (append-nil all);
        good = end.good;
      }
  run_from-Drained (received a ∷ turns) (buf, s) all g =
      rw (sym (append_assoc all (a ∷ []) (messages turns))) (
        run_from-Drained turns (on_turn task (buf, s) (received a)) (all ++ a ∷ [])
          (on_turn-received buf s a all g))
  run_from-Drained (tick ∷ turns) (buf, s) all g =
      run_from-Drained turns (on_turn task (buf, s) tick) all (on_turn-tick buf s all g)

  -- What relates the batches flushed so far to the state relates them at the end, and by then every
  -- message received has been flushed once, in its order, whatever the timer did.
  pub run-Drained :
      (turns : List (Turn A)) (s : S)
      → R [] s
      → Drained task.batch_size R (messages turns) (run task s turns)
  unfolding run
  run-Drained turns s h =
      run_from-Drained turns ([], s) []
        (record { batches = []; related = h; complete = refl; good = tt; short = omega arith })
