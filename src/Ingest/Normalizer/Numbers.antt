-- ===== src/Ingest/Normalizer/Numbers.antt =====
-- The numbers that the normalizer gives the events of a source.
use percept.Prelude.{
  ℕ, suc, String, List, [], ◌∷◌, Option, none, some, if◌then◌else◌, unwrap_or, filter, map, ◌≡◌,
  refl, ap, ap₂, ◌∙◌, arith, Bool-cases, inl, inr,
}
use percept.Prelude.Eq.{string_eq, ◌=?◌}
use percept.Prelude.Assoc.{lookup, insert, lookup-insert}
use percept.Core.Event.{Event}
use percept.Ingest.Wire.{IngestEnvelope}
use percept.Ingest.Bus.{Bus}
use percept.Ingest.Normalizer.{
  Draw, Normalizer, EmbedSink, next_seq, normalize, to_cold, to_embedder, to_forwarder, on_envelope,
  run,
}

-- `k + 1`, `k + 2` and so on, `n` of them.
abbrev pub count_from : ℕ → List Event → List (Option ℕ)
count_from k [] = []
count_from k (_ ∷ es) = some (suc k) ∷ count_from (suc k) es

abbrev pub of_source : String → List Event → List Event
of_source source_id = filter (λ e. e.source_id =? source_id)

module _ (bus : Bus Event) where
  -- The number of events of a source so far.
  abbrev pub so_far : Normalizer bus → String → ℕ
  so_far n source_id = unwrap_or (lookup source_id n.seq_by_source) 0

  to_cold-seq : (e : Event) (n : Normalizer bus) → (to_cold bus e n).seq_by_source ≡ n.seq_by_source
  unfolding to_cold
  to_cold-seq e n = refl

  to_embedder-seq :
      (e : Event) (n : Normalizer bus) → (to_embedder bus e n).seq_by_source ≡ n.seq_by_source
  unfolding to_embedder
  to_embedder-seq e n = go n.embed_sink refl
    where
      go :
          (sink : Option (EmbedSink bus))
          → n.embed_sink ≡ sink
          → (to_embedder bus e n).seq_by_source ≡ n.seq_by_source
      go none h = rw h refl
      go (some sink) h = rw h refl

  to_forwarder-seq :
      (e : Event) (n : Normalizer bus) → (to_forwarder bus e n).seq_by_source ≡ n.seq_by_source
  unfolding to_forwarder
  to_forwarder-seq e n = refl

  on_envelope-seq_by_source :
      (d : Draw) (n : Normalizer bus) (envelope : IngestEnvelope)
      → (on_envelope bus d n envelope).0.seq_by_source
        ≡ insert envelope.event.source_id (next_seq bus n envelope.event.source_id) n.seq_by_source
  unfolding on_envelope normalize
  on_envelope-seq_by_source d n envelope =
      to_forwarder-seq _ _ ∙ to_embedder-seq _ _ ∙ to_cold-seq _ _

  on_envelope-so_far :
      (d : Draw) (n : Normalizer bus) (envelope : IngestEnvelope) (source_id : String)
      → so_far (on_envelope bus d n envelope).0 source_id ≡ (
          if envelope.event.source_id =? source_id
          then suc (so_far n source_id)
          else so_far n source_id)
  unfolding next_seq
  on_envelope-so_far d n envelope source_id = rw (on_envelope-seq_by_source d n envelope) (
      ground (
        arith,
        lookup-insert envelope.event.source_id source_id (next_seq bus n envelope.event.source_id)
            n.seq_by_source,
        string_eq.beq_iff envelope.event.source_id source_id,
      ))

  on_envelope-event :
      (d : Draw) (n : Normalizer bus) (envelope : IngestEnvelope)
      → let e = (on_envelope bus d n envelope).1 in
        (e.source_id ≡ envelope.event.source_id)
        × (e.seq ≡ some (suc (so_far n envelope.event.source_id)))
  unfolding on_envelope normalize next_seq
  on_envelope-event d n envelope = (refl, ap some (omega arith))

  -- Whatever comes of the sinks, the events of a source carry consecutive numbers, in the order in which
  -- the normalizer handles them, and start after those that it has given before.
  pub run-seq :
      (source_id : String) (turns : List (Draw × IngestEnvelope)) (n : Normalizer bus)
      → let es = of_source source_id (run bus n turns).1 in
        map (λ e. e.seq) es ≡ count_from (so_far n source_id) es
  unfolding run
  run-seq source_id [] n = refl
  run-seq source_id ((d, envelope) ∷ turns) n =
      let (same, number) = on_envelope-event d n envelope in
      let ih = run-seq source_id turns (on_envelope bus d n envelope).0 in
      let counted = on_envelope-so_far d n envelope source_id in
      elim (Bool-cases (envelope.event.source_id =? source_id)) [
        | inl mine ↦
            let one : so_far n envelope.event.source_id ≡ so_far n source_id =
              ap (so_far n) ((string_eq.beq_iff envelope.event.source_id source_id).0 mine) in
            rw (same, mine, number)
              (ap₂ ◌∷◌ (ap (λ k. some (suc k)) one) (rw mine at (rw counted at ih)))
        | inr other ↦ rw (same, other) (rw other at (rw counted at ih))
      ]
