-- ===== src/Ingest/Normalizer/Rings.antt =====
-- On crates/ingest/src/normalizer.rs: the hot rings, and the sinks.
use percept.Prelude.{List, [], ◌∷◌, Option, none, some, ◌≡◌, refl, ap, ◌∙◌}
use percept.Core.Event.{Event}
use percept.Store.HotRing.{HotRings, push}
use percept.Ingest.Wire.{IngestEnvelope}
use percept.Ingest.Bus.{Bus}
use percept.Ingest.Normalizer.{
  Draw, Normalizer, EmbedSink, to_cold, to_embedder, to_forwarder, normalize, on_envelope, run,
}

-- A history of pushes, each with the clock that it reads.
abbrev pub push_all : HotRings → List (Draw × IngestEnvelope) → List Event → HotRings
push_all h [] es = h
push_all h (_ ∷ turns) [] = h
push_all h ((d, _) ∷ turns) (e ∷ es) = push_all (push h d.push_ms e).0 turns es

module _ (bus : Bus Event) where
  to_embedder-rings :
      (e : Event) (n : Normalizer bus) → (to_embedder bus e n).hot_rings ≡ n.hot_rings
  unfolding to_embedder
  to_embedder-rings e n = go n.embed_sink refl
    where
      go :
          (sink : Option (EmbedSink bus))
          → n.embed_sink ≡ sink
          → (to_embedder bus e n).hot_rings ≡ n.hot_rings
      go none h = rw h refl
      go (some sink) h = rw h refl

  on_envelope-rings :
      (d : Draw) (n : Normalizer bus) (envelope : IngestEnvelope)
      → (on_envelope bus d n envelope).0.hot_rings
        ≡ (push n.hot_rings d.push_ms (on_envelope bus d n envelope).1).0
  unfolding on_envelope to_cold to_forwarder normalize
  on_envelope-rings d n envelope = to_embedder-rings _ _

  -- However full or closed the three sinks are, the hot rings are those after pushing every event that
  -- the normalizer made, in order: no event is kept from them.
  pub run-rings :
      (turns : List (Draw × IngestEnvelope)) (n : Normalizer bus)
      → let out = run bus n turns in out.0.hot_rings ≡ push_all n.hot_rings turns out.1
  unfolding run
  run-rings [] n = refl
  run-rings ((d, envelope) ∷ turns) n =
      run-rings turns (on_envelope bus d n envelope).0
      ∙ ap (λ h. push_all h turns (run bus (on_envelope bus d n envelope).0 turns).1)
          (on_envelope-rings d n envelope)
