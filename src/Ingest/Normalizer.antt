-- ===== src/Ingest/Normalizer.antt =====
-- crates/ingest/src/normalizer.rs: the task that gives each event its number, its identity and its
-- times, and hands it to the hot rings and the three sinks. What it asks of outside is an argument: new
-- identifiers, the clock, and what a schema says of a payload.
pub mod Numbers
pub mod Rings
use percept.Prelude.{
  ℕ, ◌+◌, String, List, [], ◌∷◌, Option, none, some, Bool, true, false, if◌then◌else◌, unwrap_or,
}
use percept.Prelude.Int.{ℤ}
use percept.Prelude.Eq.{string_eq}
use percept.Prelude.Assoc.{lookup, insert}
use percept.Core.Event.{Event, Ulid}
use percept.Store.HotRing.{HotRings, push}
use percept.Store.Vector.Selector.{EmbedSelector, should_embed}
use percept.Ingest.Metrics.{
  Metrics, fetch_add, inc_accepted, inc_consumer_drop, inc_schema_invalid, inc_source_error,
}
use percept.Ingest.Wire.{IngestEvent, IngestEnvelope}
use percept.Ingest.Bus.{Bus, SendResult, sent, full, closed}

-- What one turn of the loop draws from outside: the identifiers of `new_event_id` (the second as text),
-- the two readings of the clock, in `normalize` and in the push, and the answer of
-- `SchemaIndex::validate`.
pub record Draw : Type 0 where
  pub new_event_id : Ulid
  pub new_trace_id : String
  pub now_ms : ℤ
  pub push_ms : ℤ
  pub validation : Option Bool

module _ (bus : Bus Event) where
  open bus use {Chan, try_send}

  pub record EmbedSink : Type 0 where
    pub tx : Chan
    pub selector : EmbedSelector

  -- The task's state with the rings and the metrics that it shares with other tasks.
  pub record Normalizer : Type 0 where
    pub hot_rings : HotRings
    pub metrics : Metrics
    pub cold_tx : Option Chan
    pub embed_sink : Option EmbedSink
    pub forward_tx : Option Chan
    pub seq_by_source : List (String × ℕ)

  -- `*seq_entry += 1`, which would take 2 ^ 64 events to overflow.
  unfoldable pub next_seq : Normalizer → String → ℕ
  next_seq n source_id = unwrap_or (lookup source_id n.seq_by_source) 0 + 1

  abbrev pub count_invalid : Option Bool → String → ℤ → Metrics → Metrics
  count_invalid (some true) source_id now_ms m =
      inc_source_error (inc_schema_invalid m) source_id "schema_invalid" now_ms
  count_invalid _ source_id now_ms m = m

  abbrev pub flag_of : Option Bool → Option Bool
  flag_of (some true) = some true
  flag_of _ = none

  unfoldable pub normalize : Draw → Normalizer → IngestEvent → Normalizer × Event
  normalize d n e =
      let seq = next_seq n e.source_id in
      (
        record n {
          seq_by_source = insert e.source_id seq n.seq_by_source;
          metrics = count_invalid d.validation e.source_id d.now_ms n.metrics;
        },
        record {
          event_id = unwrap_or e.event_id d.new_event_id;
          source_id = e.source_id;
          kind = e.kind;
          ts_ms_utc = e.ts_ms_utc;
          semantic = e.semantic;
          links = e.links;
          trace_id = some (unwrap_or e.trace_id d.new_trace_id);
          ingest_ts_ms_utc = some d.now_ms;
          seq = some seq;
          producer_id = e.producer_id;
          schema_invalid = flag_of d.validation;
        },
      )

  -- What is counted when a sink does not take an event.
  abbrev pub count_drop : String → SendResult → Metrics → Metrics
  count_drop consumer full m = inc_consumer_drop m consumer
  count_drop consumer sent m = m
  count_drop consumer closed m = m

  -- `try_send` to a sink that may be absent.
  unfoldable pub offer : String → Event → Option Chan × Metrics → Option Chan × Metrics
  offer consumer e (none, m) = (none, m)
  offer consumer e (some tx, m) =
      let (tx', r) = try_send tx e in (some tx', count_drop consumer r m)

  unfoldable pub to_cold : Event → Normalizer → Normalizer
  to_cold e n =
      let (tx, m) = offer "cold_writer" e (n.cold_tx, n.metrics) in
      record n { cold_tx = tx; metrics = m }

  abbrev embed_with : Event → EmbedSink → Metrics → EmbedSink × Metrics
  embed_with e sink m =
      let (tx, r) = try_send sink.tx e in
      if should_embed sink.selector e.source_id e.kind
      then (record sink { tx = tx }, count_drop "embedder" r m)
      else (sink, m)

  unfoldable pub to_embedder : Event → Normalizer → Normalizer
  to_embedder e n = elim n.embed_sink [
    | none ↦ n
    | some sink ↦
        let (sink', m) = embed_with e sink n.metrics in
        record n { embed_sink = some sink'; metrics = m }
  ]

  unfoldable pub to_forwarder : Event → Normalizer → Normalizer
  to_forwarder e n =
      let (tx, m) = offer "forwarder" e (n.forward_tx, n.metrics) in
      record n { forward_tx = tx; metrics = m }

  -- One turn of `run`, with the event that it made.
  unfoldable pub on_envelope : Draw → Normalizer → IngestEnvelope → Normalizer × Event
  on_envelope d n envelope =
      let (n', e) = normalize d n envelope.event in
      let pushed = record n' { hot_rings = (push n'.hot_rings d.push_ms e).0 } in
      let out = to_forwarder e (to_embedder e (to_cold e pushed)) in
      (record out { metrics = inc_accepted out.metrics envelope.token_name }, e)

  -- `run`: the turns until the channel is closed, with the events in their order.
  unfoldable pub run : Normalizer → List (Draw × IngestEnvelope) → Normalizer × List Event
  run n [] = (n, [])
  run n ((d, envelope) ∷ turns) =
      let (n', e) = on_envelope d n envelope in let (out, es) = run n' turns in (out, e ∷ es)
