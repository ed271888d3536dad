-- ===== src/Ingest/Mqtt/Subscriber.antt =====
-- crates/ingest/src/mqtt/subscriber.rs: what the task does with the events of the client `rumqttc`, its
-- counters, and the channel to the normalizer. The connection, the pause after an error and the text of
-- the metrics are left out.
pub mod Accounting
use percept.Prelude.{ℕ, suc, ◌+◌, String, List, [], ◌∷◌, Option, none, some, length}
use Prim.Native.String
use percept.Prelude.Int.{ℤ}
use percept.Prelude.Result.{Result, ok, err}
use percept.Ingest.Wire.{IngestEvent, IngestEnvelope}
use percept.Ingest.Bus.{Bus, SendResult, sent, full, closed}
use percept.Ingest.Metrics.{Metrics, fetch_add, inc_consumer_drop}
use percept.Ingest.Mqtt.Decode.{Decoders}
use percept.Ingest.Mqtt.Router.{
  JsonPaths, CompiledSubscription, RouteError, no_match, template, decode_error, unresolved_kind,
  route,
}

pub record MqttMetrics : Type 0 where
  pub messages_received : ℕ
  pub messages_unmatched : ℕ
  pub messages_decode_failed : ℕ
  pub reconnects : ℕ

-- What `eventloop.poll()` gives: a message with the time at which it is handled, another event, or an
-- error of the connection.
pub data Poll : Type 0 where
  publish : String → List ℕ → ℤ → Poll
  other failed : Poll

module _ (paths : JsonPaths) (decoders : Decoders) (bus : Bus IngestEnvelope) where
  open bus use {Chan, waiting, try_send}

  -- The counters and the channel. `broker_id` and the subscriptions do not change.
  pub record MqttSubscriber : Type 0 where
    pub broker_id : String
    pub subscriptions : List (CompiledSubscription paths decoders)
    pub tx : Chan
    pub metrics : MqttMetrics
    pub ingest_metrics : Metrics

  abbrev pub count_unmatched : MqttSubscriber → MqttSubscriber
  count_unmatched s = record s {
    metrics = record s.metrics { messages_unmatched = fetch_add s.metrics.messages_unmatched 1 };
  }

  abbrev pub count_failed : MqttSubscriber → MqttSubscriber
  count_failed s = record s {
    metrics = record s.metrics {
      messages_decode_failed = fetch_add s.metrics.messages_decode_failed 1;
    };
  }

  -- A closed channel is only logged.
  abbrev pub after_send : MqttSubscriber → Chan × SendResult → MqttSubscriber
  after_send s (tx, sent) = record s { tx = tx }
  after_send s (tx, full) = record s {
    tx = tx;
    ingest_metrics = inc_consumer_drop s.ingest_metrics "mqtt_subscriber";
  }
  after_send s (tx, closed) = record s { tx = tx }

  abbrev pub envelope_of : String → IngestEvent → IngestEnvelope
  envelope_of broker_id event = record {
    event = event;
    token_name = some (String.◌++◌ "mqtt:" broker_id);
  }

  abbrev pub on_route : MqttSubscriber → Result RouteError IngestEvent → MqttSubscriber
  on_route s (ok event) = after_send s (try_send s.tx (envelope_of s.broker_id event))
  on_route s (err (no_match _)) = count_unmatched s
  on_route s (err (decode_error _)) = count_failed s
  on_route s (err (unresolved_kind _)) = count_failed s
  on_route s (err (template _)) = count_failed s

  unfoldable pub handle_publish : String → List ℕ → ℤ → MqttSubscriber → MqttSubscriber
  unfolding inc_consumer_drop
  handle_publish topic payload now_ms s =
      on_route s (route paths decoders s.subscriptions topic payload now_ms (some s.broker_id))

  abbrev pub turn : MqttSubscriber → Poll → MqttSubscriber
  turn s (publish topic payload now_ms) = handle_publish topic payload now_ms (record s {
    metrics = record s.metrics { messages_received = fetch_add s.metrics.messages_received 1 };
  })
  turn s other = s
  turn s failed = record s {
    metrics = record s.metrics { reconnects = fetch_add s.metrics.reconnects 1 };
  }

  -- The loop, which has no end, over the events that come.
  unfoldable pub drive_event_loop : MqttSubscriber → List Poll → MqttSubscriber
  drive_event_loop s [] = s
  drive_event_loop s (p ∷ ps) = drive_event_loop (turn s p) ps
