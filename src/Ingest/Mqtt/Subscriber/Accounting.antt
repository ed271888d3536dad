-- ===== src/Ingest/Mqtt/Subscriber/Accounting.antt =====
-- On crates/ingest/src/mqtt/subscriber.rs: where the messages of a broker go.
use percept.Prelude.{
  ℕ, suc, ◌+◌, ◌^◌, ◌<◌, String, List, [], ◌∷◌, ◌++◌, some, length, length-append, ◌≡◌, ◌≢◌, refl,
  sym, ap, ◌∙◌, arith,
}
use percept.Prelude.Int.{ℤ}
use percept.Prelude.Eq.{string_eq}
use percept.Prelude.Assoc.{lookup-insert_self}
use percept.Prelude.Result.{Result, ok, err}
use percept.Ingest.Wire.{IngestEvent, IngestEnvelope}
use percept.Ingest.Bus.{Bus, SendResult, sent, full, closed}
use percept.Ingest.Metrics.{Metrics, fetch_add, inc_consumer_drop, inc_in_map, consumer_drop_count}
use percept.Ingest.Mqtt.Decode.{Decoders}
use percept.Ingest.Mqtt.Router.{
  JsonPaths, RouteError, no_match, template, decode_error, unresolved_kind, route,
}
use percept.Ingest.Mqtt.Subscriber.{
  Poll, publish, other, failed, MqttSubscriber, on_route, after_send, envelope_of, handle_publish,
  turn, drive_event_loop,
}

-- The messages among the events.
abbrev pub publishes : List Poll → ℕ
publishes [] = 0
publishes (publish _ _ _ ∷ ps) = suc (publishes ps)
publishes (other ∷ ps) = publishes ps
publishes (failed ∷ ps) = publishes ps

count_one : (n : ℕ) → suc n < 2 ^ 64 → fetch_add n 1 ≡ suc n
count_one n h = omega arith

drop_counted :
    (m : Metrics)
    → consumer_drop_count (inc_consumer_drop m "mqtt_subscriber") "mqtt_subscriber"
      ≡ fetch_add (consumer_drop_count m "mqtt_subscriber") 1
unfolding consumer_drop_count inc_consumer_drop inc_in_map
drop_counted m = rw (lookup-insert_self "mqtt_subscriber" _ m.consumer_drops) refl

module _ (paths : JsonPaths) (decoders : Decoders) (bus : Bus IngestEnvelope) where
  open bus use {Chan, waiting, try_send, sent_lem, not_sent_lem}

  abbrev drops : MqttSubscriber paths decoders bus → ℕ
  drops s = consumer_drop_count s.ingest_metrics "mqtt_subscriber"

  -- The messages in the channel and those that the counters stand for.
  abbrev pub accounted : MqttSubscriber paths decoders bus → ℕ
  accounted s =
      length (waiting s.tx)
      + drops s
      + s.metrics.messages_unmatched
      + s.metrics.messages_decode_failed

  send_cases :
      (s : MqttSubscriber paths decoders bus) (m : IngestEnvelope) (p : Chan × SendResult)
      → p ≡ try_send s.tx m
      → suc (accounted s) < 2 ^ 64
      → p.1 ≢ closed
      → accounted (after_send paths decoders bus s p) ≡ suc (accounted s)
  send_cases s m (tx, sent) e l live =
      let grown : waiting tx ≡ waiting s.tx ++ m ∷ [] =
        ap (λ q. waiting q.0) e ∙ sent_lem s.tx m (ap (λ q. q.1) (sym e)) in
      omega (arith, ap length grown ∙ length-append (waiting s.tx) (m ∷ []))
  send_cases s m (tx, full) e l live =
      let same : waiting tx ≡ waiting s.tx =
        ap (λ q. waiting q.0) e ∙ not_sent_lem s.tx m (λ h. absurd (cc (h, ap (λ q. q.1) e))) in
      omega
        (arith, ap length same, drop_counted s.ingest_metrics, count_one (drops s) (omega arith))
  send_cases s m (tx, closed) e l live = absurd (live refl)

  on_route-accounted :
      (s : MqttSubscriber paths decoders bus) (r : Result RouteError IngestEvent)
      → suc (accounted s) < 2 ^ 64
      → ((c : Chan) (m : IngestEnvelope) → (try_send c m).1 ≢ closed)
      → accounted (on_route paths decoders bus s r) ≡ suc (accounted s)
  on_route-accounted s (ok event) l live =
      send_cases s (envelope_of paths decoders bus s.broker_id event)
        (try_send s.tx (envelope_of paths decoders bus s.broker_id event)) refl l
        (live s.tx (envelope_of paths decoders bus s.broker_id event))
  on_route-accounted s (err (no_match _)) l live =
      omega (arith, count_one s.metrics.messages_unmatched (omega arith))
  on_route-accounted s (err (decode_error _)) l live =
      omega (arith, count_one s.metrics.messages_decode_failed (omega arith))
  on_route-accounted s (err (unresolved_kind _)) l live =
      omega (arith, count_one s.metrics.messages_decode_failed (omega arith))
  on_route-accounted s (err (template _)) l live =
      omega (arith, count_one s.metrics.messages_decode_failed (omega arith))

  send_received :
      (s : MqttSubscriber paths decoders bus) (p : Chan × SendResult)
      → (after_send paths decoders bus s p).metrics.messages_received ≡ s.metrics.messages_received
  send_received s (tx, sent) = refl
  send_received s (tx, full) = refl
  send_received s (tx, closed) = refl

  on_route-received :
      (s : MqttSubscriber paths decoders bus) (r : Result RouteError IngestEvent)
      → (on_route paths decoders bus s r).metrics.messages_received ≡ s.metrics.messages_received
  on_route-received s (ok event) =
      send_received s (try_send s.tx (envelope_of paths decoders bus s.broker_id event))
  on_route-received s (err (no_match _)) = refl
  on_route-received s (err (decode_error _)) = refl
  on_route-received s (err (unresolved_kind _)) = refl
  on_route-received s (err (template _)) = refl

  publish-accounted :
      (s : MqttSubscriber paths decoders bus) (topic : String) (payload : List ℕ) (now : ℤ)
      → ((c : Chan) (m : IngestEnvelope) → (try_send c m).1 ≢ closed)
      → suc (accounted s) < 2 ^ 64
      → suc s.metrics.messages_received < 2 ^ 64
      → let s' = turn paths decoders bus s (publish topic payload now) in
        (accounted s' ≡ suc (accounted s))
        × (s'.metrics.messages_received ≡ suc s.metrics.messages_received)
  unfolding handle_publish
  publish-accounted s topic payload now live l k =
      let counted : MqttSubscriber paths decoders bus = record s {
        metrics = record s.metrics { messages_received = fetch_add s.metrics.messages_received 1 };
      } in
      let r : Result RouteError IngestEvent =
        route paths decoders s.subscriptions topic payload now (some s.broker_id) in
      (
        on_route-accounted counted r l live,
        on_route-received counted r ∙ count_one s.metrics.messages_received k,
      )

  -- While the channel is not closed and no counter comes to 2^64, each message received is counted as
  -- such and has gone to just one place: it waits in the channel or is counted as dropped, as unmatched
  -- or as not decoded. Other events and failures of the connection change none of these.
  pub drive_event_loop-accounted :
      (ps : List Poll) (s : MqttSubscriber paths decoders bus)
      → ((c : Chan) (m : IngestEnvelope) → (try_send c m).1 ≢ closed)
      → accounted s + publishes ps < 2 ^ 64
      → s.metrics.messages_received + publishes ps < 2 ^ 64
      → (accounted (drive_event_loop paths decoders bus s ps) ≡ accounted s + publishes ps)
        × ((drive_event_loop paths decoders bus s ps).metrics.messages_received
            ≡ s.metrics.messages_received + publishes ps)
  unfolding drive_event_loop
  drive_event_loop-accounted [] s live l k = (omega arith, omega arith)
  drive_event_loop-accounted (other ∷ ps) s live l k = drive_event_loop-accounted ps s live l k
  drive_event_loop-accounted (failed ∷ ps) s live l k =
      drive_event_loop-accounted ps (turn paths decoders bus s failed) live l k
  drive_event_loop-accounted (publish topic payload now ∷ ps) s live l k =
      let s' : MqttSubscriber paths decoders bus =
        turn paths decoders bus s (publish topic payload now) in
      let (one, got) = publish-accounted s topic payload now live (omega arith) (omega arith) in
      let (a, b) =
        drive_event_loop-accounted ps s' live (omega (arith, one)) (omega (arith, got)) in
      (omega (arith, one, a), omega (arith, got, b))
