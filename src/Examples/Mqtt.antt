-- ===== src/Examples/Mqtt.antt =====
-- A subscriber with one subscription, and the decoders, at concrete inputs.
use percept.Prelude.{
  ℕ, ◌+◌, ◌^◌, ◌<◌, String, List, [], ◌∷◌, Option, none, some, ◌≡◌, ◌≢◌, refl, arith,
}
use percept.Prelude.Int.{pos}
use percept.Prelude.Text.{join}
use percept.Prelude.Result.{ok, err}
use percept.Ingest.Wire.{IngestEnvelope}
use percept.Ingest.Bus.{closed}
use percept.Ingest.Metrics
use percept.Ingest.Mqtt.Topic
use percept.Ingest.Mqtt.Render.{render, unknown_placeholder, out_of_range, no_hash}
use percept.Ingest.Mqtt.Decode.{Decoders, raw, to_hex, parse_csv_row}
use percept.Ingest.Mqtt.Decode.Quoted.{quote_all, parse_csv_row-quoted}
use percept.Ingest.Mqtt.Router.{JsonPaths, CompiledSubscription}
use percept.Ingest.Mqtt.Subscriber.{Poll, publish, other, failed, MqttSubscriber, drive_event_loop}
use percept.Ingest.Mqtt.Subscriber.Accounting.{accounted, publishes, drive_event_loop-accounted}
use percept.Examples.Data.{one_slot, push_one}

-- The tests of the source.
csv_tests :
    (parse_csv_row "a,b,c" ≡ "a" ∷ "b" ∷ "c" ∷ [])
    × (parse_csv_row "\"a,b\",c" ≡ "a,b" ∷ "c" ∷ [])
    × (parse_csv_row "" ≡ "" ∷ [])
    × (to_hex (0xde ∷ 0xad ∷ 0xbe ∷ 0xef ∷ []) ≡ "deadbeef")
unfolding parse_csv_row to_hex
csv_tests = (refl, refl, refl, refl)

abbrev found : Topic.TopicCaptures
found = record { pluses = "kitchen" ∷ "temp" ∷ []; hash_tail = some "a/b" }

abbrev nothing_found : Topic.TopicCaptures
nothing_found = record { pluses = []; hash_tail = none }

render_tests :
    (render "mqtt.{+1}.{+2}" found ≡ ok "mqtt.kitchen.temp")
    × (render "x.{#}" found ≡ ok "x.a/b")
    × (render "x.{#}" nothing_found ≡ err no_hash)
    × (render "x.{+3}" found ≡ err (out_of_range 3 2))
    × (render "x.{nope}" found ≡ err (unknown_placeholder "nope"))
unfolding render
render_tests = (refl, refl, refl, refl, refl)

parse_csv_row-quoted_example :
    parse_csv_row (join "," (quote_all ("say \"hi\", twice" ∷ "" ∷ [])))
    ≡ "say \"hi\", twice" ∷ "" ∷ []
parse_csv_row-quoted_example = parse_csv_row-quoted "say \"hi\", twice" ("" ∷ [])

-- No path compiles; of payloads, only the empty one is a text.
abbrev no_paths : JsonPaths
no_paths = record { JsonPath = String; try_from = λ _. none; find_slice = λ _ _. [] }

abbrev read_empty : List ℕ → Option String
read_empty [] = some ""
read_empty (_ ∷ _) = none

abbrev decoders : Decoders
decoders = record { from_slice = λ _. none; encode_base64 = λ _. ""; from_utf8 = read_empty }

abbrev sensors : CompiledSubscription no_paths decoders
sensors = record {
  topic_filter = "home/+/temp";
  source_id_template = "temp.{+1}";
  kind = some "temperature@v1";
  kind_field = none;
  payload = raw;
  matcher = Topic.new "home/+/temp";
}

abbrev subscriber : MqttSubscriber no_paths decoders (one_slot IngestEnvelope)
subscriber = record {
  broker_id = "home";
  subscriptions = sensors ∷ [];
  tx = [];
  metrics = record {
    messages_received = 0;
    messages_unmatched = 0;
    messages_decode_failed = 0;
    reconnects = 0;
  };
  ingest_metrics = Metrics.new;
}

-- Two messages for a channel of one, one that matches nothing and one that is no text.
abbrev polls : List Poll
polls =
    publish "home/kitchen/temp" [] (pos 1)
    ∷ other
    ∷ publish "home/hall/temp" [] (pos 2)
    ∷ failed
    ∷ publish "garden/temp" [] (pos 3)
    ∷ publish "home/hall/temp" (255 ∷ []) (pos 4)
    ∷ []

never_closed : (c : List IngestEnvelope) (m : IngestEnvelope) → (push_one c m).1 ≢ closed
never_closed [] m h = absurd cc
never_closed (x ∷ xs) m h = absurd cc

drive_event_loop-accounted_example :
    (accounted no_paths decoders
        (one_slot IngestEnvelope)
        (drive_event_loop no_paths decoders (one_slot IngestEnvelope) subscriber polls)
      ≡ accounted no_paths decoders (one_slot IngestEnvelope) subscriber + publishes polls)
    × ((drive_event_loop no_paths decoders
          (one_slot IngestEnvelope)
          subscriber
          polls).metrics.messages_received
        ≡ subscriber.metrics.messages_received + publishes polls)
unfolding Metrics.consumer_drop_count percept.Prelude.Assoc.lookup
drive_event_loop-accounted_example =
    drive_event_loop-accounted no_paths decoders (one_slot IngestEnvelope) polls subscriber
      never_closed (omega arith) (omega arith)
