-- ===== src/Examples/Ingest.antt =====
-- The front doors, the normalizer, schemas and topics at concrete inputs.
use Prim.Native.String
use percept.Prelude.{
  ℕ, ◌+◌, ◌<◌, ◌≤◌, String, List, [], ◌∷◌, ◌++◌, Option, none, some, Bool, true, false, map, take,
  length, code, ltb, ◌≡◌, ◌⊎◌, ◌↔◌, inl, inr, refl, All, arith,
}
use percept.Prelude.Int.{pos}
use percept.Prelude.Text.{split_once, split, join}
use percept.Core.Json.{Value}
use percept.Core.Event.{Event}
use percept.Core.Descriptor.{KindDescriptor}
use percept.Store.HotRing
use percept.Ingest.Auth.{Result, Globs, TokenScope, build_scope, allows, allows-build_scope_nil}
use percept.Ingest.Auth
use percept.Ingest.Auth.RateLimit.{per_second, per_minute, per_hour, parse_rate_limit}
use percept.Ingest.Metrics
use percept.Ingest.Wire.{IngestEnvelope}
use percept.Ingest.Http.{admit}
use percept.Ingest.Http.Admission.{Outcome, Passes, admit-Outcome}
use percept.Ingest.Ws.{admit_frame}
use percept.Ingest.Ws.SameChannel.{admit_frame-admit}
use percept.Ingest.Normalizer.{Draw, Normalizer, run}
use percept.Ingest.Normalizer.Numbers.{of_source, count_from, run-seq}
use percept.Ingest.Normalizer.Rings.{push_all, run-rings}
use percept.Ingest.Schema.{Schemas, SchemaIndex, build, built}
use percept.Ingest.Schema.Precedence.{Covers, build-Covers}
use percept.Ingest.Mqtt.Topic.{TopicCaptures, captures, new, slash}
use percept.Ingest.Mqtt.Topic.Filled.{IsFilled, captures-iff_IsFilled}
use percept.Examples.Data.{small, one_slot, literals, reader, reading, front_door}

-- The tests of the source.
parse_rate_limit_tests :
    (parse_rate_limit "100/s" ≡ some (per_second 100))
    × (parse_rate_limit "10/m" ≡ some (per_minute 10))
    × (parse_rate_limit " 1 / h" ≡ some (per_hour 1))
    × (parse_rate_limit "0/s" ≡ none)
    × (parse_rate_limit "garbage" ≡ none)
    × (parse_rate_limit "10/d" ≡ none)
unfolding parse_rate_limit split_once
parse_rate_limit_tests = (refl, refl, refl, refl, refl, refl)

-- Two events on a bus with room for one.
admit-Outcome_example :
    (o : Outcome literals (one_slot IngestEnvelope) reader front_door (reading ∷ reading ∷ []) 0 (
      admit literals
        (one_slot IngestEnvelope)
        reader
        (pos 9)
        none
        front_door
        (reading ∷ reading ∷ [])))
    × ((o.k ≡ 0)
        ⊎ All (Passes literals (one_slot IngestEnvelope) reader 65536) (reading ∷ reading ∷ []))
admit-Outcome_example =
    admit-Outcome literals (one_slot IngestEnvelope) reader (pos 9) none front_door
      (reading ∷ reading ∷ [])

admit_frame-admit_example :
    (admit_frame literals
      (one_slot IngestEnvelope)
      reader
      (pos 9)
      none
      front_door
      (reading ∷ [])).0.tx
    ≡ (admit literals (one_slot IngestEnvelope) reader (pos 9) none front_door (reading ∷ [])).0.tx
admit_frame-admit_example =
    admit_frame-admit literals (one_slot IngestEnvelope) reader (pos 9) none front_door
      (reading ∷ [])

abbrev nobody : TokenScope literals
nobody = record { name = "n"; source_globs = []; kind_globs = "temperature" ∷ []; limiter = none }

nobody_built : build_scope literals "n" [] ("temperature" ∷ []) none ≡ Auth.ok nobody
unfolding build_scope percept.Ingest.Auth.build_globs
nobody_built = refl

allows-build_scope_nil_example : allows literals nobody "temp.fridge" "temperature" ≡ false
allows-build_scope_nil_example =
    allows-build_scope_nil literals "n" [] ("temperature" ∷ []) none nobody "temp.fridge"
      "temperature" nobody_built (inl refl)

abbrev sinkless : Normalizer (one_slot Event)
sinkless = record {
  hot_rings = HotRing.new small;
  metrics = Metrics.new;
  cold_tx = some [];
  embed_sink = none;
  forward_tx = none;
  seq_by_source = [];
}

abbrev draw : ℕ → Draw
draw n = record {
  new_event_id = n;
  new_trace_id = "t";
  now_ms = pos n;
  push_ms = pos n;
  validation = none;
}

abbrev turns : List (Draw × IngestEnvelope)
turns =
    (draw 1, record { event = reading; token_name = none })
    ∷ (draw 2, record { event = reading; token_name = none })
    ∷ []

run-seq_example :
    let es = of_source "temp.fridge" (run (one_slot Event) sinkless turns).1 in
    map (λ e. e.seq) es ≡ count_from 0 es
unfolding percept.Prelude.Assoc.lookup
run-seq_example = run-seq (one_slot Event) "temp.fridge" turns sinkless

run-rings_example :
    let out = run (one_slot Event) sinkless turns in
    out.0.hot_rings ≡ push_all (HotRing.new small) turns out.1
run-rings_example = run-rings (one_slot Event) turns sinkless

-- Schemas that accept every payload; versions are compared by their length.
ltb_asym : (a b : ℕ) → ltb a b ≡ true → ltb b a ≡ false
ltb_asym a b h = ground arith

not_ltb_trans : (a b c : ℕ) → ltb b a ≡ false → ltb c b ≡ false → ltb c a ≡ false
not_ltb_trans a b c h k = ground arith

abbrev lenient : Schemas
lenient = record {
  Schema = Value;
  compile = some;
  is_valid = λ s v. true;
  less = λ a b. ltb (String.len a) (String.len b);
  less_asym = λ a b. ltb_asym (String.len a) (String.len b);
  not_less_trans = λ a b c. not_ltb_trans (String.len a) (String.len b) (String.len c);
}

abbrev kind : String → KindDescriptor
kind version = record {
  kind = "k";
  version = version;
  description = "";
  usage = "";
  caveats = "";
  semantic_schema = none;
  units = none;
  updated_ts_ms_utc = pos 0;
}

abbrev index : SchemaIndex lenient
index = record { source = []; kind = []; latest_version = ("k", "v10") ∷ [] }

index-built : build lenient [] (kind "v10" ∷ kind "v9" ∷ []) ≡ built index
unfolding build percept.Ingest.Schema.build_sources percept.Ingest.Schema.build_kinds
    percept.Ingest.Schema.track_version percept.Prelude.Assoc.lookup percept.Prelude.Assoc.insert
index-built = refl

build-Covers_example : All (Covers lenient index) (kind "v10" ∷ kind "v9" ∷ [])
build-Covers_example = build-Covers lenient [] (kind "v10" ∷ kind "v9" ∷ []) index index-built

abbrev kitchen : TopicCaptures
kitchen = record { pluses = "kitchen" ∷ []; hash_tail = none }

captures-iff_IsFilled_example :
    (captures (new "home/+") "home/kitchen" ≡ some kitchen)
    ↔ IsFilled (new "home/+") (split (code slash) "home/kitchen") [] kitchen
captures-iff_IsFilled_example = captures-iff_IsFilled (new "home/+") "home/kitchen" kitchen

-- Two topics that the rules of MQTT would not have match: one of the broker's own, and one whose level
-- behind a `#` in the middle of a filter is another.
loose_tests :
    (captures (new "#") "$SYS/uptime"
      ≡ some (record { pluses = []; hash_tail = some "$SYS/uptime" }))
    × (captures (new "a/#/b") "a/c" ≡ some (record { pluses = []; hash_tail = some "c" }))
unfolding captures new split join percept.Ingest.Mqtt.Topic.capture
    percept.Ingest.Mqtt.Topic.segment
loose_tests = (refl, refl)

kitchen_test : captures (new "home/+") "home/kitchen" ≡ some kitchen
unfolding captures new split percept.Ingest.Mqtt.Topic.capture percept.Ingest.Mqtt.Topic.segment
kitchen_test = refl
