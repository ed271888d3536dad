-- ===== src/Ingest/Mqtt/Router.antt =====
-- crates/ingest/src/mqtt/router.rs: from a topic and a payload to an event. The crate `jsonpath_rust` is
-- the parameter `paths`.
use percept.Prelude.{ℕ, String, List, [], ◌∷◌, Option, none, some}
use percept.Prelude.Int.{ℤ}
use percept.Prelude.Result.{Result, ok, err, ◌>>=◌}
use percept.Core.Json.{Value}
use percept.Ingest.Wire.{IngestEvent}
use percept.Ingest.Mqtt.Topic.{TopicSegment, TopicCaptures, captures}
use percept.Ingest.Mqtt.Topic
use percept.Ingest.Mqtt.Render.{TemplateError, render}
use percept.Ingest.Mqtt.Decode.{PayloadFormat, DecodeError, Decoders, decode}

-- The compiler of paths, and the nodes that a path finds, of which one may have no value.
pub record JsonPaths : Type 1 where
  pub JsonPath : Type 0
  pub try_from : String → Option JsonPath
  pub find_slice : JsonPath → Value → List (Option Value)

pub record Subscription : Type 0 where
  pub topic_filter : String
  pub source_id_template : String
  pub kind : Option String
  pub kind_field : Option String
  pub payload : PayloadFormat

pub data CompileError : Type 0 where
  bad_json_path : String → CompileError

pub data RouteError : Type 0 where
  no_match : String → RouteError
  template : TemplateError → RouteError
  decode_error : DecodeError → RouteError
  unresolved_kind : String → RouteError

-- `v.as_str()` of the nodes: the first that is a text.
unfoldable pub first_text : List (Option Value) → Option String
first_text [] = none
first_text (some (Value.string s) ∷ nodes) = some s
first_text (_ ∷ nodes) = first_text nodes

abbrev pub or_unresolved : String → Option String → Result RouteError String
or_unresolved raw none = err (unresolved_kind raw)
or_unresolved raw (some s) = ok s

abbrev pub of_template : Result TemplateError String → Result RouteError String
of_template (ok s) = ok s
of_template (err e) = err (template e)

abbrev pub of_decode : Result DecodeError Value → Result RouteError Value
of_decode (ok v) = ok v
of_decode (err e) = err (decode_error e)

module _ (paths : JsonPaths) (decoders : Decoders) where
  open paths use {JsonPath, try_from, find_slice}

  pub record CompiledSubscription : Type 0 where
    pub topic_filter : String
    pub source_id_template : String
    pub kind : Option String
    pub kind_field : Option (JsonPath × String)
    pub payload : PayloadFormat
    pub matcher : List TopicSegment

  abbrev pub or_bad_path :
      String → Option JsonPath → Result CompileError (Option (JsonPath × String))
  or_bad_path p none = err (bad_json_path p)
  or_bad_path p (some parsed) = ok (some (parsed, p))

  abbrev pub compile_field : Option String → Result CompileError (Option (JsonPath × String))
  compile_field none = ok none
  compile_field (some p) = or_bad_path p (try_from p)

  unfoldable pub compile : Subscription → Result CompileError CompiledSubscription
  compile sub = compile_field sub.kind_field >>= λ kind_field. ok (record {
    topic_filter = sub.topic_filter;
    source_id_template = sub.source_id_template;
    kind = sub.kind;
    kind_field = kind_field;
    payload = sub.payload;
    matcher = Topic.new sub.topic_filter;
  })

  unfoldable pub kind_from :
      Option String → Option (JsonPath × String) → Value → Result RouteError String
  unfolding first_text
  kind_from (some k) field semantic = ok k
  kind_from none (some (path, raw)) semantic =
      or_unresolved raw (first_text (find_slice path semantic))
  kind_from none none semantic = err (unresolved_kind "")

  abbrev pub resolve_kind : CompiledSubscription → Value → Result RouteError String
  resolve_kind sub semantic = kind_from sub.kind sub.kind_field semantic

  -- The body of the loop for the subscription whose filter matches.
  unfoldable pub route_one :
      CompiledSubscription
      → TopicCaptures
      → List ℕ
      → ℤ
      → Option String
      → Result RouteError IngestEvent
  unfolding kind_from
  route_one sub found payload ts_ms_utc producer_id =
      of_template (render sub.source_id_template found) >>= λ source_id.
      of_decode (decode decoders sub.payload payload) >>= λ semantic.
      resolve_kind sub semantic >>= λ kind. ok (record {
        event_id = none;
        source_id = source_id;
        kind = kind;
        ts_ms_utc = ts_ms_utc;
        semantic = semantic;
        links = none;
        trace_id = none;
        producer_id = producer_id;
      })

  unfoldable pub route :
      List CompiledSubscription
      → String
      → List ℕ
      → ℤ
      → Option String
      → Result RouteError IngestEvent
  route [] topic payload ts_ms_utc producer_id = err (no_match topic)
  route (sub ∷ subs) topic payload ts_ms_utc producer_id =
      let rest = route subs topic payload ts_ms_utc producer_id in
      elim (captures sub.matcher topic) [
        | none ↦ rest
        | some found ↦ route_one sub found payload ts_ms_utc producer_id
      ]
