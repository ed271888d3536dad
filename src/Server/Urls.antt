-- ===== src/Server/Urls.antt =====
-- crates/percept/src/server.rs, `parse_mqtt_url` and `build_mqtt_subscriber`.
use percept.Prelude.{
  ℕ, ◌^◌, String, List, Option, none, some, if◌then◌else◌, unwrap_or, is_some, not, code, ◌==◌,
  ◌&&◌,
}
use Prim.Native.String
use percept.Prelude.Eq.{string_eq, ◌=?◌}
use percept.Prelude.Text.{is_empty, push_front}
use percept.Prelude.Result.{Result, ok, err, ◌>>=◌, traverse}
use percept.Ingest.Auth.RateLimit.{parse_uint}
use percept.Ingest.Http.{strip_prefix}
use percept.Ingest.Mqtt.Decode.{PayloadFormat, Decoders, parse}
use percept.Ingest.Mqtt.Router.{JsonPaths, CompiledSubscription, CompileError, compile}
use percept.Config.Entries.{MqttBroker, MqttCredentials, MqttSubscription}

pub data UrlError : Type 0 where
  no_scheme mqtts_not_supported unknown_scheme no_port invalid_port : UrlError

-- `str::split_once` at a text.
unfoldable pub split_at_text : String → String → Option (String × String)
split_at_text sep String.[] = if is_empty sep then some (String.[], String.[]) else none
split_at_text sep (String.◌∷◌ c s) =
    let rest = split_at_text sep s in
    elim (strip_prefix sep (String.◌∷◌ c s)) [
      | some after ↦ some (String.[], after)
      | none ↦ push_front c rest
    ]

-- `str::rsplit_once`: the last separator.
unfoldable pub rsplit_once : ℕ → String → Option (String × String)
rsplit_once sep String.[] = none
rsplit_once sep (String.◌∷◌ c s) = elim (rsplit_once sep s) [
  | some p ↦ push_front c (some p)
  | none ↦ if code c == sep then some (String.[], s) else none
]

abbrev pub check_scheme : String → Result UrlError String
check_scheme scheme =
    if scheme =? "mqtt"
    then ok scheme
    else if scheme =? "mqtts"
    then err mqtts_not_supported
    else err unknown_scheme

abbrev pub port_of : String → Option ℕ → Result UrlError (String × ℕ)
port_of host none = err invalid_port
port_of host (some port) = ok (host, port)

abbrev pub host_and_port : Option (String × String) → Result UrlError (String × ℕ)
host_and_port none = err no_port
host_and_port (some (host, port_str)) = port_of host (parse_uint (2 ^ 16) port_str)

abbrev pub behind_scheme : Option (String × String) → Result UrlError (String × ℕ)
behind_scheme none = err no_scheme
behind_scheme (some (scheme, rest)) =
    check_scheme scheme >>= λ _. host_and_port (rsplit_once b':' rest)

unfoldable pub parse_mqtt_url : String → Result UrlError (String × ℕ)
unfolding split_at_text rsplit_once parse_uint strip_prefix
parse_mqtt_url url = behind_scheme (split_at_text "://" url)

pub record BrokerConfig : Type 0 where
  pub id : String
  pub host : String
  pub port : ℕ
  pub client_id : String
  pub username : Option String
  pub password : Option String
  pub keep_alive : ℕ  -- a `Duration`, in seconds

pub data BrokerError : Type 0 where
  url : UrlError → BrokerError
  unknown_payload : String → BrokerError
  no_kind : String → BrokerError
  bad_path : CompileError → BrokerError

abbrev pub user_of : Option MqttCredentials → Option String × Option String
user_of none = (none, none)
user_of (some c) = (c.user, c.resolved_password)

abbrev pub or_url : Result UrlError (String × ℕ) → Result BrokerError (String × ℕ)
or_url (ok p) = ok p
or_url (err e) = err (url e)

unfoldable pub broker_config : MqttBroker → Result BrokerError BrokerConfig
broker_config cfg = or_url (parse_mqtt_url cfg.url) >>= λ address. ok (record {
  id = cfg.id;
  host = address.0;
  port = address.1;
  client_id = unwrap_or cfg.client_id (String.◌++◌ "percept-" cfg.id);
  username = (user_of cfg.credentials).0;
  password = (user_of cfg.credentials).1;
  keep_alive = 30;
})

abbrev pub or_payload : String → Option PayloadFormat → Result BrokerError PayloadFormat
or_payload f none = err (unknown_payload f)
or_payload f (some payload) = ok payload

module _ (paths : JsonPaths) (decoders : Decoders) where
  abbrev pub or_path :
      Result CompileError (CompiledSubscription paths decoders)
      → Result BrokerError (CompiledSubscription paths decoders)
  or_path (ok sub) = ok sub
  or_path (err e) = err (bad_path e)

  -- One round of the loop over the subscriptions.
  unfoldable pub build_subscription :
      MqttSubscription → Result BrokerError (CompiledSubscription paths decoders)
  build_subscription s =
      let f = unwrap_or s.payload "json" in
      or_payload f (parse f) >>= λ payload.
      if not (is_some s.kind) && not (is_some s.kind_field)
      then err (no_kind s.topic)
      else or_path (
          compile paths decoders (record {
            topic_filter = s.topic;
            source_id_template = s.source_id_template;
            kind = s.kind;
            kind_field = s.kind_field;
            payload = payload;
          }))

  unfoldable pub build_mqtt_subscriber :
      MqttBroker → Result BrokerError (BrokerConfig × List (CompiledSubscription paths decoders))
  unfolding broker_config build_subscription
  build_mqtt_subscriber cfg = broker_config cfg >>= λ broker.
      traverse build_subscription cfg.subscriptions >>= λ subs. ok (broker, subs)
