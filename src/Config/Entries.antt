-- ===== src/Config/Entries.antt =====
-- crates/percept/src/config/schema.rs: the sections of the configuration, one record for each struct.
-- The field `match` of a retention entry is `match_` here.
use percept.Prelude.{ℕ, String, List, Option, Bool}
use percept.Prelude.Int.{ℤ}
use percept.Core.Json.{Value}

pub record ForwarderEntry : Type 0 where
  pub peer_id : String
  pub hub_url : String
  pub hub_token_env : Option String
  pub hub_token_file : Option String
  pub resolved_hub_token : Option String

pub record PeerEntry : Type 0 where
  pub id : String
  pub mcp_url : String
  pub token_env : Option String
  pub token_file : Option String
  pub timeout_ms : Option ℕ
  pub resolved_token : Option String

pub record Server : Type 0 where
  pub data_dir : String
  pub profile : String

pub record SecretRef : Type 0 where
  pub token_env : Option String
  pub token_file : Option String
  pub resolved : Option String

pub record Mcp : Type 0 where
  pub listen : String
  pub transport : Option String
  pub auth : SecretRef

pub record Storage : Type 0 where
  pub sweeper_interval : Option String
  pub embed_default : Option Bool

pub record RetentionMatch : Type 0 where
  pub source_id : Option String
  pub kind : Option String

pub record RetentionEntry : Type 0 where
  pub match_ : RetentionMatch
  pub max_age : Option String
  pub max_count : Option ℤ
  pub max_bytes : Option ℤ
  pub vector_max_age : Option String

pub record MqttCredentials : Type 0 where
  pub user : Option String
  pub password_env : Option String
  pub password_file : Option String
  pub resolved_password : Option String

pub record MqttTls : Type 0 where
  pub ca_file : Option String
  pub insecure : Option Bool

pub record MqttSubscription : Type 0 where
  pub topic : String
  pub source_id_template : String
  pub kind : Option String
  pub kind_field : Option String
  pub payload : Option String
  pub qos : Option ℤ

pub record MqttBroker : Type 0 where
  pub id : String
  pub url : String
  pub client_id : Option String
  pub credentials : Option MqttCredentials
  pub tls : Option MqttTls
  pub subscriptions : List MqttSubscription

pub record BleGatt : Type 0 where
  pub service_uuid : String
  pub char_uuid : String
  pub decoder : Option String

pub record BleDevice : Type 0 where
  pub mac : String
  pub source_id : String
  pub kind : String
  pub decoder : Option String
  pub require_bond : Option Bool
  pub poll : Option String
  pub gatt : List BleGatt

pub record BleAdapter : Type 0 where
  pub adapter : String
  pub mode : String
  pub duplicates : Option Bool
  pub devices : List BleDevice

pub record HttpToken : Type 0 where
  pub name : String
  pub token_env : Option String
  pub token_file : Option String
  pub allow_source_ids : List String
  pub allow_kinds : List String
  pub rate_limit : Option String
  pub resolved_token : Option String

pub record Ros2Subscription : Type 0 where
  pub topic : String
  pub msg_type : String
  pub source_id_template : String
  pub kind : Option String

pub record Ros2Bridge : Type 0 where
  pub node_name : String
  pub domain_id : Option ℤ
  pub subscriptions : List Ros2Subscription

pub record SourceEntry : Type 0 where
  pub id : String
  pub kinds : List String
  pub description : Option String
  pub usage : Option String
  pub caveats : Option String
  pub semantic_schema : Option Value
  pub units : Option String
  pub sampling_hint_ms : Option ℤ
  pub freshness_ttl_ms : Option ℤ
  pub location : Option String
  pub embed : Option Bool

pub record KindEntry : Type 0 where
  pub name : String
  pub version : Option String
  pub description : Option String
  pub usage : Option String
  pub caveats : Option String
  pub semantic_schema : Option Value
  pub units : Option String
  pub embed : Option Bool
