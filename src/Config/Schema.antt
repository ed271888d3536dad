-- ===== src/Config/Schema.antt =====
-- crates/percept/src/config/schema.rs: the whole configuration, and `merge` of an overlay into it.
use percept.Prelude.{List, Option, none, some, ◌++◌}
use percept.Config.Entries.{
  Server, Mcp, Storage, RetentionEntry, MqttBroker, BleAdapter, HttpToken, Ros2Bridge,
  ForwarderEntry, PeerEntry, SourceEntry, KindEntry,
}

pub record Config : Type 0 where
  pub server : Option Server
  pub mcp : Option Mcp
  pub storage : Option Storage
  pub retention : List RetentionEntry
  pub mqtt : List MqttBroker
  pub ble : List BleAdapter
  pub http_tokens : List HttpToken
  pub ros2 : List Ros2Bridge
  pub forwarders : List ForwarderEntry
  pub peers : List PeerEntry
  pub sources : List SourceEntry
  pub kinds : List KindEntry

-- `if overlay.x.is_some() { self.x = overlay.x; }`.
abbrev pub override {ℓ} : {A : Type ℓ} → Option A → Option A → Option A
override own none = own
override own (some a) = some a

unfoldable pub merge : Config → Config → Config
merge self overlay = record {
  server = override self.server overlay.server;
  mcp = override self.mcp overlay.mcp;
  storage = override self.storage overlay.storage;
  retention = self.retention ++ overlay.retention;
  mqtt = self.mqtt ++ overlay.mqtt;
  ble = self.ble ++ overlay.ble;
  http_tokens = self.http_tokens ++ overlay.http_tokens;
  ros2 = self.ros2 ++ overlay.ros2;
  forwarders = self.forwarders ++ overlay.forwarders;
  peers = self.peers ++ overlay.peers;
  sources = self.sources ++ overlay.sources;
  kinds = self.kinds ++ overlay.kinds;
}
