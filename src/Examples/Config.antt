-- ===== src/Examples/Config.antt =====
-- A configuration of two files, and what becomes of it.
use percept.Prelude.{◌^◌, ◌<◌, List, [], ◌∷◌, none, some, if◌then◌else◌, All, ◌≡◌, ◌↔◌, refl}
use percept.Prelude.Eq.{string_eq, ◌=?◌}
use percept.Prelude.Text.{str_le, str_le-total, str_le_trans}
use percept.Prelude.Sorting.{sort, insert}
use percept.Prelude.Result.{ok, err, All2}
use percept.Mcp.Peer.{PeerHandle}
use percept.Store.Retention.Policy.{RetentionPolicy}
use percept.Ingest.Auth.RateLimit.{trim, parse_uint}
use percept.Config.Entries.{RetentionEntry, PeerEntry, ForwarderEntry, SourceEntry}
use percept.Config.Schema.{Config, merge}
use percept.Config.Duration.{
  overflow, unknown_unit, missing_unit, missing_number, invalid_number, parse_duration,
}
use percept.Config.Duration.Grammar.{Written, parse_duration-iff_Written}
use percept.Config.Secrets.{resolve, read_one_of, resolve_peer_token, resolve_forwarder_token}
use percept.Config.Validate.{check, duplicate_source}
use percept.Config.Descriptors.{build_retention_policies, build_policy, parse_duration_str}
use percept.Config.Descriptors.Policies.{SafePolicy, build_retention_policies-Safe}
use percept.Config.Load.{read, Files, load}
use percept.Config.Load.Loaded.{IsLoaded, load-IsLoaded}
use percept.Server.{build_peers}
use percept.Server.Handles.{IsHandle, HasLink, build_peers-IsLoaded}

-- The tests of the source.
duration_tests :
    (parse_duration "10s" ≡ ok 10)
    × (parse_duration "2m" ≡ ok 120)
    × (parse_duration "1h" ≡ ok 3600)
    × (parse_duration "30d" ≡ ok 2_592_000)
    × (parse_duration "abc" ≡ err missing_number)
    × (parse_duration "10" ≡ err missing_unit)
    × (parse_duration "10y" ≡ err unknown_unit)
    × (parse_duration "" ≡ err missing_unit)
    × (parse_duration "18446744073709551616s" ≡ err invalid_number)
    × (parse_duration "18446744073709551615m" ≡ err overflow)
unfolding parse_duration
duration_tests = (refl, refl, refl, refl, refl, refl, refl, refl, refl, refl)

parse_duration-iff_Written_example :
    (parse_duration " 90m " ≡ ok 5400) ↔ (Written (trim " 90m ") 5400 × (5400 < 2 ^ 64))
parse_duration-iff_Written_example = parse_duration-iff_Written " 90m " 5400

abbrev hour_of_fridge : RetentionEntry
hour_of_fridge = record {
  match_ = record { source_id = some "temp.fridge"; kind = none };
  max_age = some "1h";
  max_count = none;
  max_bytes = none;
  vector_max_age = some "30m";
}

abbrev kitchen : PeerEntry
kitchen = record {
  id = "kitchen";
  mcp_url = "http://kitchen.lan:7878/mcp";
  token_env = some "KITCHEN";
  token_file = none;
  timeout_ms = none;
  resolved_token = none;
}

abbrev hub : ForwarderEntry
hub = record {
  peer_id = "shed";
  hub_url = "http://hub.lan:7878";
  hub_token_env = none;
  hub_token_file = some "/run/hub";
  resolved_hub_token = none;
}

abbrev no_config : Config
no_config = record {
  server = none;
  mcp = none;
  storage = none;
  retention = [];
  mqtt = [];
  ble = [];
  http_tokens = [];
  ros2 = [];
  forwarders = [];
  peers = [];
  sources = [];
  kinds = [];
}

abbrev main : Config
main = record no_config {
  server = some (record { data_dir = "/var/a"; profile = "edge" });
  retention = hour_of_fridge ∷ [];
  peers = kitchen ∷ [];
}

abbrev overlay : Config
overlay = record no_config {
  server = some (record { data_dir = "/var/b"; profile = "edge" });
  forwarders = hub ∷ [];
}

abbrev two_files : Files
two_files = record {
  read_toml = λ path.
      if path =? "percept.toml"
      then ok main
      else if path =? "b.toml"
      then ok overlay
      else err (read path);
  confd = ok (some ("b.toml" ∷ "notes.txt" ∷ []));
  is_toml = λ path. path =? "b.toml";
  path_le = str_le;
  path_le-total = str_le-total;
  path_le_trans = str_le_trans;
  env = λ var. if var =? "KITCHEN" then some "secret" else none;
  read_file = λ path. if path =? "/run/hub" then some "token\n" else none;
}

abbrev loaded : Config
loaded = record main {
  server = overlay.server;
  forwarders = record hub { resolved_hub_token = some "token" } ∷ [];
  peers = record kitchen { resolved_token = some "secret" } ∷ [];
}

load_run : load two_files "percept.toml" ≡ ok loaded
unfolding load merge sort insert resolve check parse_duration read_one_of resolve_peer_token
    resolve_forwarder_token
load_run = refl

load-IsLoaded_example : IsLoaded two_files "percept.toml" loaded
load-IsLoaded_example = load-IsLoaded two_files "percept.toml" loaded load_run

abbrev fridge_policy : RetentionPolicy
fridge_policy = record {
  match_source_id = some "temp.fridge";
  match_kind = none;
  max_age = some 3_600_000;
  max_count = none;
  max_bytes = none;
  vector_max_age = some 1_800_000;
}

check_run : check loaded ≡ ok tt
unfolding check parse_duration
check_run = refl

policies_run : build_retention_policies loaded ≡ ok (fridge_policy ∷ [])
unfolding build_retention_policies build_policy parse_duration_str parse_uint
policies_run = refl

build_retention_policies-Safe_example : All SafePolicy (fridge_policy ∷ [])
build_retention_policies-Safe_example =
    build_retention_policies-Safe loaded (fridge_policy ∷ []) check_run policies_run

build_peers-IsLoaded_example :
    (hs : List PeerHandle) × (build_peers loaded.peers ≡ ok hs)
    × All2 (IsHandle two_files.env two_files.read_file) loaded.peers hs
    × All (HasLink two_files.env two_files.read_file) loaded.forwarders
build_peers-IsLoaded_example =
    build_peers-IsLoaded two_files "percept.toml" loaded
      (load-IsLoaded two_files "percept.toml" loaded load_run)

-- An entry with one age only is not looked at by `check`, so that a text which is no duration gets past
-- it and stops the server when the policies are built.
abbrev unread_age : Config
unread_age = record no_config {
  retention = record hour_of_fridge { max_age = some "soon"; vector_max_age = none } ∷ [];
}

unread_age_test :
    (check unread_age ≡ ok tt) × (build_retention_policies unread_age ≡ err missing_number)
unfolding check build_retention_policies build_policy parse_duration_str
unread_age_test = (refl, refl)

-- Two sources of one id are refused.
abbrev twin : SourceEntry
twin = record {
  id = "cam";
  kinds = [];
  description = none;
  usage = none;
  caveats = none;
  semantic_schema = none;
  units = none;
  sampling_hint_ms = none;
  freshness_ttl_ms = none;
  location = none;
  embed = none;
}

twin_test : check (record no_config { sources = twin ∷ twin ∷ [] }) ≡ err (duplicate_source "cam")
unfolding check
twin_test = refl
