-- ===== src/Config/Secrets.antt =====
-- crates/percept/src/config/secrets.rs: each secret is read from the variable or the file that it names.
-- The process environment and the file system are the parameters `env` and `read_file`, where `none` is
-- an error.
pub mod Sites
use percept.Prelude.{
  ℕ, String, Char, code, List, Option, none, some, Bool, if◌then◌else◌, ◌==◌, ◌||◌, ◌&&◌,
}
use Prim.Native.String
use percept.Prelude.Text.{is_empty}
use percept.Prelude.Result.{Result, ok, err, ◌>>=◌, traverse}
use percept.Config.Entries.{
  Mcp, SecretRef, MqttBroker, MqttCredentials, HttpToken, ForwarderEntry, PeerEntry,
}
use percept.Config.Schema.{Config}

-- Each with the name of the variable or of the path.
pub data SecretError : Type 0 where
  both_set neither_set : SecretError
  env_not_set file_not_read : String → SecretError

-- `s.trim_end_matches(['\r', '\n'])`.
unfoldable pub trim_line_ends : String → String
trim_line_ends String.[] = String.[]
trim_line_ends (String.◌∷◌ c s) =
    let rest = trim_line_ends s in
    if is_empty rest && (code c == 0x0d || code c == 0x0a) then String.[] else String.◌∷◌ c rest

-- `with_context` on the two ways to read.
abbrev pub or_error : SecretError → Option String → Result SecretError String
or_error e none = err e
or_error e (some s) = ok s

module _ (env read_file : String → Option String) where
  unfoldable pub read_line : String → Result SecretError String
  unfolding trim_line_ends
  read_line path = or_error (file_not_read path) (read_file path) >>= λ s. ok (trim_line_ends s)

  unfoldable pub read_one_of : Option String → Option String → Result SecretError String
  unfolding read_line
  read_one_of (some _) (some _) = err both_set
  read_one_of none none = err neither_set
  read_one_of (some var) none = or_error (env_not_set var) (env var)
  read_one_of none (some path) = read_line path

  unfoldable pub resolve_secret : SecretRef → Result SecretError SecretRef
  resolve_secret s =
      read_one_of s.token_env s.token_file >>= λ value. ok (record s { resolved = some value })

  unfoldable pub resolve_mqtt_password : MqttCredentials → Result SecretError MqttCredentials
  resolve_mqtt_password c = read_one_of c.password_env c.password_file >>= λ value.
      ok (record c { resolved_password = some value })

  unfoldable pub resolve_http_token : HttpToken → Result SecretError HttpToken
  resolve_http_token t = read_one_of t.token_env t.token_file >>= λ value.
      ok (record t { resolved_token = some value })

  unfoldable pub resolve_forwarder_token : ForwarderEntry → Result SecretError ForwarderEntry
  resolve_forwarder_token fw = read_one_of fw.hub_token_env fw.hub_token_file >>= λ value.
      ok (record fw { resolved_hub_token = some value })

  unfoldable pub resolve_peer_token : PeerEntry → Result SecretError PeerEntry
  resolve_peer_token p = read_one_of p.token_env p.token_file >>= λ value.
      ok (record p { resolved_token = some value })

  abbrev pub resolve_mcp : Option Mcp → Result SecretError (Option Mcp)
  resolve_mcp none = ok none
  resolve_mcp (some mcp) =
      resolve_secret mcp.auth >>= λ auth. ok (some (record mcp { auth = auth }))

  abbrev pub resolve_credentials :
      MqttBroker → Option MqttCredentials → Result SecretError MqttBroker
  resolve_credentials broker none = ok broker
  resolve_credentials broker (some creds) =
      resolve_mqtt_password creds >>= λ c. ok (record broker { credentials = some c })

  abbrev pub resolve_broker : MqttBroker → Result SecretError MqttBroker
  resolve_broker broker = resolve_credentials broker broker.credentials

  -- In the order of the sections; the first error ends it.
  unfoldable pub resolve : Config → Result SecretError Config
  resolve cfg = resolve_mcp cfg.mcp >>= λ mcp. traverse resolve_broker cfg.mqtt >>= λ mqtt.
      traverse resolve_http_token cfg.http_tokens >>= λ http_tokens.
      traverse resolve_forwarder_token cfg.forwarders >>= λ forwarders.
      traverse resolve_peer_token cfg.peers >>= λ peers. ok (record cfg {
        mcp = mcp;
        mqtt = mqtt;
        http_tokens = http_tokens;
        forwarders = forwarders;
        peers = peers;
      })
