-- ===== src/Server.antt =====
-- crates/percept/src/server.rs: what is built from the configuration at the start. Sockets, the start of
-- the tasks and the opening of databases are left out.
pub mod Urls
pub mod Handles
use percept.Prelude.{
  ℕ, ◌*◌, ◌^◌, String, List, [], ◌∷◌, Option, none, some, Bool, true, false, if◌then◌else◌, any,
  unwrap_or, is_some, not, ltb, ◌||◌, ◌&&◌,
}
use Prim.Native.String
use percept.Prelude.Eq.{string_eq, ◌=?◌}
use percept.Prelude.Result.{Result, ok, err, ◌>>=◌, traverse}
use percept.Ingest.Auth.{Globs, TokenScope, AuthError, Auth, build_scope, insert_token}
use percept.Ingest.Auth
use percept.Ingest.Auth.RateLimit.{trim, parse_uint}
use percept.Store.Vector.Selector.{EmbedSelector, set_kind, set_source}
use percept.Store.Vector.Selector
use percept.Tasks.Forwarder.{ForwarderConfig, default_config}
use percept.Mcp.Peer.{PeerHandle}
use percept.Config.Duration.{split_number}
use percept.Config.Entries.{
  HttpToken, PeerEntry, ForwarderEntry, KindEntry, SourceEntry, Server, Storage,
}
use percept.Config.Schema.{Config}

pub data StartError : Type 0 where
  token_not_resolved : String → StartError
  bad_scope : AuthError → StartError

abbrev pub resolved : String → Option String → Result StartError String
resolved name none = err (token_not_resolved name)
resolved name (some token) = ok token

module _ (globs : Globs) where
  abbrev pub scope_or : Auth.Result (TokenScope globs) → Result StartError (TokenScope globs)
  scope_or (Auth.Result.ok scope) = ok scope
  scope_or (Auth.Result.err e) = err (bad_scope e)

  -- The loop over the tokens, with the scopes so far.
  unfoldable pub build_auth : Auth globs → List HttpToken → Result StartError (Auth globs)
  build_auth auth [] = ok auth
  build_auth auth (t ∷ ts) = resolved t.name t.resolved_token >>= λ token.
      scope_or (build_scope globs t.name t.allow_source_ids t.allow_kinds t.rate_limit) >>= λ scope.
      build_auth (insert_token globs auth token scope) ts

unfoldable pub build_peer : PeerEntry → Result StartError PeerHandle
build_peer p = resolved p.id p.resolved_token >>= λ token. ok (record {
  id = p.id;
  mcp_url = p.mcp_url;
  token = token;
  timeout = unwrap_or p.timeout_ms 1_000;
})

unfoldable pub build_peers : List PeerEntry → Result StartError (List PeerHandle)
build_peers cfg = traverse build_peer cfg

-- The address and the token of the client, and the settings of the forwarder.
pub record HubLink : Type 0 where
  pub hub_url : String
  pub token : String
  pub config : ForwarderConfig

unfoldable pub build_forwarder : ForwarderEntry → Result StartError HubLink
build_forwarder cfg = resolved cfg.peer_id cfg.resolved_hub_token >>= λ token. ok (record {
  hub_url = cfg.hub_url;
  token = token;
  config = record default_config { peer_id = cfg.peer_id };
})

-- `n.checked_mul(factor)?`.
abbrev pub scaled : ℕ → ℕ → Option ℕ
scaled n factor = if ltb (n * factor) (2 ^ 64) then some (n * factor) else none

abbrev pub cadence_of : String → Option ℕ → Option ℕ
cadence_of unit none = none
cadence_of unit (some n) =
    if unit =? "s"
    then some n
    else if unit =? "m"
    then scaled n 60
    else if unit =? "h"
    then scaled n 3600
    else if unit =? "d"
    then scaled n 86_400
    else none

abbrev pub cadence_parts : Option (String × String) → Option ℕ
cadence_parts none = none
cadence_parts (some (num_str, unit)) = cadence_of unit (parse_uint (2 ^ 64) num_str)

-- In seconds; nothing where the default is to be used.
unfoldable pub parse_cadence_or_warn : String → Option ℕ
unfolding trim split_number parse_uint
parse_cadence_or_warn s = cadence_parts (split_number (trim s))

-- The two loops that fill the selector.
abbrev pub set_kind_if : EmbedSelector → String → Option Bool → EmbedSelector
set_kind_if selector name none = selector
set_kind_if selector name (some v) = set_kind selector name v

abbrev pub set_source_if : EmbedSelector → String → Option Bool → EmbedSelector
set_source_if selector id none = selector
set_source_if selector id (some v) = set_source selector id v

unfoldable pub choose_kinds : EmbedSelector → List KindEntry → EmbedSelector
choose_kinds selector [] = selector
choose_kinds selector (k ∷ ks) = choose_kinds (set_kind_if selector k.name k.embed) ks

unfoldable pub choose_sources : EmbedSelector → List SourceEntry → EmbedSelector
choose_sources selector [] = selector
choose_sources selector (s ∷ ss) = choose_sources (set_source_if selector s.id s.embed) ss

abbrev pub is_on : Option Bool → Bool
is_on none = false
is_on (some v) = v

abbrev pub embed_default_of : Option Storage → Bool
embed_default_of none = false
embed_default_of (some storage) = unwrap_or storage.embed_default false

-- The directory and the selector of the vector subsystem, where there is one.
abbrev pub subsystem_in : Option Server → Config → Option (String × EmbedSelector)
subsystem_in none cfg = none
subsystem_in (some server) cfg =
    let embed_default = embed_default_of cfg.storage in
    let selector =
      choose_sources (choose_kinds (Selector.new embed_default) cfg.kinds) cfg.sources in
    let any_enabled =
      embed_default || any (λ k. is_on k.embed) cfg.kinds || any (λ s. is_on s.embed) cfg.sources in
    if any_enabled then some (server.data_dir, selector) else none

unfoldable pub build_vector_subsystem : Config → Option (String × EmbedSelector)
unfolding choose_kinds choose_sources
build_vector_subsystem cfg = subsystem_in cfg.server cfg
