-- ===== src/Server/Handles.antt =====
-- On `build_peers` and `build_forwarder` of crates/percept/src/server.rs, and a loaded configuration.
use percept.Prelude.{String, List, [], ◌∷◌, Option, unwrap_or, All, ◌≡◌, refl, sym, subst}
use percept.Prelude.Result.{ok, All2}
use percept.Tasks.Forwarder.{default_config}
use percept.Mcp.Peer.{PeerHandle}
use percept.Config.Entries.{PeerEntry, ForwarderEntry}
use percept.Config.Schema.{Config}
use percept.Config.Secrets.Sites.{ReadFrom, FilledPeer, FilledForwarder}
use percept.Config.Load.{Files}
use percept.Config.Load.Loaded.{IsLoaded}
use percept.Server.{HubLink, build_peer, build_peers, build_forwarder}

module _ (env read_file : String → Option String) where
  -- The handle of a peer: its token is what the entry's one reference says.
  abbrev pub IsHandle : PeerEntry → PeerHandle → Type 0
  IsHandle p h =
      (h.id ≡ p.id)
      × (h.mcp_url ≡ p.mcp_url)
      × ReadFrom env read_file p.token_env p.token_file h.token
      × (h.timeout ≡ unwrap_or p.timeout_ms 1_000)

  abbrev pub HasLink : ForwarderEntry → Type 0
  HasLink f =
      (link : HubLink) × (build_forwarder f ≡ ok link)
      × (link.hub_url ≡ f.hub_url)
      × ReadFrom env read_file f.hub_token_env f.hub_token_file link.token
      × (link.config ≡ record default_config { peer_id = f.peer_id })

  build_peer-Filled :
      (p p' : PeerEntry)
      → FilledPeer env read_file p p'
      → (h : PeerHandle) × (build_peer p' ≡ ok h) × IsHandle p' h
  unfolding build_peer
  build_peer-Filled p p' (v, r, e) =
      subst (λ q. (h : PeerHandle) × (build_peer q ≡ ok h) × IsHandle q h) (sym e)
        (
          record {
            id = p.id;
            mcp_url = p.mcp_url;
            token = v;
            timeout = unwrap_or p.timeout_ms 1_000;
          },
          refl,
          (refl, refl, r, refl),
        )

  peers-Filled :
      (ps ps' : List PeerEntry)
      → All2 (FilledPeer env read_file) ps ps'
      → (hs : List PeerHandle) × (build_peers ps' ≡ ok hs) × All2 IsHandle ps' hs
  unfolding build_peers
  peers-Filled [] [] f = ([], refl, tt)
  peers-Filled [] (p' ∷ ps') f = absurd f
  peers-Filled (p ∷ ps) [] f = absurd f
  peers-Filled (p ∷ ps) (p' ∷ ps') (f, fs) =
      let (h, e, i) = build_peer-Filled p p' f in
      let (hs, es, is) = peers-Filled ps ps' fs in (h ∷ hs, rw e (rw es refl), (i, is))

  link-Filled : (f f' : ForwarderEntry) → FilledForwarder env read_file f f' → HasLink f'
  unfolding build_forwarder
  link-Filled f f' (v, r, e) = subst HasLink (sym e) (
    record {
      hub_url = f.hub_url;
      token = v;
      config = record default_config { peer_id = f.peer_id };
    },
    refl,
    refl,
    r,
    refl,
  )

  links-Filled :
      (fs fs' : List ForwarderEntry) → All2 (FilledForwarder env read_file) fs fs' → All HasLink fs'
  links-Filled [] [] h = tt
  links-Filled [] (f' ∷ fs') h = absurd h
  links-Filled (f ∷ fs) [] h = absurd h
  links-Filled (f ∷ fs) (f' ∷ fs') (h, hs) = (link-Filled f f' h, links-Filled fs fs' hs)

-- With a configuration that was loaded, a handle is built for each peer and a client for each forwarder:
-- neither fails for want of a token. Each has the address of its own entry, the secret that the entry's
-- one reference says, and its timeout, 1000 ms where none is given, or its prefix.
pub build_peers-IsLoaded :
    (files : Files) (path : String) (cfg : Config)
    → IsLoaded files path cfg
    → (hs : List PeerHandle) × (build_peers cfg.peers ≡ ok hs)
      × All2 (IsHandle files.env files.read_file) cfg.peers hs
      × All (HasLink files.env files.read_file) cfg.forwarders
build_peers-IsLoaded files path cfg l =
    let (hs, e, i) =
      peers-Filled files.env files.read_file l.merged.peers cfg.peers l.secrets.peers in
    (
      hs,
      e,
      i,
      links-Filled files.env files.read_file l.merged.forwarders cfg.forwarders
          l.secrets.forwarders,
    )
