-- ===== src/Config/Secrets/Sites.antt =====
-- On crates/percept/src/config/secrets.rs: each place of a secret, and its source.
use percept.Prelude.{String, Option, none, some, some_inj, ◌∙◌, ap, subst, ◌≡◌, ◌↔◌, refl, sym}
use percept.Prelude.Result.{ok, ◌>>=◌, >>=-ok, ok_inj, traverse, traverse_iff, All2}
use percept.Config.Entries.{
  Mcp, SecretRef, MqttBroker, MqttCredentials, HttpToken, ForwarderEntry, PeerEntry,
}
use percept.Config.Schema.{Config}
use percept.Config.Secrets.{
  SecretError, env_not_set, file_not_read, trim_line_ends, or_error, read_line, read_one_of,
  resolve_secret, resolve_mqtt_password, resolve_http_token, resolve_forwarder_token,
  resolve_peer_token, resolve_mcp, resolve_credentials, resolve_broker, resolve,
}

or_error-ok : (e : SecretError) (o : Option String) (s : String) → or_error e o ≡ ok s → o ≡ some s
or_error-ok e none s h = absurd cc
or_error-ok e (some t) s h = cc

module _ (env read_file : String → Option String) where
  -- A secret by its two optional references: just one is there, and it can be read. A file's line ends
  -- at its end are dropped.
  pub data ReadFrom : Option String → Option String → String → Type 0 where
    from_env : {var value : String} → env var ≡ some value → ReadFrom (some var) none value
    from_file :
        {path text : String}
        → read_file path ≡ some text
        → ReadFrom none (some path) (trim_line_ends text)

  read_one_of_iff :
      (e f : Option String) (v : String) → (read_one_of env read_file e f ≡ ok v) ↔ ReadFrom e f v
  unfolding read_one_of read_line trim_line_ends
  read_one_of_iff e f v = (to e f v, from e f v)
    where
      to :
          (e f : Option String) (v : String) → read_one_of env read_file e f ≡ ok v → ReadFrom e f v
      to (some _) (some _) v h = absurd cc
      to none none v h = absurd cc
      to (some var) none v h = ReadFrom.from_env (or_error-ok (env_not_set var) (env var) v h)
      to none (some path) v h =
          let (text, p, q) = >>=-ok (or_error (file_not_read path) (read_file path)) _ h in
          subst (ReadFrom none (some path)) (ok_inj q)
            (ReadFrom.from_file (or_error-ok (file_not_read path) (read_file path) text p))

      from :
          (e f : Option String) (v : String) → ReadFrom e f v → read_one_of env read_file e f ≡ ok v
      from e f v (ReadFrom.from_env h) = rw h refl
      from e f v (ReadFrom.from_file h) = rw h refl

  -- `filled` is `entry` with the secret of its references set.
  abbrev pub Filled {ℓ} :
      {A : Type ℓ} (env_ref file_ref : A → Option String) (set : A → String → A) (entry filled : A)
      → Type ℓ
  Filled env_ref file_ref set entry filled =
      (v : String) × ReadFrom (env_ref entry) (file_ref entry) v × (filled ≡ set entry v)

  Filled-iff {ℓ} :
      {A : Type ℓ} (env_ref file_ref : A → Option String) (set : A → String → A) (entry filled : A)
      → ((read_one_of env read_file (env_ref entry) (file_ref entry) >>= λ v. ok (set entry v))
          ≡ ok filled)
        ↔ Filled env_ref file_ref set entry filled
  Filled-iff env_ref file_ref set entry filled = (
    λ h.
        let (v, p, q) = >>=-ok (read_one_of env read_file (env_ref entry) (file_ref entry)) _ h in
        (v, (read_one_of_iff (env_ref entry) (file_ref entry) v).0 p, sym (ok_inj q)),
    λ (v, r, e). rw ((read_one_of_iff (env_ref entry) (file_ref entry) v).1 r) (rw e refl),
  )

  abbrev pub FilledAuth : SecretRef → SecretRef → Type 0
  FilledAuth = Filled (λ s. s.token_env) (λ s. s.token_file) (λ s v. record s { resolved = some v })

  abbrev pub FilledCredentials : MqttCredentials → MqttCredentials → Type 0
  FilledCredentials =
      Filled (λ c. c.password_env) (λ c. c.password_file)
        (λ c v. record c { resolved_password = some v })

  abbrev pub FilledToken : HttpToken → HttpToken → Type 0
  FilledToken =
      Filled (λ t. t.token_env) (λ t. t.token_file) (λ t v. record t { resolved_token = some v })

  abbrev pub FilledForwarder : ForwarderEntry → ForwarderEntry → Type 0
  FilledForwarder =
      Filled (λ f. f.hub_token_env) (λ f. f.hub_token_file)
        (λ f v. record f { resolved_hub_token = some v })

  abbrev pub FilledPeer : PeerEntry → PeerEntry → Type 0
  FilledPeer =
      Filled (λ p. p.token_env) (λ p. p.token_file) (λ p v. record p { resolved_token = some v })

  abbrev pub FilledMcp : Option Mcp → Option Mcp → Type 0
  FilledMcp none none = Unit
  FilledMcp none (some _) = ⊥
  FilledMcp (some _) none = ⊥
  FilledMcp (some m) (some m') =
      (auth : SecretRef) × FilledAuth m.auth auth × (m' ≡ record m { auth = auth })

  -- A broker without credentials stays as it is.
  pub data FilledBroker (b b' : MqttBroker) : Type 0 where
    without : b.credentials ≡ none → b' ≡ b → FilledBroker b b'
    having :
        {c c' : MqttCredentials}
        → b.credentials ≡ some c
        → FilledCredentials c c'
        → b' ≡ record b { credentials = some c' }
        → FilledBroker b b'

  -- Each secret is set and all else is as it was.
  pub record IsResolved (cfg cfg' : Config) : Type 0 where
    pub mcp : FilledMcp cfg.mcp cfg'.mcp
    pub mqtt : All2 FilledBroker cfg.mqtt cfg'.mqtt
    pub http_tokens : All2 FilledToken cfg.http_tokens cfg'.http_tokens
    pub forwarders : All2 FilledForwarder cfg.forwarders cfg'.forwarders
    pub peers : All2 FilledPeer cfg.peers cfg'.peers
    pub kept : cfg' ≡ record cfg {
      mcp = cfg'.mcp;
      mqtt = cfg'.mqtt;
      http_tokens = cfg'.http_tokens;
      forwarders = cfg'.forwarders;
      peers = cfg'.peers;
    }

  resolve_mcp_iff : (m m' : Option Mcp) → (resolve_mcp env read_file m ≡ ok m') ↔ FilledMcp m m'
  unfolding resolve_secret
  resolve_mcp_iff none none = ((λ _. tt), (λ _. refl))
  resolve_mcp_iff none (some _) = ((λ h. absurd cc), (λ h. absurd h))
  resolve_mcp_iff (some m) none = (
    (λ h. let (_, _, q) = >>=-ok (resolve_secret env read_file m.auth) _ h in absurd cc),
    (λ h. absurd h),
  )
  resolve_mcp_iff (some m) (some m') = (
    λ h.
        let (auth, p, q) = >>=-ok (resolve_secret env read_file m.auth) _ h in
        (
          auth,
          (Filled-iff (λ s. s.token_env) (λ s. s.token_file) (λ s v. record s { resolved = some v })
                m.auth auth).0
              p,
          sym (some_inj (ok_inj q)),
        ),
    λ (auth, r, e).
        rw
          ((Filled-iff (λ s. s.token_env) (λ s. s.token_file)
              (λ s v. record s { resolved = some v }) m.auth auth).1
            r)
          (rw e refl),
  )

  credentials_iff :
      (b b' : MqttBroker) (c : Option MqttCredentials)
      → b.credentials ≡ c
      → (resolve_credentials env read_file b c ≡ ok b') ↔ FilledBroker b b'
  unfolding resolve_mqtt_password
  credentials_iff b b' none e = (
    (λ h. FilledBroker.without e (sym (ok_inj h))),
    elim [ FilledBroker.without _ same ↦ rw same refl | FilledBroker.having e' _ _ ↦ absurd cc ],
  )
  credentials_iff b b' (some c) e = (
    λ h.
        let (c', p, q) = >>=-ok (resolve_mqtt_password env read_file c) _ h in
        FilledBroker.having e
          ((Filled-iff (λ c. c.password_env) (λ c. c.password_file)
              (λ c v. record c { resolved_password = some v }) c c').0
            p)
          (sym (ok_inj q)),
    elim [
      | FilledBroker.without e' same ↦ absurd cc
      | FilledBroker.having {c = d} {c' = d'} e' f same ↦ rw (some_inj (sym e ∙ e')) (
          rw
            ((Filled-iff (λ c. c.password_env) (λ c. c.password_file)
                (λ c v. record c { resolved_password = some v }) d d').1
              f)
            (rw same refl))
    ],
  )

  broker_iff : (b b' : MqttBroker) → (resolve_broker env read_file b ≡ ok b') ↔ FilledBroker b b'
  broker_iff b b' = credentials_iff b b' b.credentials refl

  token_iff : (t t' : HttpToken) → (resolve_http_token env read_file t ≡ ok t') ↔ FilledToken t t'
  unfolding resolve_http_token
  token_iff =
      Filled-iff (λ t. t.token_env) (λ t. t.token_file)
        (λ t v. record t { resolved_token = some v })

  forwarder_iff :
      (f f' : ForwarderEntry)
      → (resolve_forwarder_token env read_file f ≡ ok f') ↔ FilledForwarder f f'
  unfolding resolve_forwarder_token
  forwarder_iff =
      Filled-iff (λ f. f.hub_token_env) (λ f. f.hub_token_file)
        (λ f v. record f { resolved_hub_token = some v })

  peer_iff : (p p' : PeerEntry) → (resolve_peer_token env read_file p ≡ ok p') ↔ FilledPeer p p'
  unfolding resolve_peer_token
  peer_iff =
      Filled-iff (λ p. p.token_env) (λ p. p.token_file)
        (λ p v. record p { resolved_token = some v })

  -- The secrets are resolved to a configuration exactly where that has each secret set to what its one
  -- variable or file says, and all else as it was. So a place with both references, with none, or with
  -- one that cannot be read ends it with an error.
  pub resolve-iff_IsResolved :
      (cfg cfg' : Config) → (resolve env read_file cfg ≡ ok cfg') ↔ IsResolved cfg cfg'
  unfolding resolve
  resolve-iff_IsResolved cfg cfg' = (
    λ h.
        let (mcp, p, h) = >>=-ok (resolve_mcp env read_file cfg.mcp) _ h in
        let (mqtt, q, h) = >>=-ok (traverse (resolve_broker env read_file) cfg.mqtt) _ h in
        let (tokens, r, h) =
          >>=-ok (traverse (resolve_http_token env read_file) cfg.http_tokens) _ h in
        let (fws, s, h) =
          >>=-ok (traverse (resolve_forwarder_token env read_file) cfg.forwarders) _ h in
        let (peers, t, h) = >>=-ok (traverse (resolve_peer_token env read_file) cfg.peers) _ h in
        subst (IsResolved cfg) (ok_inj h) (record {
          mcp = (resolve_mcp_iff cfg.mcp mcp).0 p;
          mqtt =
              (traverse_iff (resolve_broker env read_file) FilledBroker broker_iff cfg.mqtt mqtt).0
                q;
          http_tokens =
              (traverse_iff (resolve_http_token env read_file) FilledToken token_iff cfg.http_tokens
                  tokens).0
                r;
          forwarders =
              (traverse_iff (resolve_forwarder_token env read_file) FilledForwarder forwarder_iff
                  cfg.forwarders fws).0
                s;
          peers =
              (traverse_iff (resolve_peer_token env read_file) FilledPeer peer_iff cfg.peers
                  peers).0
                t;
          kept = refl;
        }),
    λ r. rw ((resolve_mcp_iff cfg.mcp cfg'.mcp).1 r.mcp) (
        rw
          ((traverse_iff (resolve_broker env read_file) FilledBroker broker_iff cfg.mqtt
              cfg'.mqtt).1
            r.mqtt)
          (rw
            ((traverse_iff (resolve_http_token env read_file) FilledToken token_iff cfg.http_tokens
                cfg'.http_tokens).1
              r.http_tokens)
            (rw
              ((traverse_iff (resolve_forwarder_token env read_file) FilledForwarder forwarder_iff
                  cfg.forwarders cfg'.forwarders).1
                r.forwarders)
              (rw
                ((traverse_iff (resolve_peer_token env read_file) FilledPeer peer_iff cfg.peers
                    cfg'.peers).1
                  r.peers)
                (ap ok (sym r.kept)))))),
  )
