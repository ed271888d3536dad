-- ===== src/Config/Load/Loaded.antt =====
-- What a loaded configuration is, by the files that it comes from.
use mathlib.Core.List.{Perm}
use mathlib.Core.List.Perm
use percept.Prelude.Sorting.{IsSorted, sort-IsSorted, sort-perm}
use percept.Prelude.{
  filter, String, List, [], ◌∷◌, ◌++◌, Option, none, some, concat, map, append-nil, append_assoc,
  ◌≡◌, refl, sym, subst, ap, ◌∙◌,
}
use percept.Prelude.Result.{Result, ok, err, >>=-ok, ok_inj, traverse}
use percept.Config.Schema.{Config, merge, override}
use percept.Config.Secrets.{resolve}
use percept.Config.Secrets.Sites.{IsResolved, resolve-iff_IsResolved}
use percept.Config.Validate.{check}
use percept.Config.Validate.Accepted.{IsValid, check-iff_IsValid}
use percept.Config.Load.{LoadError, secret, invalid, map_err, Files, merge_all, overlay_paths, load}

-- The last that is there.
abbrev pub last_some {ℓ} : {A : Type ℓ} → Option A → List (Option A) → Option A
last_some o [] = o
last_some o (none ∷ os) = last_some o os
last_some o (some a ∷ os) = last_some (some a) os

-- The sections of `merged` are, of the main file and the overlays, the last where there can be one, and
-- the entries of all in order where there can be more.
pub record IsMerged (main : Config) (overlays : List Config) (merged : Config) : Type 0 where
  pub server : merged.server ≡ last_some main.server (map (λ c. c.server) overlays)
  pub mcp : merged.mcp ≡ last_some main.mcp (map (λ c. c.mcp) overlays)
  pub storage : merged.storage ≡ last_some main.storage (map (λ c. c.storage) overlays)
  pub retention : merged.retention ≡ main.retention ++ concat (map (λ c. c.retention) overlays)
  pub mqtt : merged.mqtt ≡ main.mqtt ++ concat (map (λ c. c.mqtt) overlays)
  pub ble : merged.ble ≡ main.ble ++ concat (map (λ c. c.ble) overlays)
  pub http_tokens :
      merged.http_tokens ≡ main.http_tokens ++ concat (map (λ c. c.http_tokens) overlays)
  pub ros2 : merged.ros2 ≡ main.ros2 ++ concat (map (λ c. c.ros2) overlays)
  pub forwarders : merged.forwarders ≡ main.forwarders ++ concat (map (λ c. c.forwarders) overlays)
  pub peers : merged.peers ≡ main.peers ++ concat (map (λ c. c.peers) overlays)
  pub sources : merged.sources ≡ main.sources ++ concat (map (λ c. c.sources) overlays)
  pub kinds : merged.kinds ≡ main.kinds ++ concat (map (λ c. c.kinds) overlays)

last_some-override {ℓ} :
    {A : Type ℓ} (a b : Option A) (os : List (Option A))
    → last_some (override a b) os ≡ last_some a (b ∷ os)
last_some-override a none os = refl
last_some-override a (some _) os = refl

IsMerged-nil : (main : Config) → IsMerged main [] main
IsMerged-nil main = record {
  server = refl;
  mcp = refl;
  storage = refl;
  retention = sym (append-nil main.retention);
  mqtt = sym (append-nil main.mqtt);
  ble = sym (append-nil main.ble);
  http_tokens = sym (append-nil main.http_tokens);
  ros2 = sym (append-nil main.ros2);
  forwarders = sym (append-nil main.forwarders);
  peers = sym (append-nil main.peers);
  sources = sym (append-nil main.sources);
  kinds = sym (append-nil main.kinds);
}

IsMerged-cons :
    (main next merged : Config) (overlays : List Config)
    → IsMerged (merge main next) overlays merged
    → IsMerged main (next ∷ overlays) merged
unfolding merge
IsMerged-cons main next merged overlays m = record {
  server = m.server ∙ last_some-override main.server next.server (map (λ c. c.server) overlays);
  mcp = m.mcp ∙ last_some-override main.mcp next.mcp (map (λ c. c.mcp) overlays);
  storage =
      m.storage ∙ last_some-override main.storage next.storage (map (λ c. c.storage) overlays);
  retention =
      m.retention
      ∙ append_assoc main.retention next.retention (concat (map (λ c. c.retention) overlays));
  mqtt = m.mqtt ∙ append_assoc main.mqtt next.mqtt (concat (map (λ c. c.mqtt) overlays));
  ble = m.ble ∙ append_assoc main.ble next.ble (concat (map (λ c. c.ble) overlays));
  http_tokens =
      m.http_tokens
      ∙ append_assoc main.http_tokens next.http_tokens (concat (map (λ c. c.http_tokens) overlays));
  ros2 = m.ros2 ∙ append_assoc main.ros2 next.ros2 (concat (map (λ c. c.ros2) overlays));
  forwarders =
      m.forwarders
      ∙ append_assoc main.forwarders next.forwarders (concat (map (λ c. c.forwarders) overlays));
  peers = m.peers ∙ append_assoc main.peers next.peers (concat (map (λ c. c.peers) overlays));
  sources =
      m.sources ∙ append_assoc main.sources next.sources (concat (map (λ c. c.sources) overlays));
  kinds = m.kinds ∙ append_assoc main.kinds next.kinds (concat (map (λ c. c.kinds) overlays));
}

merge_all-IsMerged :
    (files : Files) (main merged : Config) (paths : List String)
    → merge_all files main paths ≡ ok merged
    → (overlays : List Config) × (traverse files.read_toml paths ≡ ok overlays)
      × IsMerged main overlays merged
unfolding merge_all
merge_all-IsMerged files main merged [] h =
    ([], refl, subst (IsMerged main []) (ok_inj h) (IsMerged-nil main))
merge_all-IsMerged files main merged (path ∷ paths) h =
    let (next, p, h) = >>=-ok (files.read_toml path) _ h in
    let (overlays, q, m) = merge_all-IsMerged files (merge main next) merged paths h in
    (next ∷ overlays, rw p (rw q refl), IsMerged-cons main next merged overlays m)

-- The TOML files of a directory that is there.
abbrev pub toml_files : Files → Option (List String) → List String
toml_files files none = []
toml_files files (some entries) = filter files.is_toml entries

-- Where `cfg` comes from: the main file, its overlays in the order of their paths, and the secrets.
pub record IsLoaded (files : Files) (path : String) (cfg : Config) : Type 0 where
  pub main : Config
  pub listing : Option (List String)
  pub overlays : List Config
  pub merged : Config
  pub read_main : files.read_toml path ≡ ok main
  pub listed : files.confd ≡ ok listing
  pub paths : List String
  pub ordered : IsSorted files.path_le paths
  pub all_paths : Perm paths (toml_files files listing)
  pub read_overlays : traverse files.read_toml paths ≡ ok overlays
  pub sections : IsMerged main overlays merged
  pub secrets : IsResolved files.env files.read_file merged cfg
  pub valid : IsValid cfg

map_err-ok :
    {E : Type 0} {A : Type 0} (f : E → LoadError) (m : Result E A) (a : A)
    → map_err f m ≡ ok a
    → m ≡ ok a
map_err-ok f (ok b) a e = ap ok (ok_inj e)
map_err-ok f (err _) a e = absurd cc

overlay_paths-IsSorted :
    (files : Files) (listing : Option (List String))
    → IsSorted files.path_le (overlay_paths files listing)
overlay_paths-IsSorted files none = tt
overlay_paths-IsSorted files (some entries) =
    sort-IsSorted files.path_le files.path_le-total files.path_le_trans
      (filter files.is_toml entries)

overlay_paths-perm :
    (files : Files) (listing : Option (List String))
    → Perm (overlay_paths files listing) (toml_files files listing)
overlay_paths-perm files none = Perm.refl []
overlay_paths-perm files (some entries) = sort-perm files.path_le (filter files.is_toml entries)

-- A configuration that is loaded has, for each section that is there once, the last of the main file's
-- and the overlays', for each other section the entries of all, each secret as its one reference says, and
-- it keeps the rules. The overlays are all the TOML files of the directory, in the order of their paths.
pub load-IsLoaded :
    (files : Files) (path : String) (cfg : Config)
    → load files path ≡ ok cfg
    → IsLoaded files path cfg
unfolding load
load-IsLoaded files path cfg h =
    let (main, read_main, h) = >>=-ok (files.read_toml path) _ h in
    let (listing, listed, h) = >>=-ok files.confd _ h in
    let (merged, p, h) = >>=-ok (merge_all files main (overlay_paths files listing)) _ h in
    let (resolved, q, h) = >>=-ok (map_err secret (resolve files.env files.read_file merged)) _ h in
    let (u, r, h) = >>=-ok (map_err invalid (check resolved)) _ h in
    let (overlays, read_overlays, sections) =
      merge_all-IsMerged files main merged (overlay_paths files listing) p in
    record {
      main = main;
      listing = listing;
      overlays = overlays;
      merged = merged;
      paths = overlay_paths files listing;
      ordered = overlay_paths-IsSorted files listing;
      all_paths = overlay_paths-perm files listing;
      read_main = read_main;
      listed = listed;
      read_overlays = read_overlays;
      sections = sections;
      secrets =
          (resolve-iff_IsResolved files.env files.read_file merged cfg).0
            (map_err-ok secret _ cfg (q ∙ ap ok (ok_inj h)));
      valid =
          (check-iff_IsValid cfg).0
            (subst (λ c. check c ≡ ok tt) (ok_inj h) (map_err-ok invalid (check resolved) tt r));
    }
