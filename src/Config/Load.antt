-- ===== src/Config/Load.antt =====
-- crates/percept/src/config/mod.rs, `load`: the main file, the overlays of `<path>.d`, the secrets and the
-- rules. The files and the TOML parser are parameters: `read_toml` of a path, where `none` is an error;
-- `confd`, what the listing of the directory gives, none where there is no directory and an error where it
-- cannot be read; `is_toml`, the test of a path's extension; `path_le`, the total order of
-- paths.
pub mod Loaded
use percept.Prelude.{String, List, [], ◌∷◌, Option, none, some, Bool, true, false, filter, ◌≡◌}
use percept.Prelude.Result.{Result, ok, err, ◌>>=◌}
use percept.Prelude.Sorting.{sort}
use percept.Config.Schema.{Config, merge}
use percept.Config.Secrets.{SecretError, resolve}
use percept.Config.Validate.{ConfigError, check}

pub data LoadError : Type 0 where
  read : String → LoadError
  secret : SecretError → LoadError
  invalid : ConfigError → LoadError

abbrev pub map_err : {E : Type 0} {A : Type 0} → (E → LoadError) → Result E A → Result LoadError A
map_err f (ok a) = ok a
map_err f (err e) = err (f e)

-- The files that are there: their TOML, by `read_toml` and by path, and the listing of the directory.
pub record Files : Type 0 where
  pub read_toml : String → Result LoadError Config
  pub confd : Result LoadError (Option (List String))
  pub is_toml : String → Bool
  pub path_le : String → String → Bool
  pub path_le-total : (a b : String) → path_le a b ≡ false → path_le b a ≡ true
  pub path_le_trans :
      (a b c : String) → path_le a b ≡ true → path_le b c ≡ true → path_le a c ≡ true
  pub env : String → Option String
  pub read_file : String → Option String

unfoldable pub merge_all : Files → Config → List String → Result LoadError Config
merge_all files cfg [] = ok cfg
merge_all files cfg (entry ∷ entries) =
    files.read_toml entry >>= λ overlay. merge_all files (merge cfg overlay) entries

abbrev pub overlay_paths : Files → Option (List String) → List String
overlay_paths files none = []
overlay_paths files (some entries) = sort files.path_le (filter files.is_toml entries)

unfoldable pub load : Files → String → Result LoadError Config
unfolding merge_all
load files path = files.read_toml path >>= λ primary. files.confd >>= λ listing.
    merge_all files primary (overlay_paths files listing) >>= λ cfg.
    map_err secret (resolve files.env files.read_file cfg) >>= λ cfg.
    map_err invalid (check cfg) >>= λ _. ok cfg
