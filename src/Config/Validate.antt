-- ===== src/Config/Validate.antt =====
-- crates/percept/src/config/validate.rs: the rules that a configuration must keep.
pub mod Accepted
use percept.Prelude.{
  ℕ, suc, String, List, [], ◌∷◌, Option, none, some, Bool, if◌then◌else◌, any, is_some, not, ltb,
  ◌&&◌,
}
use percept.Prelude.Eq.{string_eq, ◌=?◌}
use percept.Prelude.Result.{Result, ok, err, ◌>>=◌}
use percept.Config.Duration.{DurationError, parse_duration}
use percept.Config.Entries.{Server, SourceEntry, RetentionEntry}
use percept.Config.Schema.{Config}

-- The number is the index of the retention entry.
pub data ConfigError : Type 0 where
  profile : String → ConfigError
  duplicate_source : String → ConfigError
  empty_match vector_outlives : ℕ → ConfigError
  max_age vector_max_age : ℕ → DurationError → ConfigError

-- `Result<()>`.
abbrev pub Checked : Type 0
Checked = Result ConfigError (Unit {0})

abbrev pub check_server : Option Server → Checked
check_server none = ok tt
check_server (some server) =
    if server.profile =? "edge" then ok tt else err (profile server.profile)

-- The loop over the sources, with the set `seen`.
unfoldable pub check_sources : List String → List SourceEntry → Checked
check_sources seen [] = ok tt
check_sources seen (s ∷ ss) =
    let rest = check_sources (s.id ∷ seen) ss in
    if any (λ id. id =? s.id) seen then err (duplicate_source s.id) else rest

abbrev pub map_err :
    {A : Type 0} → (DurationError → ConfigError) → Result DurationError A → Result ConfigError A
map_err f (ok a) = ok a
map_err f (err e) = err (f e)

abbrev pub check_ages : ℕ → Option String → Option String → Checked
check_ages i (some age) (some vmax) = map_err (max_age i) (parse_duration age) >>= λ raw.
    map_err (vector_max_age i) (parse_duration vmax) >>= λ vec.
    if ltb raw vec then err (vector_outlives i) else ok tt
check_ages i (some _) none = ok tt
check_ages i none _ = ok tt

abbrev pub check_entry : ℕ → RetentionEntry → Checked
check_entry i r =
    if not (is_some r.match_.source_id) && not (is_some r.match_.kind)
    then err (empty_match i)
    else check_ages i r.max_age r.vector_max_age

unfoldable pub check_retention : ℕ → List RetentionEntry → Checked
check_retention i [] = ok tt
check_retention i (r ∷ rs) = check_entry i r >>= λ _. check_retention (suc i) rs

unfoldable pub check : Config → Checked
unfolding check_sources check_retention
check cfg = check_server cfg.server >>= λ _.
    check_sources [] cfg.sources >>= λ _. check_retention 0 cfg.retention
