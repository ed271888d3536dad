-- ===== src/Config/Validate/Accepted.antt =====
-- Which configurations `check` accepts.
use percept.Prelude.{
  ℕ, suc, ◌≤◌, String, List, [], ◌∷◌, Option, none, some, Bool, true, false, any, is_some, not, All,
  ◌≡◌, ◌≢◌, ◌↔◌, refl, arith, Bool-cases, inl, inr, ◌&&◌, ◌||◌,
}
use percept.Prelude.Eq.{string_eq, ◌=?◌}
use percept.Prelude.Result.{Result, ok, err, >>=-ok}
use percept.Config.Duration.{DurationError, parse_duration}
use percept.Config.Entries.{Server, SourceEntry, RetentionEntry}
use percept.Config.Schema.{Config}
use percept.Config.Validate.{
  ConfigError, max_age, vector_max_age, map_err, check_server, check_sources, check_ages,
  check_entry, check_retention, check,
}

abbrev pub IsEdge : Option Server → Type 0
IsEdge none = Unit
IsEdge (some server) = server.profile ≡ "edge"

-- No id is that of a source before it, nor among `seen`.
abbrev pub FreshIds : List String → List SourceEntry → Type 0
FreshIds seen [] = Unit
FreshIds seen (s ∷ ss) = All (λ id. id ≢ s.id) seen × FreshIds (s.id ∷ seen) ss

-- Where an entry has both ages, both are durations and the vectors' is not the longer.
abbrev pub AgesOrdered : Option String → Option String → Type 0
AgesOrdered (some age) (some vmax) =
    (raw vec : ℕ) × (parse_duration age ≡ ok raw) × (parse_duration vmax ≡ ok vec) × (vec ≤ raw)
AgesOrdered (some _) none = Unit
AgesOrdered none _ = Unit

abbrev pub ValidEntry : RetentionEntry → Type 0
ValidEntry r =
    ((is_some r.match_.source_id || is_some r.match_.kind) ≡ true)
    × AgesOrdered r.max_age r.vector_max_age

pub record IsValid (cfg : Config) : Type 0 where
  pub server : IsEdge cfg.server
  pub sources : FreshIds [] cfg.sources
  pub retention : All ValidEntry cfg.retention

check_server_iff : (s : Option Server) → (check_server s ≡ ok tt) ↔ IsEdge s
check_server_iff none = ((λ _. tt), (λ _. refl))
check_server_iff (some server) = elim (Bool-cases (server.profile =? "edge")) [
  | inl h ↦ rw h ((λ _. (string_eq.beq_iff server.profile "edge").0 h), (λ _. refl))
  | inr h ↦
      rw h
        ((λ e. absurd cc), (λ e. absurd (ground (arith, string_eq.beq_iff server.profile "edge"))))
]

any-false :
    (id : String) (seen : List String) → (any (λ x. x =? id) seen ≡ false) ↔ All (λ x. x ≢ id) seen
any-false id [] = ((λ _. tt), (λ _. refl))
any-false id (x ∷ seen) = elim (Bool-cases (x =? id)) [
  | inl h ↦ rw h ((λ e. absurd cc), (λ (ne, _). absurd (ne ((string_eq.beq_iff x id).0 h))))
  | inr h ↦ rw h (
    (λ e. ((λ p. ground (arith, string_eq.beq_iff x id)), (any-false id seen).0 e)),
    (λ (_, a). (any-false id seen).1 a),
  )
]

check_sources_iff :
    (seen : List String) (ss : List SourceEntry)
    → (check_sources seen ss ≡ ok tt) ↔ FreshIds seen ss
unfolding check_sources
check_sources_iff seen [] = ((λ _. tt), (λ _. refl))
check_sources_iff seen (s ∷ ss) = elim (Bool-cases (any (λ id. id =? s.id) seen)) [
  | inl h ↦ rw h ((λ e. absurd cc), (λ (a, _). absurd (cc (h, (any-false s.id seen).1 a))))
  | inr h ↦ rw h (
    (λ e. ((any-false s.id seen).0 h, (check_sources_iff (s.id ∷ seen) ss).0 e)),
    (λ (_, f). (check_sources_iff (s.id ∷ seen) ss).1 f),
  )
]

map_err-ok :
    {A : Type 0} (f : DurationError → ConfigError) (m : Result DurationError A) (a : A)
    → map_err f m ≡ ok a
    → m ≡ ok a
map_err-ok f (ok b) a e = cc
map_err-ok f (err _) a e = absurd cc

check_ages_iff : (i : ℕ) (a v : Option String) → (check_ages i a v ≡ ok tt) ↔ AgesOrdered a v
check_ages_iff i none v = ((λ _. tt), (λ _. refl))
check_ages_iff i (some a) none = ((λ _. tt), (λ _. refl))
check_ages_iff i (some a) (some v) = (
  λ h.
      let (raw, p, h) = >>=-ok (map_err (max_age i) (parse_duration a)) _ h in
      let (vec, q, h) = >>=-ok (map_err (vector_max_age i) (parse_duration v)) _ h in
      (
        raw,
        vec,
        map_err-ok (max_age i) (parse_duration a) raw p,
        map_err-ok (vector_max_age i) (parse_duration v) vec q,
        ground arith,
      ),
  λ (raw, vec, p, q, le). rw p (rw q (ground arith)),
)

selects : (a b : Bool) → (a || b) ≡ true → (not a && not b) ≡ false
selects a b h = ground arith

selects_none : (a b : Bool) → (a || b) ≡ false → (not a && not b) ≡ true
selects_none a b h = ground arith

check_entry_iff : (i : ℕ) (r : RetentionEntry) → (check_entry i r ≡ ok tt) ↔ ValidEntry r
check_entry_iff i r =
    let a : Bool = is_some r.match_.source_id in
    let b : Bool = is_some r.match_.kind in
    let (to, from) = check_ages_iff i r.max_age r.vector_max_age in
    elim (Bool-cases (a || b)) [
      | inl h ↦ rw (selects a b h) ((λ e. (h, to e)), (λ (_, v). from v))
      | inr h ↦ rw (selects_none a b h) ((λ e. absurd cc), (λ (e, _). absurd cc))
    ]

check_retention_iff :
    (i : ℕ) (rs : List RetentionEntry) → (check_retention i rs ≡ ok tt) ↔ All ValidEntry rs
unfolding check_retention
check_retention_iff i [] = ((λ _. tt), (λ _. refl))
check_retention_iff i (r ∷ rs) = (
  λ h.
      let (_, p, q) = >>=-ok (check_entry i r) _ h in
      ((check_entry_iff i r).0 p, (check_retention_iff (suc i) rs).0 q),
  λ (v, vs). rw ((check_entry_iff i r).1 v) ((check_retention_iff (suc i) rs).1 vs),
)

-- A configuration is accepted exactly where its profile is "edge" if it has a server section, no two
-- sources have the same id, and each retention entry selects by a source or a kind and, where it has
-- both ages, has two durations of which that of the vectors is not the longer.
pub check-iff_IsValid : (cfg : Config) → (check cfg ≡ ok tt) ↔ IsValid cfg
unfolding check
check-iff_IsValid cfg = (
  λ h.
      let (_, p, h) = >>=-ok (check_server cfg.server) _ h in
      let (_, q, r) = >>=-ok (check_sources [] cfg.sources) _ h in
      record {
        server = (check_server_iff cfg.server).0 p;
        sources = (check_sources_iff [] cfg.sources).0 q;
        retention = (check_retention_iff 0 cfg.retention).0 r;
      },
  λ v. rw ((check_server_iff cfg.server).1 v.server) (
      rw ((check_sources_iff [] cfg.sources).1 v.sources)
        ((check_retention_iff 0 cfg.retention).1 v.retention)),
)
