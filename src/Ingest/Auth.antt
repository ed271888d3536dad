-- ===== src/Ingest/Auth.antt =====
-- crates/ingest/src/auth.rs: bearer tokens, their scopes and rate limits. The glob sets of `globset` are
-- a parameter; of `governor` the quota is modelled, and the limiter's answer is an input of its callers.
pub mod RateLimit
use percept.Prelude.{
  ℕ, String, List, [], ◌∷◌, Option, none, some, Bool, true, false, ◌&&◌, ◌≡◌, ◌⊎◌, inl, inr, ap,
  arith, refl,
}
use percept.Prelude.Eq.{string_eq}
use percept.Prelude.Assoc.{lookup, insert}
use percept.Ingest.Auth.RateLimit.{Quota, parse_rate_limit}

pub data ShedReason : Type 0 where
  bus_full rate_limit unauthorized payload_too_large unresolved_kind : ShedReason

unfoldable pub as_str : ShedReason → String
as_str ShedReason.bus_full = "bus_full"
as_str ShedReason.rate_limit = "rate_limit"
as_str ShedReason.unauthorized = "unauthorized"
as_str ShedReason.payload_too_large = "payload_too_large"
as_str ShedReason.unresolved_kind = "unresolved_kind"

pub data AuthError : Type 0 where
  invalid_glob : AuthError
  invalid_rate_limit : String → AuthError

-- `GlobSetBuilder`: `build` fails on a pattern that is no glob, and the set of no pattern matches nothing.
pub record Globs : Type 1 where
  pub GlobSet : Type 0
  pub build : List String → Option GlobSet
  pub is_match : GlobSet → String → Bool
  pub is_match-build_nil : (g : GlobSet) (s : String) → build [] ≡ some g → is_match g s ≡ false

pub data Result {ℓ} (A : Type ℓ) : Type ℓ where
  ok : A → Result A
  err : AuthError → Result A

infixl 5 ◌>>=◌
abbrev ◌>>=◌ {ℓ κ} : {A : Type ℓ} {B : Type κ} → Result A → (A → Result B) → Result B
ok a >>= f = f a
err e >>= f = err e

ok_inj {ℓ} : {A : Type ℓ} {a b : A} → ok a ≡ ok b → a ≡ b
ok_inj h = cc

and_false : (b : Bool) → (b && false) ≡ false
and_false b = ground arith

module _ (globs : Globs) where
  open globs use {GlobSet, build, is_match, is_match-build_nil}

  pub record TokenScope : Type 0 where
    pub name : String
    pub source_globs : GlobSet
    pub kind_globs : GlobSet
    pub limiter : Option Quota

  abbrev built : Option GlobSet → Result GlobSet
  built none = err invalid_glob
  built (some g) = ok g

  unfoldable pub build_globs : List String → Result GlobSet
  build_globs patterns = built (build patterns)

  -- `rate_limit.map(parse_rate_limit).transpose()`.
  abbrev limiter_of : Option String → Result (Option Quota)
  limiter_of none = ok none
  limiter_of (some s) = elim (parse_rate_limit s) [
    | none ↦ err (invalid_rate_limit s)
    | some q ↦ ok (some q)
  ]

  abbrev scope_of :
      String → Result GlobSet → Result GlobSet → Result (Option Quota) → Result TokenScope
  scope_of name sources kinds rate = do
    source_globs ← sources
    kind_globs ← kinds
    limiter ← rate
    ok (record {
      name = name;
      source_globs = source_globs;
      kind_globs = kind_globs;
      limiter = limiter;
    })

  unfoldable pub build_scope :
      String → List String → List String → Option String → Result TokenScope
  unfolding build_globs
  build_scope name source_patterns kind_patterns rate =
      scope_of name (build_globs source_patterns) (build_globs kind_patterns) (limiter_of rate)

  unfoldable pub allows : TokenScope → String → String → Bool
  allows s source_id kind = is_match s.source_globs source_id && is_match s.kind_globs kind

  -- `check_rate`, with the answer that the limiter gives if there is one: how long to wait, if at all.
  abbrev pub check_rate : TokenScope → Option ℕ → Option ℕ
  check_rate s answer = elim s.limiter [ none ↦ none | some _ ↦ answer ]

  abbrev pub Auth : Type 0
  Auth = List (String × TokenScope)

  unfoldable pub insert_token : Auth → String → TokenScope → Auth
  insert_token auth token_value scope = insert token_value scope auth

  unfoldable pub lookup_token : Auth → String → Option TokenScope
  lookup_token auth token_value = lookup token_value auth

  scope_of_lem :
      (name : String) (a b : Option GlobSet) (rate : Result (Option Quota)) {scope : TokenScope}
      → scope_of name (built a) (built b) rate ≡ ok scope
      → (a ≡ some scope.source_globs) × (b ≡ some scope.kind_globs)
  scope_of_lem name none b rate e = cc
  scope_of_lem name (some g) none rate e = cc
  scope_of_lem name (some g) (some h) (err x) e = cc
  scope_of_lem name (some g) (some h) (ok q) e =
      let same = ok_inj e in (ap (λ s. some s.source_globs) same, ap (λ s. some s.kind_globs) same)

  -- A scope with no pattern for the sources, or none for the kinds, allows nothing.
  pub allows-build_scope_nil :
      (name : String) (source_patterns kind_patterns : List String) (rate : Option String)
      (scope : TokenScope) (source_id kind : String)
      → build_scope name source_patterns kind_patterns rate ≡ ok scope
      → (source_patterns ≡ []) ⊎ (kind_patterns ≡ [])
      → allows scope source_id kind ≡ false
  unfolding allows build_scope
  allows-build_scope_nil name source_patterns kind_patterns rate scope source_id kind e none_given =
      let (sources, kinds) =
        scope_of_lem name (build source_patterns) (build kind_patterns) (limiter_of rate) e in
      elim none_given [
        | inl no_source ↦
            rw (is_match-build_nil scope.source_globs source_id (rw no_source at sources))
        | inr no_kind ↦
            rw (is_match-build_nil scope.kind_globs kind (rw no_kind at kinds)) (and_false _)
      ]
