-- ===== src/Mcp/Router/Counted.antt =====
-- Which requests the endpoint refuses, and which it counts.
use percept.Prelude.{
  ℕ, String, code, Option, none, some, ◌==◌, ◌≡◌, ◌≢◌, refl, ap, sym, ◌∙◌, arith, Bool-cases,
  Option-cases, inl, inr, some_inj,
}
use Prim.Native.String
use text.Mathlib.TextEquality.{Char-path}
use text.Mathlib.TextLemmas.{nil-append, cons-append}
use percept.Prelude.Eq.{string_eq, ◌=?◌, =?_refl}
use percept.Ingest.Http.{strip_prefix}
use percept.Ingest.Metrics.{Metrics, inc_mcp_call}
use percept.Mcp.Protocol.{Request, parse_error, invalid_request, error}
use percept.Mcp.Router.{
  HttpResponse, Refusal, unauthorized, missing_bearer, unknown_bearer, jsonrpc, Tools, dispatch,
  check_token, authenticate, read_envelope, handle,
}

strip_prefix-some : (p s t : String) → strip_prefix p s ≡ some t → s ≡ String.◌++◌ p t
unfolding strip_prefix
strip_prefix-some String.[] s t = λ h. rw nil-append (some_inj h)
strip_prefix-some (String.◌∷◌ c p) String.[] t = λ h. absurd cc
strip_prefix-some (String.◌∷◌ c p) (String.◌∷◌ d s) t = elim (Bool-cases (code c == code d)) [
  | inl e ↦ rw e (λ h. rw cons-append (
      ap (String.◌∷◌ d) (strip_prefix-some p s t h)
      ∙ ap (λ x. String.◌∷◌ x (String.◌++◌ p t)) (Char-path d c (ground arith))))
  | inr e ↦ rw e (λ h. absurd cc)
]

strip_prefix-append : (p t : String) → strip_prefix p (String.◌++◌ p t) ≡ some t
unfolding strip_prefix
strip_prefix-append String.[] t = rw nil-append refl
strip_prefix-append (String.◌∷◌ c p) t = rw cons-append (ground (arith, strip_prefix-append p t))

-- The header that the token makes.
abbrev pub bearer : String → Option String
bearer token = some (String.◌++◌ "Bearer " token)

-- How a request ends: it is refused and nothing is counted; it is no request of the protocol and nothing
-- is counted; or it is dispatched and counted once under its method.
pub data Handled (token : String) (tools : Tools) (elapsed_ms : ℕ) (metrics : Metrics)
    (header : Option String) (body : Option Request) : Metrics × HttpResponse → Type 0 where
  no_header :
      ((t : String) → header ≢ bearer t)
      → Handled token tools elapsed_ms metrics header body (metrics, unauthorized missing_bearer)
  wrong_token :
      {t : String}
      → header ≡ bearer t
      → t ≢ token
      → Handled token tools elapsed_ms metrics header body (metrics, unauthorized unknown_bearer)
  no_envelope :
      header ≡ bearer token
      → body ≡ none
      → Handled token tools elapsed_ms metrics header body
          (metrics, jsonrpc (record { id = none; payload = error parse_error }))
  wrong_version :
      {req : Request}
      → header ≡ bearer token
      → body ≡ some req
      → req.jsonrpc ≢ "2.0"
      → Handled token tools elapsed_ms metrics header body
          (metrics, jsonrpc (record { id = req.id; payload = error invalid_request }))
  dispatched :
      {req : Request}
      → header ≡ bearer token
      → body ≡ some req
      → req.jsonrpc ≡ "2.0"
      → Handled token tools elapsed_ms metrics header body
          (inc_mcp_call metrics req.method elapsed_ms, jsonrpc (dispatch tools req))

authenticate-none : (token : String) → authenticate token (bearer token) ≡ none
unfolding authenticate
authenticate-none token = rw (strip_prefix-append "Bearer " token) (rw (=?_refl token) refl)

missing_ne_unknown : missing_bearer ≢ unknown_bearer
missing_ne_unknown e = cc

authenticate-bearer :
    (token t : String) → authenticate token (bearer t) ≡ check_token token (some t)
unfolding authenticate
authenticate-bearer token t = rw (strip_prefix-append "Bearer " t) refl

no_bearer :
    (token : String) (header : Option String)
    → authenticate token header ≡ some missing_bearer
    → (t : String) → header ≢ bearer t
no_bearer token header h t e =
    let k : check_token token (some t) ≡ some missing_bearer =
      sym (authenticate-bearer token t) ∙ (sym (ap (authenticate token) e) ∙ h) in
    absurd (elim (Bool-cases (t =? token)) [
      | inl same ↦ let f : none ≡ some missing_bearer = rw same at k in cc
      | inr other ↦
          let f : some unknown_bearer ≡ some missing_bearer = rw other at k in
          missing_ne_unknown (some_inj (sym f))
    ])

other_bearer :
    (token : String) (header : Option String)
    → authenticate token header ≡ some unknown_bearer
    → (t : String) × (header ≡ bearer t) × (t ≢ token)
unfolding authenticate
other_bearer token none = λ h. absurd (missing_ne_unknown (some_inj h))
other_bearer token (some header) = elim (Option-cases (strip_prefix "Bearer " header)) [
  | inl e ↦ rw e (λ h. absurd (missing_ne_unknown (some_inj h)))
  | inr (t, e) ↦ rw e (elim (Bool-cases (t =? token)) [
    | inl same ↦ rw same (λ h. absurd cc)
    | inr other ↦ λ _. (
      t,
      ap some (strip_prefix-some "Bearer " header t e),
      λ same. absurd (cc (other, (string_eq.beq_iff t token).1 same)),
    )
  ])
]

is_bearer :
    (token : String) (header : Option String)
    → authenticate token header ≡ none
    → header ≡ bearer token
unfolding authenticate
is_bearer token none = λ h. absurd cc
is_bearer token (some header) = elim (Option-cases (strip_prefix "Bearer " header)) [
  | inl e ↦ rw e (λ h. absurd cc)
  | inr (t, e) ↦ rw e (elim (Bool-cases (t =? token)) [
    | inl same ↦ λ _. ap some (
        strip_prefix-some "Bearer " header t e
        ∙ ap (String.◌++◌ "Bearer ") ((string_eq.beq_iff t token).0 same))
    | inr other ↦ rw other (λ h. absurd cc)
  ])
]

-- A request is dispatched, and counted once under its method, exactly where its header is "Bearer " and
-- the configured token, its body is a request and that is of version 2.0. Where no header begins with
-- "Bearer " it is refused as missing one, and with another token behind that as unknown, before its body
-- is looked at; a body that is no request, or of another version, has its own error. Nothing that is not
-- dispatched is counted.
pub handle-Handled :
    (token : String) (tools : Tools) (elapsed_ms : ℕ) (metrics : Metrics) (header : Option String)
    (body : Option Request)
    → Handled token tools elapsed_ms metrics header body
        (handle token tools elapsed_ms metrics header body)
unfolding handle
handle-Handled token tools elapsed_ms metrics header body =
    elim (Option-cases (authenticate token header)) [
      | inl ok ↦ rw ok (accepted body (is_bearer token header ok))
      | inr (r, h) ↦ rw h (refused r h)
    ]
  where
    accepted :
        (b : Option Request)
        → header ≡ bearer token
        → Handled token tools elapsed_ms metrics header b (read_envelope tools elapsed_ms metrics b)
    accepted none a = Handled.no_envelope a refl
    accepted (some req) a = elim (Bool-cases (req.jsonrpc =? "2.0")) [
      | inl v ↦ rw v (Handled.dispatched a refl ((string_eq.beq_iff req.jsonrpc "2.0").0 v))
      | inr v ↦ rw v (
          Handled.wrong_version a refl
            (λ e. absurd (cc (v, (string_eq.beq_iff req.jsonrpc "2.0").1 e))))
    ]

    refused :
        (r : Refusal)
        → authenticate token header ≡ some r
        → Handled token tools elapsed_ms metrics header body (metrics, unauthorized r)
    refused missing_bearer h = Handled.no_header (no_bearer token header h)
    refused unknown_bearer h =
        let (t, e, n) = other_bearer token header h in Handled.wrong_token e n
