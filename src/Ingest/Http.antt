-- ===== src/Ingest/Http.antt =====
-- crates/ingest/src/http.rs: `POST /ingest`. Inputs from outside are arguments: the header, the parsed
-- body, the clock, and the limiter's answer. The channel to the normalizer is a `Bus`.
pub mod Admission
use Prim.Native.String
use percept.Prelude.{
  ℕ, ◌+◌, ◌*◌, ◌/◌, max, String, code, List, [], ◌∷◌, Option, none, some, Bool, true, false,
  if◌then◌else◌, ltb, not, ◌==◌,
}
use percept.Prelude.Int.{ℤ}
use percept.Core.Json.{
  Value, null, bool, number, string, array, object, Items, nil, cons, Fields, end, field,
}
use percept.Ingest.Metrics.{Metrics, inc_shed, inc_source_error, inc_oversized_soft}
use percept.Ingest.Wire.{IngestEvent, IngestPayload, into_events, IngestEnvelope}
use percept.Ingest.Bus.{Bus, SendResult, sent, full, closed}
use percept.Ingest.Auth.{
  Globs, TokenScope, Auth, ShedReason, as_str, allows, check_rate, lookup_token,
}

abbrev pub default_hard_cap_bytes : ℕ
default_hard_cap_bytes = 64 * 1024

abbrev pub default_soft_cap_bytes : ℕ
default_soft_cap_bytes = 16 * 1024

-- `approx_semantic_size`, of http.rs and, in the same words, of ws.rs.
unfoldable mutual
  pub approx_semantic_size : Value → ℕ
  approx_semantic_size null = 4
  approx_semantic_size (bool _) = 5
  approx_semantic_size (number _) = 16
  approx_semantic_size (string s) = String.len s + 2
  approx_semantic_size (array a) = items_size a + 2
  approx_semantic_size (object o) = fields_size o + 2

  pub items_size : Items → ℕ
  items_size nil = 0
  items_size (cons v vs) = approx_semantic_size v + items_size vs

  pub fields_size : Fields → ℕ
  fields_size end = 0
  fields_size (field k v o) = (String.len k + 4 + approx_semantic_size v) + fields_size o

-- The responses, by their status and what the code puts in them. `shed` is 429 with the reason, and
-- the seconds of `retry-after` if there are any.
pub data Response : Type 0 where
  missing_token unknown_token : Response
  invalid_json no_events : Response
  shed : ShedReason → Option ℕ → Response
  shutting_down : Response
  accepted : ℕ → Response

-- `shed_response`, of a wait in milliseconds.
abbrev retry_after_secs : Option ℕ → Option ℕ
retry_after_secs none = none
retry_after_secs (some ms) = some (max (ms / 1000) 1)

unfoldable pub shed_response : ShedReason → Option ℕ → Response
shed_response reason retry_after = shed reason (retry_after_secs retry_after)

-- `str::strip_prefix`.
unfoldable pub strip_prefix : String → String → Option String
strip_prefix String.[] s = some s
strip_prefix (String.◌∷◌ c p) String.[] = none
strip_prefix (String.◌∷◌ c p) (String.◌∷◌ d s) =
    let rest = strip_prefix p s in if code c == code d then rest else none

module _ (globs : Globs) (bus : Bus IngestEnvelope) where
  open bus use {Chan, try_send}

  pub record HttpState : Type 0 where
    pub auth : Auth globs
    pub metrics : Metrics
    pub tx : Chan
    pub hard_cap_bytes : ℕ
    pub soft_cap_bytes : ℕ

  -- `inc_shed` and `inc_source_error`, as the handler calls them together.
  abbrev pub count_shed : ShedReason → String → String → ℤ → Metrics → Metrics
  count_shed reason token source_id now_ms m =
      inc_source_error (inc_shed m (as_str reason) (some token)) source_id (as_str reason) now_ms

  -- The check of one event: the reason to shed the batch, if any.
  unfoldable pub verdict : TokenScope globs → ℕ → IngestEvent → Option ShedReason
  verdict scope hard_cap e =
      if not (allows globs scope e.source_id e.kind)
      then some ShedReason.unauthorized
      else if ltb hard_cap (approx_semantic_size e.semantic)
      then some ShedReason.payload_too_large
      else none

  -- The loop of checks; it ends at the first event that fails.
  unfoldable pub check_events :
      TokenScope globs → ℕ → ℕ → ℤ → Metrics → List IngestEvent → Metrics × Option ShedReason
  check_events scope hard_cap soft_cap now_ms m [] = (m, none)
  check_events scope hard_cap soft_cap now_ms m (e ∷ es) =
      let soft =
        if ltb soft_cap (approx_semantic_size e.semantic) then inc_oversized_soft m else m in
      elim (verdict scope hard_cap e) [
        | some reason ↦ (count_shed reason scope.name e.source_id now_ms m, some reason)
        | none ↦ check_events scope hard_cap soft_cap now_ms soft es
      ]

  -- The metrics of a batch that the limiter sheds.
  unfoldable pub count_rate_limited : Metrics → ℤ → List IngestEvent → Metrics
  count_rate_limited m now_ms [] = m
  count_rate_limited m now_ms (e ∷ es) =
      count_rate_limited (inc_source_error m e.source_id (as_str ShedReason.rate_limit) now_ms)
        now_ms es

  abbrev pub envelope : TokenScope globs → IngestEvent → IngestEnvelope
  envelope scope e = record { event = e; token_name = some scope.name }

  -- The loop of `try_send`, with the number accepted so far.
  unfoldable pub enqueue :
      TokenScope globs → ℤ → HttpState → ℕ → List IngestEvent → HttpState × Response
  enqueue scope now_ms s n [] = (s, accepted n)
  enqueue scope now_ms s n (e ∷ es) =
      let (tx, r) = try_send s.tx (envelope scope e) in
      let s' = record s { tx = tx } in
      elim r [
        | sent ↦ enqueue scope now_ms s' (n + 1) es
        | full ↦ (
          record s' {
            metrics = count_shed ShedReason.bus_full scope.name e.source_id now_ms s.metrics;
          },
          shed_response ShedReason.bus_full (some 100),
        )
        | closed ↦ (s', shutting_down)
      ]

  abbrev of_token : Auth globs → Option String → Option (TokenScope globs) × Response
  of_token auth none = (none, missing_token)
  of_token auth (some token) = (lookup_token globs auth token, unknown_token)

  -- `authenticate`: the scope, or the response that refuses.
  unfoldable pub authenticate : Auth globs → Option String → Option (TokenScope globs) × Response
  authenticate auth none = (none, missing_token)
  authenticate auth (some header) = of_token auth (strip_prefix "Bearer " header)

  -- The handler from the limiter on.
  unfoldable pub after_checks :
      TokenScope globs → ℤ → Option ℕ → HttpState → List IngestEvent → HttpState × Response
  after_checks scope now_ms answer s es = elim (check_rate globs scope answer) [
    | some wait ↦ (
      record s {
        metrics =
            count_rate_limited (inc_shed s.metrics (as_str ShedReason.rate_limit) (some scope.name))
              now_ms es;
      },
      shed_response ShedReason.rate_limit (some wait),
    )
    | none ↦ enqueue scope now_ms s 0 es
  ]

  -- The handler for the events of a scope.
  unfoldable pub admit :
      TokenScope globs → ℤ → Option ℕ → HttpState → List IngestEvent → HttpState × Response
  admit scope now_ms answer s [] = (s, no_events)
  admit scope now_ms answer s (e ∷ es) =
      let (m, failed) =
        check_events scope s.hard_cap_bytes s.soft_cap_bytes now_ms s.metrics (e ∷ es) in
      let s' = record s { metrics = m } in
      elim failed [
        | some reason ↦ (s', shed_response reason none)
        | none ↦ after_checks scope now_ms answer s' (e ∷ es)
      ]

  abbrev of_payload :
      TokenScope globs → ℤ → Option ℕ → HttpState → Option IngestPayload → HttpState × Response
  of_payload scope now_ms answer s none = (s, invalid_json)
  of_payload scope now_ms answer s (some payload) =
      admit scope now_ms answer s (into_events payload)

  -- `ingest`. `payload` is what `serde_json` makes of the body, `answer` what the limiter says.
  unfoldable pub ingest :
      Option String → Option IngestPayload → ℤ → Option ℕ → HttpState → HttpState × Response
  ingest header payload now_ms answer s =
      let (scope, refusal) = authenticate s.auth header in
      elim scope [ none ↦ (s, refusal) | some sc ↦ of_payload sc now_ms answer s payload ]
