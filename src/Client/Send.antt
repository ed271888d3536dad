-- ===== src/Client/Send.antt =====
-- crates/client/src/client.rs, `send_batch`, with crates/client/src/error.rs. The server's answers are
-- an argument: what the attempt with a number gets. A `Duration` is a number of milliseconds.
pub mod Retries
use percept.Prelude.{
  ℕ, zero, suc, ◌+◌, ◌*◌, ◌^◌, min, String, List, [], ◌∷◌, Option, none, some, Bool, true, false,
  if◌then◌else◌, ltb, leb, ◌==◌, ◌&&◌, ◌||◌, unwrap_or,
}
use percept.Prelude.Eq.{string_eq, ◌=?◌}
use percept.Ingest.Auth.RateLimit.{trim, parse_uint}
use percept.Client.Event.{ClientEvent}

pub record ClientConfig : Type 0 where
  pub max_attempts : ℕ
  pub max_retry_after : ℕ
  pub default_retry_after : ℕ
  pub gzip : Bool
  pub timeout : ℕ

abbrev pub default_config : ClientConfig
default_config = record {
  max_attempts = 4;
  max_retry_after = 30_000;
  default_retry_after = 200;
  gzip = true;
  timeout = 10_000;
}

pub data ClientError : Type 0 where
  network serialize unauthorized : ClientError
  bad_request : ℕ → String → ClientError
  payload_too_large scope_deny : ClientError
  retries_exhausted : ℕ → ℕ → Option ℕ → ClientError
  server_error : ℕ → String → ClientError

pub data Sent : Type 0 where
  ok : ℕ → Sent
  err : ClientError → Sent

-- A response: the status, the two headers that are read, the body as text, and the `accepted` of the
-- body where it is the JSON of an `IngestOk`.
pub record Reply : Type 0 where
  pub status : ℕ
  pub shed_reason : Option String
  pub retry_after : Option String
  pub text : String
  pub accepted : Option ℕ

-- What an attempt gets: an error of the network, or a response.
abbrev pub Answer : Type 0
Answer = Option Reply

abbrev in_secs : Option ℕ → Option ℕ
in_secs none = none
in_secs (some n) = some (n * 1000)

-- `parse_retry_after`: only a number of seconds is read.
unfoldable pub parse_retry_after : Option String → Option ℕ
parse_retry_after none = none
parse_retry_after (some raw) = in_secs (parse_uint (2 ^ 64) (trim raw))

abbrev pub is_reason : String → Option String → Bool
is_reason reason none = false
is_reason reason (some s) = s =? reason

abbrev pub is_busy : ℕ → Bool
is_busy status = (status == 429) || (status == 503)

-- One round of the loop: the result that ends it, or the time to sleep before the next.
pub data Round : Type 0 where
  done : Sent → Round
  again : ℕ → Round

abbrev of_accepted : Option ℕ → Sent
of_accepted none = err network
of_accepted (some n) = ok n

-- The arms of the `match` that do not look at the attempt.
unfoldable pub last_arms : Reply → Sent
last_arms r =
    if r.status == 413
    then err payload_too_large
    else if leb 400 r.status && ltb r.status 500
    then err (bad_request r.status r.text)
    else err (server_error r.status r.text)

abbrev pub wait_of : ClientConfig → Reply → ℕ
wait_of config r =
    min (unwrap_or (parse_retry_after r.retry_after) config.default_retry_after)
      config.max_retry_after

unfoldable pub on_answer : ClientConfig → ℕ → Answer → Round
on_answer config attempt none = done (err network)
on_answer config attempt (some r) =
    if r.status == 200
    then done (of_accepted r.accepted)
    else if r.status == 401
    then done (err unauthorized)
    else if is_busy r.status && ltb (attempt + 1) config.max_attempts
    then if is_reason "unauthorized" r.shed_reason
      then done (err scope_deny)
      else if is_reason "payload_too_large" r.shed_reason
      then done (err payload_too_large)
      else again (wait_of config r)
    else done (last_arms r)

-- What a batch does: the sleeps between the attempts, in their order, and the result.
abbrev pub Trace : Type 0
Trace = List ℕ × Sent

-- `last_status` and `last_retry_after`.
abbrev pub last_of : Answer → ℕ × Option ℕ
last_of none = (0, none)
last_of (some r) = (r.status, parse_retry_after r.retry_after)

-- The loop `for attempt in 0..max_attempts`, with `left` attempts to go.
unfoldable pub attempts : ClientConfig → (ℕ → Answer) → ℕ → ℕ → ℕ × Option ℕ → Trace
attempts config server zero attempt (last_status, last_retry_after) =
    ([], err (retries_exhausted config.max_attempts last_status last_retry_after))
attempts config server (suc left) attempt last =
    let answer = server attempt in
    elim (on_answer config attempt answer) [
      | done r ↦ ([], r)
      | again wait ↦
          let rest = attempts config server left (attempt + 1) (last_of answer) in
          (wait ∷ rest.0, rest.1)
    ]

abbrev with_body : ClientConfig → (String → ℕ → Answer) → Option String → Trace
with_body config server none = ([], err serialize)
with_body config server (some body) = attempts config (server body) config.max_attempts 0 (0, none)

-- `send_batch`. `encode` is `serde_json::to_vec` of the envelope, compressed or not, and `server` what a
-- request with a body gets.
unfoldable pub send_batch :
    ClientConfig
    → (List ClientEvent → Option String)
    → (String → ℕ → Answer)
    → List ClientEvent
    → Trace
send_batch config encode server [] = ([], ok 0)
send_batch config encode server (e ∷ es) = with_body config server (encode (e ∷ es))
