-- ===== src/Client/Send/Retries.antt =====
-- How often `send_batch` tries, how long it waits, and what its result says of the last answer.
use percept.Prelude.{
  ◌⊎◌, ◌-◌, ◌&&◌, subst, ℕ, zero, suc, ◌+◌, ◌≤◌, ◌<◌, String, List, [], ◌∷◌, Option, none, some,
  true, false, ltb, leb, ◌==◌, length, ap, ◌≡◌, ◌≢◌, refl, arith, All, Bool-cases, inl, inr,
}
use native.Mathlib.Nat.{add-zero}
use percept.Client.Event.{ClientEvent}
use percept.Client.Send.{
  ClientConfig, Sent, ok, err, network, unauthorized, payload_too_large, scope_deny, bad_request,
  server_error, retries_exhausted, serialize, Reply, Answer, Round, done, again, on_answer,
  of_accepted, last_arms, last_of, is_busy, is_reason, Trace, attempts, send_batch,
}

-- An answer after which the client tries again: the server is busy, and not for a reason that stays.
pub record Busy (answer : Answer) : Type 0 where
  pub reply : Reply
  pub answered : answer ≡ some reply
  pub busy : is_busy reply.status ≡ true
  pub in_scope : is_reason "unauthorized" reply.shed_reason ≡ false
  pub in_size : is_reason "payload_too_large" reply.shed_reason ≡ false

-- What the last answer says of the result. Where the server accepted the batch, the number is its own.
abbrev pub Explains : Answer → Sent → Type 0
Explains none result = result ≡ err network
Explains (some r) (ok n) = (r.status ≡ 200) × (r.accepted ≡ some n)
Explains (some r) (err network) = (r.status ≡ 200) × (r.accepted ≡ none)
Explains (some r) (err serialize) = ⊥
Explains (some r) (err unauthorized) = r.status ≡ 401
Explains (some r) (err (bad_request status text)) =
    (status ≡ r.status) × (400 ≤ status) × (status < 500)
Explains (some r) (err payload_too_large) =
    ((r.status ≡ 413) ⊎ (is_reason "payload_too_large" r.shed_reason ≡ true))
Explains (some r) (err scope_deny) = is_reason "unauthorized" r.shed_reason ≡ true
Explains (some r) (err (retries_exhausted _ _ _)) = ⊥
Explains (some r) (err (server_error status text)) = (status ≡ r.status) × (status ≢ 200)

last_arms-Explains : (r : Reply) → (r.status == 200) ≡ false → Explains (some r) (last_arms r)
unfolding last_arms
last_arms-Explains r not_ok = elim (Bool-cases (r.status == 413)) [
  | inl large ↦ rw large (inl (ground arith))
  | inr h ↦ rw h (elim (Bool-cases (leb 400 r.status && ltb r.status 500)) [
    | inl client ↦ rw client (refl, ground arith, ground arith)
    | inr other ↦ rw other (refl, ground arith)
  ])
]

-- What a round means, by its outcome.
abbrev RoundOf : ClientConfig → ℕ → Answer → Round → Type 0
RoundOf config attempt answer (done r) = Explains answer r
RoundOf config attempt answer (again wait) =
    Busy answer × (attempt + 1 < config.max_attempts) × (wait ≤ config.max_retry_after)

of_accepted-Explains :
    (r : Reply) (accepted : Option ℕ)
    → r.status ≡ 200
    → r.accepted ≡ accepted
    → Explains (some r) (of_accepted accepted)
of_accepted-Explains r none h e = (h, e)
of_accepted-Explains r (some n) h e = (h, e)

accepted-RoundOf :
    (config : ClientConfig) (attempt : ℕ) (r : Reply)
    → (r.status == 200) ≡ true
    → RoundOf config attempt (some r) (on_answer config attempt (some r))
unfolding on_answer
accepted-RoundOf config attempt r h = rw h (of_accepted-Explains r r.accepted (ground arith) refl)

retry-RoundOf :
    (config : ClientConfig) (attempt : ℕ) (r : Reply)
    → (r.status == 200) ≡ false
    → (r.status == 401) ≡ false
    → is_busy r.status ≡ true
    → ltb (attempt + 1) config.max_attempts ≡ true
    → RoundOf config attempt (some r) (on_answer config attempt (some r))
unfolding on_answer
retry-RoundOf config attempt r a b c d =
    rw (a, b, c, d)
      (elim (Bool-cases (is_reason "unauthorized" r.shed_reason)) [
        | inl scope ↦ rw scope scope
        | inr in_scope ↦
            rw in_scope (elim (Bool-cases (is_reason "payload_too_large" r.shed_reason)) [
              | inl large ↦ rw large (inr large)
              | inr in_size ↦ rw in_size (
                record {
                  reply = r;
                  answered = refl;
                  busy = c;
                  in_scope = in_scope;
                  in_size = in_size;
                },
                ground arith,
                omega arith,
              )
            ])
      ])

on_answer-RoundOf :
    (config : ClientConfig) (attempt : ℕ) (answer : Answer)
    → RoundOf config attempt answer (on_answer config attempt answer)
unfolding on_answer
on_answer-RoundOf config attempt none = refl
on_answer-RoundOf config attempt (some r) = elim (Bool-cases (r.status == 200)) [
  | inl h ↦ accepted-RoundOf config attempt r h
  | inr a ↦ elim (Bool-cases (r.status == 401)) [
    | inl h ↦ rw (a, h) (ground arith)
    | inr b ↦ elim (Bool-cases (is_busy r.status)) [
      | inl c ↦ elim (Bool-cases (ltb (attempt + 1) config.max_attempts)) [
        | inl d ↦ retry-RoundOf config attempt r a b c d
        | inr d ↦ rw (a, b, c, d) (last_arms-Explains r a)
      ]
      | inr c ↦ rw (a, b, c) (last_arms-Explains r a)
    ]
  ]
]

-- What `send_batch` did once it has a body: the requests with the numbers up to `k` were made, at most
-- `max_attempts` in all, each but the last was answered by a server that is busy, the sleeps between
-- them are within the limit, and the last answer explains the result.
pub record Tried (config : ClientConfig) (server : ℕ → Answer) (from : ℕ) (trace : Trace)
    : Type 0 where
  pub k : ℕ
  pub sleeps : length trace.0 ≡ k
  pub budget : from + k < config.max_attempts
  pub capped : All (λ wait. wait ≤ config.max_retry_after) trace.0
  pub busy : (i : ℕ) → i < k → Busy (server (from + i))
  pub explained : Explains (server (from + k)) trace.1

done-Tried :
    (config : ClientConfig) (server : ℕ → Answer) (from : ℕ) (r : Sent)
    → from < config.max_attempts
    → Explains (server from) r
    → Tried config server from ([], r)
done-Tried config server from r room explained = record {
  k = 0;
  sleeps = refl;
  budget = omega arith;
  capped = tt;
  busy = λ i lt. absurd (omega arith);
  explained = rw add-zero explained;
}

again-Tried :
    (config : ClientConfig) (server : ℕ → Answer) (from wait : ℕ) (trace : Trace)
    → Busy (server from)
    → wait ≤ config.max_retry_after
    → Tried config server (from + 1) trace
    → Tried config server from (wait ∷ trace.0, trace.1)
again-Tried config server from wait trace first short rest = record {
  k = suc rest.k;
  sleeps = ap suc rest.sleeps;
  budget = omega (arith, rest.budget);
  capped = (short, rest.capped);
  busy = elim [
    | zero ↦ λ lt. rw add-zero first
    | suc i ↦ λ lt. subst (λ n. Busy (server n)) (omega arith) (rest.busy i (omega arith))
  ];
  explained = subst (λ n. Explains (server n) trace.1) (omega arith) rest.explained;
}

Round-cases :
    (round : Round) → ((r : Sent) × (round ≡ done r)) ⊎ ((wait : ℕ) × (round ≡ again wait))
Round-cases (done r) = inl (r, refl)
Round-cases (again wait) = inr (wait, refl)

attempts-Tried :
    (config : ClientConfig) (server : ℕ → Answer) (left from : ℕ) (last : ℕ × Option ℕ)
    → from + suc left ≡ config.max_attempts
    → Tried config server from (attempts config server (suc left) from last)
unfolding attempts
attempts-Tried config server zero from last e =
    let sound = on_answer-RoundOf config from (server from) in
    elim (Round-cases (on_answer config from (server from))) [
      | inl (r, h) ↦
          rw (h, attempts) (done-Tried config server from r (omega arith) (rw h at sound))
      | inr (wait, h) ↦
          let (busy, more, short) : RoundOf config from (server from) (again wait) =
            rw h at sound in
          absurd (omega arith)
    ]
attempts-Tried config server (suc left) from last e =
    let sound = on_answer-RoundOf config from (server from) in
    elim (Round-cases (on_answer config from (server from))) [
      | inl (r, h) ↦
          rw (h, attempts) (done-Tried config server from r (omega arith) (rw h at sound))
      | inr (wait, h) ↦
          let (busy, more, short) : RoundOf config from (server from) (again wait) =
            rw h at sound in
          let rest =
            attempts-Tried config server left (from + 1) (last_of (server from)) (omega arith) in
          rw (h, attempts) (again-Tried config server from wait _ busy short rest)
    ]

-- A batch that is not empty, that can be encoded, and for which at least one attempt is configured is
-- tried at most `max_attempts` times; all but the last request were answered by a busy server, the
-- sleeps between them are within `max_retry_after`, and the last answer explains the result, which is
-- therefore never `retries_exhausted`.
pub send_batch-Tried :
    (config : ClientConfig) (encode : List ClientEvent → Option String)
    (server : String → ℕ → Answer) (e : ClientEvent) (es : List ClientEvent) (body : String)
    → encode (e ∷ es) ≡ some body
    → 1 ≤ config.max_attempts
    → Tried config (server body) 0 (send_batch config encode server (e ∷ es))
unfolding send_batch
send_batch-Tried config encode server e es body encoded some_attempt =
    let count : suc (config.max_attempts - 1) ≡ config.max_attempts = omega arith in
    rw encoded (
      subst (λ n. Tried config (server body) 0 (attempts config (server body) n 0 (0, none))) count
        (attempts-Tried config (server body) (config.max_attempts - 1) 0 (0, none) (omega arith)))
