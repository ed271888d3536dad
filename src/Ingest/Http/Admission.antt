-- ===== src/Ingest/Http/Admission.antt =====
-- Which events a request puts on the channel, and what its response says of them.
use percept.Prelude.{
  ℕ, suc, ◌+◌, ◌≤◌, ◌<◌, List, [], ◌∷◌, ◌++◌, map, Option, none, some, true, if◌then◌else◌, ltb,
  length, take, ◌≡◌, ◌⊎◌, refl, sym, ◌∙◌, arith, Bool-cases, Option-cases, inl, inr, All,
  append_assoc, append-nil,
}
use percept.Prelude.Int.{ℤ}
use percept.Ingest.Metrics.{Metrics, inc_oversized_soft}
use percept.Ingest.Wire.{IngestEvent, IngestEnvelope}
use percept.Ingest.Bus.{Bus, SendResult-cases}
use percept.Ingest.Auth.{Globs, TokenScope, ShedReason, allows, check_rate}
use percept.Ingest.Http.{
  HttpState, Response, accepted, shed, shutting_down, no_events, verdict, check_events, envelope,
  enqueue, admit, after_checks, shed_response, approx_semantic_size,
}

-- How many of `n` events are on the channel, as far as the response tells.
abbrev pub Tells : ℕ → ℕ → Response → Type 0
Tells n k (accepted m) = (m ≡ n) × (k ≡ n)
Tells n k (shed ShedReason.bus_full _) = k < n
Tells n k shutting_down = k < n
Tells n k _ = k ≡ 0

module _ (globs : Globs) (bus : Bus IngestEnvelope) where
  open bus use {Chan, waiting, try_send, sent_lem, not_sent_lem}

  -- The first `k` of the events are on the channel, behind what was there and in their order, and the
  -- response tells so: `n` events in all, of which `before` came earlier.
  pub record Outcome (scope : TokenScope globs) (s : HttpState globs bus) (es : List IngestEvent)
      (before : ℕ) (out : HttpState globs bus × Response) : Type 0 where
    pub k : ℕ
    pub enqueued : waiting out.0.tx ≡ waiting s.tx ++ map (envelope globs bus scope) (take k es)
    pub told : Tells (before + length es) (before + k) out.1

  refused :
      (scope : TokenScope globs) (s : HttpState globs bus) (es : List IngestEvent) (before : ℕ)
      (out : HttpState globs bus × Response)
      → waiting out.0.tx ≡ waiting s.tx
      → Tells (before + length es) (before + 0) out.1
      → Outcome scope s es before out
  refused scope s es before out same told = record {
    k = 0;
    enqueued = same ∙ sym (append-nil (waiting s.tx));
    told = told;
  }

  enqueue-Outcome :
      (scope : TokenScope globs) (now_ms : ℤ) (s : HttpState globs bus) (n : ℕ)
      (es : List IngestEvent)
      → Outcome scope s es n (enqueue globs bus scope now_ms s n es)
  unfolding enqueue shed_response
  enqueue-Outcome scope now_ms s n [] = refused scope s [] n (s, accepted n) refl (omega arith)
  enqueue-Outcome scope now_ms s n (e ∷ es) =
      elim (SendResult-cases (try_send s.tx (envelope globs bus scope e)).1) [
        | inl h ↦
            let tx = (try_send s.tx (envelope globs bus scope e)).0 in
            let rest = enqueue-Outcome scope now_ms (record s { tx = tx }) (n + 1) es in
            let total : n + length (e ∷ es) ≡ (n + 1) + length es = omega arith in
            let so_far : n + suc rest.k ≡ (n + 1) + rest.k = omega arith in
            rw (h, enqueue)
              (record {
                k = suc rest.k;
                enqueued =
                    rest.enqueued
                    ∙ rw (sent_lem s.tx (envelope globs bus scope e) h)
                        (append_assoc (waiting s.tx) (envelope globs bus scope e ∷ []) _);
                told = rw (total, so_far) rest.told;
              })
        | inr (inl h) ↦
            rw (h, enqueue)
              (refused scope s (e ∷ es) n _
                (not_sent_lem s.tx (envelope globs bus scope e) (rw h (λ p. cc))) (omega arith))
        | inr (inr h) ↦
            rw (h, enqueue)
              (refused scope s (e ∷ es) n _
                (not_sent_lem s.tx (envelope globs bus scope e) (rw h (λ p. cc))) (omega arith))
      ]

  -- What the loop of checks answers: nothing where every event passes; else the verdict on an event
  -- that does not, which is one of two.
  abbrev pub CheckReason : Option ShedReason → Type 0
  CheckReason none = Unit
  CheckReason (some ShedReason.unauthorized) = Unit
  CheckReason (some ShedReason.payload_too_large) = Unit
  CheckReason (some _) = ⊥

  abbrev pub Passes : TokenScope globs → ℕ → IngestEvent → Type 0
  Passes scope hard_cap e =
      (allows globs scope e.source_id e.kind ≡ true) × (approx_semantic_size e.semantic ≤ hard_cap)

  abbrev AllPass : TokenScope globs → ℕ → List IngestEvent → Option ShedReason → Type 0
  AllPass scope hard_cap es none = All (Passes scope hard_cap) es
  AllPass scope hard_cap es (some _) = Unit

  verdict-none :
      (scope : TokenScope globs) (hard_cap : ℕ) (e : IngestEvent)
      → verdict globs bus scope hard_cap e ≡ none
      → Passes scope hard_cap e
  unfolding verdict
  verdict-none scope hard_cap e h = ground arith

  verdict-CheckReason :
      (scope : TokenScope globs) (hard_cap : ℕ) (e : IngestEvent)
      → CheckReason (verdict globs bus scope hard_cap e)
  unfolding verdict
  verdict-CheckReason scope hard_cap e = elim (Bool-cases (allows globs scope e.source_id e.kind)) [
    | inl ok ↦ rw ok (elim (Bool-cases (ltb hard_cap (approx_semantic_size e.semantic))) [
      | inl large ↦ rw large tt
      | inr small ↦ rw small tt
    ])
    | inr no_scope ↦ rw no_scope tt
  ]

  AllPass-cons :
      (scope : TokenScope globs) (hard_cap : ℕ) (e : IngestEvent) (es : List IngestEvent)
      (failed : Option ShedReason)
      → Passes scope hard_cap e
      → AllPass scope hard_cap es failed
      → AllPass scope hard_cap (e ∷ es) failed
  AllPass-cons scope hard_cap e es none p h = (p, h)
  AllPass-cons scope hard_cap e es (some _) p h = tt

  check_events_lem :
      (scope : TokenScope globs) (hard_cap soft_cap : ℕ) (now_ms : ℤ) (m : Metrics)
      (es : List IngestEvent)
      → let failed = (check_events globs bus scope hard_cap soft_cap now_ms m es).1 in
        CheckReason failed × AllPass scope hard_cap es failed
  unfolding check_events
  check_events_lem scope hard_cap soft_cap now_ms m [] = (tt, tt)
  check_events_lem scope hard_cap soft_cap now_ms m (e ∷ es) =
      elim (Option-cases (verdict globs bus scope hard_cap e)) [
        | inl passed ↦
            let (reason, all_pass) =
              check_events_lem scope hard_cap soft_cap now_ms
                (if ltb soft_cap (approx_semantic_size e.semantic) then inc_oversized_soft m else m)
                es in
            rw (passed, check_events)
              (
                reason,
                AllPass-cons scope hard_cap e es _ (verdict-none scope hard_cap e passed) all_pass,
              )
        | inr (reason, h) ↦
            rw (h, check_events) (rw h at (verdict-CheckReason scope hard_cap e), tt)
      ]

  told_of_check :
      (reason : ShedReason) (n : ℕ) (wait : Option ℕ)
      → CheckReason (some reason)
      → Tells n 0 (shed reason wait)
  told_of_check ShedReason.bus_full n wait h = absurd h
  told_of_check ShedReason.rate_limit n wait h = refl
  told_of_check ShedReason.unauthorized n wait h = refl
  told_of_check ShedReason.payload_too_large n wait h = refl
  told_of_check ShedReason.unresolved_kind n wait h = refl

  -- The part from the limiter on puts nothing on the channel, or does what `enqueue` does.
  after_checks-Outcome :
      (scope : TokenScope globs) (now_ms : ℤ) (answer : Option ℕ) (s : HttpState globs bus)
      (es : List IngestEvent)
      → Outcome scope s es 0 (after_checks globs bus scope now_ms answer s es)
  unfolding after_checks shed_response
  after_checks-Outcome scope now_ms answer s es =
      elim (Option-cases (check_rate globs scope answer)) [
        | inl free ↦ rw (free, after_checks) (enqueue-Outcome scope now_ms s 0 es)
        | inr (wait, h) ↦ rw (h, after_checks) (refused scope s es 0 _ refl refl)
      ]

  -- Whatever is sent with a token, a first part of the events comes on the channel, in their order and
  -- behind what was there, and the response tells how long it is: all of them with `accepted`, and then
  -- the number is theirs; not all of them where the bus is full or closed; and none with any other
  -- response. Where any event is let in, every event of the request is within the token's scope and the
  -- size limit: either no event is let in, or all pass.
  pub admit-Outcome :
      (scope : TokenScope globs) (now_ms : ℤ) (answer : Option ℕ) (s : HttpState globs bus)
      (es : List IngestEvent)
      → (o : Outcome scope s es 0 (admit globs bus scope now_ms answer s es)) × ((o.k ≡ 0)
          ⊎ All (Passes scope s.hard_cap_bytes) es)
  unfolding admit shed_response refused
  admit-Outcome scope now_ms answer s [] = (refused scope s [] 0 (s, no_events) refl refl, inl refl)
  admit-Outcome scope now_ms answer s (e ∷ es) = elim (Option-cases checked.1) [
    | inl passed ↦
        let o =
          after_checks-Outcome scope now_ms answer (record s { metrics = checked.0 }) (e ∷ es) in
        rw (passed, admit)
          (
            record { k = o.k; enqueued = o.enqueued; told = o.told },
            inr (
                (rw passed at (
                  check_events_lem scope s.hard_cap_bytes s.soft_cap_bytes now_ms s.metrics
                    (e ∷ es))).1),
          )
    | inr (reason, h) ↦
        let sound =
          check_events_lem scope s.hard_cap_bytes s.soft_cap_bytes now_ms s.metrics (e ∷ es) in
        rw (h, admit)
          (
            refused scope s (e ∷ es) 0 _ refl (told_of_check reason _ none (rw h at sound).0),
            inl refl,
          )
  ]
    where
      checked : Metrics × Option ShedReason
      checked =
          check_events globs bus scope s.hard_cap_bytes s.soft_cap_bytes now_ms s.metrics (e ∷ es)
