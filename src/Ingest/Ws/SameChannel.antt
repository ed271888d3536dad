-- ===== src/Ingest/Ws/SameChannel.antt =====
-- On crates/ingest/src/ws.rs and http.rs: a frame, a request, and the channel.
use percept.Prelude.{ℕ, ◌+◌, List, [], ◌∷◌, Option, ◌≡◌, refl, ap, ◌∙◌, Option-cases, inl, inr}
use percept.Prelude.Int.{ℤ}
use percept.Ingest.Metrics.{Metrics}
use percept.Ingest.Wire.{IngestEvent, IngestEnvelope}
use percept.Ingest.Bus.{Bus, SendResult, sent, full, closed, SendResult-cases}
use percept.Ingest.Auth.{Globs, TokenScope, ShedReason, check_rate}
use percept.Ingest.Http.{HttpState, verdict, check_events, envelope, enqueue, admit, after_checks}
use percept.Ingest.Ws.{check_frame, enqueue_frame, after_frame_checks, admit_frame}

module _ (globs : Globs) (bus : Bus IngestEnvelope) where
  open bus use {Chan, try_send}

  -- The two loops of checks reject for the same reason, whatever they count.
  check_frame-reason :
      (scope : TokenScope globs) (hard_cap soft_cap : ℕ) (now_ms : ℤ) (es : List IngestEvent)
      (m m' : Metrics)
      → (check_frame globs bus scope hard_cap now_ms m es).1
        ≡ (check_events globs bus scope hard_cap soft_cap now_ms m' es).1
  unfolding check_frame check_events
  check_frame-reason scope hard_cap soft_cap now_ms [] m m' = refl
  check_frame-reason scope hard_cap soft_cap now_ms (e ∷ es) m m' =
      elim (Option-cases (verdict globs bus scope hard_cap e)) [
        | inl passed ↦
            rw (passed, check_frame, check_events)
              (check_frame-reason scope hard_cap soft_cap now_ms es m _)
        | inr (reason, h) ↦ rw (h, check_frame, check_events) refl
      ]

  enqueue_frame-tx :
      (scope : TokenScope globs) (now_ms : ℤ) (s t : HttpState globs bus) (n : ℕ)
      (es : List IngestEvent)
      → s.tx ≡ t.tx
      → (enqueue_frame globs bus scope now_ms s n es).0.tx
        ≡ (enqueue globs bus scope now_ms t n es).0.tx
  unfolding enqueue_frame enqueue
  enqueue_frame-tx scope now_ms s t n [] same = same
  enqueue_frame-tx scope now_ms s t n (e ∷ es) same =
      elim (SendResult-cases (try_send t.tx (envelope globs bus scope e)).1) [
        | inl h ↦
            rw (on_s sent h, h, enqueue_frame, enqueue)
              (enqueue_frame-tx scope now_ms (record s { tx = (try_send s.tx env).0 })
                (record t { tx = (try_send t.tx env).0 }) (n + 1) es
                (ap (λ c. (try_send c env).0) same))
        | inr (inl h) ↦
            rw (on_s full h, h, enqueue_frame, enqueue) (ap (λ c. (try_send c env).0) same)
        | inr (inr h) ↦
            rw (on_s closed h, h, enqueue_frame, enqueue) (ap (λ c. (try_send c env).0) same)
      ]
    where
      env : IngestEnvelope
      env = envelope globs bus scope e

      on_s : (r : SendResult) → (try_send t.tx env).1 ≡ r → (try_send s.tx env).1 ≡ r
      on_s r h = ap (λ c. (try_send c env).1) same ∙ h

  after_frame_checks-tx :
      (scope : TokenScope globs) (now_ms : ℤ) (answer : Option ℕ) (s t : HttpState globs bus)
      (es : List IngestEvent)
      → s.tx ≡ t.tx
      → (after_frame_checks globs bus scope now_ms answer s es).0.tx
        ≡ (after_checks globs bus scope now_ms answer t es).0.tx
  unfolding after_frame_checks after_checks
  after_frame_checks-tx scope now_ms answer s t es same =
      elim (Option-cases (check_rate globs scope answer)) [
        | inl free ↦
            rw (free, after_frame_checks, after_checks)
              (enqueue_frame-tx scope now_ms s t 0 es same)
        | inr (wait, h) ↦ rw (h, after_frame_checks, after_checks) same
      ]

  -- For the same token, clock, answer of the limiter and state, a frame and a request with the same
  -- events leave the same channel behind.
  pub admit_frame-admit :
      (scope : TokenScope globs) (now_ms : ℤ) (answer : Option ℕ) (s : HttpState globs bus)
      (es : List IngestEvent)
      → (admit_frame globs bus scope now_ms answer s es).0.tx
        ≡ (admit globs bus scope now_ms answer s es).0.tx
  unfolding admit_frame admit
  admit_frame-admit scope now_ms answer s [] = refl
  admit_frame-admit scope now_ms answer s (e ∷ es) =
      let same =
        check_frame-reason scope s.hard_cap_bytes s.soft_cap_bytes now_ms (e ∷ es) s.metrics
          s.metrics in
      elim (Option-cases checked.1) [
        | inl passed ↦
            rw (passed, admit)
              (rw (same, passed, admit_frame)
                (after_frame_checks-tx scope now_ms answer _ _ (e ∷ es) refl))
        | inr (reason, h) ↦ rw (h, admit) (rw (same, h, admit_frame) refl)
      ]
    where
      checked : Metrics × Option ShedReason
      checked =
          check_events globs bus scope s.hard_cap_bytes s.soft_cap_bytes now_ms s.metrics (e ∷ es)
