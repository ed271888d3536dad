-- ===== src/Ingest/Ws.antt =====
-- crates/ingest/src/ws.rs: the session of a WebSocket. The frames come one by one; what the limiter
-- says and what the clock shows when a frame is handled are arguments, as the body that `serde_json`
-- makes of it. The replies are in the order in which they are sent.
pub mod SameChannel
use percept.Prelude.{
  ℕ, ◌+◌, List, [], ◌∷◌, ◌++◌, Option, none, some, Bool, true, false, if◌then◌else◌, ltb, String,
}
use percept.Prelude.Int.{ℤ}
use percept.Ingest.Metrics.{Metrics, inc_shed}
use percept.Ingest.Wire.{IngestEvent, IngestPayload, IngestEnvelope, into_events}
use percept.Ingest.Bus.{Bus, SendResult, sent, full, closed}
use percept.Ingest.Auth.{Globs, Auth, TokenScope, ShedReason, as_str, check_rate, lookup_token}
use percept.Ingest.Http.{HttpState, verdict, count_shed, count_rate_limited, envelope}

pub data Reply : Type 0 where
  invalid_json no_events : Reply
  shed : ShedReason → Reply
  accepted : ℕ → Reply

-- What `recv` gives: a network error, or a message. `Text` and `Binary` are handled alike.
pub data Frame : Type 0 where
  network_error : Frame
  data_frame : Option IngestPayload → Frame
  ping_or_pong : Frame
  close : Frame

module _ (globs : Globs) (bus : Bus IngestEnvelope) where
  open bus use {Chan, try_send}

  -- The loop of checks.
  unfoldable pub check_frame :
      TokenScope globs → ℕ → ℤ → Metrics → List IngestEvent → Metrics × Option ShedReason
  check_frame scope hard_cap now_ms m [] = (m, none)
  check_frame scope hard_cap now_ms m (e ∷ es) = elim (verdict globs bus scope hard_cap e) [
    | some reason ↦ (count_shed globs bus reason scope.name e.source_id now_ms m, some reason)
    | none ↦ check_frame scope hard_cap now_ms m es
  ]

  abbrev pub report : ℕ → List Reply
  report n = if ltb 0 n then accepted n ∷ [] else []

  -- The loop of `try_send` and the report after it; `false` where the session ends.
  unfoldable pub enqueue_frame :
      TokenScope globs
      → ℤ
      → HttpState globs bus
      → ℕ
      → List IngestEvent
      → HttpState globs bus × (List Reply × Bool)
  enqueue_frame scope now_ms s n [] = (s, (report n, true))
  enqueue_frame scope now_ms s n (e ∷ es) =
      let (tx, r) = try_send s.tx (envelope globs bus scope e) in
      let s' = record s { tx = tx } in
      elim r [
        | sent ↦ enqueue_frame scope now_ms s' (n + 1) es
        | full ↦ (
          record s' {
            metrics =
                count_shed globs bus ShedReason.bus_full scope.name e.source_id now_ms s.metrics;
          },
          (shed ShedReason.bus_full ∷ report n, true),
        )
        | closed ↦ (s', ([], false))
      ]

  unfoldable pub after_frame_checks :
      TokenScope globs
      → ℤ
      → Option ℕ
      → HttpState globs bus
      → List IngestEvent
      → HttpState globs bus × (List Reply × Bool)
  after_frame_checks scope now_ms answer s es = elim (check_rate globs scope answer) [
    | some wait ↦ (
      record s {
        metrics =
            count_rate_limited globs bus
              (inc_shed s.metrics (as_str ShedReason.rate_limit) (some scope.name)) now_ms es;
      },
      (shed ShedReason.rate_limit ∷ [], true),
    )
    | none ↦ enqueue_frame scope now_ms s 0 es
  ]

  -- A frame with events.
  unfoldable pub admit_frame :
      TokenScope globs
      → ℤ
      → Option ℕ
      → HttpState globs bus
      → List IngestEvent
      → HttpState globs bus × (List Reply × Bool)
  admit_frame scope now_ms answer s [] = (s, (no_events ∷ [], true))
  admit_frame scope now_ms answer s (e ∷ es) =
      let (m, failed) = check_frame scope s.hard_cap_bytes now_ms s.metrics (e ∷ es) in
      let s' = record s { metrics = m } in
      elim failed [
        | some reason ↦ (s', (shed reason ∷ [], true))
        | none ↦ after_frame_checks scope now_ms answer s' (e ∷ es)
      ]

  -- One turn of the session's loop.
  unfoldable pub on_frame :
      TokenScope globs
      → ℤ
      → Option ℕ
      → HttpState globs bus
      → Frame
      → HttpState globs bus × (List Reply × Bool)
  on_frame scope now_ms answer s network_error = (s, ([], false))
  on_frame scope now_ms answer s ping_or_pong = (s, ([], true))
  on_frame scope now_ms answer s close = (s, ([], false))
  on_frame scope now_ms answer s (data_frame none) = (s, (invalid_json ∷ [], true))
  on_frame scope now_ms answer s (data_frame (some payload)) =
      admit_frame scope now_ms answer s (into_events payload)

  -- `run_session`: each frame with the clock and the limiter's answer of its turn.
  unfoldable pub run_session :
      TokenScope globs
      → HttpState globs bus
      → List (Frame × (ℤ × Option ℕ))
      → HttpState globs bus × List Reply
  run_session scope s [] = (s, [])
  run_session scope s (turn ∷ frames) =
      let (s', out) = on_frame scope turn.1.0 turn.1.1 s turn.0 in
      let (t, later) = run_session scope s' frames in
      if out.1 then (t, out.0 ++ later) else (s', out.0)

  -- `ws_handler`: a session for a known token, else only the close frame 1008, here `none`.
  unfoldable pub ws_handler :
      String
      → HttpState globs bus
      → List (Frame × (ℤ × Option ℕ))
      → HttpState globs bus × Option (List Reply)
  ws_handler token s frames = elim (lookup_token globs s.auth token) [
    | none ↦ (s, none)
    | some scope ↦ let (t, replies) = run_session scope s frames in (t, some replies)
  ]
