-- ===== src/Tasks/Forwarder.antt =====
-- crates/percept/src/forwarder.rs: the task that sends an edge's events to the hub.
pub mod Prefix
use Prim.Native.String
use percept.Prelude.{
  ℕ, ◌-◌, Char, String, List, [], ◌∷◌, ◌++◌, Option, none, some, if◌then◌else◌, ltb, length,
}
use percept.Core.Event.{Event}
use percept.Ingest.Metrics.{fetch_add}
use percept.Client.Event.{ClientEvent, with_event_id, with_trace_id, with_producer_id}
use percept.Client.Event
use percept.Client.Send.{ClientConfig, Sent, ok, err, Answer, send_batch}
use percept.Tasks.Loop.{Task, Turn, received, tick, run}

pub record ForwarderConfig : Type 0 where
  pub peer_id : String
  pub batch_size : ℕ
  pub batch_age : ℕ  -- a `Duration`, in milliseconds

abbrev pub default_config : ForwarderConfig
default_config = record { peer_id = "edge"; batch_size = 64; batch_age = 500 }

pub record ForwarderMetrics : Type 0 where
  pub batches_sent : ℕ
  pub events_forwarded : ℕ
  pub events_dropped : ℕ
  pub send_errors : ℕ

abbrev pub dot : Char
dot = "."

abbrev add_trace_id : Option String → ClientEvent → ClientEvent
add_trace_id none out = out
add_trace_id (some trace_id) out = with_trace_id out trace_id

abbrev add_producer_id : Option String → ClientEvent → ClientEvent
add_producer_id none out = out
add_producer_id (some producer_id) out = with_producer_id out producer_id

-- `to_client_event`.
unfoldable pub to_client_event : String → Event → ClientEvent
to_client_event peer_id e =
    let source_id = String.◌++◌ peer_id (String.◌∷◌ dot e.source_id) in
    let out = with_event_id (Event.new source_id e.kind e.ts_ms_utc e.semantic) e.event_id in
    add_producer_id e.producer_id (add_trace_id e.trace_id out)

-- The counters, the batches handed to the client so far, and what the hub answers to those to come:
-- to a body and the number of an attempt.
pub record Uplink : Type 0 where
  pub metrics : ForwarderMetrics
  pub sent : List (List ClientEvent)
  pub hub : List (String → ℕ → Answer)

abbrev pub silent : String → ℕ → Answer
silent _ _ = none

abbrev pub hub_now : List (String → ℕ → Answer) → String → ℕ → Answer
hub_now [] = silent
hub_now (h ∷ _) = h

abbrev pub hub_later : List (String → ℕ → Answer) → List (String → ℕ → Answer)
hub_later [] = []
hub_later (_ ∷ hs) = hs

-- The counters after a batch of `n` events.
unfoldable pub count : ℕ → Sent → ForwarderMetrics → ForwarderMetrics
count n (ok accepted) m = record m {
  batches_sent = fetch_add m.batches_sent 1;
  events_forwarded = fetch_add m.events_forwarded accepted;
  events_dropped =
      if ltb accepted n then fetch_add m.events_dropped (n - accepted) else m.events_dropped;
}
count n (err _) m = record m {
  send_errors = fetch_add m.send_errors 1;
  events_dropped = fetch_add m.events_dropped n;
}

unfoldable pub flush :
    ClientConfig → (List ClientEvent → Option String) → List ClientEvent → Uplink → Uplink
flush client encode batch u = record {
  metrics = count (length batch) (send_batch client encode (hub_now u.hub) batch).1 u.metrics;
  sent = u.sent ++ batch ∷ [];
  hub = hub_later u.hub;
}

abbrev pub task :
    ForwarderConfig → ClientConfig → (List ClientEvent → Option String) → Task ClientEvent Uplink
task config client encode = record {
  batch_size = config.batch_size;
  note_pending = λ _ u. u;
  flush = flush client encode;
}

-- `buf.push(to_client_event(...))`, on the turns of the loop.
abbrev pub converted : String → List (Turn Event) → List (Turn ClientEvent)
converted peer_id [] = []
converted peer_id (received e ∷ turns) =
    received (to_client_event peer_id e) ∷ converted peer_id turns
converted peer_id (tick ∷ turns) = tick ∷ converted peer_id turns

-- `run`.
unfoldable pub run_forwarder :
    ForwarderConfig
    → ClientConfig
    → (List ClientEvent → Option String)
    → Uplink
    → List (Turn Event)
    → Uplink
run_forwarder config client encode u turns =
    run (task config client encode) u (converted config.peer_id turns)
