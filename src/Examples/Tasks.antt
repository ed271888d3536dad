-- ===== src/Examples/Tasks.antt =====
-- The client and the background tasks at concrete inputs.
use percept.Prelude.{
  ℕ, zero, suc, ◌+◌, ◌%◌, ◌^◌, String, List, [], ◌∷◌, map, Option, none, some, code, unwrap_or, ◌≡◌,
  refl, arith,
}
use percept.Prelude.Text.{Avoids}
use percept.Core.Event.{Event, Link}
use percept.Core.Json.{null}
use percept.Prelude.Int.{pos, as_i64}
use mathlib.Core.Option
use percept.Client.Event.{ClientEvent}
use percept.Client.Event
use percept.Client.Send.{default_config, Reply, Answer, send_batch}
use percept.Client.Send.Retries.{Tried, send_batch-Tried}
use percept.Store.Cold.Rows.{JsonCodec, Row, to_row}
use percept.Store.Cold.Append.{insert_all}
use percept.Tasks.Loop.{Turn, received, tick}
use percept.Tasks.Loop.Drained.{Drained}
use percept.Tasks.ColdWriter.{ColdWriterConfig, Writer, no_metrics, run_writer}
use percept.Tasks.ColdWriter.Accounting.{run_writer-Accounts}
use percept.Tasks.ColdWriter.Stored.{run_writer-stored}
use percept.Tasks.Forwarder.{ForwarderConfig, Uplink, to_client_event, run_forwarder, dot}
use percept.Tasks.Forwarder.Prefix.{Logged, to_client_event-injective, run_forwarder-Drained}
use percept.Tasks.Batcher.{BatcherConfig, run_batcher}
use percept.Tasks.Batcher.Handed.{Handed, run_batcher-Drained}
use percept.Tasks.Embedder.{Embedder, EmbedderConfig, Indexer, build_records, run_embedder}
use percept.Tasks.Embedder.Indexed.{run_embedder-rows}
use percept.Store.Vector.Index.{Floats, replace_memories}
use percept.Examples.Data.{fridge, null_codec, empty_store}

-- A server that is busy once and then accepts one event.
abbrev reply : ℕ → Option ℕ → Reply
reply status accepted = record {
  status = status;
  shed_reason = none;
  retry_after = some "1";
  text = "";
  accepted = accepted;
}

abbrev busy_once : String → ℕ → Answer
busy_once body zero = some (reply 429 none)
busy_once body (suc n) = some (reply 200 (some 1))

abbrev encode : List ClientEvent → Option String
encode es = some "[]"

abbrev measured : ClientEvent
measured = Event.new "s" "k" (pos 1) null

send_batch-Tried_example :
    Tried default_config
      (busy_once "[]")
      0
      (send_batch default_config encode busy_once (measured ∷ []))
send_batch-Tried_example =
    send_batch-Tried default_config encode busy_once measured [] "[]" refl (omega arith)

abbrev writer : Writer
writer = record { store = empty_store; metrics = no_metrics; faults = [] }

abbrev in_twos : ColdWriterConfig
in_twos = record { batch_size = 2; batch_age = 500 }

abbrev turns : List (Turn Event)
turns = received (fridge 1 10) ∷ received (fridge 2 20) ∷ tick ∷ received (fridge 3 30) ∷ []

run_writer-Accounts_example :
    let m = (run_writer null_codec in_twos writer turns).metrics in
    (m.events_committed + m.events_dropped) % 2 ^ 64 ≡ 3 % 2 ^ 64
run_writer-Accounts_example = run_writer-Accounts null_codec in_twos writer turns refl

-- A codec that writes every payload and every list of links.
abbrev total_codec : JsonCodec
total_codec = record {
  write_value = λ v. some "null";
  read_value = λ s. none;
  write_links = λ ls. some "[]";
  read_links = λ s. none;
}

abbrev links_text : {A : Type 0} → Option A → Option String
links_text none = none
links_text (some _) = some "[]"

abbrev row_of : Event → Row
row_of e = record {
  event_id = e.event_id;
  source_id = e.source_id;
  kind = e.kind;
  ts_ms_utc = e.ts_ms_utc;
  ingest_ts_ms_utc = unwrap_or e.ingest_ts_ms_utc e.ts_ms_utc;
  seq = Option.map as_i64 e.seq;
  producer_id = e.producer_id;
  trace_id = e.trace_id;
  semantic = "null";
  links = links_text e.links;
  schema_invalid = e.schema_invalid;
}

encodes : (e : Event) → to_row total_codec e ≡ some (row_of e)
unfolding to_row
encodes e = go e.links refl
  where
    go : (ls : Option (List Link)) → e.links ≡ ls → to_row total_codec e ≡ some (row_of e)
    go none h = rw h refl
    go (some l) h = rw h refl

run_writer-stored_example :
    (run_writer total_codec in_twos writer turns).store.events
    ≡ insert_all (map row_of (fridge 1 10 ∷ fridge 2 20 ∷ fridge 3 30 ∷ [])) []
run_writer-stored_example = run_writer-stored total_codec row_of encodes in_twos writer turns refl

abbrev edge : ForwarderConfig
edge = record { peer_id = "kitchen"; batch_size = 2; batch_age = 500 }

abbrev uplink : Uplink
uplink = record {
  metrics = record { batches_sent = 0; events_forwarded = 0; events_dropped = 0; send_errors = 0 };
  sent = [];
  hub = busy_once ∷ [];
}

run_forwarder-Drained_example :
    Drained 2
      (Logged [])
      (map (to_client_event "kitchen") (fridge 1 10 ∷ fridge 2 20 ∷ fridge 3 30 ∷ []))
      (run_forwarder edge default_config encode uplink turns)
run_forwarder-Drained_example = run_forwarder-Drained edge default_config encode uplink turns

abbrev hut : String
hut = "hut"

no_dot : Avoids (code dot) hut
no_dot = (λ e. absurd (omega arith), (λ e. absurd (omega arith), (λ e. absurd (omega arith), tt)))

to_client_event-injective_example :
    (hut ≡ hut) × ((fridge 1 10).source_id ≡ (fridge 2 20).source_id)
unfolding to_client_event Event.new
to_client_event-injective_example =
    to_client_event-injective hut hut (fridge 1 10) (fridge 2 20) no_dot no_dot refl

abbrev singles : BatcherConfig
singles = record { max_batch = 1; flush_interval = 500; queue_depth = 8 }

abbrev server : ℕ → String → ℕ → Answer
server batch = busy_once

run_batcher-Drained_example : Drained 1 Handed (measured ∷ measured ∷ []) (
    run_batcher singles default_config encode server
      (received measured ∷ tick ∷ received measured ∷ []))
run_batcher-Drained_example =
    run_batcher-Drained singles default_config encode server
      (received measured ∷ tick ∷ received measured ∷ [])

-- Floats of which only four bytes are known, and an embedder that gives no dimension.
abbrev bytes : Floats
bytes = record {
  F32 = ℕ × (ℕ × (ℕ × ℕ));
  to_le_bytes = λ b. b;
  from_le_bytes = λ b. b;
  from-to = λ b. refl;
}

abbrev flat : Embedder bytes
flat = record { model_id = "flat"; embed = λ s. []; to_string = λ v. some "null" }

abbrev no_vectors : Indexer bytes
no_vectors = record {
  index = record { vectors = []; rows = [] };
  metrics = record {
    batches_committed = 0;
    events_embedded = 0;
    events_truncated = 0;
    commit_errors = 0;
    pending_buffer = 0;
  };
  faults = [];
}

abbrev pairs : EmbedderConfig
pairs = record { batch_size = 2; batch_age = 500 }

run_embedder-rows_example :
    (run_embedder bytes flat pairs no_vectors turns).index.rows
    ≡ replace_memories bytes
        (build_records bytes flat (fridge 1 10 ∷ fridge 2 20 ∷ fridge 3 30 ∷ []))
        []
run_embedder-rows_example = run_embedder-rows bytes flat pairs no_vectors turns refl
