-- ===== src/Ingest/Wire.antt =====
-- crates/ingest/src/wire.rs: what producers send, and the three shapes of a payload.
use percept.Prelude.{String, List, [], ◌∷◌, Option}
use percept.Prelude.Int.{ℤ}
use percept.Core.Json.{Value}
use percept.Core.Event.{Link, Ulid}

pub record IngestEvent : Type 0 where
  pub event_id : Option Ulid
  pub source_id : String
  pub kind : String
  pub ts_ms_utc : ℤ
  pub semantic : Value
  pub links : Option (List Link)
  pub trace_id : Option String
  pub producer_id : Option String

pub data IngestPayload : Type 0 where
  batch : List IngestEvent → IngestPayload
  array : List IngestEvent → IngestPayload
  single : IngestEvent → IngestPayload

unfoldable pub into_events : IngestPayload → List IngestEvent
into_events (batch events) = events
into_events (array events) = events
into_events (single e) = e ∷ []

-- crates/ingest/src/normalizer.rs, `IngestEnvelope`.
pub record IngestEnvelope : Type 0 where
  pub event : IngestEvent
  pub token_name : Option String
