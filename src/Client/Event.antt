-- ===== src/Client/Event.antt =====
-- crates/client/src/event.rs: the producer's event and its builders.
use percept.Prelude.{String, List, Option, none, some}
use percept.Prelude.Int.{ℤ}
use percept.Core.Json.{Value}
use percept.Core.Event.{Link, Ulid}

pub record ClientEvent : Type 0 where
  pub event_id : Option Ulid
  pub source_id : String
  pub kind : String
  pub ts_ms_utc : ℤ
  pub semantic : Value
  pub links : Option (List Link)
  pub trace_id : Option String
  pub producer_id : Option String

unfoldable pub new : String → String → ℤ → Value → ClientEvent
new source_id kind ts_ms_utc semantic = record {
  event_id = none;
  source_id = source_id;
  kind = kind;
  ts_ms_utc = ts_ms_utc;
  semantic = semantic;
  links = none;
  trace_id = none;
  producer_id = none;
}

abbrev pub with_producer_id : ClientEvent → String → ClientEvent
with_producer_id e producer_id = record e { producer_id = some producer_id }

abbrev pub with_trace_id : ClientEvent → String → ClientEvent
with_trace_id e trace_id = record e { trace_id = some trace_id }

abbrev pub with_event_id : ClientEvent → Ulid → ClientEvent
with_event_id e event_id = record e { event_id = some event_id }
