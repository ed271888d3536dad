-- ===== src/Core/Event.antt =====
-- crates/core/src/event.rs: the canonical event and its links. A `Ulid` is its 128-bit number: its
-- text, 26 characters of Crockford's base 32, has the order of the numbers.
use percept.Prelude.{ℕ, String, Bool, Option, List}
use percept.Prelude.Int.{ℤ}
use percept.Core.Json.{Value}

abbrev pub Ulid : Type 0
Ulid = ℕ

pub record Link : Type 0 where
  pub rel : String
  pub uri : String
  pub mime : Option String
  pub bytes : Option ℤ
  pub sha256 : Option String

pub record Event : Type 0 where
  pub event_id : Ulid
  pub source_id : String
  pub kind : String
  pub ts_ms_utc : ℤ
  pub semantic : Value
  pub links : Option (List Link)
  pub trace_id : Option String
  pub ingest_ts_ms_utc : Option ℤ
  pub seq : Option ℕ
  pub producer_id : Option String
  pub schema_invalid : Option Bool
