-- ===== src/Examples/Data.antt =====
-- The events, stores and parameters of the examples.
use percept.Prelude.{
  ℕ, String, List, [], ◌∷◌, ◌++◌, Option, none, some, false, refl, ◌≡◌, ◌≢◌, any, if◌then◌else◌,
  true, ltb, arith,
}
use percept.Prelude.Int.{pos}
use percept.Prelude.Eq.{string_eq, ◌=?◌}
use percept.Core.Json.{Value, null}
use percept.Core.Event.{Event}
use percept.Store.Cold.Rows.{JsonCodec, Row}
use percept.Store.Vector.TopK.{Scores}
use percept.Store.Vector.Index.{Floats}
use percept.Store.Cold.Append.{ColdStore}
use percept.Store.HotRing.{HotRingConfig}
use percept.Ingest.Bus.{Bus, SendResult, sent, full}
use percept.Ingest.Auth.{Globs, TokenScope}
use percept.Ingest.Wire.{IngestEvent, IngestEnvelope}
use percept.Ingest.Http.{HttpState}
use percept.Ingest.Metrics

abbrev pub event : ℕ → String → String → ℕ → Event
event id source_id kind ts = record {
  event_id = id;
  source_id = source_id;
  kind = kind;
  ts_ms_utc = pos ts;
  semantic = null;
  links = none;
  trace_id = some "t";
  ingest_ts_ms_utc = some (pos ts);
  seq = some 1;
  producer_id = none;
  schema_invalid = none;
}

abbrev pub fridge : ℕ → ℕ → Event
fridge id ts = event id "temp.fridge" "temperature@v1" ts

abbrev pub cam : ℕ → ℕ → Event
cam id ts = event id "cam.front" "object_detected" ts

-- A ring that holds two events and forgets after 100 ms.
abbrev pub small : HotRingConfig
small = record { max_events = 2; max_age = 100 }

-- A codec that writes and reads `null` only.
abbrev write_null : Value → Option String
write_null null = some "null"
write_null _ = none

abbrev pub null_codec : JsonCodec
null_codec = record {
  write_value = write_null;
  read_value = λ s. if s =? "null" then some null else none;
  write_links = λ _. none;
  read_links = λ _. none;
}

abbrev pub row : Event → Row
row e = record {
  event_id = e.event_id;
  source_id = e.source_id;
  kind = e.kind;
  ts_ms_utc = e.ts_ms_utc;
  ingest_ts_ms_utc = e.ts_ms_utc;
  seq = some (pos 1);
  producer_id = e.producer_id;
  trace_id = e.trace_id;
  semantic = "null";
  links = none;
  schema_invalid = e.schema_invalid;
}

abbrev pub empty_store : ColdStore
empty_store = record { events = []; latest = [] }

abbrev pub two_rows : ColdStore
two_rows = record {
  events = row (fridge 1 10) ∷ row (fridge 2 20) ∷ [];
  latest = (("temp.fridge", "temperature@v1"), row (fridge 2 20)) ∷ [];
}

-- A bus with room for one message.
abbrev pub push_one : {M : Type 0} → List M → M → List M × SendResult
push_one [] m = (m ∷ [], sent)
push_one (x ∷ xs) m = (x ∷ xs, full)

pub push_one_sent :
    {M : Type 0} (c : List M) (m : M) → (push_one c m).1 ≡ sent → (push_one c m).0 ≡ c ++ m ∷ []
push_one_sent [] m h = refl
push_one_sent (x ∷ xs) m h = cc

pub push_one_not_sent :
    {M : Type 0} (c : List M) (m : M) → (push_one c m).1 ≢ sent → (push_one c m).0 ≡ c
push_one_not_sent [] m h = absurd (h refl)
push_one_not_sent (x ∷ xs) m h = refl

abbrev pub one_slot : (M : Type 0) → Bus M
one_slot M = record {
  Chan = List M;
  waiting = λ c. c;
  try_send = push_one;
  sent_lem = push_one_sent;
  not_sent_lem = push_one_not_sent;
}

pub nothing_matches :
    (g : List String) (s : String) → some [] ≡ some g → any (λ p. p =? s) g ≡ false
nothing_matches [] s h = refl
nothing_matches (p ∷ g) s h = cc

-- Globs that are the text itself.
abbrev pub literals : Globs
literals = record {
  GlobSet = List String;
  build = some;
  is_match = λ g s. any (λ p. p =? s) g;
  is_match-build_nil = nothing_matches;
}

abbrev pub reader : TokenScope literals
reader = record {
  name = "fridge-token";
  source_globs = "temp.fridge" ∷ [];
  kind_globs = "temperature" ∷ [];
  limiter = none;
}

abbrev pub reading : IngestEvent
reading = record {
  event_id = none;
  source_id = "temp.fridge";
  kind = "temperature";
  ts_ms_utc = pos 5;
  semantic = null;
  links = none;
  trace_id = none;
  producer_id = none;
}

abbrev pub front_door : HttpState literals (one_slot IngestEnvelope)
front_door = record {
  auth = [];
  metrics = Metrics.new;
  tx = [];
  hard_cap_bytes = 65536;
  soft_cap_bytes = 16384;
}

-- Scores that are natural numbers.
pub less_irrefl : (a : ℕ) → ltb a a ≡ false
less_irrefl a = ground arith

pub not_less_trans : (a b c : ℕ) → ltb b a ≡ false → ltb c b ≡ false → ltb c a ≡ false
not_less_trans a b c h k = ground arith

pub less_asym : (a b : ℕ) → ltb a b ≡ true → ltb b a ≡ false
less_asym a b h = ground arith

abbrev pub numbers : Scores
numbers = record {
  Score = ℕ;
  less = ltb;
  less_irrefl = less_irrefl;
  not_less_trans = not_less_trans;
  less_asym = less_asym;
}

-- Floats of which only four bytes are known.
abbrev pub bytes : Floats
bytes = record {
  F32 = ℕ × (ℕ × (ℕ × ℕ));
  to_le_bytes = λ b. b;
  from_le_bytes = λ b. b;
  from-to = λ b. refl;
}
