-- ===== src/Store/Vector/Index.antt =====
-- crates/store/src/vector/index.rs: the table of vectors and its mirror in memory. A vector is a list of
-- `f32`, of which only the bytes are known; SQLite's table keeps one row for an `event_id`, the primary
-- key, in the order of the rowids, in which a query with no `ORDER BY` reads them.
pub mod Mirror
use percept.Prelude.{
  ℕ, ◌+◌, ◌%◌, ◌*◌, String, List, [], ◌∷◌, ◌++◌, Option, none, some, Bool, true, false,
  if◌then◌else◌, any, filter, length, map, not, ◌==◌, ◌&&◌, ◌≡◌,
}
use percept.Prelude.Int.{ℤ, ltz}
use percept.Prelude.Eq.{string_eq, ◌=?◌}
use percept.Core.Event.{Ulid}

-- `f32::to_le_bytes` and `from_le_bytes`.
pub record Floats : Type 1 where
  pub F32 : Type 0
  pub to_le_bytes : F32 → ℕ × (ℕ × (ℕ × ℕ))
  pub from_le_bytes : ℕ × (ℕ × (ℕ × ℕ)) → F32
  pub from-to : (x : F32) → from_le_bytes (to_le_bytes x) ≡ x

pub data VectorError : Type 0 where
  sqlite io decode : VectorError
  dim_mismatch : ℕ → ℕ → VectorError
  model_mismatch : String → String → VectorError

pub data Loaded (A : Type 0) : Type 0 where
  ok : A → Loaded A
  err : VectorError → Loaded A

module _ (floats : Floats) where
  open floats use {F32, to_le_bytes, from_le_bytes}

  abbrev pub bytes_of : ℕ × (ℕ × (ℕ × ℕ)) → List ℕ → List ℕ
  bytes_of (a, (b, (c, d))) rest = a ∷ b ∷ c ∷ d ∷ rest

  unfoldable pub vector_to_bytes : List F32 → List ℕ
  vector_to_bytes [] = []
  vector_to_bytes (x ∷ xs) = bytes_of (to_le_bytes x) (vector_to_bytes xs)

  -- The loop over `chunks_exact(4)`.
  unfoldable pub chunks : List ℕ → List F32
  chunks (a ∷ b ∷ c ∷ d ∷ rest) = from_le_bytes (a, (b, (c, d))) ∷ chunks rest
  chunks _ = []

  unfoldable pub bytes_to_vector : List ℕ → Option (List F32)
  bytes_to_vector b = if length b % 4 == 0 then some (chunks b) else none

  pub record VectorRecord : Type 0 where
    pub event_id : Ulid
    pub source_id : String
    pub kind : String
    pub ts_ms_utc : ℤ
    pub truncated : Bool
    pub model_id : String
    pub vector : List F32

  -- A row of the table `vectors`.
  pub record VectorRow : Type 0 where
    pub event_id : Ulid
    pub source_id : String
    pub kind : String
    pub ts_ms_utc : ℤ
    pub truncated : Bool
    pub model_id : String
    pub vector : List ℕ

  pub record InMemoryRow : Type 0 where
    pub event_id : Ulid
    pub source_id : String
    pub kind : String
    pub ts_ms_utc : ℤ
    pub truncated : Bool
    pub vector : List F32

  pub record VectorIndex : Type 0 where
    pub vectors : List VectorRow
    pub rows : List InMemoryRow

  abbrev pub to_row : VectorRecord → VectorRow
  to_row r = record {
    event_id = r.event_id;
    source_id = r.source_id;
    kind = r.kind;
    ts_ms_utc = r.ts_ms_utc;
    truncated = r.truncated;
    model_id = r.model_id;
    vector = vector_to_bytes r.vector;
  }

  abbrev pub to_memory : VectorRecord → InMemoryRow
  to_memory r = record {
    event_id = r.event_id;
    source_id = r.source_id;
    kind = r.kind;
    ts_ms_utc = r.ts_ms_utc;
    truncated = r.truncated;
    vector = r.vector;
  }

  -- `INSERT OR REPLACE` of a row: the row with its key is deleted, and the new one gets a new rowid, behind
  -- all others.
  unfoldable pub replace_row : VectorRow → List VectorRow → List VectorRow
  replace_row r rows = filter (λ x. not (x.event_id == r.event_id)) rows ++ r ∷ []

  -- `position` and the assignment, or `push`, in the mirror.
  unfoldable pub replace_memory : InMemoryRow → List InMemoryRow → List InMemoryRow
  replace_memory r [] = r ∷ []
  replace_memory r (x ∷ xs) =
      let rest = replace_memory r xs in if x.event_id == r.event_id then r ∷ xs else x ∷ rest

  unfoldable pub replace_rows : List VectorRecord → List VectorRow → List VectorRow
  replace_rows [] rows = rows
  replace_rows (r ∷ rs) rows = replace_rows rs (replace_row (to_row r) rows)

  unfoldable pub replace_memories : List VectorRecord → List InMemoryRow → List InMemoryRow
  replace_memories [] rows = rows
  replace_memories (r ∷ rs) rows = replace_memories rs (replace_memory (to_memory r) rows)

  -- `append`. `fault` is what SQLite reports of the transaction, if it fails.
  unfoldable pub append :
      Option VectorError → List VectorRecord → VectorIndex → VectorIndex × Option VectorError
  append fault [] idx = (idx, none)
  append (some e) (r ∷ rs) idx = (idx, some e)
  append none (r ∷ rs) idx = (
    record {
      vectors = replace_rows (r ∷ rs) idx.vectors;
      rows = replace_memories (r ∷ rs) idx.rows;
    },
    none,
  )

  -- The `WHERE` condition of the sweep, and the test of `retain`.
  abbrev pub stale : String → String → ℤ → String → String → ℤ → Bool
  stale source_id kind cutoff_ms s k ts = ((s =? source_id) && (k =? kind)) && ltz ts cutoff_ms

  abbrev pub stale_row : String → String → ℤ → VectorRow → Bool
  stale_row source_id kind cutoff_ms r =
      stale source_id kind cutoff_ms r.source_id r.kind r.ts_ms_utc

  abbrev pub stale_memory : String → String → ℤ → InMemoryRow → Bool
  stale_memory source_id kind cutoff_ms r =
      stale source_id kind cutoff_ms r.source_id r.kind r.ts_ms_utc

  -- `sweep_max_age`, of which SQLite reports no error.
  unfoldable pub sweep_max_age : String → String → ℤ → Bool → VectorIndex → VectorIndex × ℕ
  sweep_max_age source_id kind cutoff_ms dry_run idx =
      let n = length (filter (stale_row source_id kind cutoff_ms) idx.vectors) in
      if dry_run then (idx, n) else (
        record {
          vectors = filter (λ r. not (stale_row source_id kind cutoff_ms r)) idx.vectors;
          rows = filter (λ r. not (stale_memory source_id kind cutoff_ms r)) idx.rows;
        },
        n,
      )

  abbrev memory_of : VectorRow → List F32 → InMemoryRow
  memory_of r vector = record {
    event_id = r.event_id;
    source_id = r.source_id;
    kind = r.kind;
    ts_ms_utc = r.ts_ms_utc;
    truncated = r.truncated;
    vector = vector;
  }

  -- The loop of `load_rows`: the rows, or a blob that is no vector.
  unfoldable pub read_rows : List VectorRow → Option (List InMemoryRow)
  read_rows [] = some []
  read_rows (r ∷ rs) = elim (bytes_to_vector r.vector) [
    | none ↦ none
    | some v ↦ elim (read_rows rs) [ none ↦ none | some rows ↦ some (memory_of r v ∷ rows) ]
  ]

  -- The checks of `load_rows`, on the first row of the table.
  abbrev check_first : String → ℕ → List VectorRow → List InMemoryRow → Loaded (List InMemoryRow)
  check_first model dim (r ∷ _) (m ∷ ms) =
      if r.model_id =? model
      then if length m.vector == dim then ok (m ∷ ms) else err (dim_mismatch (length m.vector) dim)
      else err (model_mismatch r.model_id model)
  check_first model dim _ ms = ok ms

  abbrev checked :
      String → ℕ → List VectorRow → Option (List InMemoryRow) → Loaded (List InMemoryRow)
  checked model dim table none = err decode
  checked model dim table (some rows) = check_first model dim table rows

  unfoldable pub load_rows : String → ℕ → List VectorRow → Loaded (List InMemoryRow)
  load_rows model dim table = checked model dim table (read_rows table)
