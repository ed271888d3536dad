-- ===== src/Store/Vector/Index/Mirror.antt =====
-- On crates/store/src/vector/index.rs: the mirror in memory, and the table of vectors.
use percept.Prelude.{
  ◌*◌, ◌%◌, String, List, [], ◌∷◌, ◌++◌, Option, none, some, Bool, true, false, filter, length, not,
  ◌==◌, ◌≡◌, ◌≢◌, refl, sym, ap, subst, arith, Bool-cases, inl, inr, All,
}
use mathlib.Core.List.{Perm}
use mathlib.Core.List.Perm
use percept.Core.Event.{Ulid}
use percept.Prelude.Int.{ℤ}
use percept.Prelude.Perms.{filter-perm, snoc_perm, All-filter}
use percept.Prelude.Eq.{string_eq}
use percept.Store.Vector.Index.{
  Floats, VectorError, VectorRecord, VectorRow, InMemoryRow, VectorIndex, vector_to_bytes, chunks,
  bytes_to_vector, to_row, to_memory, replace_row, replace_memory, replace_rows, replace_memories,
  append, stale_row, stale_memory, sweep_max_age, memory_of, read_rows,
}

module _ (floats : Floats) where
  open floats use {F32, to_le_bytes, from_le_bytes, from-to}

  length-vector_to_bytes : (v : List F32) → length (vector_to_bytes floats v) ≡ 4 * length v
  unfolding vector_to_bytes
  length-vector_to_bytes [] = refl
  length-vector_to_bytes (x ∷ xs) = omega (arith, length-vector_to_bytes xs)

  chunks-vector_to_bytes : (v : List F32) → chunks floats (vector_to_bytes floats v) ≡ v
  unfolding chunks vector_to_bytes
  chunks-vector_to_bytes [] = refl
  chunks-vector_to_bytes (x ∷ xs) = rw (from-to x) (ap (◌∷◌ x) (chunks-vector_to_bytes xs))

  -- A vector is read back from its bytes.
  bytes_to_vector-vector_to_bytes :
      (v : List F32) → bytes_to_vector floats (vector_to_bytes floats v) ≡ some v
  unfolding bytes_to_vector
  bytes_to_vector-vector_to_bytes v =
      let whole : (length (vector_to_bytes floats v) % 4 == 0) ≡ true =
        rw (length-vector_to_bytes v) (ground arith) in
      rw whole (ap some (chunks-vector_to_bytes v))

  -- The row of the mirror is what the row of the table reads as.
  abbrev pub Reads : VectorRow floats → InMemoryRow floats → Type 0
  Reads r m = (bytes_to_vector floats r.vector ≡ some m.vector) × (memory_of floats r m.vector ≡ m)

  abbrev pub InSync : List (VectorRow floats) → List (InMemoryRow floats) → Type 0
  InSync [] [] = Unit
  InSync [] (_ ∷ _) = ⊥
  InSync (_ ∷ _) [] = ⊥
  InSync (r ∷ rs) (m ∷ ms) = Reads r m × InSync rs ms

  to_row-Reads : (r : VectorRecord floats) → Reads (to_row floats r) (to_memory floats r)
  to_row-Reads r = (bytes_to_vector-vector_to_bytes r.vector, refl)

  filter-InSync :
      (p : VectorRow floats → Bool) (q : InMemoryRow floats → Bool)
      → ((r : VectorRow floats) (v : List F32) → p r ≡ q (memory_of floats r v))
      → (rs : List (VectorRow floats)) (ms : List (InMemoryRow floats)) → InSync rs ms
      → InSync (filter p rs) (filter q ms)
  filter-InSync p q agree [] [] h = h
  filter-InSync p q agree [] (_ ∷ _) h = absurd h
  filter-InSync p q agree (_ ∷ _) [] h = absurd h
  filter-InSync p q agree (r ∷ rs) (m ∷ ms) (h, k) =
      let same : q m ≡ p r = rw (sym (ap q h.1)) (sym (agree r m.vector)) in
      elim (Bool-cases (p r)) [
        | inl keep ↦ rw same (rw keep (h, filter-InSync p q agree rs ms k))
        | inr drop ↦ rw same (rw drop (filter-InSync p q agree rs ms k))
      ]

  snoc-InSync :
      (x : VectorRow floats) (y : InMemoryRow floats) (rs : List (VectorRow floats))
      (ms : List (InMemoryRow floats))
      → Reads x y
      → InSync rs ms
      → InSync (rs ++ x ∷ []) (ms ++ y ∷ [])
  snoc-InSync x y [] [] h k = (h, k)
  snoc-InSync x y [] (_ ∷ _) h k = absurd k
  snoc-InSync x y (_ ∷ _) [] h k = absurd k
  snoc-InSync x y (r ∷ rs) (m ∷ ms) h (p, k) = (p, snoc-InSync x y rs ms h k)

  read_rows-InSync :
      (rs : List (VectorRow floats)) (ms : List (InMemoryRow floats))
      → InSync rs ms
      → read_rows floats rs ≡ some ms
  unfolding read_rows
  read_rows-InSync [] [] h = refl
  read_rows-InSync [] (_ ∷ _) h = absurd h
  read_rows-InSync (_ ∷ _) [] h = absurd h
  read_rows-InSync (r ∷ rs) (m ∷ ms) (h, k) =
      rw (h.0, read_rows) (rw (read_rows-InSync rs ms k) (ap (λ x. some (x ∷ ms)) h.1))

  -- The operations of the index.
  pub data Operation : Type 0 where
    append_op : Option VectorError → List (VectorRecord floats) → Operation
    sweep_op : String → String → ℤ → Bool → Operation

  abbrev pub apply : Operation → VectorIndex floats → VectorIndex floats
  apply (append_op fault records) idx = (append floats fault records idx).0
  apply (sweep_op source_id kind cutoff_ms dry_run) idx =
      (sweep_max_age floats source_id kind cutoff_ms dry_run idx).0

  abbrev pub apply_all : List Operation → VectorIndex floats → VectorIndex floats
  apply_all [] idx = idx
  apply_all (o ∷ ops) idx = apply_all ops (apply o idx)

  -- No two rows have one id.
  abbrev pub Distinct : List (InMemoryRow floats) → Type 0
  Distinct [] = Unit
  Distinct (m ∷ ms) = All (λ x. x.event_id ≢ m.event_id) ms × Distinct ms

  -- The rows with another id than that of `y`.
  abbrev others : InMemoryRow floats → List (InMemoryRow floats) → List (InMemoryRow floats)
  others y ms = filter (λ x. not (x.event_id == y.event_id)) ms

  others_same :
      (y : InMemoryRow floats) (ms : List (InMemoryRow floats))
      → All (λ x. x.event_id ≢ y.event_id) ms
      → others y ms ≡ ms
  others_same y [] h = refl
  others_same y (m ∷ ms) (n, h) =
      let new : (m.event_id == y.event_id) ≡ false = ground arith in
      rw new (ap (◌∷◌ m) (others_same y ms h))

  same_id :
      (x y : InMemoryRow floats) (ms : List (InMemoryRow floats))
      → x.event_id ≡ y.event_id
      → All (λ z. z.event_id ≢ x.event_id) ms
      → All (λ z. z.event_id ≢ y.event_id) ms
  same_id x y ms e h = subst (λ i. All (λ z. z.event_id ≢ i) ms) e h

  replace_memory-perm :
      (y : InMemoryRow floats) (ms : List (InMemoryRow floats))
      → Distinct ms
      → Perm (others y ms ++ y ∷ []) (replace_memory floats y ms)
  unfolding replace_memory
  replace_memory-perm y [] d = Perm.refl (y ∷ [])
  replace_memory-perm y (m ∷ ms) (n, d) = elim (Bool-cases (m.event_id == y.event_id)) [
    | inl here ↦
        let e : m.event_id ≡ y.event_id = ground arith in
        rw here (
          subst (λ l. Perm (l ++ y ∷ []) (y ∷ ms)) (sym (others_same y ms (same_id m y ms e n)))
            (snoc_perm y ms))
    | inr there ↦ rw there (Perm.cons m (replace_memory-perm y ms d))
  ]

  All-replace_memory :
      (i : Ulid) (y : InMemoryRow floats) (ms : List (InMemoryRow floats))
      → All (λ x. x.event_id ≢ i) ms
      → y.event_id ≢ i
      → All (λ x. x.event_id ≢ i) (replace_memory floats y ms)
  unfolding replace_memory
  All-replace_memory i y [] h n = (n, tt)
  All-replace_memory i y (m ∷ ms) (p, h) n = elim (Bool-cases (m.event_id == y.event_id)) [
    | inl here ↦ rw here (n, h)
    | inr there ↦ rw there (p, All-replace_memory i y ms h n)
  ]

  replace_memory-Distinct :
      (y : InMemoryRow floats) (ms : List (InMemoryRow floats))
      → Distinct ms
      → Distinct (replace_memory floats y ms)
  unfolding replace_memory
  replace_memory-Distinct y [] d = (tt, tt)
  replace_memory-Distinct y (m ∷ ms) (n, d) = elim (Bool-cases (m.event_id == y.event_id)) [
    | inl here ↦ let e : m.event_id ≡ y.event_id = ground arith in rw here (same_id m y ms e n, d)
    | inr there ↦
        let ne : y.event_id ≢ m.event_id = ground arith in
        rw there (All-replace_memory m.event_id y ms n ne, replace_memory-Distinct y ms d)
  ]

  filter-Distinct :
      (q : InMemoryRow floats → Bool) (ms : List (InMemoryRow floats))
      → Distinct ms
      → Distinct (filter q ms)
  filter-Distinct q [] d = tt
  filter-Distinct q (m ∷ ms) (n, d) = elim (Bool-cases (q m)) [
    | inl keep ↦ rw keep (All-filter (λ x. x.event_id ≢ m.event_id) q ms n, filter-Distinct q ms d)
    | inr drop ↦ rw drop (filter-Distinct q ms d)
  ]

  -- The table reads as the rows of the mirror, in an order of its own.
  pub record Mirrored (idx : VectorIndex floats) : Type 0 where
    pub read : List (InMemoryRow floats)
    pub in_sync : InSync idx.vectors read
    pub same_rows : Perm read idx.rows
    pub distinct : Distinct idx.rows

  replace-Mirrored :
      (r : VectorRecord floats) (idx : VectorIndex floats)
      → Mirrored idx
      → Mirrored (record {
        vectors = replace_row floats (to_row floats r) idx.vectors;
        rows = replace_memory floats (to_memory floats r) idx.rows;
      })
  unfolding replace_row
  replace-Mirrored r idx h =
      let y : InMemoryRow floats = to_memory floats r in
      record {
        read = others y h.read ++ y ∷ [];
        in_sync = snoc-InSync (to_row floats r) y _ _ (to_row-Reads r) (
            filter-InSync (λ x. not (x.event_id == r.event_id))
              (λ x. not (x.event_id == y.event_id)) (λ _ _. refl) idx.vectors h.read h.in_sync);
        same_rows =
            Perm.trans
              (Perm.append_right (y ∷ [])
                (filter-perm (λ x. not (x.event_id == y.event_id)) h.same_rows))
              (replace_memory-perm y idx.rows h.distinct);
        distinct = replace_memory-Distinct y idx.rows h.distinct;
      }

  replace_all-Mirrored :
      (records : List (VectorRecord floats)) (idx : VectorIndex floats)
      → Mirrored idx
      → Mirrored (record {
        vectors = replace_rows floats records idx.vectors;
        rows = replace_memories floats records idx.rows;
      })
  unfolding replace_rows replace_memories
  replace_all-Mirrored [] idx h = h
  replace_all-Mirrored (r ∷ records) idx h =
      replace_all-Mirrored records _ (replace-Mirrored r idx h)

  append-Mirrored :
      (fault : Option VectorError) (records : List (VectorRecord floats)) (idx : VectorIndex floats)
      → Mirrored idx
      → Mirrored (append floats fault records idx).0
  unfolding append
  append-Mirrored fault [] idx h = h
  append-Mirrored (some e) (r ∷ rs) idx h = h
  append-Mirrored none (r ∷ rs) idx h = replace_all-Mirrored (r ∷ rs) idx h

  sweep-Mirrored :
      (source_id kind : String) (cutoff_ms : ℤ) (dry_run : Bool) (idx : VectorIndex floats)
      → Mirrored idx
      → Mirrored (sweep_max_age floats source_id kind cutoff_ms dry_run idx).0
  unfolding sweep_max_age
  sweep-Mirrored source_id kind cutoff_ms true idx h = h
  sweep-Mirrored source_id kind cutoff_ms false idx h =
      let kept : InMemoryRow floats → Bool =
        λ m. not (stale_memory floats source_id kind cutoff_ms m) in
      record {
        read = filter kept h.read;
        in_sync =
            filter-InSync (λ r. not (stale_row floats source_id kind cutoff_ms r)) kept
              (λ r v. refl) idx.vectors h.read h.in_sync;
        same_rows = filter-perm kept h.same_rows;
        distinct = filter-Distinct kept idx.rows h.distinct;
      }

  apply_all-Mirrored :
      (ops : List Operation) (idx : VectorIndex floats)
      → Mirrored idx
      → Mirrored (apply_all ops idx)
  apply_all-Mirrored [] idx h = h
  apply_all-Mirrored (append_op fault records ∷ ops) idx h =
      apply_all-Mirrored ops _ (append-Mirrored fault records idx h)
  apply_all-Mirrored (sweep_op source_id kind cutoff_ms dry_run ∷ ops) idx h =
      apply_all-Mirrored ops _ (sweep-Mirrored source_id kind cutoff_ms dry_run idx h)

  -- After any history of appends and sweeps on an index that began empty, whatever SQLite reported of
  -- the transactions, reading the table again, as a restart does, succeeds and gives just the rows of the
  -- mirror that the searches have used, every vector read back from its bytes. Only their order may be
  -- another, since SQLite puts a row that is replaced behind the others. No id is in the mirror twice.
  pub read_rows-apply_all :
      (ops : List Operation)
      → let idx = apply_all ops (record { vectors = []; rows = [] }) in
        (rows : List (InMemoryRow floats)) × (read_rows floats idx.vectors ≡ some rows)
        × Perm rows idx.rows
        × Distinct idx.rows
  read_rows-apply_all ops =
      let empty : VectorIndex floats = record { vectors = []; rows = [] } in
      let start : Mirrored empty = record {
        read = [];
        in_sync = tt;
        same_rows = Perm.refl [];
        distinct = tt;
      } in
      let h = apply_all-Mirrored ops empty start in
      (h.read, read_rows-InSync _ _ h.in_sync, h.same_rows, h.distinct)
