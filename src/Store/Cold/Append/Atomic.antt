-- ===== src/Store/Cold/Append/Atomic.antt =====
-- On `append` of crates/store/src/cold/store.rs: the event log, its primary key and the transaction.
use percept.Prelude.{
  List, [], ◌∷◌, ◌++◌, Option, none, some, Bool, false, any, ◌==◌, ◌≡◌, ◌≢◌, refl, sym, ◌∙◌, arith,
  All, Bool-cases, inl, inr, Option-cases, append_assoc, append-nil,
}
use percept.Core.Event.{Event, Ulid}
use percept.Store.Cold.Rows.{JsonCodec, Row}
use percept.Store.Cold.Append.{ColdStore, ColdError, insert_row, insert_all, append, to_rows}

-- `event_id` is a key of the table `events`.
abbrev pub Unique : List Row → Type 0
Unique [] = Unit
Unique (r ∷ rows) = All (λ x. x.event_id ≢ r.event_id) rows × Unique rows

abbrev has_id : Ulid → List Row → Bool
has_id i = any (λ x. x.event_id == i)

All-snoc :
    (i : Ulid) (r : Row) (rows : List Row)
    → All (λ x. x.event_id ≢ i) rows
    → r.event_id ≢ i
    → All (λ x. x.event_id ≢ i) (rows ++ r ∷ [])
All-snoc i r [] h p = (p, tt)
All-snoc i r (x ∷ rows) (q, h) p = (q, All-snoc i r rows h p)

snoc-Unique :
    (r : Row) (rows : List Row)
    → has_id r.event_id rows ≡ false
    → Unique rows
    → Unique (rows ++ r ∷ [])
snoc-Unique r [] new u = (tt, tt)
snoc-Unique r (x ∷ rows) new (a, u) =
    (All-snoc x.event_id r rows a (ground arith), snoc-Unique r rows (ground arith) u)

insert_row-Unique : (r : Row) (rows : List Row) → Unique rows → Unique (insert_row r rows)
unfolding insert_row
insert_row-Unique r rows u = elim (Bool-cases (has_id r.event_id rows)) [
  | inl old ↦ rw old u
  | inr new ↦ rw new (snoc-Unique r rows new u)
]

insert_all-Unique : (rs rows : List Row) → Unique rows → Unique (insert_all rs rows)
unfolding insert_all
insert_all-Unique [] rows u = u
insert_all-Unique (r ∷ rs) rows u =
    insert_all-Unique rs (insert_row r rows) (insert_row-Unique r rows u)

-- Whatever becomes of the transaction, event ids stay unique.
pub append-Unique :
    (codec : JsonCodec) (fault : Option ColdError) (es : List Event) (s : ColdStore)
    → Unique s.events
    → Unique (append codec fault es s).0.events
unfolding append
append-Unique codec fault [] s u = u
append-Unique codec (some e) (x ∷ xs) s u = u
append-Unique codec none (x ∷ xs) s u = elim (Option-cases (to_rows codec (x ∷ xs))) [
  | inl e ↦ rw e u
  | inr (rows, e) ↦ rw e (insert_all-Unique rows s.events u)
]

-- An append that reports an error has changed neither table.
pub append-error :
    (codec : JsonCodec) (fault : Option ColdError) (es : List Event) (s : ColdStore) {x : ColdError}
    → (append codec fault es s).1 ≡ some x
    → (append codec fault es s).0 ≡ s
unfolding append
append-error codec fault [] s h = refl
append-error codec (some e) (x ∷ xs) s h = refl
append-error codec none (x ∷ xs) s h = ground arith

abbrev pub Extends : List Row → List Row → Type 0
Extends rows' rows = (added : List Row) × (rows' ≡ rows ++ added)

insert_all-Extends : (rs rows : List Row) → Extends (insert_all rs rows) rows
unfolding insert_all insert_row
insert_all-Extends [] rows = ([], sym (append-nil rows))
insert_all-Extends (r ∷ rs) rows = elim (Bool-cases (has_id r.event_id rows)) [
  | inl old ↦ rw old (insert_all-Extends rs rows)
  | inr new ↦ rw new (
      let (added, e) = insert_all-Extends rs (rows ++ r ∷ []) in
      (r ∷ added, e ∙ append_assoc rows (r ∷ []) added))
]

-- The event log only grows at its end: the rows that were there stay, unchanged and in their order,
-- whatever the batch holds and whatever becomes of the transaction.
pub append-Extends :
    (codec : JsonCodec) (fault : Option ColdError) (es : List Event) (s : ColdStore)
    → Extends (append codec fault es s).0.events s.events
unfolding append
append-Extends codec fault [] s = ([], sym (append-nil s.events))
append-Extends codec (some e) (x ∷ xs) s = ([], sym (append-nil s.events))
append-Extends codec none (x ∷ xs) s = elim (Option-cases (to_rows codec (x ∷ xs))) [
  | inl e ↦ rw e ([], sym (append-nil s.events))
  | inr (rows, e) ↦ rw e (insert_all-Extends rows s.events)
]
