-- ===== src/Store/Cold/Append/Latest.antt =====
-- On `append` of crates/store/src/cold/store.rs: collapsing a batch, and the table `latest`.
use percept.Prelude.{
  String, List, [], ◌∷◌, Option, none, some, if◌then◌else◌, ◌≡◌, refl, ap, subst, ◌∙◌, arith,
  Bool-cases, Option-cases, inl, inr,
}
use percept.Prelude.Int.{ltz}
use percept.Prelude.Eq.{pair_eq, ◌=?◌, =?_comm}
use percept.Prelude.Assoc.{lookup, insert, lookup-insert}
use percept.Core.Event.{Event}
use percept.Store.Cold.Rows.{JsonCodec, Row}
use percept.Store.Cold.Append.{
  ColdStore, Key, row_key, newer, collapse, upsert, upsert_all, to_rows, append, latest,
}

-- The reference: every row in turn, each for its own key.
abbrev pub offer : Key → Option Row → Row → Option Row
offer key cur r = if row_key r =? key then some (newer cur r) else cur

abbrev pub offer_all : Key → Option Row → List Row → Option Row
offer_all key cur [] = cur
offer_all key cur (r ∷ rs) = offer_all key (offer key cur r) rs

abbrev merge : Option Row → Option Row → Option Row
merge cur none = cur
merge cur (some r) = some (newer cur r)

lookup-insert-newer :
    (m : List (Key × Row)) (r : Row) (key : Key)
    → lookup key (insert (row_key r) (newer (lookup (row_key r) m) r) m)
      ≡ offer key (lookup key m) r
lookup-insert-newer m r key = elim (Bool-cases (row_key r =? key)) [
  | inl own ↦
      let same : row_key r ≡ key = (pair_eq.beq_iff (row_key r) key).0 own in
      rw (lookup-insert (row_key r) key _ m) (rw own (rw same))
  | inr other ↦ rw (lookup-insert (row_key r) key _ m) (rw other)
]

lookup-collapse :
    (m : List (Key × Row)) (rs : List Row) (key : Key)
    → lookup key (collapse m rs) ≡ offer_all key (lookup key m) rs
unfolding collapse
lookup-collapse m [] key = refl
lookup-collapse m (r ∷ rs) key =
    lookup-collapse (insert (row_key r) (newer (lookup (row_key r) m) r) m) rs key
    ∙ ap (λ cur. offer_all key cur rs) (lookup-insert-newer m r key)

-- Every entry stands under the key of its row, and no key twice.
abbrev IsTable : List (Key × Row) → Type 0
IsTable [] = Unit
IsTable ((k, r) ∷ m) = (row_key r ≡ k) × (lookup k m ≡ none) × IsTable m

insert-IsTable :
    (k : Key) (r : Row) (m : List (Key × Row)) → row_key r ≡ k → IsTable m → IsTable (insert k r m)
unfolding insert lookup
insert-IsTable k r [] e t = (e, refl, tt)
insert-IsTable k r ((j, w) ∷ m) e (at_j, fresh, t) = elim (Bool-cases (j =? k)) [
  | inl own ↦
      let same : j ≡ k = (pair_eq.beq_iff j k).0 own in
      rw own (e, subst (λ x. lookup x m ≡ none) same fresh, t)
  | inr other ↦ rw other (
    at_j,
    rw (lookup-insert k j r m) (rw (=?_comm k j) (rw other fresh)),
    insert-IsTable k r m e t,
  )
]

lookup-key :
    (k : Key) (m : List (Key × Row)) {r : Row} → IsTable m → lookup k m ≡ some r → row_key r ≡ k
unfolding lookup
lookup-key k [] t e = cc
lookup-key k ((j, w) ∷ m) {r} (at_j, fresh, t) e =
    ground (arith, pair_eq.beq_iff j k, lookup-key k m {r = r} t)

newer-key :
    (m : List (Key × Row)) (r : Row)
    → IsTable m
    → row_key (newer (lookup (row_key r) m) r) ≡ row_key r
newer-key m r t = elim (Option-cases (lookup (row_key r) m)) [
  | inl e ↦ rw e
  | inr (cur, e) ↦ rw e (kept cur (lookup-key (row_key r) m t e))
]
  where
    kept : (cur : Row) → row_key cur ≡ row_key r → row_key (newer (some cur) r) ≡ row_key r
    kept cur same = elim (Bool-cases (ltz cur.ts_ms_utc r.ts_ms_utc)) [
      | inl h ↦ rw h
      | inr h ↦ rw h same
    ]

collapse-IsTable : (m : List (Key × Row)) (rs : List Row) → IsTable m → IsTable (collapse m rs)
unfolding collapse
collapse-IsTable m [] t = t
collapse-IsTable m (r ∷ rs) t =
    collapse-IsTable (insert (row_key r) (newer (lookup (row_key r) m) r) m) rs
      (insert-IsTable (row_key r) (newer (lookup (row_key r) m) r) m (newer-key m r t) t)

lookup-upsert_all :
    (entries m : List (Key × Row)) (key : Key)
    → IsTable entries
    → lookup key (upsert_all entries m) ≡ merge (lookup key m) (lookup key entries)
unfolding upsert_all upsert lookup
lookup-upsert_all [] m key t = refl
lookup-upsert_all ((k, r) ∷ entries) m key (at_k, fresh, t) =
    lookup-upsert_all entries (insert (row_key r) (newer (lookup (row_key r) m) r) m) key t
    ∙ rw (lookup-insert-newer m r key) (
        rw offered (elim (Bool-cases (k =? key)) [
          | inl own ↦
              let same : k ≡ key = (pair_eq.beq_iff k key).0 own in
              let gone : lookup key entries ≡ none =
                subst (λ x. lookup x entries ≡ none) same fresh in
              rw own (rw gone)
          | inr other ↦ rw other
        ]))
  where
    offered :
        offer key (lookup key m) r
        ≡ (if k =? key then some (newer (lookup key m) r) else lookup key m)
    offered =
        subst
          (λ x.
            offer key (lookup key m) r
            ≡ (if x =? key then some (newer (lookup key m) r) else lookup key m))
          at_k refl

newer_assoc : (c a r : Row) → newer (some c) (newer (some a) r) ≡ newer (some (newer (some c) a)) r
newer_assoc c a r = ground arith

merge-offer :
    (key : Key) (cur acc : Option Row) (r : Row)
    → merge cur (offer key acc r) ≡ offer key (merge cur acc) r
merge-offer key none none r = ground arith
merge-offer key (some c) none r = ground arith
merge-offer key none (some a) r = ground arith
merge-offer key (some c) (some a) r = elim (Bool-cases (row_key r =? key)) [
  | inl own ↦ rw own (ap some (newer_assoc c a r))
  | inr other ↦ rw other
]

merge-offer_all :
    (key : Key) (cur acc : Option Row) (rs : List Row)
    → merge cur (offer_all key acc rs) ≡ offer_all key (merge cur acc) rs
merge-offer_all key cur acc [] = refl
merge-offer_all key cur acc (r ∷ rs) =
    merge-offer_all key cur (offer key acc r) rs
    ∙ ap (λ o. offer_all key o rs) (merge-offer key cur acc r)

-- After a committed batch the row of a key is what results when the rows of the batch are offered to it
-- one by one, each replacing the row before only if it is strictly newer.
pub latest-append :
    (codec : JsonCodec) (es : List Event) (rows : List Row) (s : ColdStore)
    (source_id kind : String)
    → to_rows codec es ≡ some rows
    → latest (append codec none es s).0 source_id kind
      ≡ offer_all (source_id, kind) (latest s source_id kind) rows
unfolding append latest to_rows lookup
latest-append codec [] rows s source_id kind encoded =
    let e : [] ≡ rows = cc in
    subst
      (λ x.
        lookup (source_id, kind) s.latest
        ≡ offer_all (source_id, kind) (lookup (source_id, kind) s.latest) x)
      e refl
latest-append codec (x ∷ xs) rows s source_id kind encoded =
    let key : Key = (source_id, kind) in
    rw encoded (
      lookup-upsert_all (collapse [] rows) s.latest key (collapse-IsTable [] rows tt)
      ∙ rw (lookup-collapse [] rows key)
          (merge-offer_all key (lookup key s.latest) (lookup key []) rows))
