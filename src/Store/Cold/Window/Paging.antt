-- ===== src/Store/Cold/Window/Paging.antt =====
-- Pagination: what a page leaves is what the cursor of its last row gives.
use percept.Prelude.{
  ℕ, zero, suc, String, List, [], ◌∷◌, none, some, Bool, true, false, filter, take, drop, last?,
  ◌≡◌, ◌≢◌, refl, sym, subst, ap, arith, filter-and, filter-true, some_inj, Bool-cases, inl, inr,
  All, min,
}
use percept.Prelude.Sorting.{
  sort, insert, All-insert, IsSorted, Above, sort-filter, sort-IsSorted, All-sort,
}
use percept.Store.Cold.Rows.{Row}
use percept.Store.Cold.Append.Atomic.{Unique}
use percept.Store.Cold.Window.{
  WindowFilter, Anchor, row_le, past_anchor, in_window, select_window, max_window_limit,
}

pub row_le-total : (a b : Row) → row_le a b ≡ false → row_le b a ≡ true
row_le-total a b h = ground arith

pub row_le_trans : (a b c : Row) → row_le a b ≡ true → row_le b c ≡ true → row_le a c ≡ true
row_le_trans a b c h k = ground arith

abbrev pub anchor_of : Row → Anchor
anchor_of r = record { ts_ms_utc = r.ts_ms_utc; event_id = r.event_id }

row_le_refl : (a : Row) → row_le a a ≡ true
row_le_refl a = ground arith

-- Behind a row in the order is past its anchor, unless the two share their id.
past_of_le :
    (a b : Row)
    → row_le a b ≡ true
    → b.event_id ≢ a.event_id
    → past_anchor (some (anchor_of a)) b ≡ true
past_of_le a b h ne = ground arith

not_past_of_le : (a b : Row) → row_le a b ≡ true → past_anchor (some (anchor_of b)) a ≡ false
not_past_of_le a b h = ground arith

module _ (P : Row → Type 0) where
  All-filter : (p : Row → Bool) (rows : List Row) → All P rows → All P (filter p rows)
  All-filter p [] h = tt
  All-filter p (r ∷ rows) (q, h) = elim (Bool-cases (p r)) [
    | inl e ↦ rw e (q, All-filter p rows h)
    | inr e ↦ rw e (All-filter p rows h)
  ]

  -- What holds of all rows holds of the last of a page.
  All-last : (n : ℕ) (rows : List Row) {r : Row} → All P rows → last? (take n rows) ≡ some r → P r
  All-last zero rows h e = cc
  All-last (suc n) [] h e = cc
  All-last (suc zero) (x ∷ rows) (p, h) e = subst P (some_inj e) p
  All-last (suc (suc n)) (x ∷ []) (p, h) e = subst P (some_inj e) p
  All-last (suc (suc n)) (x ∷ y ∷ rows) (p, h) e = All-last (suc n) (y ∷ rows) h e

pub filter-Unique : (p : Row → Bool) (rows : List Row) → Unique rows → Unique (filter p rows)
filter-Unique p [] u = u
filter-Unique p (r ∷ rows) (a, u) = elim (Bool-cases (p r)) [
  | inl e ↦ rw e (All-filter (λ x. x.event_id ≢ r.event_id) p rows a, filter-Unique p rows u)
  | inr e ↦ rw e (filter-Unique p rows u)
]

insert-Unique :
    (r : Row) (rows : List Row)
    → All (λ x. x.event_id ≢ r.event_id) rows
    → Unique rows
    → Unique (insert row_le r rows)
unfolding insert
insert-Unique r [] a u = (tt, tt)
insert-Unique r (x ∷ rows) (ne, a) (b, u) = elim (Bool-cases (row_le r x)) [
  | inl e ↦ rw e ((ne, a), (b, u))
  | inr e ↦ rw e (
    All-insert row_le (λ y. y.event_id ≢ x.event_id) r rows (λ q. ne (sym q)) b,
    insert-Unique r rows a u,
  )
]

pub sort-Unique : (rows : List Row) → Unique rows → Unique (sort row_le rows)
unfolding sort
sort-Unique [] u = u
sort-Unique (r ∷ rows) (a, u) =
    insert-Unique r (sort row_le rows) (All-sort row_le (λ x. x.event_id ≢ r.event_id) rows a)
      (sort-Unique rows u)

All-past :
    (x : Row) (rows : List Row)
    → Above row_le x rows
    → All (λ y. y.event_id ≢ x.event_id) rows
    → filter (past_anchor (some (anchor_of x))) rows ≡ rows
All-past x [] h a = refl
All-past x (y ∷ rows) (p, h) (ne, a) = rw (past_of_le x y p ne) (ap (◌∷◌ y) (All-past x rows h a))

-- Only what comes behind a row is past its anchor.
filter-first :
    (x r : Row) (rows : List Row)
    → Above row_le x rows
    → All (λ y. y.event_id ≢ x.event_id) rows
    → x ≡ r
    → filter (past_anchor (some (anchor_of r))) (x ∷ rows) ≡ rows
filter-first x r rows h a e =
    subst (λ z. filter (past_anchor (some (anchor_of z))) (x ∷ rows) ≡ rows) e
      (rw (not_past_of_le x x (row_le_refl x)) (All-past x rows h a))

filter_past-drop :
    (n : ℕ) (rows : List Row) {r : Row}
    → IsSorted row_le rows
    → Unique rows
    → last? (take n rows) ≡ some r
    → filter (past_anchor (some (anchor_of r))) rows ≡ drop n rows
filter_past-drop zero rows s u e = cc
filter_past-drop (suc n) [] s u e = refl
filter_past-drop (suc zero) (x ∷ rows) {r} (h, s) (a, u) e = filter-first x r rows h a (some_inj e)
filter_past-drop (suc (suc n)) (x ∷ []) {r} (h, s) (a, u) e = filter-first x r [] h a (some_inj e)
filter_past-drop (suc (suc n)) (x ∷ y ∷ rows) {r} (h, s) (a, u) e =
    rw (not_past_of_le x r (All-last (λ z. row_le x z ≡ true) (suc n) (y ∷ rows) h e))
      (filter_past-drop (suc n) (y ∷ rows) s u e)

module _ (like : String → String → Bool) where
  -- All the rows of a window, in order.
  abbrev pub ordered : WindowFilter → List Row → List Row
  ordered f rows = sort row_le (filter (in_window like f) rows)

  abbrev pub page_size : WindowFilter → ℕ
  page_size f = min f.limit max_window_limit

  -- The first page is the first rows of the window; the page behind the `n`-th row, by the cursor of
  -- that row, is the rows that follow it.
  pub select_window-first :
      (f : WindowFilter) (rows : List Row)
      → select_window like f none rows ≡ take (page_size f) (ordered f rows)
  unfolding select_window
  select_window-first f rows =
      let p : Row → Bool = in_window like f in
      rw (filter-and p (λ _. true) rows) (rw (filter-true (filter p rows)))

  -- With unique event ids, the cursor made of the last of the first `n` rows of the window leads to the
  -- page of the rows that follow those: resuming neither skips a row nor gives one twice, also where
  -- rows have the same time.
  pub select_window-next :
      (f : WindowFilter) (rows : List Row) (n : ℕ) (r : Row)
      → Unique rows
      → last? (take n (ordered f rows)) ≡ some r
      → select_window like f (some (anchor_of r)) rows
        ≡ take (page_size f) (drop n (ordered f rows))
  unfolding select_window
  select_window-next f rows n r u e =
      let p : Row → Bool = in_window like f in
      let q : Row → Bool = past_anchor (some (anchor_of r)) in
      rw (filter-and p q rows) (
        rw (sort-filter row_le row_le-total row_le_trans q (filter p rows)) (
          rw (
            filter_past-drop n (ordered f rows) {r = r}
              (sort-IsSorted row_le row_le-total row_le_trans (filter p rows))
              (sort-Unique (filter p rows) (filter-Unique p rows u)) e)))
