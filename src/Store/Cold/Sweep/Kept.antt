-- ===== src/Store/Cold/Sweep/Kept.antt =====
-- What the sweeps keep.
use percept.Prelude.{
  ℕ, zero, suc, ◌-◌, String, List, [], ◌∷◌, Bool, false, filter, take, drop, length, ◌==◌, not, ◌≡◌,
  ◌≢◌, refl, arith, Bool-cases, inl, inr, All, filter-true,
}
use percept.Prelude.Int.{pos, pos_part, ◌-ℤ◌}
use percept.Prelude.Eq.{string_eq}
use percept.Prelude.Sorting.{sort, sort-filter}
use percept.Store.Cold.Rows.{Row}
use percept.Store.Cold.Append.{ColdStore}
use percept.Store.Cold.Append.Atomic.{Unique}
use percept.Store.Cold.Window.{row_le}
use percept.Store.Cold.Window.Paging.{row_le-total, row_le_trans, sort-Unique, filter-Unique}
use percept.Store.Cold.Sweep.{
  in_pair, pair_rows, is_victim, delete_rows, sweep_max_count, count_for_pair,
}

filter_comm {ℓ} :
    {A : Type ℓ} (p q : A → Bool) (xs : List A) → filter p (filter q xs) ≡ filter q (filter p xs)
filter_comm p q [] = refl
filter_comm p q (x ∷ xs) = ground (arith, filter_comm p q xs)

-- Victims that are none of the rows drop none of them.
spare :
    (v : Row) (victims rows : List Row)
    → All (λ x. x.event_id ≢ v.event_id) rows
    → filter (λ r. not (is_victim (v ∷ victims) r)) rows
      ≡ filter (λ r. not (is_victim victims r)) rows
spare v victims [] h = refl
spare v victims (r ∷ rows) (ne, h) = ground (arith, spare v victims rows h)

filter-take :
    (n : ℕ) (rows : List Row)
    → Unique rows
    → filter (λ r. not (is_victim (take n rows) r)) rows ≡ drop n rows
filter-take zero rows u = filter-true rows
filter-take (suc n) [] u = refl
filter-take (suc n) (x ∷ rows) (a, u) =
    ground (arith, spare x (take n rows) rows a, filter-take n rows u)

drop_count_lem : (n k : ℕ) → pos_part (pos n -ℤ pos k) ≡ n - k
unfolding ◌-ℤ◌
drop_count_lem n k = ground arith

-- Deleting the oldest rows of a pair leaves its newer rows, in their order.
pair_rows-delete_rows :
    (source_id kind : String) (n : ℕ) (s : ColdStore)
    → Unique s.events
    → let oldest = take n (sort row_le (pair_rows source_id kind s.events)) in
      sort row_le (pair_rows source_id kind (delete_rows oldest s).0.events)
      ≡ drop n (sort row_le (pair_rows source_id kind s.events))
pair_rows-delete_rows source_id kind n s u =
    let pair : List Row = pair_rows source_id kind s.events in
    let keep : Row → Bool = λ r. not (is_victim (take n (sort row_le pair)) r) in
    rw (filter_comm (in_pair source_id kind) keep s.events) (
      rw (sort-filter row_le row_le-total row_le_trans keep pair) (
        filter-take n (sort row_le pair)
          (sort-Unique pair (filter-Unique (in_pair source_id kind) s.events u))))

-- A sweep by count leaves exactly the newest `keep_last` rows of the pair, by time and then id.
pub sweep_max_count-newest :
    (source_id kind : String) (keep_last : ℕ) (s : ColdStore)
    → Unique s.events
    → let ordered = λ (t : ColdStore). sort row_le (pair_rows source_id kind t.events) in
      ordered (sweep_max_count source_id kind (pos keep_last) false s).0
      ≡ drop (count_for_pair s source_id kind - keep_last) (ordered s)
unfolding sweep_max_count count_for_pair
sweep_max_count-newest source_id kind keep_last s u =
    let n : ℕ = length (pair_rows source_id kind s.events) in
    rw (drop_count_lem n keep_last) (elim (Bool-cases ((n - keep_last) == 0)) [
      | inl none_over ↦
          let zero_over : n - keep_last ≡ 0 = ground arith in rw none_over (rw zero_over)
      | inr over ↦ rw over (pair_rows-delete_rows source_id kind (n - keep_last) s u)
    ])
