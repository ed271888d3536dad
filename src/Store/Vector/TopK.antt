-- ===== src/Store/Vector/TopK.antt =====
-- crates/store/src/vector/index.rs, `insert_top_k`: the best hits so far. The scores are `f32`: the type
-- and its order are a parameter.
pub mod Best
use percept.Prelude.{
  ℕ, zero, suc, ◌+◌, ◌≤◌, ◌<◌, String, List, [], ◌∷◌, ◌++◌, Option, none, some, Bool, true, false,
  if◌then◌else◌, ltb, length, get_elem?, ◌≡◌, refl, sym, ap, arith, Bool-cases, inl, inr, All,
  length-append,
}
use percept.Prelude.Int.{ℤ}
use percept.Core.Event.{Ulid}

-- `less a b` is `a < b`, the answer `Less` of `partial_cmp`. The laws are those of a total preorder, which
-- `f32` has where no score is a NaN.
pub record Scores : Type 1 where
  pub Score : Type 0
  pub less : Score → Score → Bool
  pub less_irrefl : (a : Score) → less a a ≡ false
  pub not_less_trans : (a b c : Score) → less b a ≡ false → less c b ≡ false → less c a ≡ false
  pub less_asym : (a b : Score) → less a b ≡ true → less b a ≡ false

-- `Vec` indexing by assignment.
abbrev pub set {ℓ} : {A : Type ℓ} → List A → ℕ → A → List A
set [] i v = []
set (x ∷ xs) zero v = v ∷ xs
set (x ∷ xs) (suc i) v = x ∷ set xs i v

module _ (scores : Scores) where
  open scores use {Score, less, less_irrefl, not_less_trans, less_asym}

  pub record SearchHit : Type 0 where
    pub event_id : Ulid
    pub source_id : String
    pub kind : String
    pub ts_ms_utc : ℤ
    pub truncated : Bool
    pub score : Score

  -- `min_by` over `enumerate`: the first of the least. `i` counts on; `best` is the least so far.
  unfoldable pub min_from : ℕ → ℕ × SearchHit → List SearchHit → ℕ × SearchHit
  min_from i best [] = best
  min_from i (j, h) (x ∷ xs) = min_from (suc i) (if less x.score h.score then (i, x) else (j, h)) xs

  -- `none` is the panic of `unwrap` on an empty heap.
  unfoldable pub insert_top_k : List SearchHit → SearchHit → ℕ → Option (List SearchHit)
  insert_top_k [] hit top_k = if ltb 0 top_k then some (hit ∷ []) else none
  insert_top_k (x ∷ xs) hit top_k =
      let worst = min_from 1 (0, x) xs in
      if ltb (length (x ∷ xs)) top_k
      then some ((x ∷ xs) ++ hit ∷ [])
      else some (if less worst.1.score hit.score then set (x ∷ xs) worst.0 hit else x ∷ xs)

  -- The loop of `search_kn` over the rows that pass the filter.
  unfoldable pub insert_all : List SearchHit → List SearchHit → ℕ → Option (List SearchHit)
  insert_all heap [] top_k = some heap
  insert_all heap (hit ∷ hits) top_k = elim (insert_top_k heap hit top_k) [
    | none ↦ none
    | some heap' ↦ insert_all heap' hits top_k
  ]
