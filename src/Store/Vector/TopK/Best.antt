-- ===== src/Store/Vector/TopK/Best.antt =====
-- On `insert_top_k` of crates/store/src/vector/index.rs: its heap, and the hits left out.
use mathlib.Core.List.{Perm, perm_middle}
use mathlib.Core.List.Perm
use percept.Prelude.{
  ℕ, zero, suc, ◌≤◌, ◌<◌, List, [], ◌∷◌, ◌++◌, some, true, false, if◌then◌else◌, ltb, length,
  get_elem?, ◌≡◌, ◌⊎◌, refl, sym, ap, ◌∙◌, subst, arith, Bool-cases, inl, inr, All, All-append,
  length-append, append_assoc, append-nil, some_inj, lt→ltb,
}
use percept.Store.Vector.TopK.{Scores, SearchHit, set, min_from, insert_top_k, insert_all}

module _ {ℓ} {A : Type ℓ} where
  get_elem?-middle : (pre xs : List A) (x : A) → get_elem? (pre ++ x ∷ xs) (length pre) ≡ some x
  get_elem?-middle [] xs x = refl
  get_elem?-middle (_ ∷ pre) xs x = get_elem?-middle pre xs x

  set-perm :
      (xs : List A) (i : ℕ) (v : A) {w : A}
      → get_elem? xs i ≡ some w
      → Perm (w ∷ set xs i v) (v ∷ xs)
  set-perm [] i v e = cc
  set-perm (x ∷ xs) zero v {w} e =
      subst (λ y. Perm (y ∷ v ∷ xs) (v ∷ x ∷ xs)) (some_inj e) (Perm.swap v x xs)
  set-perm (x ∷ xs) (suc i) v {w} e =
      Perm.trans (Perm.swap x w (set xs i v))
        (Perm.trans (Perm.cons x (set-perm xs i v e)) (Perm.swap v x xs))

  length-set : (xs : List A) (i : ℕ) (v : A) → length (set xs i v) ≡ length xs
  length-set [] i v = refl
  length-set (x ∷ xs) zero v = refl
  length-set (x ∷ xs) (suc i) v = ap suc (length-set xs i v)

  All-set : (P : A → Type 0) (xs : List A) (i : ℕ) (v : A) → All P xs → P v → All P (set xs i v)
  All-set P [] i v h p = tt
  All-set P (x ∷ xs) zero v (q, h) p = (p, h)
  All-set P (x ∷ xs) (suc i) v (q, h) p = (q, All-set P xs i v h p)

  All-get :
      (P : A → Type 0) (xs : List A) (i : ℕ) {w : A} → All P xs → get_elem? xs i ≡ some w → P w
  All-get P [] i h e = cc
  All-get P (x ∷ xs) zero (p, h) e = subst P (some_inj e) p
  All-get P (x ∷ xs) (suc i) (p, h) e = All-get P xs i h e

  All-map : (P Q : A → Type 0) → ((a : A) → P a → Q a) → (xs : List A) → All P xs → All Q xs
  All-map P Q f [] h = tt
  All-map P Q f (x ∷ xs) (p, h) = (f x p, All-map P Q f xs h)

module _ (scores : Scores) where
  open scores use {Score, less, less_irrefl, not_less_trans, less_asym}

  -- No hit of the list is worse than `s`.
  abbrev pub AtLeast : Score → List (SearchHit scores) → Type 0
  AtLeast s = All (λ h. less h.score s ≡ false)

  -- None of the hits left out is better than one in the heap.
  abbrev pub Dominates : List (SearchHit scores) → List (SearchHit scores) → Type 0
  Dominates heap out = All (λ r. AtLeast r.score heap) out

  abbrev IsLeast : List (SearchHit scores) → ℕ × SearchHit scores → Type 0
  IsLeast hits b = (get_elem? hits b.0 ≡ some b.1) × AtLeast b.1.score hits

  AtLeast-trans :
      (s t : Score) (hits : List (SearchHit scores))
      → less t s ≡ false
      → AtLeast t hits
      → AtLeast s hits
  AtLeast-trans s t hits le = All-map _ _ (λ h p. not_less_trans s t h.score le p) hits

  abbrev better : ℕ → SearchHit scores → ℕ × SearchHit scores → ℕ × SearchHit scores
  better n x (j, m) = if less x.score m.score then (n, x) else (j, m)

  -- The best of the hits seen so far, `pre`, stays the best after one more.
  better-IsLeast :
      (all pre : List (SearchHit scores)) (n : ℕ) (x : SearchHit scores) (b : ℕ × SearchHit scores)
      → get_elem? all n ≡ some x
      → get_elem? all b.0 ≡ some b.1
      → AtLeast b.1.score pre
      → (get_elem? all (better n x b).0 ≡ some (better n x b).1)
        × AtLeast (better n x b).1.score (pre ++ x ∷ [])
  better-IsLeast all pre n x (j, m) at_n at_j h = elim (Bool-cases (less x.score m.score)) [
    | inl lt ↦ rw lt (
      at_n,
      All-append (λ y. less y.score x.score ≡ false) pre (x ∷ [])
          (AtLeast-trans x.score m.score pre (less_asym x.score m.score lt) h)
          (less_irrefl x.score, tt),
    )
    | inr ge ↦ rw ge (at_j, All-append (λ y. less y.score m.score ≡ false) pre (x ∷ []) h (ge, tt))
  ]

  min_from-IsLeast :
      (all pre hits : List (SearchHit scores)) (n : ℕ) (b : ℕ × SearchHit scores)
      → all ≡ pre ++ hits
      → n ≡ length pre
      → get_elem? all b.0 ≡ some b.1
      → AtLeast b.1.score pre
      → IsLeast all (min_from scores n b hits)
  unfolding min_from
  min_from-IsLeast all pre [] n b q len e h = (e, rw (q, append-nil pre) h)
  min_from-IsLeast all pre (x ∷ hits) n (j, m) q len e h =
      let at_n : get_elem? all n ≡ some x = rw (q, len) (get_elem?-middle pre hits x) in
      let (e', h') = better-IsLeast all pre n x (j, m) at_n e h in
      min_from-IsLeast all (pre ++ x ∷ []) hits (suc n) (better n x (j, m))
        (q ∙ sym (append_assoc pre (x ∷ []) hits)) (omega (arith, len, length-append pre (x ∷ [])))
        e' h'

  -- A heap, and the hits left out of it: together they are the hits seen; only a full heap leaves
  -- one out, and never a better one than it holds.
  pub record IsBest (top_k : ℕ) (seen heap out : List (SearchHit scores)) : Type 0 where
    pub parts : Perm (heap ++ out) seen
    pub bounded : length heap ≤ top_k
    pub full : (out ≡ []) ⊎ (length heap ≡ top_k)
    pub best : Dominates heap out

  -- What one insertion does.
  record Inserted (top_k : ℕ) (hit : SearchHit scores) (heap out : List (SearchHit scores))
      : Type 0 where
    heap' : List (SearchHit scores)
    out' : List (SearchHit scores)
    result : insert_top_k scores heap hit top_k ≡ some heap'
    parts : Perm (heap' ++ out') (hit ∷ (heap ++ out))
    bounded : length heap' ≤ top_k
    full : (out' ≡ []) ⊎ (length heap' ≡ top_k)
    best : Dominates heap' out'

  replace_worst :
      (hit w : SearchHit scores) (heap out : List (SearchHit scores)) (i : ℕ)
      → IsLeast heap (i, w)
      → less w.score hit.score ≡ true
      → Dominates heap out
      → Perm (set heap i hit ++ w ∷ out) (hit ∷ (heap ++ out))
        × Dominates (set heap i hit) (w ∷ out)
  replace_worst hit w heap out i (at_i, least) lt dom = (
    Perm.trans (perm_middle (set heap i hit) out)
        (Perm.append (set-perm heap i hit at_i) (Perm.refl out)),
    (
      All-set (λ h. less h.score w.score ≡ false) heap i hit least (less_asym w.score hit.score lt),
      All-map (λ r. AtLeast r.score heap) (λ r. AtLeast r.score (set heap i hit))
          (λ r h.
            All-set (λ y. less y.score r.score ≡ false) heap i hit h
              (not_less_trans r.score w.score hit.score
                (All-get (λ y. less y.score r.score ≡ false) heap i h at_i)
                (less_asym w.score hit.score lt)))
          out dom,
    ),
  )

  insert_top_k-Inserted :
      (top_k : ℕ) (hit : SearchHit scores) (heap out : List (SearchHit scores))
      → 0 < top_k
      → length heap ≤ top_k
      → (out ≡ []) ⊎ (length heap ≡ top_k)
      → Dominates heap out
      → Inserted top_k hit heap out
  unfolding insert_top_k
  insert_top_k-Inserted top_k hit [] out pos le full dom = record {
    heap' = hit ∷ [];
    out' = out;
    result = rw (lt→ltb 0 top_k pos);
    parts = Perm.refl (hit ∷ out);
    bounded = omega arith;
    full = inl none_out;
    best = rw none_out tt;
  }
    where
      none_out : out ≡ []
      none_out = elim full [ inl e ↦ e | inr e ↦ absurd (omega arith) ]
  insert_top_k-Inserted top_k hit (x ∷ xs) out pos le full dom =
      elim (Bool-cases (ltb (length (x ∷ xs)) top_k)) [
        | inl room ↦
            let none_out : out ≡ [] = elim full [ inl e ↦ e | inr e ↦ absurd (ground arith) ] in
            record {
              heap' = (x ∷ xs) ++ hit ∷ [];
              out' = out;
              result = rw room;
              parts = rw (append_assoc (x ∷ xs) (hit ∷ []) out) (perm_middle (x ∷ xs) out);
              bounded = ground (arith, length-append (x ∷ xs) (hit ∷ []));
              full = inl none_out;
              best = rw none_out tt;
            }
        | inr no_room ↦
            let all_in : length (x ∷ xs) ≡ top_k = ground arith in
            elim (Bool-cases (less worst.1.score hit.score)) [
              | inl lt ↦
                  let (parts, best) = replace_worst hit worst.1 (x ∷ xs) out worst.0 least lt dom in
                  record {
                    heap' = set (x ∷ xs) worst.0 hit;
                    out' = worst.1 ∷ out;
                    result = rw no_room (rw lt);
                    parts = parts;
                    bounded = omega (arith, length-set (x ∷ xs) worst.0 hit);
                    full = inr (length-set (x ∷ xs) worst.0 hit ∙ all_in);
                    best = best;
                  }
              | inr ge ↦ record {
                heap' = x ∷ xs;
                out' = hit ∷ out;
                result = rw no_room (rw ge);
                parts = perm_middle (x ∷ xs) out;
                bounded = le;
                full = inr all_in;
                best = (AtLeast-trans hit.score worst.1.score (x ∷ xs) ge least.1, dom);
              }
            ]
      ]
    where
      worst : ℕ × SearchHit scores
      worst = min_from scores 1 (0, x) xs

      least : IsLeast (x ∷ xs) worst
      least =
          min_from-IsLeast (x ∷ xs) (x ∷ []) xs 1 (0, x) refl refl refl (less_irrefl x.score, tt)

  -- What the loop over the hits does, from a heap that is the best so far.
  record Best (top_k : ℕ) (hits heap out : List (SearchHit scores)) : Type 0 where
    heap' : List (SearchHit scores)
    out' : List (SearchHit scores)
    result : insert_all scores heap hits top_k ≡ some heap'
    is_best : IsBest top_k (hits ++ (heap ++ out)) heap' out'

  insert_all-Best :
      (top_k : ℕ) (hits heap out : List (SearchHit scores))
      → 0 < top_k
      → length heap ≤ top_k
      → (out ≡ []) ⊎ (length heap ≡ top_k)
      → Dominates heap out
      → Best top_k hits heap out
  unfolding insert_all
  insert_all-Best top_k [] heap out pos le full dom = record {
    heap' = heap;
    out' = out;
    result = refl;
    is_best = record { parts = Perm.refl (heap ++ out); bounded = le; full = full; best = dom };
  }
  insert_all-Best top_k (hit ∷ hits) heap out pos le full dom =
      let i = insert_top_k-Inserted top_k hit heap out pos le full dom in
      let b = insert_all-Best top_k hits i.heap' i.out' pos i.bounded i.full i.best in
      record {
        heap' = b.heap';
        out' = b.out';
        result = rw (i.result, insert_all) b.result;
        is_best = record {
          parts =
              Perm.trans b.is_best.parts
                (Perm.trans (Perm.append_left hits i.parts) (perm_middle hits (heap ++ out)));
          bounded = b.is_best.bounded;
          full = b.is_best.full;
          best = b.is_best.best;
        };
      }

  -- Over the hits that pass the filter the loop never panics where `top_k` is not zero, and its heap
  -- is the best: with the hits left out it makes up the hits, none is left out while there is room, and
  -- none that is left out scores more than one in the heap.
  pub insert_all-IsBest :
      (top_k : ℕ) (hits : List (SearchHit scores))
      → 0 < top_k
      → (heap : List (SearchHit scores)) × (out : List (SearchHit scores)) × (insert_all scores []
            hits top_k
          ≡ some heap)
        × IsBest top_k hits heap out
  insert_all-IsBest top_k hits pos =
      let b = insert_all-Best top_k hits [] [] pos (omega arith) (inl refl) tt in
      (b.heap', b.out', b.result, rw (append-nil hits) at b.is_best)
