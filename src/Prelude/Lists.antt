-- ===== src/Prelude/Lists.antt =====
-- Lists measured by native numbers, Boolean tests over lists, and the predicate `All`.
use Prim.Native.Nat.{ℕ, zero, suc, ◌+◌, ◌-◌, ◌≤◌, min}
use mathlib.Core.Path.{◌≡◌, refl, ap, sym}
use mathlib.Core.Bool.{Bool, true, false, ◌&&◌, ◌||◌}
use mathlib.Core.Option.{Option, none, some}
use mathlib.Core.List.{List, [], ◌∷◌, ◌++◌}
use native.Mathlib.Nat.{zero-add, suc-add}
use native.Mathlib.Omega.{arith}
use percept.Prelude.Tests.{if◌then◌else◌}

module _ {ℓ} {A : Type ℓ} where
  abbrev pub length : List A → ℕ
  length [] = 0
  length (_ ∷ xs) = suc (length xs)

  abbrev pub get_elem? : List A → ℕ → Option A
  get_elem? [] i = none
  get_elem? (x ∷ xs) zero = some x
  get_elem? (x ∷ xs) (suc i) = get_elem? xs i

  abbrev pub take : ℕ → List A → List A
  take zero xs = []
  take (suc n) [] = []
  take (suc n) (x ∷ xs) = x ∷ take n xs

  abbrev pub drop : ℕ → List A → List A
  drop zero xs = xs
  drop (suc n) [] = []
  drop (suc n) (x ∷ xs) = drop n xs

  abbrev pub last? : List A → Option A
  last? [] = none
  last? (x ∷ []) = some x
  last? (_ ∷ y ∷ xs) = last? (y ∷ xs)

  -- `Iterator::filter` with a Boolean closure.
  abbrev pub filter : (A → Bool) → List A → List A
  filter p [] = []
  filter p (x ∷ xs) = let rest = filter p xs in if p x then x ∷ rest else rest

  abbrev pub any : (A → Bool) → List A → Bool
  any p [] = false
  any p (x ∷ xs) = p x || any p xs

  abbrev pub all : (A → Bool) → List A → Bool
  all p [] = true
  all p (x ∷ xs) = p x && all p xs

  abbrev pub concat : List (List A) → List A
  concat [] = []
  concat (xs ∷ xss) = xs ++ concat xss

  pub length-append : (xs ys : List A) → length (xs ++ ys) ≡ length xs + length ys
  length-append [] ys = omega arith
  length-append (_ ∷ xs) ys = omega (arith, length-append xs ys)

  pub length-drop : (n : ℕ) (xs : List A) → length (drop n xs) ≡ length xs - n
  length-drop zero xs = omega arith
  length-drop (suc n) [] = omega arith
  length-drop (suc n) (_ ∷ xs) = omega (arith, length-drop n xs)

  pub length-take : (n : ℕ) (xs : List A) → length (take n xs) ≡ min n (length xs)
  length-take zero xs = omega arith
  length-take (suc n) [] = omega arith
  length-take (suc n) (_ ∷ xs) = omega (arith, length-take n xs)

  pub drop-drop : (m n : ℕ) (xs : List A) → drop n (drop m xs) ≡ drop (m + n) xs
  drop-drop zero n xs = rw zero-add refl
  drop-drop (suc m) zero [] = rw suc-add refl
  drop-drop (suc m) (suc n) [] = rw suc-add refl
  drop-drop (suc m) n (x ∷ xs) = rw suc-add (drop-drop m n xs)

  pub drop-append : (n : ℕ) (xs ys : List A) → n ≤ length xs → drop n (xs ++ ys) ≡ drop n xs ++ ys
  drop-append zero xs ys h = refl
  drop-append (suc n) [] ys h = absurd (omega arith)
  drop-append (suc n) (_ ∷ xs) ys h = drop-append n xs ys (omega arith)

  pub drop-length : (xs ys : List A) → drop (length xs) (xs ++ ys) ≡ ys
  drop-length [] ys = refl
  drop-length (_ ∷ xs) ys = drop-length xs ys

  -- `xs` is `all` without some of its first elements.
  abbrev pub SuffixOf : List A → List A → Type ℓ
  SuffixOf xs all = (k : ℕ) × (k ≤ length all) × (xs ≡ drop k all)

  pub SuffixOf-append : (xs all ys : List A) → SuffixOf xs all → SuffixOf (xs ++ ys) (all ++ ys)
  SuffixOf-append xs all ys (k, le, e) =
      (k, omega (arith, length-append all ys), rw e (sym (drop-append k all ys le)))

  pub SuffixOf-trans : (xs ys zs : List A) → SuffixOf xs ys → SuffixOf ys zs → SuffixOf xs zs
  SuffixOf-trans xs ys zs (j, le, e) (k, le', e') =
      (k + j, omega (arith, length-drop k zs, ap length e'), rw (e, e') (drop-drop k j zs))

  pub filter-and :
      (p q : A → Bool) (xs : List A) → filter (λ x. p x && q x) xs ≡ filter q (filter p xs)
  filter-and p q [] = refl
  filter-and p q (x ∷ xs) = ground (arith, filter-and p q xs)

  pub filter-true : (xs : List A) → filter (λ _. true) xs ≡ xs
  filter-true [] = refl
  filter-true (x ∷ xs) = ap (◌∷◌ x) (filter-true xs)

  pub length-filter-le : (p : A → Bool) (xs : List A) → length (filter p xs) ≤ length xs
  length-filter-le p [] = omega arith
  length-filter-le p (x ∷ xs) = ground (arith, length-filter-le p xs)

  pub last?-append : (xs : List A) (x : A) → last? (xs ++ x ∷ []) ≡ some x
  last?-append [] x = refl
  last?-append (_ ∷ []) x = refl
  last?-append (_ ∷ y ∷ xs) x = last?-append (y ∷ xs) x

  pub concat-append :
      (xss : List (List A)) (ys : List A) → concat (xss ++ ys ∷ []) ≡ concat xss ++ ys
  concat-append [] ys = append-nil ys
    where
      append-nil : (zs : List A) → zs ++ [] ≡ zs
      append-nil = elim [ [] ↦ refl | z ∷ (zs → ih) ↦ ap (◌∷◌ z) ih ]
  concat-append (xs ∷ xss) ys = rw (concat-append xss ys) (assoc xs (concat xss))
    where
      assoc : (ws bs : List A) → ws ++ (bs ++ ys) ≡ (ws ++ bs) ++ ys
      assoc [] bs = refl
      assoc (a ∷ ws) bs = ap (◌∷◌ a) (assoc ws bs)

module _ {ℓ κ} {A : Type ℓ} (P : A → Type κ) where
  abbrev pub All : List A → Type κ
  All [] = Unit
  All (x ∷ xs) = P x × All xs

  pub All-append : (xs ys : List A) → All xs → All ys → All (xs ++ ys)
  All-append [] ys _ k = k
  All-append (_ ∷ xs) ys (p, h) k = (p, All-append xs ys h k)

  pub All-drop : (n : ℕ) (xs : List A) → All xs → All (drop n xs)
  All-drop zero xs h = h
  All-drop (suc n) [] h = h
  All-drop (suc n) (_ ∷ xs) (_, h) = All-drop n xs h
