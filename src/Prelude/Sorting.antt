-- ===== src/Prelude/Sorting.antt =====
-- Stable insertion sort by a test, for `sort_by_key`, `sort` and `ORDER BY`.
use Prim.Native.Nat.{suc}
use mathlib.Core.Path.{◌≡◌, refl, ap, sym, ◌∙◌, subst}
use mathlib.Core.Logic.{inl, inr}
use mathlib.Core.Bool.{Bool, true, false}
use mathlib.Core.List.{List, [], ◌∷◌, Perm, foldr}
use mathlib.Core.List
use mathlib.Core.List.Perm
use native.Mathlib.Omega.{arith}
use percept.Prelude.Tests.{if◌then◌else◌, Bool-cases}
use percept.Prelude.Lists.{All, filter, length}

module _ {ℓ} {A : Type ℓ} (le : A → A → Bool) where
  unfoldable pub insert : A → List A → List A
  insert x [] = x ∷ []
  insert x (y ∷ ys) = if le x y then x ∷ y ∷ ys else y ∷ insert x ys

  unfoldable pub sort : List A → List A
  unfolding insert
  sort [] = []
  sort (x ∷ xs) = insert x (sort xs)

  -- Each element is before all that follow it.
  abbrev pub Above : A → List A → Type 0
  Above x ys = All {ℓ, 0} (λ y. le x y ≡ true) ys

  abbrev pub IsSorted : List A → Type 0
  IsSorted [] = Unit
  IsSorted (x ∷ xs) = Above x xs × IsSorted xs

  pub insert-perm : (x : A) (xs : List A) → Perm (insert x xs) (x ∷ xs)
  unfolding insert
  insert-perm x [] = Perm.refl (x ∷ [])
  insert-perm x (y ∷ ys) = elim (Bool-cases (le x y)) [
    | inl h ↦ rw h (Perm.refl (x ∷ y ∷ ys))
    | inr h ↦ rw h (Perm.trans (Perm.cons y (insert-perm x ys)) (Perm.swap x y ys))
  ]

  pub sort-perm : (xs : List A) → Perm (sort xs) xs
  unfolding sort
  sort-perm [] = Perm.refl []
  sort-perm (x ∷ xs) = Perm.trans (insert-perm x (sort xs)) (Perm.cons x (sort-perm xs))

  length-insert : (x : A) (xs : List A) → length (insert x xs) ≡ suc (length xs)
  unfolding insert
  length-insert x [] = refl
  length-insert x (y ∷ ys) = ground (arith, length-insert x ys)

  pub length-sort : (xs : List A) → length (sort xs) ≡ length xs
  unfolding sort
  length-sort [] = refl
  length-sort (x ∷ xs) = omega (arith, length-sort xs, length-insert x (sort xs))

  pub All-insert : (P : A → Type 0) (x : A) (xs : List A) → P x → All P xs → All P (insert x xs)
  unfolding insert
  All-insert P x [] p h = (p, tt)
  All-insert P x (y ∷ ys) p (q, h) = elim (Bool-cases (le x y)) [
    | inl e ↦ rw e (p, (q, h))
    | inr e ↦ rw e (q, All-insert P x ys p h)
  ]

  pub All-sort : (P : A → Type 0) (xs : List A) → All P xs → All P (sort xs)
  unfolding sort
  All-sort P [] h = tt
  All-sort P (x ∷ xs) (p, h) = All-insert P x (sort xs) p (All-sort P xs h)

-- A test that is total and transitive sorts.
module _ {ℓ} {A : Type ℓ} (le : A → A → Bool) (total : (a b : A) → le a b ≡ false → le b a ≡ true)
    (trans : (a b c : A) → le a b ≡ true → le b c ≡ true → le a c ≡ true) where
  above : (x y : A) (ys : List A) → le x y ≡ true → Above le y ys → Above le x ys
  above x y [] p h = tt
  above x y (z ∷ zs) p (q, h) = (trans x y z p q, above x y zs p h)

  insert-IsSorted : (x : A) (xs : List A) → IsSorted le xs → IsSorted le (insert le x xs)
  unfolding insert
  insert-IsSorted x [] h = (tt, tt)
  insert-IsSorted x (y ∷ ys) (a, h) = elim (Bool-cases (le x y)) [
    | inl e ↦ rw e ((e, above x y ys e a), (a, h))
    | inr e ↦ rw e (All-insert le (λ z. le y z ≡ true) x ys (total x y e) a, insert-IsSorted x ys h)
  ]

  pub sort-IsSorted : (xs : List A) → IsSorted le (sort le xs)
  unfolding sort
  sort-IsSorted [] = tt
  sort-IsSorted (x ∷ xs) = insert-IsSorted x (sort le xs) (sort-IsSorted xs)

  insert-Above : (x : A) (ys : List A) → Above le x ys → insert le x ys ≡ x ∷ ys
  unfolding insert
  insert-Above x [] h = refl
  insert-Above x (y ∷ ys) (p, h) = rw p

  filter-Above : (p : A → Bool) (x : A) (ys : List A) → Above le x ys → Above le x (filter p ys)
  filter-Above p x [] h = tt
  filter-Above p x (y ∷ ys) (q, h) = elim (Bool-cases (p y)) [
    | inl e ↦ rw e (q, filter-Above p x ys h)
    | inr e ↦ rw e (filter-Above p x ys h)
  ]

  filter-insert :
      (p : A → Bool) (x : A) (ys : List A)
      → IsSorted le ys
      → filter p (insert le x ys) ≡ (if p x then insert le x (filter p ys) else filter p ys)
  unfolding insert
  filter-insert p x [] h = ground arith
  filter-insert p x (y ∷ ys) (a, h) = elim (Bool-cases (le x y)) [
    | inl e ↦ ground (
      arith,
      insert-Above x (filter p (y ∷ ys)) (filter-Above p x (y ∷ ys) (e, above x y ys e a)),
    )
    | inr e ↦ ground (arith, filter-insert p x ys h)
  ]

  -- To choose before sorting is to choose after it.
  pub sort-filter : (p : A → Bool) (xs : List A) → sort le (filter p xs) ≡ filter p (sort le xs)
  unfolding sort
  sort-filter p [] = refl
  sort-filter p (x ∷ xs) = elim (Bool-cases (p x)) [
    | inl e ↦
        rw (filter-insert p x (sort le xs) (sort-IsSorted xs))
          (rw e (ap (insert le x) (sort-filter p xs)))
    | inr e ↦ rw (filter-insert p x (sort le xs) (sort-IsSorted xs)) (rw e (sort-filter p xs))
  ]

-- Where no two elements are each before the other, the order of the list is not seen in the result.
module _ {ℓ} {A : Type ℓ} (le : A → A → Bool) (total : (a b : A) → le a b ≡ false → le b a ≡ true)
    (trans : (a b c : A) → le a b ≡ true → le b c ≡ true → le a c ≡ true)
    (antisym : (a b : A) → le a b ≡ true → le b a ≡ true → a ≡ b) where
  insert_same :
      (x y : A) (zs : List A) → x ≡ y → insert le x (insert le y zs) ≡ insert le y (insert le x zs)
  insert_same x y zs e =
      subst (λ w. insert le x (insert le w zs) ≡ insert le w (insert le x zs)) e refl

  insert_comm :
      (x y : A) (zs : List A) → insert le x (insert le y zs) ≡ insert le y (insert le x zs)
  unfolding insert
  insert_comm x y [] = elim (Bool-cases (le x y)) [
    | inl e ↦ elim (Bool-cases (le y x)) [
      | inl f ↦ insert_same x y [] (antisym x y e f)
      | inr f ↦ rw (e, f) refl
    ]
    | inr e ↦ rw (e, total x y e) refl
  ]
  insert_comm x y (z ∷ zs) = elim (Bool-cases (le y z)) [
    | inl yz ↦ elim (Bool-cases (le x z)) [
      | inl xz ↦ elim (Bool-cases (le x y)) [
        | inl e ↦ elim (Bool-cases (le y x)) [
          | inl f ↦ insert_same x y (z ∷ zs) (antisym x y e f)
          | inr f ↦ rw (yz, xz) (rw (e, f) (rw yz refl))
        ]
        | inr e ↦ rw (yz, xz) (rw (e, total x y e) refl)
      ]
      | inr xz ↦ elim (Bool-cases (le x y)) [
        | inl e ↦ absurd (cc (trans x y z e yz))
        | inr e ↦ rw (yz, xz) (rw (e, yz) refl)
      ]
    ]
    | inr yz ↦ elim (Bool-cases (le x z)) [
      | inl xz ↦ elim (Bool-cases (le y x)) [
        | inl e ↦ absurd (cc (trans y x z e xz))
        | inr e ↦ rw (yz, xz) (rw (e, yz) refl)
      ]
      | inr xz ↦ rw (yz, xz) (rw yz (ap (◌∷◌ z) (insert_comm x y zs)))
    ]
  ]

  sort-foldr : (xs : List A) → sort le xs ≡ foldr (insert le) [] xs
  unfolding sort
  sort-foldr [] = refl
  sort-foldr (x ∷ xs) = ap (insert le x) (sort-foldr xs)

  pub sort-Perm : IsSet A → {xs ys : List A} → Perm xs ys → sort le xs ≡ sort le ys
  sort-Perm set {xs} {ys} p =
      sort-foldr xs
      ∙ (Perm.foldr-eq (List.is_set set) (insert le) insert_comm p [] ∙ sym (sort-foldr ys))
