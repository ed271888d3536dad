-- ===== src/Prelude/Perms.antt =====
-- Permutations and Boolean tests over lists.
use mathlib.Core.Path.{◌≡◌, refl, ap}
use mathlib.Core.Logic.{inl, inr}
use mathlib.Core.Bool.{Bool}
use mathlib.Core.Option.{Option, none, some}
use mathlib.Core.List.{List, [], ◌∷◌, ◌++◌, Perm, filter_map}
use mathlib.Core.List.Perm
use percept.Prelude.Tests.{if◌then◌else◌, Bool-cases}
use percept.Prelude.Lists.{All, filter}

keep_if {ℓ} : {A : Type ℓ} → (A → Bool) → A → Option A
keep_if q x = if q x then some x else none

filter-eq-filter_map {ℓ} :
    {A : Type ℓ} (q : A → Bool) (xs : List A) → filter q xs ≡ filter_map (keep_if q) xs
unfolding filter_map keep_if
filter-eq-filter_map q [] = refl
filter-eq-filter_map q (x ∷ xs) = elim (Bool-cases (q x)) [
  | inl h ↦ rw h (ap (◌∷◌ x) (filter-eq-filter_map q xs))
  | inr h ↦ rw h (filter-eq-filter_map q xs)
]

pub filter-perm {ℓ} :
    {A : Type ℓ} (q : A → Bool) {xs ys : List A} → Perm xs ys → Perm (filter q xs) (filter q ys)
filter-perm q {xs} {ys} p =
    rw (filter-eq-filter_map q xs, filter-eq-filter_map q ys) (Perm.filter_map (keep_if q) p)

pub snoc_perm {ℓ} : {A : Type ℓ} (x : A) (xs : List A) → Perm (xs ++ x ∷ []) (x ∷ xs)
snoc_perm x [] = Perm.refl (x ∷ [])
snoc_perm x (y ∷ ys) = Perm.trans (Perm.cons y (snoc_perm x ys)) (Perm.swap x y ys)

pub All-filter {ℓ κ} :
    {A : Type ℓ} (P : A → Type κ) (q : A → Bool) (xs : List A) → All P xs → All P (filter q xs)
All-filter P q [] h = tt
All-filter P q (x ∷ xs) (p, h) = elim (Bool-cases (q x)) [
  | inl e ↦ rw e (p, All-filter P q xs h)
  | inr e ↦ rw e (All-filter P q xs h)
]
