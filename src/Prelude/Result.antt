-- ===== src/Prelude/Result.antt =====
-- `Result<A, E>`, the `?` operator as `>>=`, and the loop that stops at its first error.
use mathlib.Core.Path.{◌≡◌, refl}
use mathlib.Core.Logic.{◌↔◌}
use mathlib.Core.List.{List, [], ◌∷◌}

pub data Result {ℓ κ} (E : Type ℓ) (A : Type κ) : Type (ℓ ⊔ κ) where
  ok : A → Result E A
  err : E → Result E A

module _ {ℓ κ η} {E : Type ℓ} {A : Type κ} {B : Type η} where
  infixl 5 ◌>>=◌
  abbrev pub ◌>>=◌ : Result E A → (A → Result E B) → Result E B
  (Result.ok a) >>= k = k a
  (Result.err e) >>= k = Result.err e

  pub >>=-ok :
      (m : Result E A) (f : A → Result E B) {b : B}
      → (m >>= f) ≡ Result.ok b
      → (a : A) × (m ≡ Result.ok a) × (f a ≡ Result.ok b)
  >>=-ok (Result.ok a) f h = (a, refl, h)
  >>=-ok (Result.err e) f h = cc

module _ {ℓ κ η} {E : Type ℓ} {A : Type κ} {B : Type η} where
  -- Each element through a step that may fail, in order.
  abbrev pub traverse : (A → Result E B) → List A → Result E (List B)
  traverse f [] = Result.ok []
  traverse f (x ∷ xs) = f x >>= λ y. traverse f xs >>= λ ys. Result.ok (y ∷ ys)

pub ok_inj {ℓ κ} :
    {E : Type ℓ} {A : Type κ} {a b : A} → ◌≡◌ {A = Result E A} (Result.ok a) (Result.ok b) → a ≡ b
ok_inj h = cc

module _ {ℓ κ} {A : Type ℓ} {B : Type κ} (R : A → B → Type 0) where
  -- Two lists of one length whose elements are related one by one.
  abbrev pub All2 : List A → List B → Type 0
  All2 [] [] = Unit
  All2 [] (_ ∷ _) = ⊥
  All2 (_ ∷ _) [] = ⊥
  All2 (x ∷ xs) (y ∷ ys) = R x y × All2 xs ys

module _ {ℓ κ η} {E : Type ℓ} {A : Type κ} {B : Type η} (f : A → Result E B) where
  pub traverse_iff :
      (R : A → B → Type 0) (each : (x : A) (y : B) → (f x ≡ Result.ok y) ↔ R x y) (xs : List A)
      (ys : List B)
      → (traverse f xs ≡ Result.ok ys) ↔ All2 R xs ys
  traverse_iff R each xs ys = (to xs ys, from xs ys)
    where
      to : (xs : List A) (ys : List B) → traverse f xs ≡ Result.ok ys → All2 R xs ys
      to [] [] e = tt
      to [] (y ∷ ys) e = absurd cc
      to (x ∷ xs) [] e =
          let (y, p, q) = >>=-ok (f x) _ e in
          let (zs, r, s) = >>=-ok (traverse f xs) _ q in absurd cc
      to (x ∷ xs) (y ∷ ys) e =
          let (z, p, q) = >>=-ok (f x) _ e in
          let (zs, r, s) = >>=-ok (traverse f xs) _ q in ((each x y).0 cc, to xs ys cc)

      from : (xs : List A) (ys : List B) → All2 R xs ys → traverse f xs ≡ Result.ok ys
      from [] [] h = refl
      from [] (y ∷ ys) h = absurd h
      from (x ∷ xs) [] h = absurd h
      from (x ∷ xs) (y ∷ ys) (r, h) = rw ((each x y).1 r) (rw (from xs ys h))
