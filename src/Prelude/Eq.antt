-- ===== src/Prelude/Eq.antt =====
-- Boolean equality as an interface, for the keys of the maps.
use Prim.Native.Nat.{ℕ}
use Prim.Native.String.{String}
use mathlib.Core.Path.{◌≡◌, refl, ap₂}
use mathlib.Core.Logic.{◌↔◌}
use mathlib.Core.Bool.{Bool, true, false, ◌&&◌}
use mathlib.Core.List.{List, [], ◌∷◌}
use native.Mathlib.Omega.{arith}
use text.Mathlib.Text.{◌==◌ as str_eq}
use text.Mathlib.TextEquality.{eq_iff}
use percept.Prelude.Tests.{◌==◌ as nat_beq, ==_iff}

pub record Eq {ℓ} (A : Type ℓ) : Type ℓ where
  pub beq : A → A → Bool
  pub beq_iff : (a b : A) → (beq a b ≡ true) ↔ (a ≡ b)

infix 50 ◌=?◌
abbrev pub ◌=?◌ {ℓ} : {A : Type ℓ} ⦃e : Eq A⦄ → A → A → Bool
◌=?◌ ⦃e⦄ = e.beq

pub =?_refl {ℓ} : {A : Type ℓ} ⦃e : Eq A⦄ (a : A) → (a =? a) ≡ true
=?_refl ⦃e⦄ a = (e.beq_iff a a).1 refl

pub =?_comm {ℓ} : {A : Type ℓ} ⦃e : Eq A⦄ (a b : A) → (a =? b) ≡ (b =? a)
=?_comm ⦃e⦄ a b = ground (arith, e.beq_iff a b, e.beq_iff b a)

instance abbrev pub nat_eq : Eq ℕ
nat_eq = record { beq = nat_beq; beq_iff = ==_iff }

instance abbrev pub string_eq : Eq String
string_eq = record { beq = str_eq; beq_iff = eq_iff }

-- The key type `(String, String)` of the maps by source and kind.
abbrev pub pair_beq : String × String → String × String → Bool
pair_beq (a, b) (c, d) = str_eq a c && str_eq b d

pub pair_beq_iff : (p q : String × String) → (pair_beq p q ≡ true) ↔ (p ≡ q)
pair_beq_iff (a, b) (c, d) = (
  (λ h.
      ap₂ {C = String × String} (λ x y. (x, y)) (ground (arith, eq_iff a c, eq_iff b d))
        (ground (arith, eq_iff a c, eq_iff b d))),
  (λ e. ground (arith, eq_iff a c, eq_iff b d)),
)

instance abbrev pub pair_eq : Eq (String × String)
pair_eq = record { beq = pair_beq; beq_iff = pair_beq_iff }

-- Arrays and vectors.
abbrev pub list_beq {ℓ} : {A : Type ℓ} ⦃e : Eq A⦄ → List A → List A → Bool
list_beq [] [] = true
list_beq [] (_ ∷ _) = false
list_beq (_ ∷ _) [] = false
list_beq (x ∷ xs) (y ∷ ys) = (x =? y) && list_beq xs ys

pub list_beq_iff {ℓ} :
    {A : Type ℓ} ⦃e : Eq A⦄ (xs ys : List A) → (list_beq xs ys ≡ true) ↔ (xs ≡ ys)
list_beq_iff [] [] = ((λ _. refl), (λ _. refl))
list_beq_iff [] (y ∷ ys) = ((λ h. absurd cc), (λ h. absurd cc))
list_beq_iff (x ∷ xs) [] = ((λ h. absurd cc), (λ h. absurd cc))
list_beq_iff ⦃e⦄ (x ∷ xs) (y ∷ ys) =
    let (to, from) = list_beq_iff xs ys in
    let (to', from') = e.beq_iff x y in
    ((λ h. ap₂ (◌∷◌) (to' (ground arith)) (to (ground arith))), (λ h. rw (from' cc) (from cc)))

instance abbrev pub list_eq {ℓ} : {A : Type ℓ} ⦃e : Eq A⦄ → Eq (List A)
list_eq = record { beq = list_beq; beq_iff = list_beq_iff }
