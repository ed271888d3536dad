-- ===== src/Prelude/Int.antt =====
-- `i64` as integers: order tests, difference, and the saturating subtraction.
use Prim.Native.Nat.{ℕ, suc, ◌+◌, ◌-◌, ◌^◌, ◌≤◌, ◌<◌}
use mathlib.Core.Path.{◌≡◌}
use mathlib.Core.Bool.{Bool}
use native.Mathlib.Omega.{arith}
use percept.Prelude.Tests.{ltb, leb, if◌then◌else◌}

-- `negsuc n` is -(n + 1).
pub data ℤ : Type 0 where
  pos : ℕ → ℤ
  negsuc : ℕ → ℤ

abbrev pub pos_part : ℤ → ℕ
pos_part (pos n) = n
pos_part (negsuc n) = 0

abbrev pub neg_part : ℤ → ℕ
neg_part (pos n) = 0
neg_part (negsuc n) = suc n

-- a - b, as an integer.
abbrev pub sub_ℕ : ℕ → ℕ → ℤ
sub_ℕ a b = if leb b a then pos (a - b) else negsuc (b - a - 1)

infixl 65 ◌-ℤ◌ ◌+ℤ◌
unfoldable pub ◌-ℤ◌ : ℤ → ℤ → ℤ
a -ℤ b = sub_ℕ (pos_part a + neg_part b) (neg_part a + pos_part b)

unfoldable pub ◌+ℤ◌ : ℤ → ℤ → ℤ
a +ℤ b = sub_ℕ (pos_part a + pos_part b) (neg_part a + neg_part b)

infix 50 ◌≤ℤ◌ ◌<ℤ◌
abbrev pub ◌≤ℤ◌ : ℤ → ℤ → Type 0
a ≤ℤ b = pos_part a + neg_part b ≤ pos_part b + neg_part a

abbrev pub ◌<ℤ◌ : ℤ → ℤ → Type 0
a <ℤ b = pos_part a + neg_part b < pos_part b + neg_part a

abbrev pub ltz : ℤ → ℤ → Bool
ltz a b = ltb (pos_part a + neg_part b) (pos_part b + neg_part a)

abbrev pub lez : ℤ → ℤ → Bool
lez a b = leb (pos_part a + neg_part b) (pos_part b + neg_part a)

pub -ℤ_parts :
    (a b : ℤ)
    → pos_part (a -ℤ b) + neg_part a + pos_part b ≡ neg_part (a -ℤ b) + pos_part a + neg_part b
unfolding ◌-ℤ◌
-ℤ_parts a b = ground arith

pub eq_of_parts : (a b : ℤ) → pos_part a + neg_part b ≡ pos_part b + neg_part a → a ≡ b
eq_of_parts a b h = ground arith

abbrev pub i64_max : ℤ
i64_max = pos (2 ^ 63 - 1)

abbrev pub i64_min : ℤ
i64_min = negsuc (2 ^ 63 - 1)

-- `i64::saturating_sub`.
unfoldable pub saturating_sub : ℤ → ℤ → ℤ
saturating_sub a b =
    let d = a -ℤ b in if ltz i64_max d then i64_max else if ltz d i64_min then i64_min else d

pub saturating_sub-exact :
    (a b : ℤ) → i64_min ≤ℤ (a -ℤ b) → (a -ℤ b) ≤ℤ i64_max → saturating_sub a b ≡ a -ℤ b
unfolding saturating_sub
saturating_sub-exact a b h k = ground arith

-- `i64::try_from(d.as_millis()).unwrap_or(i64::MAX)`, of a duration in milliseconds.
abbrev pub duration_to_ms : ℕ → ℤ
duration_to_ms d = if leb d (2 ^ 63 - 1) then pos d else i64_max

-- The casts `u64 as i64` and `i64 as u64`.
unfoldable pub as_i64 : ℕ → ℤ
as_i64 n = if ltb n (2 ^ 63) then pos n else negsuc (2 ^ 64 - n - 1)

unfoldable pub as_u64 : ℤ → ℕ
as_u64 (pos n) = n
as_u64 (negsuc n) = 2 ^ 64 - (n + 1)

pub as_u64-as_i64 : (n : ℕ) → n < 2 ^ 64 → as_u64 (as_i64 n) ≡ n
unfolding as_u64 as_i64
as_u64-as_i64 n h = ground arith

-- `i64::saturating_add`.
unfoldable pub saturating_add : ℤ → ℤ → ℤ
saturating_add a b =
    let s = a +ℤ b in if ltz i64_max s then i64_max else if ltz s i64_min then i64_min else s
