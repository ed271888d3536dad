-- ===== src/Store/Cold/Cursor/Bytes.antt =====
-- On the bytes of crates/store/src/cold/cursor.rs: integers, and lengths in front of other bytes.
use percept.Prelude.{
  ℕ, zero, suc, ◌+◌, ◌*◌, ◌/◌, ◌%◌, ◌^◌, ◌-◌, ◌<◌, List, [], ◌∷◌, ◌++◌, length, lt→ltb, ◌≡◌, refl,
  sym, ap, ap₂, ◌∙◌, arith,
}
use percept.Prelude.Eq.{string_eq}
use percept.Prelude.Int.{ℤ, pos, negsuc, as_u64, i64_min, i64_max, ◌≤ℤ◌}
use percept.Store.Cold.Cursor.{Bytes, to_le_bytes, count_bytes}

-- 2 ^ (8 * w).
abbrev pub range : ℕ → ℕ
range zero = 1
range (suc w) = 2 ^ 8 * range w

pub length-to_le_bytes : (w n : ℕ) → length (to_le_bytes w n) ≡ w
unfolding to_le_bytes
length-to_le_bytes zero n = refl
length-to_le_bytes (suc w) n = omega (arith, length-to_le_bytes w (n / 2 ^ 8))

pub to_le_bytes-inj :
    (w n m : ℕ) → n < range w → m < range w → to_le_bytes w n ≡ to_le_bytes w m → n ≡ m
unfolding to_le_bytes
to_le_bytes-inj zero n m a b e = omega arith
to_le_bytes-inj (suc w) n m a b e =
    let h : n % 2 ^ 8 ≡ m % 2 ^ 8 = cc in
    let t : to_le_bytes w (n / 2 ^ 8) ≡ to_le_bytes w (m / 2 ^ 8) = cc in
    omega (arith, h, to_le_bytes-inj w (n / 2 ^ 8) (m / 2 ^ 8) (omega arith) (omega arith) t)

module _ {A : Type 0} where
  pub append_inj :
      (xs ys us vs : List A) → length xs ≡ length ys → xs ++ us ≡ ys ++ vs → (xs ≡ ys) × (us ≡ vs)
  append_inj [] [] us vs l e = (refl, e)
  append_inj [] (y ∷ ys) us vs l e = absurd (omega arith)
  append_inj (x ∷ xs) [] us vs l e = absurd (omega arith)
  append_inj (x ∷ xs) (y ∷ ys) us vs l e =
      let (p, q) = append_inj xs ys us vs (omega arith) cc in
      let h : x ≡ y = cc in (ap₂ {C = List A} (◌∷◌) h p, q)

-- An integer in front of other bytes.
pub le_bytes_front :
    (w n m : ℕ) (us vs : Bytes)
    → n < range w
    → m < range w
    → to_le_bytes w n ++ us ≡ to_le_bytes w m ++ vs
    → (n ≡ m) × (us ≡ vs)
le_bytes_front w n m us vs a b e =
    let (p, q) =
      append_inj (to_le_bytes w n) (to_le_bytes w m) us vs
        (length-to_le_bytes w n ∙ sym (length-to_le_bytes w m)) e in
    (to_le_bytes-inj w n m a b p, q)

pub count_bytes-small : (n : ℕ) → n < 2 ^ 32 → count_bytes n ≡ to_le_bytes 4 n
unfolding count_bytes
count_bytes-small n h = rw (lt→ltb n (2 ^ 32) h) refl

pub count_front :
    (n m : ℕ) (us vs : Bytes)
    → n < 2 ^ 32
    → m < 2 ^ 32
    → count_bytes n ++ us ≡ count_bytes m ++ vs
    → (n ≡ m) × (us ≡ vs)
count_front n m us vs a b e =
    le_bytes_front 4 n m us vs a b
      (ap (◌++ us) (sym (count_bytes-small n a)) ∙ (e ∙ ap (◌++ vs) (count_bytes-small m b)))

pub as_u64-inj :
    (a b : ℤ)
    → i64_min ≤ℤ a
    → a ≤ℤ i64_max
    → i64_min ≤ℤ b
    → b ≤ℤ i64_max
    → as_u64 a ≡ as_u64 b
    → a ≡ b
unfolding as_u64
as_u64-inj (pos n) (pos m) _ _ _ _ e = ap pos e
as_u64-inj (pos n) (negsuc m) _ h k _ e =
    let e' : n ≡ 2 ^ 64 - (m + 1) = e in absurd (omega (arith, h, k))
as_u64-inj (negsuc n) (pos m) h _ _ k e =
    let e' : 2 ^ 64 - (n + 1) ≡ m = e in absurd (omega (arith, h, k))
as_u64-inj (negsuc n) (negsuc m) h _ k _ e =
    let e' : 2 ^ 64 - (n + 1) ≡ 2 ^ 64 - (m + 1) = e in ap negsuc (omega (arith, h, k))

pub as_u64_lt : (a : ℤ) → i64_min ≤ℤ a → a ≤ℤ i64_max → as_u64 a < range 8
unfolding as_u64
as_u64_lt (pos n) h k = omega (arith, h, k)
as_u64_lt (negsuc n) h k = omega arith
