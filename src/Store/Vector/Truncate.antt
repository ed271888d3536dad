-- ===== src/Store/Vector/Truncate.antt =====
-- crates/store/src/vector/truncate.rs: the longest prefix within a number of bytes. A byte offset is a
-- character boundary if it is the length of a prefix.
use Prim.Native.String
use Prim.Native.String.len
use Prim.Native.Char.{len_utf8}
use native.Mathlib.Decide.{dec_le}
use text.Mathlib.TextLemmas.{nil-append, cons-append, append-nil}
use text.Mathlib.TextPositions.{len_utf8-pos}
use percept.Prelude.{
  ℕ, zero, suc, ◌+◌, ◌-◌, ◌≤◌, ◌<◌, String, Char, Bool, true, false, if◌then◌else◌, leb, ltb, ◌≡◌,
  ◌↔◌, refl, ap, arith, Bool-cases, inl, inr,
}

-- `str::is_char_boundary`.
unfoldable pub is_char_boundary : String → ℕ → Bool
is_char_boundary s zero = true
is_char_boundary String.[] (suc i) = false
is_char_boundary (String.◌∷◌ c s) (suc i) =
    let rest = is_char_boundary s (suc i - len_utf8 c) in
    if ltb (suc i) (len_utf8 c) then false else rest

-- `&s[..end]` at a boundary.
unfoldable pub prefix : String → ℕ → String
prefix s zero = String.[]
prefix String.[] (suc i) = String.[]
prefix (String.◌∷◌ c s) (suc i) = String.◌∷◌ c (prefix s (suc i - len_utf8 c))

-- The loop `while end > 0 && !s.is_char_boundary(end) { end -= 1 }`.
unfoldable pub floor_boundary : String → ℕ → ℕ
floor_boundary s zero = zero
floor_boundary s (suc i) =
    let rest = floor_boundary s i in if is_char_boundary s (suc i) then suc i else rest

unfoldable pub truncate_utf8 : String → ℕ → String × Bool
truncate_utf8 s max_bytes =
    if leb (String.len s) max_bytes
    then (s, false)
    else (prefix s (floor_boundary s max_bytes), true)

start_is_boundary : (s : String) → ¬ (is_char_boundary s 0 ≡ false)
unfolding is_char_boundary
start_is_boundary s h = cc

prefix_zero : (s : String) → prefix s 0 ≡ String.[]
unfolding prefix
prefix_zero s = refl

floor_boundary-below :
    (c : Char) (s : String) (n : ℕ) → n < len_utf8 c → floor_boundary (String.◌∷◌ c s) n ≡ 0
unfolding floor_boundary is_char_boundary
floor_boundary-below c s zero h = refl
floor_boundary-below c s (suc i) h = ground (arith, floor_boundary-below c s i)

floor_boundary_of_boundary :
    (s : String) (n : ℕ) → is_char_boundary s n ≡ true → floor_boundary s n ≡ n
unfolding floor_boundary
floor_boundary_of_boundary s zero h = refl
floor_boundary_of_boundary s (suc i) h = rw h

floor_boundary_step :
    (s : String) (n : ℕ)
    → is_char_boundary s (suc n) ≡ false
    → floor_boundary s (suc n) ≡ floor_boundary s n
unfolding floor_boundary
floor_boundary_step s n h = rw h

boundary_cons :
    (c : Char) (s : String) (i : ℕ)
    → len_utf8 c ≤ suc i
    → is_char_boundary (String.◌∷◌ c s) (suc i) ≡ is_char_boundary s (suc i - len_utf8 c)
unfolding is_char_boundary
boundary_cons c s i h = ground arith

floor_boundary-cons :
    (c : Char) (s : String) (n : ℕ)
    → len_utf8 c ≤ n
    → floor_boundary (String.◌∷◌ c s) n ≡ len_utf8 c + floor_boundary s (n - len_utf8 c)
floor_boundary-cons c s zero h = let (k, e) = len_utf8-pos c in absurd (omega (arith, e))
floor_boundary-cons c s (suc i) h = elim (Bool-cases (is_char_boundary s (suc i - len_utf8 c))) [
  | inl b ↦
      rw (floor_boundary_of_boundary (String.◌∷◌ c s) (suc i) (rw (boundary_cons c s i h) b))
        (rw (floor_boundary_of_boundary s (suc i - len_utf8 c) b) (omega arith))
  | inr b ↦
      rw (floor_boundary_step (String.◌∷◌ c s) i (rw (boundary_cons c s i h) b))
        (shrink (floor_boundary-cons c s i) (dec_le (len_utf8 c) i) b)
]
  where
    shrink :
        (len_utf8 c ≤ i
          → floor_boundary (String.◌∷◌ c s) i ≡ len_utf8 c + floor_boundary s (i - len_utf8 c))
        → Dec (len_utf8 c ≤ i)
        → is_char_boundary s (suc i - len_utf8 c) ≡ false
        → floor_boundary (String.◌∷◌ c s) i ≡ len_utf8 c + floor_boundary s (suc i - len_utf8 c)
    shrink again (yes le) b =
        let e : suc i - len_utf8 c ≡ suc (i - len_utf8 c) = omega arith in
        rw e (rw (floor_boundary_step s (i - len_utf8 c) (rw e at b)) (again le))
    shrink again (no gt) b =
        let e : suc i - len_utf8 c ≡ 0 = omega arith in absurd (start_is_boundary s (rw e at b))

prefix-cons :
    (c : Char) (s : String) (n m : ℕ)
    → n ≡ len_utf8 c + m
    → prefix (String.◌∷◌ c s) n ≡ String.◌∷◌ c (prefix s m)
unfolding prefix
prefix-cons c s zero m e = let (k, p) = len_utf8-pos c in absurd (omega (arith, p))
prefix-cons c s (suc i) m e = let q : suc i - len_utf8 c ≡ m = omega arith in rw q

prefix-nil : (n : ℕ) → prefix String.[] n ≡ String.[]
unfolding prefix
prefix-nil zero = refl
prefix-nil (suc n) = refl

-- The next character would be one too many.
abbrev pub NextTooLong : ℕ → String → String → Type 0
NextTooLong n t String.[] = Unit
NextTooLong n t (String.◌∷◌ c _) = n < String.len t + len_utf8 c

-- `t` is the longest prefix of `s` of whole characters within `n` bytes.
pub record IsTruncation (s : String) (n : ℕ) (t : String) : Type 0 where
  pub rest : String
  pub parts : String.◌++◌ t rest ≡ s
  pub within : String.len t ≤ n
  pub longest : NextTooLong n t rest

NextTooLong-cons :
    (c : Char) (n : ℕ) (t rest : String)
    → len_utf8 c ≤ n
    → NextTooLong (n - len_utf8 c) t rest
    → NextTooLong n (String.◌∷◌ c t) rest
NextTooLong-cons c n t String.[] le h = tt
NextTooLong-cons c n t (String.◌∷◌ d rest) le h = omega (arith, len.cons c t)

prefix-IsTruncation : (s : String) (n : ℕ) → IsTruncation s n (prefix s (floor_boundary s n))
prefix-IsTruncation String.[] n = rw (prefix-nil (floor_boundary String.[] n)) (record {
  rest = String.[];
  parts = nil-append String.[];
  within = rw len.nil (omega arith);
  longest = tt;
})
prefix-IsTruncation (String.◌∷◌ c s) n = elim (dec_le (len_utf8 c) n) [
  | yes le ↦
      let shorter = prefix-IsTruncation s (n - len_utf8 c) in
      rw (floor_boundary-cons c s n le) (
        rw (prefix-cons c s _ (floor_boundary s (n - len_utf8 c)) refl) (record {
          rest = shorter.rest;
          parts = rw cons-append (ap (String.◌∷◌ c) shorter.parts);
          within =
              omega
                (arith, shorter.within, len.cons c (prefix s (floor_boundary s (n - len_utf8 c))));
          longest = NextTooLong-cons c n _ shorter.rest le shorter.longest;
        }))
  | no gt ↦ rw (floor_boundary-below c s n (omega arith)) (
      rw (prefix_zero (String.◌∷◌ c s)) (record {
        rest = String.◌∷◌ c s;
        parts = nil-append (String.◌∷◌ c s);
        within = rw len.nil (omega arith);
        longest = rw len.nil (omega arith);
      }))
]

-- The text to embed is the longest prefix of whole characters within the limit, and it is marked as
-- truncated exactly when the text has more bytes than that.
pub truncate_utf8-IsTruncation :
    (s : String) (n : ℕ)
    → IsTruncation s n (truncate_utf8 s n).0 × (((truncate_utf8 s n).1 ≡ true) ↔ (n < String.len s))
unfolding truncate_utf8
truncate_utf8-IsTruncation s n = elim (Bool-cases (leb (String.len s) n)) [
  | inl fits ↦ rw fits (
    record { rest = String.[]; parts = append-nil s; within = ground arith; longest = tt },
    ((λ h. cc), (λ h. absurd (ground arith))),
  )
  | inr over ↦ rw over (prefix-IsTruncation s n, ((λ h. ground arith), (λ h. refl)))
]
