-- ===== src/Config/Duration/Grammar.antt =====
-- On `parse_duration` of crates/percept/src/config/validate.rs: the texts of durations.
use percept.Prelude.{
  ℕ, ◌+◌, ◌*◌, ◌-◌, ◌^◌, ◌≤◌, ◌<◌, String, Char, code, Option, none, some, true, false,
  if◌then◌else◌, ltb, ◌≡◌, ◌≢◌, ◌↔◌, refl, sym, ap, arith, Bool-cases, inl, inr, subst,
}
use Prim.Native.String
use text.Mathlib.TextLemmas.{nil-append, cons-append, cons-ne-nil}
use percept.Prelude.Eq.{string_eq, ◌=?◌}
use percept.Prelude.Text.{is_empty, push_front}
use percept.Prelude.Result.{ok, ok_inj, >>=-ok}
use percept.Ingest.Auth.RateLimit.{trim, parse_digits, parse_uint}
use percept.Config.Duration.{
  is_ascii_digit, split_number, checked_mul, to_seconds, some_number, of_parts, parse_duration,
}

-- A text of digits, and the number that it is the decimal numeral of.
abbrev pub AllDigits : String → Type 0
AllDigits String.[] = Unit
AllDigits (String.◌∷◌ c s) = (is_ascii_digit c ≡ true) × AllDigits s

abbrev pub value_from : ℕ → String → ℕ
value_from n String.[] = n
value_from n (String.◌∷◌ c s) = value_from (n * 10 + (code c - b'0')) s

pub data Factor : String → ℕ → Type 0 where
  second : Factor "s" 1
  minute : Factor "m" 60
  hour : Factor "h" 3600
  day : Factor "d" 86_400

-- `t` is a numeral with a unit behind it, and together they are `d` seconds.
pub data Written (t : String) (d : ℕ) : Type 0 where
  written :
      {num unit : String} {factor : ℕ}
      → String.◌++◌ num unit ≡ t
      → AllDigits num
      → num ≢ String.[]
      → Factor unit factor
      → d ≡ value_from 0 num * factor
      → Written t d

value_from-le : (n : ℕ) (s : String) → n ≤ value_from n s
value_from-le n String.[] = omega arith
value_from-le n (String.◌∷◌ c s) = omega (arith, value_from-le (n * 10 + (code c - b'0')) s)

abbrev within : ℕ → ℕ → Option ℕ
within bound n = if ltb n bound then some n else none

within-ge : (bound n : ℕ) → bound ≤ n → within bound n ≡ none
within-ge bound n h = ground arith

parse_digits-value :
    (bound n : ℕ) (s : String)
    → AllDigits s
    → n < bound
    → parse_digits bound n s ≡ within bound (value_from n s)
unfolding parse_digits
parse_digits-value bound n String.[] a h = ground arith
parse_digits-value bound n (String.◌∷◌ c s) (d, a) h =
    let n' : ℕ = n * 10 + (code c - b'0') in
    elim (Bool-cases (ltb n' bound)) [
      | inl e ↦ rw (d, e) (parse_digits-value bound n' s a (ground arith))
      | inr e ↦
          rw (d, e) (sym (within-ge bound (value_from n' s) (ground (arith, value_from-le n' s))))
    ]

parse_uint-value :
    (bound : ℕ) (s : String)
    → AllDigits s
    → s ≢ String.[]
    → 0 < bound
    → parse_uint bound s ≡ within bound (value_from 0 s)
unfolding parse_uint
parse_uint-value bound String.[] a ne h = absurd (ne refl)
parse_uint-value bound (String.◌∷◌ c s) (d, a) ne h =
    ground (arith, parse_digits-value bound 0 (String.◌∷◌ c s) (d, a) h)

-- What `split_number` answers: nothing for digits alone; else the digits and what follows them.
abbrev SplitNumber : String → Option (String × String) → Type 0
SplitNumber s none = AllDigits s
SplitNumber s (some (a, b)) = (String.◌++◌ a b ≡ s) × AllDigits a

SplitNumber-push_front :
    (c : Char) (s : String) (o : Option (String × String))
    → is_ascii_digit c ≡ true
    → SplitNumber s o
    → SplitNumber (String.◌∷◌ c s) (push_front c o)
SplitNumber-push_front c s none d h = (d, h)
SplitNumber-push_front c s (some (a, b)) d (e, h) = (rw cons-append (ap (String.◌∷◌ c) e), (d, h))

split_number-SplitNumber : (s : String) → SplitNumber s (split_number s)
unfolding split_number
split_number-SplitNumber String.[] = tt
split_number-SplitNumber (String.◌∷◌ c s) = elim (Bool-cases (is_ascii_digit c)) [
  | inl h ↦ rw h (SplitNumber-push_front c s (split_number s) h (split_number-SplitNumber s))
  | inr h ↦ rw h (nil-append (String.◌∷◌ c s), tt)
]

-- The unit begins with no digit.
abbrev StartsOther : String → Type 0
StartsOther String.[] = ⊥
StartsOther (String.◌∷◌ c s) = is_ascii_digit c ≡ false

split_number-append :
    (num unit : String)
    → AllDigits num
    → StartsOther unit
    → split_number (String.◌++◌ num unit) ≡ some (num, unit)
unfolding split_number
split_number-append String.[] String.[] a o = absurd o
split_number-append String.[] (String.◌∷◌ c s) a o = rw nil-append (rw o refl)
split_number-append (String.◌∷◌ c num) unit (d, a) o =
    rw cons-append (rw d (rw (split_number-append num unit a o) refl))

checked_mul-ok : (a b d : ℕ) → checked_mul a b ≡ ok d → (d ≡ a * b) × (d < 2 ^ 64)
checked_mul-ok a b d e = ground arith

-- The unit is one of the four, and the product with its factor fits.
abbrev Scaled : ℕ → String → ℕ → Type 0
Scaled n unit d = (f : ℕ) × Factor unit f × (d ≡ n * f) × (d < 2 ^ 64)

Factor-beq : (u unit : String) {f : ℕ} → Factor u f → (unit =? u) ≡ true → Factor unit f
Factor-beq u unit {f} k h = subst (λ x. Factor x f) (sym ((string_eq.beq_iff unit u).0 h)) k

checked_mul-Scaled :
    (n f d : ℕ) (unit u : String)
    → Factor u f
    → (unit =? u) ≡ true
    → checked_mul n f ≡ ok d
    → Scaled n unit d
checked_mul-Scaled n f d unit u k h e =
    let (v, l) = checked_mul-ok n f d e in (f, Factor-beq u unit k h, v, l)

to_seconds-Scaled :
    (n : ℕ) (unit : String) (d : ℕ) → n < 2 ^ 64 → to_seconds n unit ≡ ok d → Scaled n unit d
to_seconds-Scaled n unit d l = elim (Bool-cases (unit =? "s")) [
  | inl h ↦ rw h (λ e.
      (1, Factor-beq "s" unit Factor.second h, omega (arith, ok_inj e), omega (arith, ok_inj e)))
  | inr h ↦ rw h (elim (Bool-cases (unit =? "m")) [
    | inl h' ↦ rw h' (checked_mul-Scaled n 60 d unit "m" Factor.minute h')
    | inr h' ↦ rw h' (elim (Bool-cases (unit =? "h")) [
      | inl g ↦ rw g (checked_mul-Scaled n 3600 d unit "h" Factor.hour g)
      | inr g ↦ rw g (elim (Bool-cases (unit =? "d")) [
        | inl g' ↦ rw g' (checked_mul-Scaled n 86_400 d unit "d" Factor.day g')
        | inr g' ↦ rw g' (λ e. absurd cc)
      ])
    ])
  ])
]

StartsOther-Factor : {unit : String} {f : ℕ} → Factor unit f → StartsOther unit
StartsOther-Factor Factor.second = refl
StartsOther-Factor Factor.minute = refl
StartsOther-Factor Factor.hour = refl
StartsOther-Factor Factor.day = refl

to_seconds-Factor :
    {unit : String} {f : ℕ} (n : ℕ)
    → Factor unit f
    → n * f < 2 ^ 64
    → (to_seconds n unit ≡ ok (n * f)) × (n < 2 ^ 64)
to_seconds-Factor n Factor.second l = ground arith
to_seconds-Factor n Factor.minute l = ground arith
to_seconds-Factor n Factor.hour l = ground arith
to_seconds-Factor n Factor.day l = ground arith

within-lt : (bound n : ℕ) → n < bound → within bound n ≡ some n
within-lt bound n h = ground arith

within-some : (bound n m : ℕ) → within bound n ≡ some m → (m ≡ n) × (n < bound)
within-some bound n m h = ground arith

is_empty-ne : (s : String) → s ≢ String.[] → is_empty s ≡ false
is_empty-ne String.[] ne = absurd (ne refl)
is_empty-ne (String.◌∷◌ c s) ne = refl

empty_ne : (s : String) → is_empty s ≡ false → s ≢ String.[]
empty_ne String.[] h e = absurd cc
empty_ne (String.◌∷◌ c s) h e = absurd (cons-ne-nil c s e)

Written-of_parts :
    (t : String) (d : ℕ) → Written t d → d < 2 ^ 64 → of_parts (split_number t) ≡ ok d
Written-of_parts t d (Written.written {num} {unit} {factor} e a ne k v) l =
    let (s, b) = to_seconds-Factor (value_from 0 num) k (omega (arith, v)) in
    rw (sym e) (
      rw (split_number-append num unit a (StartsOther-Factor k)) (
        rw (is_empty-ne num ne) (
          rw (parse_uint-value (2 ^ 64) num a ne (omega arith))
            (rw (within-lt (2 ^ 64) (value_from 0 num) b) (rw v s)))))

some_number-ok : (o : Option ℕ) (n : ℕ) → some_number o ≡ ok n → o ≡ some n
some_number-ok none n e = absurd cc
some_number-ok (some m) n e = ap some (ok_inj e)

of_parts-Written :
    (t : String) (d : ℕ) (o : Option (String × String))
    → SplitNumber t o
    → of_parts o ≡ ok d
    → Written t d × (d < 2 ^ 64)
of_parts-Written t d none h = λ e. absurd cc
of_parts-Written t d (some (num, unit)) (h, a) = elim (Bool-cases (is_empty num)) [
  | inl x ↦ rw x (λ e. absurd cc)
  | inr x ↦
      rw (x, parse_uint-value (2 ^ 64) num a (empty_ne num x) (omega arith))
        (λ e.
          let (n, p, q) =
            >>=-ok (some_number (within (2 ^ 64) (value_from 0 num))) (λ n. to_seconds n unit) e in
          let (v, l) = within-some (2 ^ 64) (value_from 0 num) n (some_number-ok _ n p) in
          let (f, k, v', l') = to_seconds-Scaled n unit d (omega (arith, v)) q in
          (Written.written h a (empty_ne num x) k (subst (λ m. d ≡ m * f) v v'), l'))
]

-- A text is accepted as a duration exactly where, without the white space around it, it is a decimal
-- numeral and one of the units s, m, h and d, and the number of seconds that they make is below 2^64;
-- that number is then the result.
pub parse_duration-iff_Written :
    (s : String) (d : ℕ) → (parse_duration s ≡ ok d) ↔ (Written (trim s) d × (d < 2 ^ 64))
unfolding parse_duration
parse_duration-iff_Written s d = (
  of_parts-Written (trim s) d (split_number (trim s)) (split_number-SplitNumber (trim s)),
  λ (w, l). Written-of_parts (trim s) d w l,
)
