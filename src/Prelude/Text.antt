-- ===== src/Prelude/Text.antt =====
-- Text as a list of characters: `is_empty`, `split_once`, `split` and joining.
use Prim.Native.Nat.{ℕ}
use Prim.Native.Char.{Char, code}
use Prim.Native.String
use Prim.Native.String.{String}
use mathlib.Core.Path.{◌≡◌, refl, ap, ap₂}
use mathlib.Core.Logic.{◌≢◌, inl, inr}
use mathlib.Core.Bool.{Bool, true, false}
use mathlib.Core.Option.{Option, none, some}
use mathlib.Core.List.{List, [], ◌∷◌}
use native.Mathlib.Omega.{arith}
use text.Mathlib.TextEquality.{Char-path}
use text.Mathlib.TextLemmas.{nil-append, cons-append}
use percept.Prelude.Tests.{if◌then◌else◌, ◌==◌, ltb, Bool-cases}

abbrev pub chars : String → List Char
chars String.[] = []
chars (String.◌∷◌ c s) = c ∷ chars s

abbrev pub is_empty : String → Bool
is_empty String.[] = true
is_empty (String.◌∷◌ _ _) = false

abbrev pub push_front : Char → Option (String × String) → Option (String × String)
push_front c none = none
push_front c (some (a, b)) = some (String.◌∷◌ c a, b)

-- `str::split_once` at an ASCII separator.
unfoldable pub split_once : ℕ → String → Option (String × String)
split_once sep String.[] = none
split_once sep (String.◌∷◌ c s) =
    let rest = split_once sep s in if code c == sep then some (String.[], s) else push_front c rest

abbrev pub cons_part : Char → List String → List String
cons_part c [] = String.◌∷◌ c String.[] ∷ []
cons_part c (p ∷ ps) = String.◌∷◌ c p ∷ ps

-- `str::split` at an ASCII separator: always at least one part.
unfoldable pub split : ℕ → String → List String
split sep String.[] = String.[] ∷ []
split sep (String.◌∷◌ c s) =
    let rest = split sep s in if code c == sep then String.[] ∷ rest else cons_part c rest

-- `[String]::join` with a separator of one character.
unfoldable pub join : Char → List String → String
join sep [] = String.[]
join sep (p ∷ []) = p
join sep (p ∷ q ∷ ps) = String.◌++◌ p (String.◌∷◌ sep (join sep (q ∷ ps)))

abbrev pub Avoids : ℕ → String → Type 0
Avoids sep String.[] = Unit
Avoids sep (String.◌∷◌ c s) = (code c ≢ sep) × Avoids sep s

-- What `split_once` answers: nothing where there is no separator; else the parts around the first.
abbrev pub SplitOnce : Char → String → Option (String × String) → Type 0
SplitOnce c s none = Avoids (code c) s
SplitOnce c s (some (a, b)) = (String.◌++◌ a (String.◌∷◌ c b) ≡ s) × Avoids (code c) a

SplitOnce-push_front :
    (c d : Char) (s : String) (o : Option (String × String))
    → code d ≢ code c
    → SplitOnce c s o
    → SplitOnce c (String.◌∷◌ d s) (push_front d o)
SplitOnce-push_front c d s none p h = (p, h)
SplitOnce-push_front c d s (some (a, b)) p (e, h) = (rw cons-append (ap (String.◌∷◌ d) e), (p, h))

pub split_once-SplitOnce : (c : Char) (s : String) → SplitOnce c s (split_once (code c) s)
unfolding split_once
split_once-SplitOnce c String.[] = tt
split_once-SplitOnce c (String.◌∷◌ d s) = elim (Bool-cases (code d == code c)) [
  | inl h ↦ rw h (rw nil-append (ap (λ x. String.◌∷◌ x s) (Char-path c d (ground arith))), tt)
  | inr h ↦ rw h (SplitOnce-push_front c d s _ (ground arith) (split_once-SplitOnce c s))
]

pub split_once-none : (sep : ℕ) (s : String) → Avoids sep s → split_once sep s ≡ none
unfolding split_once
split_once-none sep String.[] h = refl
split_once-none sep (String.◌∷◌ c s) (p, h) = ground (arith, split_once-none sep s h)

pub split_once-append :
    (c : Char) (a b : String)
    → Avoids (code c) a
    → split_once (code c) (String.◌++◌ a (String.◌∷◌ c b)) ≡ some (a, b)
unfolding split_once
split_once-append c String.[] b h = rw nil-append (ground arith)
split_once-append c (String.◌∷◌ d a) b (p, h) =
    rw cons-append (ground (arith, split_once-append c a b h))

-- `str` in its order: that of the bytes of UTF-8, which is that of the code points.
unfoldable pub str_le : String → String → Bool
str_le String.[] t = true
str_le (String.◌∷◌ c s) String.[] = false
str_le (String.◌∷◌ c s) (String.◌∷◌ d t) =
    let rest = str_le s t in
    if ltb (code c) (code d) then true else if code c == code d then rest else false

pub str_le-total : (s t : String) → str_le s t ≡ false → str_le t s ≡ true
unfolding str_le
str_le-total String.[] t h = absurd cc
str_le-total (String.◌∷◌ c s) String.[] h = refl
str_le-total (String.◌∷◌ c s) (String.◌∷◌ d t) h = ground (arith, str_le-total s t)

pub str_le_trans : (s t u : String) → str_le s t ≡ true → str_le t u ≡ true → str_le s u ≡ true
unfolding str_le
str_le_trans String.[] t u h k = refl
str_le_trans (String.◌∷◌ c s) String.[] u h k = absurd cc
str_le_trans (String.◌∷◌ c s) (String.◌∷◌ d t) String.[] h k = absurd cc
str_le_trans (String.◌∷◌ c s) (String.◌∷◌ d t) (String.◌∷◌ e u) h k =
    ground (arith, str_le_trans s t u)

pub str_le_antisym : (s t : String) → str_le s t ≡ true → str_le t s ≡ true → s ≡ t
unfolding str_le
str_le_antisym String.[] String.[] h k = refl
str_le_antisym String.[] (String.◌∷◌ d t) h k = absurd cc
str_le_antisym (String.◌∷◌ c s) String.[] h k = absurd cc
str_le_antisym (String.◌∷◌ c s) (String.◌∷◌ d t) h k =
    ap₂ String.◌∷◌ (Char-path c d (ground arith)) (str_le_antisym s t (ground arith) (ground arith))
