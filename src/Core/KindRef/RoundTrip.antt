-- ===== src/Core/KindRef/RoundTrip.antt =====
-- On crates/core/src/kind_ref.rs: parsing and printing.
use text.Mathlib.TextLemmas.{cons-append}
use percept.Prelude.{String, Option, none, some, ◌≡◌, refl, false}
use percept.Prelude.Text.{
  is_empty, split_once, SplitOnce, split_once-SplitOnce, split_once-none, split_once-append, Avoids,
}
use percept.Core.KindRef.{KindRef, Parsed, ok, err, at_sign, of_parts, from_str, display}

abbrev VersionOk : Option String → Type 0
VersionOk none = Unit
VersionOk (some v) = is_empty v ≡ false

-- What `from_str` accepts: a name with no `@`, and a version that is not empty if there is one.
pub record IsWellFormed (k : KindRef) : Type 0 where
  pub named : is_empty k.name ≡ false
  pub plain : Avoids b'@' k.name
  pub versioned : VersionOk k.version

-- A successful parse gives a well-formed reference that prints as the text.
abbrev Denotes : String → Parsed → Type 0
Denotes s (ok k) = (display k ≡ s) × IsWellFormed k
Denotes s (err _) = Unit

of_parts-Denotes :
    (s : String) (o : Option (String × String))
    → is_empty s ≡ false
    → SplitOnce at_sign s o
    → Denotes s (of_parts s o)
unfolding display
of_parts-Denotes s none e h = (refl, record { named = e; plain = h; versioned = tt })
of_parts-Denotes s (some (String.[], v)) e h = tt
of_parts-Denotes s (some (String.◌∷◌ c a, String.[])) e h = tt
of_parts-Denotes s (some (String.◌∷◌ c a, String.◌∷◌ d v)) e (p, h) =
    (p, record { named = refl; plain = h; versioned = refl })

from_str-Denotes : (s : String) → Denotes s (from_str s)
unfolding from_str
from_str-Denotes String.[] = tt
from_str-Denotes (String.◌∷◌ c s) =
    of_parts-Denotes (String.◌∷◌ c s) (split_once b'@' (String.◌∷◌ c s)) refl
      (split_once-SplitOnce at_sign (String.◌∷◌ c s))

-- A text that parses prints back as itself, and what it parses to is well formed: a name that is not
-- empty and holds no `@`, and a version that is not empty where there is one.
pub display-from_str :
    (s : String) (k : KindRef) → from_str s ≡ ok k → (display k ≡ s) × IsWellFormed k
display-from_str s k h = rw h at (from_str-Denotes s)

from_str_of_parts :
    (name : String) (v : Option String)
    → is_empty name ≡ false
    → Avoids b'@' name
    → VersionOk v
    → from_str (display (record { name = name; version = v }))
      ≡ ok (record { name = name; version = v })
unfolding from_str display
from_str_of_parts String.[] v e p h = cc
from_str_of_parts (String.◌∷◌ c a) none e p h = rw (split_once-none b'@' (String.◌∷◌ c a) p)
from_str_of_parts (String.◌∷◌ c a) (some String.[]) e p h = cc
from_str_of_parts (String.◌∷◌ c a) (some (String.◌∷◌ d v)) e p h =
    let cut = split_once-append at_sign (String.◌∷◌ c a) (String.◌∷◌ d v) p in
    rw cons-append (rw (rw cons-append at cut))

-- A well-formed reference is read back from its printed form.
pub from_str-display : (k : KindRef) → IsWellFormed k → from_str (display k) ≡ ok k
from_str-display k h = from_str_of_parts k.name k.version h.named h.plain h.versioned
