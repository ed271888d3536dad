-- ===== src/Store/Cold/Window/Escapes.antt =====
-- What the backslashes of `glob_to_like` do to a query: the statements name no `ESCAPE` character.
use Prim.Native.String
use text.Mathlib.TextLemmas.{nil-append, cons-append}
use percept.Prelude.{
  ℕ, String, [], ◌∷◌, some, Bool, true, false, code, ◌==◌, ◌||◌, ◌≡◌, ◌≢◌, refl, arith,
}
use percept.Store.Cold.Rows.{Row}
use percept.Store.Cold.Window.{WindowFilter, replace, glob_to_like, in_window}

abbrev pub contains : ℕ → String → Bool
contains c String.[] = false
contains c (String.◌∷◌ d s) = (code d == c) || contains c s

contains-append :
    (c : ℕ) (a b : String) → contains c (String.◌++◌ a b) ≡ (contains c a || contains c b)
contains-append c String.[] b = rw nil-append
contains-append c (String.◌∷◌ d a) b = rw cons-append (ground (arith, contains-append c a b))

contains-replace :
    (c d : ℕ) (by s : String) → c ≢ d → contains c s ≡ true → contains c (replace d by s) ≡ true
unfolding replace
contains-replace c d by String.[] ne h = cc
contains-replace c d by (String.◌∷◌ x s) ne h =
    ground (arith, contains-append c by (replace d by s), contains-replace c d by s ne)

contains-replace_by :
    (c d : ℕ) (by s : String)
    → contains c by ≡ true
    → contains d s ≡ true
    → contains c (replace d by s) ≡ true
unfolding replace
contains-replace_by c d by String.[] new h = cc
contains-replace_by c d by (String.◌∷◌ x s) new h =
    ground (arith, contains-append c by (replace d by s), contains-replace_by c d by s new)

backslash-glob_to_like :
    (g : String) → contains b'_' g ≡ true → contains 0x5c (glob_to_like g) ≡ true
unfolding glob_to_like
backslash-glob_to_like g h =
    contains-replace 0x5c b'*' "%" (replace b'_' "\\_" (replace b'%' "\\%" g)) (omega arith) (
      contains-replace_by 0x5c b'_' "\\_" (replace b'%' "\\%" g) refl
        (contains-replace b'_' b'%' "\\%" g (omega arith) h))

-- SQLite without an `ESCAPE` clause takes a backslash in a pattern for itself. Then a source filter
-- with one glob that has an underscore finds no row whose source has no backslash: not even the source
-- of that very name.
pub in_window-underscore :
    (like : String → String → Bool) (f : WindowFilter) (g : String) (r : Row)
    → ((p t : String) → like p t ≡ true → contains 0x5c p ≡ true → contains 0x5c t ≡ true)
    → f.source_filter ≡ some (g ∷ [])
    → contains b'_' g ≡ true
    → contains 0x5c r.source_id ≡ false
    → in_window like f r ≡ false
unfolding in_window
in_window-underscore like f g r literal one h plain =
    let found = literal (glob_to_like g) r.source_id in
    rw one (ground (arith, found, backslash-glob_to_like g h))
