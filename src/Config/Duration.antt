-- ===== src/Config/Duration.antt =====
-- crates/percept/src/config/validate.rs, `parse_duration`: a number and one of the units s, m, h, d. A
-- `Duration` is its number of seconds here.
pub mod Grammar
use percept.Prelude.{
  ℕ, ◌*◌, ◌^◌, String, Char, code, Option, none, some, Bool, if◌then◌else◌, leb, ltb, ◌&&◌,
}
use Prim.Native.String
use percept.Prelude.Eq.{string_eq, ◌=?◌}
use percept.Prelude.Text.{is_empty, push_front}
use percept.Prelude.Result.{Result, ok, err, ◌>>=◌}
use percept.Ingest.Auth.RateLimit.{trim, parse_uint}

pub data DurationError : Type 0 where
  missing_unit missing_number invalid_number overflow unknown_unit : DurationError

abbrev pub is_ascii_digit : Char → Bool
is_ascii_digit c = leb b'0' (code c) && leb (code c) b'9'

-- `s.find(|c| !c.is_ascii_digit()).map(|i| s.split_at(i))`.
unfoldable pub split_number : String → Option (String × String)
split_number String.[] = none
split_number (String.◌∷◌ c s) =
    let rest = split_number s in
    if is_ascii_digit c then push_front c rest else some (String.[], String.◌∷◌ c s)

-- `u64::checked_mul`.
abbrev pub checked_mul : ℕ → ℕ → Result DurationError ℕ
checked_mul a b = if ltb (a * b) (2 ^ 64) then ok (a * b) else err overflow

abbrev pub to_seconds : ℕ → String → Result DurationError ℕ
to_seconds n unit =
    if unit =? "s"
    then ok n
    else if unit =? "m"
    then checked_mul n 60
    else if unit =? "h"
    then checked_mul n 3600
    else if unit =? "d"
    then checked_mul n 86_400
    else err unknown_unit

abbrev pub some_number : Option ℕ → Result DurationError ℕ
some_number none = err invalid_number
some_number (some n) = ok n

abbrev pub of_parts : Option (String × String) → Result DurationError ℕ
of_parts none = err missing_unit
of_parts (some (num_str, unit)) =
    if is_empty num_str
    then err missing_number
    else some_number (parse_uint (2 ^ 64) num_str) >>= λ n. to_seconds n unit

unfoldable pub parse_duration : String → Result DurationError ℕ
unfolding trim split_number parse_uint
parse_duration s = of_parts (split_number (trim s))
