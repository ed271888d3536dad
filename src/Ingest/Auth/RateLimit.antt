-- ===== src/Ingest/Auth/RateLimit.antt =====
-- crates/ingest/src/auth.rs, `parse_rate_limit`: "N/s", "N/m" or "N/h".
use percept.Prelude.{
  ℕ, ◌+◌, ◌*◌, ◌-◌, ◌^◌, String, Char, code, Option, none, some, Bool, if◌then◌else◌, leb, ltb,
  ◌==◌, ◌&&◌, ◌||◌,
}
use percept.Prelude.Eq.{string_eq, ◌=?◌}
use percept.Prelude.Text.{is_empty, split_once}

-- `char::is_whitespace`, the property White_Space.
abbrev pub is_whitespace : Char → Bool
is_whitespace c =
    let n = code c in
    (leb 9 n && leb n 13)
    || (n == 0x20)
    || (n == 0x85)
    || (n == 0xa0)
    || (n == 0x1680)
    || (leb 0x2000 n && leb n 0x200a)
    || (n == 0x2028)
    || (n == 0x2029)
    || (n == 0x202f)
    || (n == 0x205f)
    || (n == 0x3000)

unfoldable pub trim_start : String → String
trim_start String.[] = String.[]
trim_start (String.◌∷◌ c s) =
    let rest = trim_start s in if is_whitespace c then rest else String.◌∷◌ c s

unfoldable pub trim_end : String → String
trim_end String.[] = String.[]
trim_end (String.◌∷◌ c s) =
    let rest = trim_end s in
    if is_empty rest && is_whitespace c then String.[] else String.◌∷◌ c rest

unfoldable pub trim : String → String
unfolding trim_start trim_end
trim s = trim_end (trim_start s)

-- The digits of `str::parse` on a type of unsigned integers, with the number so far and the bound.
unfoldable pub parse_digits : ℕ → ℕ → String → Option ℕ
parse_digits bound n String.[] = some n
parse_digits bound n (String.◌∷◌ c s) =
    let digit = code c - b'0' in
    let n' = n * 10 + digit in
    let rest = parse_digits bound n' s in
    if leb b'0' (code c) && leb (code c) b'9' && ltb n' bound then rest else none

-- One leading `+` is taken; no digit at all is an error, and so is a number that is too large.
unfoldable pub parse_uint : ℕ → String → Option ℕ
unfolding parse_digits
parse_uint bound String.[] = none
parse_uint bound (String.◌∷◌ c s) =
    if code c == b'+'
    then if is_empty s then none else parse_digits bound 0 s
    else parse_digits bound 0 (String.◌∷◌ c s)

-- `Quota::per_second`, `per_minute` and `per_hour`, of a number that is not zero.
pub data Quota : Type 0 where
  per_second per_minute per_hour : ℕ → Quota

abbrev quota_of : ℕ → String → Option Quota
quota_of n unit =
    if n == 0
    then none
    else if unit =? "s"
    then some (per_second n)
    else if unit =? "m"
    then some (per_minute n)
    else if unit =? "h"
    then some (per_hour n)
    else none

abbrev of_number : String → Option ℕ → Option Quota
of_number unit none = none
of_number unit (some n) = quota_of n unit

abbrev of_halves : Option (String × String) → Option Quota
of_halves none = none
of_halves (some (n_str, unit)) = of_number (trim unit) (parse_uint (2 ^ 32) (trim n_str))

unfoldable pub parse_rate_limit : String → Option Quota
unfolding trim parse_uint
parse_rate_limit s = of_halves (split_once b'/' s)
