-- ===== src/Core/KindRef.antt =====
-- crates/core/src/kind_ref.rs: references to a kind, `"name"` or `"name@vN"`.
pub mod RoundTrip
use Prim.Native.String
use percept.Prelude.{String, Char, Option, none, some, Bool, if◌then◌else◌}
use percept.Prelude.Text.{is_empty, split_once}

pub record KindRef : Type 0 where
  pub name : String
  pub version : Option String

-- `Error::InvalidKindRef`, a constructor for each message.
pub data InvalidKindRef : Type 0 where
  empty_string : InvalidKindRef
  missing_name : String → InvalidKindRef
  missing_version : String → InvalidKindRef

pub data Parsed : Type 0 where
  ok : KindRef → Parsed
  err : InvalidKindRef → Parsed

abbrev pub at_sign : Char
at_sign = "@"

-- The `match` of `from_str` on the two parts.
abbrev pub of_parts : String → Option (String × String) → Parsed
of_parts s none = ok (record { name = s; version = none })
of_parts s (some (name, version)) =
    if is_empty name
    then err (missing_name s)
    else if is_empty version
    then err (missing_version s)
    else ok (record { name = name; version = some version })

unfoldable pub from_str : String → Parsed
from_str s = if is_empty s then err empty_string else of_parts s (split_once b'@' s)

abbrev display_version : String → Option String → String
display_version name none = name
display_version name (some v) = String.◌++◌ name (String.◌∷◌ at_sign v)

-- `Display::fmt`.
unfoldable pub display : KindRef → String
display k = display_version k.name k.version
