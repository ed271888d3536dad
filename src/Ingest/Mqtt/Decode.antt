-- ===== src/Ingest/Mqtt/Decode.antt =====
-- crates/ingest/src/mqtt/decode.rs: the formats of a payload. JSON, base64 and UTF-8 are the parameter
-- `decoders`. The look at the next character behind a quote is the state `closing` of the row's loop.
pub mod Quoted
use percept.Prelude.{
  ℕ, ◌-◌, ◌/◌, ◌%◌, String, Char, code, List, [], ◌∷◌, ◌++◌, Option, none, some, Bool, true, false,
  if◌then◌else◌, ◌==◌, ltb, ◌&&◌,
}
use Prim.Native.String
use percept.Prelude.Eq.{string_eq, ◌=?◌}
use percept.Prelude.Text.{is_empty, split_once}
use percept.Prelude.Result.{Result, ok, err, ◌>>=◌}
use percept.Core.Json.{Value, Items, Fields}
use percept.Ingest.Mqtt.Render.{push}

pub data PayloadFormat : Type 0 where
  json raw hex csv : PayloadFormat

unfoldable pub parse : String → Option PayloadFormat
parse s =
    if s =? "json"
    then some json
    else if s =? "raw"
    then some raw
    else if s =? "hex"
    then some hex
    else if s =? "csv"
    then some csv
    else none

unfoldable pub as_str : PayloadFormat → String
as_str json = "json"
as_str raw = "raw"
as_str hex = "hex"
as_str csv = "csv"

pub data DecodeError : Type 0 where
  json_error utf8_error : DecodeError

pub record Decoders : Type 0 where
  pub from_slice : List ℕ → Option Value
  pub encode_base64 : List ℕ → String
  pub from_utf8 : List ℕ → Option String

-- The digits of `{b:02x}`.
abbrev pub hex_digits : String
hex_digits = "0123456789abcdef"

unfoldable pub nth_char : ℕ → String → String
nth_char n String.[] = String.[]
nth_char n (String.◌∷◌ c s) =
    let rest = nth_char (n - 1) s in if n == 0 then push String.[] c else rest

unfoldable pub to_hex : List ℕ → String
unfolding nth_char
to_hex [] = String.[]
to_hex (b ∷ bs) =
    String.◌++◌ (nth_char (b / 16) hex_digits)
      (String.◌++◌ (nth_char (b % 16) hex_digits) (to_hex bs))

-- Whether the loop is within quotes; `closing` is behind a quote there, which another one escapes.
pub data Quotes : Type 0 where
  outside inside closing : Quotes

abbrev pub quote : ℕ
quote = 0x22

-- A character outside of quotes: the fields that are complete and the next field's text.
abbrev pub read_outside : List String → String → Char → Quotes × (List String × String)
read_outside out cur c =
    if code c == quote && is_empty cur
    then (inside, (out, cur))
    else if code c == b','
    then (outside, (out ++ cur ∷ [], String.[]))
    else (outside, (out, push cur c))

abbrev pub read_char : Quotes × (List String × String) → Char → Quotes × (List String × String)
read_char (outside, (out, cur)) c = read_outside out cur c
read_char (inside, (out, cur)) c =
    if code c == quote then (closing, (out, cur)) else (inside, (out, push cur c))
read_char (closing, (out, cur)) c =
    if code c == quote then (inside, (out, push cur c)) else read_outside out cur c

abbrev pub last_field : Quotes × (List String × String) → List String
last_field (_, (out, cur)) = out ++ cur ∷ []

unfoldable pub read_chars : String → Quotes × (List String × String) → List String
read_chars String.[] state = last_field state
read_chars (String.◌∷◌ c s) state = read_chars s (read_char state c)

unfoldable pub parse_csv_row : String → List String
unfolding read_chars
parse_csv_row s = read_chars s (outside, ([], String.[]))

-- `text.lines().next().unwrap_or("")`: a carriage return goes with the line feed.
unfoldable pub strip_cr : String → String
strip_cr String.[] = String.[]
strip_cr (String.◌∷◌ c s) =
    let rest = strip_cr s in if code c == 0x0d && is_empty s then String.[] else String.◌∷◌ c rest

abbrev pub line_of : String → Option (String × String) → String
line_of text none = text
line_of text (some (line, _)) = strip_cr line

unfoldable pub first_line : String → String
unfolding strip_cr
first_line text = line_of text (split_once 0x0a text)

abbrev pub strings : List String → Items
strings [] = Items.nil
strings (s ∷ ss) = Items.cons (Value.string s) (strings ss)

-- `json!` of two fields.
abbrev pub pair_object : String → Value → String → Value → Value
pair_object k v l w = Value.object (Fields.field k v (Fields.field l w Fields.end))

abbrev pub of_json : Option Value → Result DecodeError Value
of_json none = err json_error
of_json (some v) = ok v

abbrev pub of_text : Option String → Result DecodeError Value
of_text none = err utf8_error
of_text (some text) = ok (
    pair_object "encoding" (Value.string "csv") "fields"
      (Value.array (strings (parse_csv_row (first_line text)))))

unfoldable pub decode : Decoders → PayloadFormat → List ℕ → Result DecodeError Value
unfolding to_hex parse_csv_row first_line
decode decoders json bytes = of_json (decoders.from_slice bytes)
decode decoders raw bytes = ok (
    pair_object "bytes_base64" (Value.string (decoders.encode_base64 bytes)) "encoding"
      (Value.string "raw"))
decode decoders hex bytes =
    ok (pair_object "encoding" (Value.string "hex") "hex" (Value.string (to_hex bytes)))
decode decoders csv bytes = of_text (decoders.from_utf8 bytes)
