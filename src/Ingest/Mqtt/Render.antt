-- ===== src/Ingest/Mqtt/Render.antt =====
-- crates/ingest/src/mqtt/topic.rs, `render`: the placeholders of a template. The scan to the matching
-- brace is a state of the loop: `some body` is the text behind an open brace.
use percept.Prelude.{
  ℕ, ◌-◌, ◌^◌, String, Char, code, List, Option, none, some, if◌then◌else◌, length, get_elem?,
  unwrap_or, ◌==◌, ltb, ◌||◌,
}
use Prim.Native.String
use percept.Prelude.Eq.{string_eq, ◌=?◌}
use percept.Prelude.Result.{Result, ok, err, ◌>>=◌}
use percept.Ingest.Auth.RateLimit.{parse_uint}
use percept.Ingest.Http.{strip_prefix}
use percept.Ingest.Mqtt.Topic.{TopicCaptures}

pub data TemplateError : Type 0 where
  unknown_placeholder : String → TemplateError
  out_of_range : ℕ → ℕ → TemplateError
  no_hash : TemplateError

abbrev pub push : String → Char → String
push s c = String.◌++◌ s (String.◌∷◌ c String.[])

abbrev pub or_no_hash : Option String → Result TemplateError String
or_no_hash none = err no_hash
or_no_hash (some s) = ok s

abbrev pub plus_at : List String → ℕ → Result TemplateError String
plus_at pluses n =
    if n == 0 || ltb (length pluses) n
    then err (out_of_range n (length pluses))
    else ok (unwrap_or (get_elem? pluses (n - 1)) "")

abbrev pub of_number : List String → String → Option ℕ → Result TemplateError String
of_number pluses body none = err (unknown_placeholder body)
of_number pluses body (some n) = plus_at pluses n

abbrev pub of_index : List String → String → Option String → Result TemplateError String
of_index pluses body none = err (unknown_placeholder body)
of_index pluses body (some idx) = of_number pluses body (parse_uint (2 ^ 64) idx)

-- The text for the body of a placeholder.
unfoldable pub substitute : TopicCaptures → String → Result TemplateError String
unfolding strip_prefix parse_uint
substitute captures body =
    if body =? "#"
    then or_no_hash captures.hash_tail
    else of_index captures.pluses body (strip_prefix "+" body)

-- One character: the text so far and the open placeholder.
abbrev pub step :
    TopicCaptures → String × Option String → Char → Result TemplateError (String × Option String)
step captures (out, none) c =
    if code c == b'{' then ok (out, some String.[]) else ok (push out c, none)
step captures (out, some body) c =
    if code c == b'}'
    then (substitute captures body >>= λ s. ok (String.◌++◌ out s, none))
    else ok (out, some (push body c))

abbrev pub close : String × Option String → Result TemplateError String
close (out, none) = ok out
close (out, some body) = err (unknown_placeholder body)

unfoldable pub render_from :
    TopicCaptures → String → String × Option String → Result TemplateError String
render_from captures String.[] state = close state
render_from captures (String.◌∷◌ c template) state =
    step captures state c >>= λ next. render_from captures template next

unfoldable pub render : String → TopicCaptures → Result TemplateError String
unfolding render_from substitute
render template captures = render_from captures template (String.[], none)
