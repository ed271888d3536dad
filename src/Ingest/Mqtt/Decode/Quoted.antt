-- ===== src/Ingest/Mqtt/Decode/Quoted.antt =====
-- On `parse_csv_row` of crates/ingest/src/mqtt/decode.rs: rows of quoted fields.
use percept.Prelude.{
  String, Char, code, List, [], ◌∷◌, ◌++◌, if◌then◌else◌, ◌==◌, ◌≡◌, refl, sym, ap, ◌∙◌, Bool-cases,
  inl, inr, append_assoc,
}
use Prim.Native.String
use text.Mathlib.TextLemmas
use text.Mathlib.TextLemmas.{nil-append, cons-append}
use percept.Prelude.Text.{join}
use percept.Ingest.Mqtt.Render.{push}
use percept.Ingest.Mqtt.Decode.{outside, inside, closing, quote, read_chars, parse_csv_row}

-- A field between quotes, its own quotes doubled.
unfoldable pub escape : String → String
escape String.[] = String.[]
escape (String.◌∷◌ c s) =
    let rest = escape s in
    if code c == quote then String.◌∷◌ c (String.◌∷◌ c rest) else String.◌∷◌ c rest

abbrev pub quoted : String → String
quoted field = String.◌∷◌ "\"" (String.◌++◌ (escape field) (String.◌∷◌ "\"" String.[]))

abbrev pub quote_all : List String → List String
quote_all [] = []
quote_all (f ∷ fs) = quoted f ∷ quote_all fs

push-append :
    (cur : String) (c : Char) (s : String)
    → String.◌++◌ (push cur c) s ≡ String.◌++◌ cur (String.◌∷◌ c s)
push-append cur c s =
    TextLemmas.append_assoc cur (String.◌∷◌ c String.[]) s
    ∙ ap (String.◌++◌ cur) (rw cons-append (ap (String.◌∷◌ c) (nil-append s)))

-- Within quotes an escaped text is read as it was.
read_chars-escape :
    (f rest : String) (out : List String) (cur : String)
    → read_chars (String.◌++◌ (escape f) rest) (inside, (out, cur))
      ≡ read_chars rest (inside, (out, String.◌++◌ cur f))
unfolding escape read_chars
read_chars-escape String.[] rest out cur =
    rw nil-append (ap (λ t. read_chars rest (inside, (out, t))) (sym (TextLemmas.append-nil cur)))
read_chars-escape (String.◌∷◌ c f) rest out cur = elim (Bool-cases (code c == quote)) [
  | inl q ↦ rw q (
      rw cons-append (
        rw cons-append (
          rw (q, read_chars)
            (rw q (
              read_chars-escape f rest out (push cur c)
              ∙ ap (λ t. read_chars rest (inside, (out, t))) (push-append cur c f))))))
  | inr q ↦ rw q (
      rw cons-append (
        rw (q, read_chars)
          (read_chars-escape f rest out (push cur c)
            ∙ ap (λ t. read_chars rest (inside, (out, t))) (push-append cur c f))))
]

-- The row as it is read on behind one quoted field.
read_chars-quoted :
    (f rest : String) (out : List String)
    → read_chars (String.◌++◌ (quoted f) rest) (outside, (out, String.[]))
      ≡ read_chars rest (closing, (out, f))
unfolding read_chars
read_chars-quoted f rest out = rw cons-append (
    rw (TextLemmas.append_assoc (escape f) (String.◌∷◌ "\"" String.[]) rest) (
      read_chars-escape f (String.◌++◌ (String.◌∷◌ "\"" String.[]) rest) out String.[]
      ∙ rw (nil-append f) (rw cons-append (rw (nil-append rest) refl))))

rest_of_row :
    (f : String) (fs out : List String)
    → read_chars (join "," (quote_all (f ∷ fs))) (outside, (out, String.[])) ≡ out ++ f ∷ fs
unfolding join read_chars
rest_of_row f [] out =
    read_chars-escape f "\"" out String.[] ∙ ap (λ t. out ++ t ∷ []) (nil-append f)
rest_of_row f (g ∷ fs) out =
    read_chars-quoted f (String.◌∷◌ "," (join "," (quote_all (g ∷ fs)))) out
    ∙ (rest_of_row g fs (out ++ f ∷ []) ∙ append_assoc out (f ∷ []) (g ∷ fs))

-- A row made of fields between quotes with commas, their own quotes doubled, is parsed to those fields,
-- whatever characters they have, commas and quotes included.
pub parse_csv_row-quoted :
    (f : String) (fs : List String) → parse_csv_row (join "," (quote_all (f ∷ fs))) ≡ f ∷ fs
unfolding parse_csv_row
parse_csv_row-quoted f fs = rest_of_row f fs []
