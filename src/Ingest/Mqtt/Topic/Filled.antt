-- ===== src/Ingest/Mqtt/Topic/Filled.antt =====
-- On crates/ingest/src/mqtt/topic.rs: the captures, and the filter with the captures put back into it.
use mathlib.Core.Option
use percept.Prelude.{
  String, List, [], ◌∷◌, ◌++◌, Option, none, some, code, ◌≡◌, ◌↔◌, refl, sym, ap, ◌∙◌, subst,
  Bool-cases, inl, inr, some_inj, append_assoc, append-nil,
}
use percept.Prelude.Eq.{string_eq, ◌=?◌, =?_refl}
use percept.Prelude.Text.{split, join}
use percept.Ingest.Mqtt.Topic.{
  TopicSegment, TopicCaptures, literal, single_plus, hash, slash, capture, captures,
}

-- The levels that a filter makes when each `+` is replaced by the next of the words and a `#` by the levels
-- of the tail: nothing where there are more or fewer words than `+`, or a tail and no `#`, or no tail and
-- a `#`. What stands behind a `#` is left out.
unfoldable pub fill : List TopicSegment → List String → Option (List String) → Option (List String)
fill [] [] none = some []
fill [] [] (some _) = none
fill [] (_ ∷ _) tail = none
fill (hash ∷ _) [] tail = tail
fill (hash ∷ _) (_ ∷ _) tail = none
fill (single_plus ∷ segs) [] tail = none
fill (single_plus ∷ segs) (w ∷ words) tail = Option.map (w ∷◌) (fill segs words tail)
fill (literal s ∷ segs) words tail = Option.map (s ∷◌) (fill segs words tail)

-- Captures from which the filter makes the levels `parts`, where `before` is in front of the pluses.
pub record IsFilled (segs : List TopicSegment) (parts before : List String) (c : TopicCaptures)
    : Type 0 where
  pub words : List String
  pub tail : Option (List String)
  pub pluses : c.pluses ≡ before ++ words
  pub hash_tail : c.hash_tail ≡ Option.map (join slash) tail
  pub filled : fill segs words tail ≡ some parts

capture-IsFilled :
    (segs : List TopicSegment) (parts before : List String) (c : TopicCaptures)
    → capture segs parts before ≡ some c
    → IsFilled segs parts before c
unfolding capture fill
capture-IsFilled [] [] before c e = subst (IsFilled [] [] before) (some_inj e) (record {
  words = [];
  tail = none;
  pluses = sym (append-nil before);
  hash_tail = refl;
  filled = refl;
})
capture-IsFilled [] (p ∷ parts) before c e = cc
capture-IsFilled (hash ∷ segs) parts before c e =
    subst (IsFilled (hash ∷ segs) parts before) (some_inj e) (record {
      words = [];
      tail = some parts;
      pluses = sym (append-nil before);
      hash_tail = refl;
      filled = refl;
    })
capture-IsFilled (single_plus ∷ segs) [] before c e = cc
capture-IsFilled (single_plus ∷ segs) (p ∷ parts) before c e =
    let f = capture-IsFilled segs parts (before ++ p ∷ []) c e in
    record {
      words = p ∷ f.words;
      tail = f.tail;
      pluses = f.pluses ∙ append_assoc before (p ∷ []) f.words;
      hash_tail = f.hash_tail;
      filled = ap (Option.map (p ∷◌)) f.filled;
    }
capture-IsFilled (literal s ∷ segs) [] before c e = cc
capture-IsFilled (literal s ∷ segs) (p ∷ parts) before c e = elim (Bool-cases (p =? s)) [
  | inl eq ↦
      let f = capture-IsFilled segs parts before c (rw eq at e) in
      record {
        words = f.words;
        tail = f.tail;
        pluses = f.pluses;
        hash_tail = f.hash_tail;
        filled =
            ap (Option.map (s ∷◌)) f.filled
            ∙ ap (λ x. some (x ∷ parts)) (sym ((string_eq.beq_iff p s).0 eq));
      }
  | inr ne ↦ let f : none ≡ some c = rw ne at e in cc
]

-- What is put in front of levels is put in front of some levels.
map-some :
    (w : String) (o : Option (List String)) (parts : List String)
    → Option.map (w ∷◌) o ≡ some parts
    → (rest : List String) × (o ≡ some rest) × (w ∷ rest ≡ parts)
map-some w none parts e = absurd cc
map-some w (some rest) parts e = (rest, refl, some_inj e)

abbrev found : List String → Option (List String) → TopicCaptures
found pluses tail = record { pluses = pluses; hash_tail = Option.map (join slash) tail }

fill-capture :
    (segs : List TopicSegment) (words : List String) (tail : Option (List String))
    (parts before : List String)
    → fill segs words tail ≡ some parts
    → capture segs parts before ≡ some (found (before ++ words) tail)
unfolding capture fill
fill-capture [] [] none parts before e =
    subst (λ ps. capture [] ps before ≡ some (found (before ++ []) none)) (some_inj e)
      (ap (λ x. some (found x none)) (sym (append-nil before)))
fill-capture [] [] (some _) parts before e = absurd cc
fill-capture [] (_ ∷ _) tail parts before e = absurd cc
fill-capture (hash ∷ segs) [] none parts before e = absurd cc
fill-capture (hash ∷ segs) [] (some tail) parts before e =
    subst (λ ps. capture (hash ∷ segs) ps before ≡ some (found (before ++ []) (some tail)))
      (some_inj e) (ap (λ x. some (found x (some tail))) (sym (append-nil before)))
fill-capture (hash ∷ segs) (_ ∷ _) tail parts before e = absurd cc
fill-capture (single_plus ∷ segs) [] tail parts before e = absurd cc
fill-capture (single_plus ∷ segs) (w ∷ words) tail parts before e =
    let (rest, f, same) = map-some w (fill segs words tail) parts e in
    subst (λ ps. capture (single_plus ∷ segs) ps before ≡ some (found (before ++ w ∷ words) tail))
      same
      (fill-capture segs words tail rest (before ++ w ∷ []) f
        ∙ ap (λ x. some (found x tail)) (append_assoc before (w ∷ []) words))
fill-capture (literal s ∷ segs) words tail parts before e =
    let (rest, f, same) = map-some s (fill segs words tail) parts e in
    subst (λ ps. capture (literal s ∷ segs) ps before ≡ some (found (before ++ words) tail)) same
      (rw (=?_refl s) (fill-capture segs words tail rest before f))

-- `captures` gives captures exactly where the filter, with each `+` replaced by the next of them and `#` by
-- the levels of a tail, makes just the levels of the topic, and the tail's levels joined by slashes are the
-- one captured. The levels of a filter behind a `#` play no part, and a topic that begins with `$` is like any other.
pub captures-iff_IsFilled :
    (filter : List TopicSegment) (topic : String) (c : TopicCaptures)
    → (captures filter topic ≡ some c) ↔ IsFilled filter (split (code slash) topic) [] c
unfolding captures
captures-iff_IsFilled filter topic c = (
  capture-IsFilled filter (split (code slash) topic) [] c,
  λ f.
      fill-capture filter f.words f.tail (split (code slash) topic) [] f.filled
      ∙ ap some (same_captures f.pluses f.hash_tail),
)
  where
    same_captures :
        {ws : List String} {tail : Option String}
        → c.pluses ≡ ws
        → c.hash_tail ≡ tail
        → record { pluses = ws; hash_tail = tail } ≡ c
    same_captures p h = cc
