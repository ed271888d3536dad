-- ===== src/Mcp/Window/Pages.antt =====
-- Parts of a list and of the events read from rows, and the arithmetic of pages.
use percept.Prelude.{
  unwrap_or, ℕ, zero, suc, ◌+◌, ◌*◌, ◌-◌, ◌^◌, ◌≤◌, ◌<◌, String, List, [], ◌∷◌, ◌++◌, Option, some,
  Bool, false, length, take, drop, drop-drop, last?, min, leb, ◌≡◌, refl, sym, ap, ◌∙◌, arith,
  some_inj,
}
use native.Mathlib.Nat.{zero-add, suc-add, suc-mul}
use percept.Prelude.Eq.{list_eq, nat_eq}
use percept.Core.Event.{Event}
use percept.Store.Cold.Rows.{JsonCodec, Row, row_to_event, transpose, >>=-eq-some}
use percept.Store.Cold.Window.{Anchor, max_window_limit, to_events}
use percept.Store.Cold.Window.Paging.{anchor_of}
use percept.Mcp.Window.{page_limit}

module _ {A : Type 0} where
  last?-cons : (y : A) (zs : List A) {x : A} → last? zs ≡ some x → last? (y ∷ zs) ≡ some x
  last?-cons y [] h = absurd cc
  last?-cons y (z ∷ zs) h = h

  pub last?-take-drop :
      (k m : ℕ) (xs : List A) {x : A}
      → last? (take m (drop k xs)) ≡ some x
      → last? (take (k + m) xs) ≡ some x
  last?-take-drop zero m xs h = rw zero-add h
  last?-take-drop (suc k) zero xs h = absurd cc
  last?-take-drop (suc k) (suc m) [] h = absurd cc
  last?-take-drop (suc k) m (y ∷ xs) h =
      rw suc-add (last?-cons y (take (k + m) xs) (last?-take-drop k m xs h))

  pub take-append_drop : (m : ℕ) (xs : List A) → take m xs ++ drop m xs ≡ xs
  take-append_drop zero xs = refl
  take-append_drop (suc m) [] = refl
  take-append_drop (suc m) (x ∷ xs) = ap (◌∷◌ x) (take-append_drop m xs)

  pub take_all : (m : ℕ) (xs : List A) → length xs ≤ m → take m xs ≡ xs
  take_all zero [] h = refl
  take_all zero (x ∷ xs) h = absurd (omega arith)
  take_all (suc m) [] h = refl
  take_all (suc m) (x ∷ xs) h = ap (◌∷◌ x) (take_all m xs (omega arith))

  pub last?-exists : (xs : List A) → 0 < length xs → (x : A) × (last? xs ≡ some x)
  last?-exists [] h = absurd (omega arith)
  last?-exists (x ∷ []) h = (x, refl)
  last?-exists (_ ∷ y ∷ xs) h = last?-exists (y ∷ xs) (omega arith)

pub min_again : (a b : ℕ) → min (min a b) b ≡ min a b
min_again a b = omega arith

pub fuel_left :
    (n m k len a b : ℕ) → a ≡ len - k → b ≡ len - (k + m) → m ≤ a → a < suc n * m → b < n * m
fuel_left n m k len a b p q full l =
    let split : suc n * m ≡ n * m + m = suc-mul n m in omega (arith, split)

pub small_page : (limit : Option ℕ) (a b : ℕ) → a ≡ min (page_limit limit) b → a < 2 ^ 32
small_page limit a b e =
    let cap : page_limit limit ≤ max_window_limit = min_le (unwrap_or limit max_window_limit) _ in
    omega (arith, cap)
  where
    min_le : (x y : ℕ) → min x y ≤ y
    min_le x y = omega arith

pub short_lt : (m a : ℕ) → leb m a ≡ false → a < m
short_lt m a h = ground arith

pub short_all : (m a b : ℕ) → a ≡ min m b → a < m → b ≤ m
short_all m a b e h = omega arith

pub page_join : (m k : ℕ) (es : List Event) → take m (drop k es) ++ drop (k + m) es ≡ drop k es
page_join m k es =
    ap (take m (drop k es) ++◌) (sym (drop-drop k m es)) ∙ take-append_drop m (drop k es)

-- The anchor that `get_window` takes of an event is that of the event's row.
abbrev pub anchor_of_event : Event → Anchor
anchor_of_event e = record { ts_ms_utc = e.ts_ms_utc; event_id = e.event_id }

module _ (like : String → String → Bool) (json : JsonCodec) where
  pub to_events-cons :
      (r : Row) (rs : List Row) (es : List Event)
      → to_events like json (r ∷ rs) ≡ some es
      → (e : Event) × (rest : List Event) × (row_to_event json r ≡ some e)
        × (to_events like json rs ≡ some rest)
        × (e ∷ rest ≡ es)
  unfolding to_events
  to_events-cons r rs es h =
      let (e, p, h) = >>=-eq-some (row_to_event json r) _ h in
      let (rest, q, h) = >>=-eq-some (to_events like json rs) _ h in (e, rest, p, q, some_inj h)

  pub to_events-take :
      (m : ℕ) (rs : List Row) (es : List Event)
      → to_events like json rs ≡ some es
      → to_events like json (take m rs) ≡ some (take m es)
  unfolding to_events
  to_events-take zero rs es h = refl
  to_events-take (suc m) [] es h = rw (sym (some_inj h)) refl
  to_events-take (suc m) (r ∷ rs) es h =
      let (e, rest, p, q, same) = to_events-cons r rs es h in
      rw (sym same) (rw p (rw (to_events-take m rs rest q) refl))

  pub to_events-drop :
      (m : ℕ) (rs : List Row) (es : List Event)
      → to_events like json rs ≡ some es
      → to_events like json (drop m rs) ≡ some (drop m es)
  unfolding to_events
  to_events-drop zero rs es h = h
  to_events-drop (suc m) [] es h = rw (sym (some_inj h)) refl
  to_events-drop (suc m) (r ∷ rs) es h =
      let (e, rest, p, q, same) = to_events-cons r rs es h in
      rw (sym same) (to_events-drop m rs rest q)

  row_to_event-anchor :
      (r : Row) (e : Event) → row_to_event json r ≡ some e → anchor_of_event e ≡ anchor_of r
  unfolding row_to_event
  row_to_event-anchor r e h =
      let (semantic, p, h) = >>=-eq-some (json.read_value r.semantic) _ h in
      let (links, q, h) = >>=-eq-some (transpose json.read_links r.links) _ h in
      ap anchor_of_event (sym (some_inj h))

  pub to_events-last :
      (rs : List Row) (es : List Event) (e : Event)
      → to_events like json rs ≡ some es
      → last? es ≡ some e
      → (r : Row) × (last? rs ≡ some r) × (anchor_of_event e ≡ anchor_of r)
  unfolding to_events
  to_events-last [] es e h l =
      let l' : last? {A = Event} [] ≡ some e = ap last? (some_inj h) ∙ l in absurd cc
  to_events-last (r ∷ []) es e h l =
      let (x, rest, p, q, same) = to_events-cons r [] es h in
      let l' : last? (x ∷ []) ≡ some e =
        ap (λ zs. last? (x ∷ zs)) (some_inj q) ∙ (ap last? same ∙ l) in
      (r, refl, row_to_event-anchor r e (p ∙ l'))
  to_events-last (r ∷ r' ∷ rs) es e h l =
      let (x, rest, p, q, same) = to_events-cons r (r' ∷ rs) es h in
      let (x', rest', p', q', same') = to_events-cons r' rs rest q in
      let l' : last? (x ∷ x' ∷ rest') ≡ some e =
        ap (λ zs. last? (x ∷ zs)) same' ∙ (ap last? same ∙ l) in
      to_events-last (r' ∷ rs) (x' ∷ rest') e (q ∙ ap some (sym same')) l'
