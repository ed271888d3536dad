-- ===== src/Store/Cold/Cursor/Filters.antt =====
-- On `filter_hash` of crates/store/src/cold/cursor.rs: its input and the filter.
use percept.Prelude.{
  ◌^◌, ◌<◌, String, List, [], ◌∷◌, ◌++◌, Option, length, All, unwrap_or, append_assoc, append-nil,
  Bool-cases, inl, inr, subst, ◌≡◌, ◌↔◌, refl, sym, ap, ap₂, ◌∙◌, arith,
}
use mathlib.Core.HLevel.{hedberg}
use mathlib.Core.List.{Perm}
use percept.Prelude.Eq.{string_eq, ◌=?◌}
use mathlib.Core.List.Perm
use percept.Prelude.Int.{ℤ, as_u64, i64_min, i64_max, ◌≤ℤ◌}
use percept.Prelude.Sorting.{sort, sort-perm, sort-Perm, All-sort, length-sort}
use percept.Prelude.Text.{str_le, str_le-total, str_le_trans, str_le_antisym}
use percept.Store.Cold.Window.{WindowFilter}
use percept.Store.Cold.Cursor.{
  Bytes, CursorCodec, to_le_bytes, count_bytes, name_bytes, names_bytes, hash_input,
}
use percept.Store.Cold.Cursor.Bytes.{append_inj, le_bytes_front, count_front, as_u64-inj, as_u64_lt}

-- The order of the names is not seen.
String_set : IsSet String
String_set = hedberg (λ s t. elim (Bool-cases (s =? t)) [
  | inl h ↦ yes ((string_eq.beq_iff s t).0 h)
  | inr h ↦ no (λ e. absurd (cc (h, (string_eq.beq_iff s t).1 e)))
])

names_bytes-Perm :
    (codec : CursorCodec) (f g : Option (List String))
    → Perm (unwrap_or f []) (unwrap_or g [])
    → names_bytes codec f ≡ names_bytes codec g
unfolding names_bytes
names_bytes-Perm codec f g p =
    ap (λ names. count_bytes (length names) ++ name_bytes codec names)
      (sort-Perm str_le str_le-total str_le_trans str_le_antisym String_set p)

module _ (codec : CursorCodec) where
  -- The length of a name in bytes is a `u32`.
  abbrev pub Short : String → Type 0
  Short s = length (codec.as_bytes s) < 2 ^ 32

  name_bytes-inj :
      (xs ys : List String) (us vs : Bytes)
      → length xs ≡ length ys
      → All Short xs
      → All Short ys
      → name_bytes codec xs ++ us ≡ name_bytes codec ys ++ vs
      → (xs ≡ ys) × (us ≡ vs)
  unfolding name_bytes
  name_bytes-inj [] [] us vs l a b e = (refl, e)
  name_bytes-inj [] (y ∷ ys) us vs l a b e = absurd (omega arith)
  name_bytes-inj (x ∷ xs) [] us vs l a b e = absurd (omega arith)
  name_bytes-inj (x ∷ xs) (y ∷ ys) us vs l (a, short) (b, short') e =
      let (n, e') =
        count_front (length (codec.as_bytes x)) (length (codec.as_bytes y))
          ((codec.as_bytes x ++ name_bytes codec xs) ++ us)
          ((codec.as_bytes y ++ name_bytes codec ys) ++ vs) a b
          (sym (append_assoc (count_bytes (length (codec.as_bytes x))) _ us)
            ∙ (e ∙ append_assoc (count_bytes (length (codec.as_bytes y))) _ vs)) in
      let (p, e'') =
        append_inj (codec.as_bytes x) (codec.as_bytes y) (name_bytes codec xs ++ us)
          (name_bytes codec ys ++ vs) n
          (sym (append_assoc (codec.as_bytes x) _ us)
            ∙ (e' ∙ append_assoc (codec.as_bytes y) _ vs)) in
      let (q, r) = name_bytes-inj xs ys us vs (omega arith) short short' e'' in
      (ap₂ {C = List String} (◌∷◌) (codec.as_bytes-inj x y p) q, r)

  -- A filter that the hash can take in: its number of globs and their lengths are `u32`s.
  abbrev pub Fits : Option (List String) → Type 0
  Fits f = (length (unwrap_or f []) < 2 ^ 32) × All Short (unwrap_or f [])

  names_bytes-inj :
      (f g : Option (List String)) (us vs : Bytes)
      → Fits f
      → Fits g
      → names_bytes codec f ++ us ≡ names_bytes codec g ++ vs
      → Perm (unwrap_or f []) (unwrap_or g []) × (us ≡ vs)
  unfolding names_bytes
  names_bytes-inj f g us vs (l, a) (m, b) e =
      let xs : List String = unwrap_or f [] in
      let ys : List String = unwrap_or g [] in
      let (n, e') =
        count_front (length (sort str_le xs)) (length (sort str_le ys))
          (name_bytes codec (sort str_le xs) ++ us) (name_bytes codec (sort str_le ys) ++ vs)
          (omega (arith, l, length-sort str_le xs)) (omega (arith, m, length-sort str_le ys))
          (sym (append_assoc (count_bytes (length (sort str_le xs))) _ us)
            ∙ (e ∙ append_assoc (count_bytes (length (sort str_le ys))) _ vs)) in
      let (p, r) =
        name_bytes-inj (sort str_le xs) (sort str_le ys) us vs n (All-sort str_le Short xs a)
          (All-sort str_le Short ys b) e' in
      (
        Perm.trans (Perm.symm (sort-perm str_le xs))
            (subst (λ zs. Perm zs ys) (sym p) (sort-perm str_le ys)),
        r,
      )

  abbrev pub InI64 : ℤ → Type 0
  InI64 a = (i64_min ≤ℤ a) × (a ≤ℤ i64_max)

  -- What the types of the source and the sizes of a request give.
  pub record Hashable (f : WindowFilter) : Type 0 where
    pub start : InI64 f.start_ms
    pub end : InI64 f.end_ms
    pub limit : f.limit < 2 ^ 32
    pub sources : Fits f.source_filter
    pub kinds : Fits f.kind_filter

  -- One filter, but for the order of the globs; no list of globs is like an empty one.
  abbrev pub SameFilter : WindowFilter → WindowFilter → Type 0
  SameFilter f g =
      (f.start_ms ≡ g.start_ms)
      × (f.end_ms ≡ g.end_ms)
      × (f.limit ≡ g.limit)
      × Perm (unwrap_or f.source_filter []) (unwrap_or g.source_filter [])
      × Perm (unwrap_or f.kind_filter []) (unwrap_or g.kind_filter [])

  abbrev pub input_of : WindowFilter → Bytes
  input_of f = hash_input codec f.start_ms f.end_ms f.source_filter f.kind_filter f.limit

  time_front :
      (a b : ℤ) (us vs : Bytes)
      → InI64 a
      → InI64 b
      → to_le_bytes 8 (as_u64 a) ++ us ≡ to_le_bytes 8 (as_u64 b) ++ vs
      → (a ≡ b) × (us ≡ vs)
  time_front a b us vs (l, m) (l', m') e =
      let (p, q) =
        le_bytes_front 8 (as_u64 a) (as_u64 b) us vs (as_u64_lt a l m) (as_u64_lt b l' m') e in
      (as_u64-inj a b l m l' m' p, q)

  input-SameFilter :
      (f g : WindowFilter) → Hashable f → Hashable g → input_of f ≡ input_of g → SameFilter f g
  unfolding hash_input
  input-SameFilter f g h k e =
      let prefix : Bytes = codec.as_bytes "percept-cursor-v1" in
      let (_, e) = append_inj prefix prefix _ _ refl e in
      let (start, e) = time_front f.start_ms g.start_ms _ _ h.start k.start e in
      let (end, e) = time_front f.end_ms g.end_ms _ _ h.end k.end e in
      let (limit, e) = le_bytes_front 4 f.limit g.limit _ _ h.limit k.limit e in
      let (sources, e) =
        names_bytes-inj f.source_filter g.source_filter _ _ h.sources k.sources e in
      let (kinds, _) =
        names_bytes-inj f.kind_filter g.kind_filter [] [] h.kinds k.kinds
          (append-nil _ ∙ (e ∙ sym (append-nil _))) in
      (start, end, limit, sources, kinds)

  SameFilter-input : (f g : WindowFilter) → SameFilter f g → input_of f ≡ input_of g
  unfolding hash_input
  SameFilter-input f g (start, end, limit, sources, kinds) =
      rw (start, end, limit)
        (rw (names_bytes-Perm codec f.source_filter g.source_filter sources)
          (rw (names_bytes-Perm codec f.kind_filter g.kind_filter kinds) refl))

  -- Of two filters whose sizes fit, the hash is taken of the same bytes exactly where the filters are the
  -- same but for the order of their globs: another order keeps a cursor good, and no two filters that
  -- differ in more are confused before BLAKE3 itself.
  pub hash_input-iff_SameFilter :
      (f g : WindowFilter) → Hashable f → Hashable g → (input_of f ≡ input_of g) ↔ SameFilter f g
  hash_input-iff_SameFilter f g h k = (input-SameFilter f g h k, SameFilter-input f g)
