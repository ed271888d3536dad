-- ===== src/Store/Vector/Search/Ranked.antt =====
-- On `search_kn` of crates/store/src/vector/index.rs: its hits, and the rows of the filter.
use mathlib.Core.List.Perm
use percept.Prelude.{
  ℕ, ◌<◌, ◌≤◌, ◌∙◌, length, List, [], ◌∷◌, Option, Bool, true, false, filter, map, ◌≡◌, ◌⊎◌, refl,
  sym, subst, arith,
}
use percept.Prelude.Sorting.{sort, sort-perm, length-sort, sort-IsSorted, All-sort, IsSorted}
use percept.Prelude.Result.{ok, >>=-ok, ok_inj}
use percept.Ingest.Auth.{Globs}
use percept.Store.Vector.TopK.{Scores, SearchHit}
use percept.Store.Vector.TopK.Best.{IsBest, insert_all-IsBest, Dominates}
use percept.Store.Vector.Index.{Floats, VectorIndex}
use percept.Store.Vector.Search.{VectorFilter, build_globs, passes, hit_of, hit_le, search_kn}

module _ (globs : Globs) (scores : Scores) (floats : Floats) where
  open globs use {GlobSet, build, is_match}
  open scores use {Score, less, less_irrefl, not_less_trans, less_asym}
  open floats use {F32, to_le_bytes, from_le_bytes}

  hit_le-total : (a b : SearchHit scores) → hit_le scores a b ≡ false → hit_le scores b a ≡ true
  hit_le-total a b h =
      let l : less a.score b.score ≡ true = ground arith in rw (less_asym a.score b.score l) refl

  hit_le_trans :
      (a b c : SearchHit scores)
      → hit_le scores a b ≡ true
      → hit_le scores b c ≡ true
      → hit_le scores a c ≡ true
  hit_le_trans a b c h k =
      let x : less a.score b.score ≡ false = ground arith in
      let y : less b.score c.score ≡ false = ground arith in
      rw (not_less_trans c.score b.score a.score y x) refl

  Dominates-sort :
      (heap out : List (SearchHit scores))
      → Dominates scores heap out
      → Dominates scores (sort (hit_le scores) heap) out
  Dominates-sort heap [] d = tt
  Dominates-sort heap (r ∷ out) (a, d) = (
    All-sort (hit_le scores) (λ h. less h.score r.score ≡ false) heap a,
    Dominates-sort heap out d,
  )

  -- Where the globs are valid and `top_k` is not 0, the answer is in descending order of the scores, has
  -- at most `top_k` hits, and is the best of the rows that pass all tests of the filter: with the hits
  -- left out it makes up theirs, none is left out while there is room, and none left out scores more
  -- than one returned. The scores must be totally ordered, as they are where none is a NaN.
  pub search_kn-IsBest :
      (similarity : List F32 → List F32 → Score) (index : VectorIndex floats) (query : List F32)
      (top_k : ℕ) (f : VectorFilter) (s k : Option GlobSet)
      → build_globs globs f.source_filter ≡ ok s
      → build_globs globs f.kind_filter ≡ ok k
      → 0 < top_k
      → (hits : List (SearchHit scores)) × (out : List (SearchHit scores)) × (search_kn globs scores
            floats similarity index query top_k f
          ≡ ok hits)
        × IsSorted (hit_le scores) hits
        × IsBest scores top_k
            (map
              (hit_of globs scores floats similarity query)
              (filter (passes globs scores floats f s k) index.rows))
            hits
            out
  unfolding search_kn
  search_kn-IsBest similarity index query top_k f s k p q pos =
      let le : SearchHit scores → SearchHit scores → Bool = hit_le scores in
      let seen : List (SearchHit scores) =
        map (hit_of globs scores floats similarity query)
          (filter (passes globs scores floats f s k) index.rows) in
      let (heap, out, e, best) = insert_all-IsBest scores top_k seen pos in
      (
        sort le heap,
        out,
        rw (p, q) (rw e refl),
        sort-IsSorted le hit_le-total hit_le_trans heap,
        record {
          parts = Perm.trans (Perm.append_right out (sort-perm le heap)) best.parts;
          bounded = subst (λ n. n ≤ top_k) (sym (length-sort le heap)) best.bounded;
          full = subst (λ n. (out ≡ []) ⊎ (n ≡ top_k)) (sym (length-sort le heap)) best.full;
          best = Dominates-sort heap out best.best;
        },
      )

  -- An answer has at most `top_k` hits.
  pub search_kn-bounded :
      (similarity : List F32 → List F32 → Score) (index : VectorIndex floats) (query : List F32)
      (top_k : ℕ) (f : VectorFilter) (hits : List (SearchHit scores))
      → 0 < top_k
      → search_kn globs scores floats similarity index query top_k f ≡ ok hits
      → length hits ≤ top_k
  unfolding search_kn
  search_kn-bounded similarity index query top_k f hits pos e =
      let (s, p, h) = >>=-ok (build_globs globs f.source_filter) _ e in
      let (k, q, _) = >>=-ok (build_globs globs f.kind_filter) _ h in
      let (hits', _, same, _, best) = search_kn-IsBest similarity index query top_k f s k p q pos in
      subst (λ hs. length hs ≤ top_k) (ok_inj (sym same ∙ e)) best.bounded
