-- ===== src/Store/Vector/Search.antt =====
-- crates/store/src/vector/index.rs, `search_kn`: the rows within the filter, the best of their hits, and
-- those in descending order. `cosine_similarity` works on `f32`: it is the parameter `similarity`.
pub mod Ranked
use percept.Prelude.{
  ℕ, String, List, [], ◌∷◌, Option, none, some, Bool, true, false, not, filter, map, ◌&&◌,
}
use percept.Prelude.Int.{ℤ, ltz}
use percept.Prelude.Sorting.{sort}
use percept.Prelude.Result.{Result, ok, err, ◌>>=◌}
use percept.Ingest.Auth.{Globs}
use percept.Store.Vector.TopK.{Scores, SearchHit, insert_all}
use percept.Store.Vector.Index.{Floats, InMemoryRow, VectorIndex}

pub record VectorFilter : Type 0 where
  pub start_ms : Option ℤ
  pub end_ms : Option ℤ
  pub source_filter : Option (List String)
  pub kind_filter : Option (List String)

-- A glob that is not valid, and the panic of `insert_top_k` where `top_k` is 0.
pub data SearchError : Type 0 where
  decode panic : SearchError

abbrev pub from_start : Option ℤ → ℤ → Bool
from_start none ts = true
from_start (some s) ts = not (ltz ts s)

abbrev pub before_end : Option ℤ → ℤ → Bool
before_end none ts = true
before_end (some e) ts = ltz ts e

module _ (globs : Globs) where
  open globs use {GlobSet, build, is_match}

  abbrev pub built : Option GlobSet → Result SearchError (Option GlobSet)
  built none = err decode
  built (some g) = ok (some g)

  unfoldable pub build_globs : Option (List String) → Result SearchError (Option GlobSet)
  build_globs none = ok none
  build_globs (some []) = ok none
  build_globs (some (p ∷ ps)) = built (build (p ∷ ps))

  abbrev pub glob_passes : Option GlobSet → String → Bool
  glob_passes none s = true
  glob_passes (some g) s = is_match g s

module _ (scores : Scores) where
  open scores use {Score, less, less_irrefl, not_less_trans, less_asym}

  -- `b.score.partial_cmp(&a.score)`: the greater score is first.
  abbrev pub hit_le : SearchHit scores → SearchHit scores → Bool
  hit_le a b = not (less a.score b.score)

  abbrev pub ranked :
      Option (List (SearchHit scores)) → Result SearchError (List (SearchHit scores))
  ranked none = err panic
  ranked (some heap) = ok (sort hit_le heap)

module _ (globs : Globs) (scores : Scores) (floats : Floats) where
  open globs use {GlobSet, build, is_match}
  open scores use {Score, less, less_irrefl, not_less_trans, less_asym}
  open floats use {F32, to_le_bytes, from_le_bytes}

  -- The tests with which the loop goes on to the next row.
  unfoldable pub passes : VectorFilter → Option GlobSet → Option GlobSet → InMemoryRow floats → Bool
  passes f source_globs kind_globs row =
      from_start f.start_ms row.ts_ms_utc
      && before_end f.end_ms row.ts_ms_utc
      && glob_passes globs source_globs row.source_id
      && glob_passes globs kind_globs row.kind

  abbrev pub hit_of :
      (List F32 → List F32 → Score) → List F32 → InMemoryRow floats → SearchHit scores
  hit_of similarity query row = record {
    event_id = row.event_id;
    source_id = row.source_id;
    kind = row.kind;
    ts_ms_utc = row.ts_ms_utc;
    truncated = row.truncated;
    score = similarity query row.vector;
  }

  unfoldable pub search_kn :
      (List F32 → List F32 → Score)
      → VectorIndex floats
      → List F32
      → ℕ
      → VectorFilter
      → Result SearchError (List (SearchHit scores))
  search_kn similarity index query top_k f = build_globs globs f.source_filter >>= λ source_globs.
      build_globs globs f.kind_filter >>= λ kind_globs. ranked scores (
        insert_all scores []
          (map (hit_of similarity query) (filter (passes f source_globs kind_globs) index.rows))
          top_k)
