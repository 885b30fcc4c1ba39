-- ===== src/DecoderMerge.antt =====
-- wspr_recorder/decoder.py: how the spots of wsprd's two passes over a recording are merged.
pub mod Merged
mod Tests
use wspr_recorder.Common.{ℕ, Bool, Option, none, some, List, [], ◌∷◌, if◌then◌else◌}
use wspr_recorder.Common.Dict.{Dict, lookup, upsert, values, get_or, chars_eq}
use wspr_recorder.Common.Int.{ℤ, ltb_ℤ}
use wspr_recorder.Common.Texts.{Chars}

-- The fields of a `RawSpot` that the merge looks at: `F` stands for its floating-point numbers, `R`
-- for the other fields.
pub record PassSpot (F R : Type 0) : Type 0 where
  pub call : Chars
  pub snr : ℤ
  pub spreading : Option F
  pub metric : F
  pub rest : R

module _ {F R : Type 0} where
  -- A spot with its spreading for a metric, where it has one.
  unfoldable pub promote : PassSpot F R → PassSpot F R
  promote s = record s { metric = get_or s.metric s.spreading }

  -- The better spot of its call stays, the first where they are as good.
  abbrev pub index_one : Dict Chars (PassSpot F R) → PassSpot F R → Dict Chars (PassSpot F R)
  index_one d s =
      let put = upsert s.call s (λ _. s) d in
      elim (lookup s.call d) [ none ↦ put | some o ↦ if ltb_ℤ o.snr s.snr then put else d ]

  -- The spreading spots by call, after those that `d` holds.
  unfoldable pub index_from :
      Dict Chars (PassSpot F R) → List (PassSpot F R) → Dict Chars (PassSpot F R)
  unfolding lookup upsert
  index_from d [] = d
  index_from d (s ∷ ss) = index_from (index_one d s) ss

  -- The spreading spot of the same call where there is one.
  abbrev pub preferred : (spread : Dict Chars (PassSpot F R)) → PassSpot F R → PassSpot F R
  preferred spread s = elim (lookup s.call spread) [ none ↦ s | some sp ↦ promote sp ]

  -- The standard pass, each spot replaced by the one that is preferred.
  unfoldable pub merge_standard :
      (spread : Dict Chars (PassSpot F R))
      → List (PassSpot F R)
      → Dict Chars (PassSpot F R)
      → Dict Chars (PassSpot F R)
  unfolding lookup upsert promote
  merge_standard spread [] merged = merged
  merge_standard spread (s ∷ ss) merged =
      let chosen = preferred spread s in
      merge_standard spread ss (upsert s.call chosen (λ _. chosen) merged)

  abbrev pub add_missing :
      (call : Chars) → PassSpot F R → Dict Chars (PassSpot F R) → Dict Chars (PassSpot F R)
  add_missing call s merged = elim (lookup call merged) [
    | none ↦ upsert call (promote s) (λ _. promote s) merged
    | some _ ↦ merged
  ]

  -- The spreading spots whose call is not there yet.
  unfoldable pub merge_spreading :
      Dict Chars (PassSpot F R) → Dict Chars (PassSpot F R) → Dict Chars (PassSpot F R)
  unfolding lookup upsert promote
  merge_spreading [] merged = merged
  merge_spreading ((call, s) ∷ d) merged = merge_spreading d (add_missing call s merged)

  unfoldable pub merge_by_call :
      (standard spreading : List (PassSpot F R)) → Dict Chars (PassSpot F R)
  unfolding index_from merge_standard merge_spreading
  merge_by_call standard spreading =
      let spread = index_from [] spreading in
      merge_spreading spread (merge_standard spread standard [])

  -- `_merge_wspr_passes`
  unfoldable pub merge_wspr_passes :
      (standard spreading : List (PassSpot F R)) → List (PassSpot F R)
  unfolding merge_by_call
  merge_wspr_passes standard spreading = values (merge_by_call standard spreading)
