-- ===== src/SpotProcessor.antt =====
-- wspr_recorder/spot_processor.py: which of a cycle's spots are kept. A spot is a `RawSpot` of
-- decoder.py with the fields that the choice reads; `rest` stands for the fields that it carries
-- along. Geometry and the format of the lines are left out.
pub mod Best
pub mod Resolved
mod Tests
use Prim.Native.String.{String}
use text.Mathlib.Text.{starts_with, ◌==◌ as str_eq}
use wspr_recorder.Common.{ℕ, Bool, not, ◌&&◌, List, [], ◌∷◌, ◌==◌, if◌then◌else◌}
use wspr_recorder.Common.Int.{ℤ, ltb_ℤ}

pub record RawSpot {ℓ} (R : Type ℓ) : Type ℓ where
  pub call : String
  pub pkt_mode : ℕ
  pub snr : ℤ
  pub rest : R

module _ {ℓ} {R : Type ℓ} where
  unfoldable pub filter_unresolved : List (RawSpot R) → List (RawSpot R)
  filter_unresolved [] = []
  filter_unresolved (s ∷ ss) =
      let kept = filter_unresolved ss in if not (starts_with s.call "<") then s ∷ kept else kept

  -- Equal keys `(call, pkt_mode)`.
  abbrev pub same_key : RawSpot R → RawSpot R → Bool
  same_key s t = str_eq s.call t.call && s.pkt_mode == t.pkt_mode

  -- One turn of the loop of `_deduplicate`. The dictionary `best` is its values in order: a key
  -- keeps its place when its value is replaced.
  unfoldable pub keep_best : List (RawSpot R) → RawSpot R → List (RawSpot R)
  keep_best [] s = s ∷ []
  keep_best (b ∷ best) s =
      if same_key b s
      then (if ltb_ℤ b.snr s.snr then s ∷ best else b ∷ best)
      else b ∷ keep_best best s

  unfoldable pub deduplicate_from : List (RawSpot R) → List (RawSpot R) → List (RawSpot R)
  deduplicate_from best [] = best
  deduplicate_from best (s ∷ ss) = deduplicate_from (keep_best best s) ss

  unfoldable pub deduplicate : List (RawSpot R) → List (RawSpot R)
  unfolding deduplicate_from keep_best
  deduplicate ss = deduplicate_from [] ss

  -- The first two stages of `process_cycle`.
  unfoldable pub select_spots : List (RawSpot R) → List (RawSpot R)
  unfolding filter_unresolved deduplicate
  select_spots ss = deduplicate (filter_unresolved ss)
