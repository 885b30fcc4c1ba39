-- ===== src/SpotProcessor/Resolved.antt =====
-- The spots that the first two stages of `process_cycle` keep have a resolved callsign.
use text.Mathlib.Text.{starts_with}
use wspr_recorder.Common.{◌≡◌, true, false, not, List, [], ◌∷◌, All, if_intro, Bool, arith}
use wspr_recorder.Common.Int.{ltb_ℤ}
use wspr_recorder.SpotProcessor.{
  RawSpot, same_key, keep_best, deduplicate_from, deduplicate, filter_unresolved, select_spots,
}

not-true : (b : Bool) → not b ≡ true → b ≡ false
not-true b h = ground arith

module _ {ℓ} {R : Type ℓ} where
  module _ {κ} (P : RawSpot R → Type κ) where
    All-keep_best :
        (best : List (RawSpot R)) (s : RawSpot R) → All P best → P s → All P (keep_best best s)
    unfolding keep_best
    All-keep_best [] s u p = (p, tt)
    All-keep_best (b ∷ best) s u p =
        if_intro (All P) (same_key b s)
          (λ e. if_intro (All P) (ltb_ℤ b.snr s.snr) (λ t. (p, u.1)) (λ t. u))
          (λ e. (u.0, All-keep_best best s u.1 p))

    All-deduplicate_from :
        (best ss : List (RawSpot R)) → All P best → All P ss → All P (deduplicate_from best ss)
    unfolding deduplicate_from
    All-deduplicate_from best [] u v = u
    All-deduplicate_from best (s ∷ ss) u v =
        All-deduplicate_from (keep_best best s) ss (All-keep_best best s u v.0) v.1

  abbrev pub IsResolved : RawSpot R → Type 0
  IsResolved s = starts_with s.call "<" ≡ false

  filter_unresolved-IsResolved : (ss : List (RawSpot R)) → All IsResolved (filter_unresolved ss)
  unfolding filter_unresolved
  filter_unresolved-IsResolved [] = tt
  filter_unresolved-IsResolved (s ∷ ss) =
      if_intro (All IsResolved) (not (starts_with s.call "<"))
        (λ e. (not-true (starts_with s.call "<") e, filter_unresolved-IsResolved ss))
        (λ e. filter_unresolved-IsResolved ss)

  -- No spot that is kept has a callsign that begins with "<".
  pub select_spots-IsResolved : (ss : List (RawSpot R)) → All IsResolved (select_spots ss)
  unfolding select_spots deduplicate
  select_spots-IsResolved ss =
      All-deduplicate_from IsResolved [] (filter_unresolved ss) tt (filter_unresolved-IsResolved ss)
