-- ===== src/DecoderMerge/Tests.antt =====
-- The merge of wsprd's two passes on a small example.
use wspr_recorder.Common.{ℕ, none, some, List, [], ◌∷◌, ◌≡◌, refl}
use wspr_recorder.Common.Dict.{lookup, NodupKeys, chars_eq}
use wspr_recorder.Common.Int.{pos, negsuc}
use wspr_recorder.Common.Texts.{Chars}
use wspr_recorder.DecoderMerge.{PassSpot, merge_by_call, merge_wspr_passes, promote}
use wspr_recorder.DecoderMerge.Merged.{best, latest, merge_by_call-Prefers}

abbrev first_call : Chars
first_call = 75 ∷ 49 ∷ []

abbrev second_call : Chars
second_call = 71 ∷ 50 ∷ []

-- Two spots of a call in the standard pass, the better one first, and one of another call.
abbrev standard : List (PassSpot ℕ ℕ)
standard =
    record { call = second_call; snr = negsuc 3; spreading = none; metric = 1; rest = 0 }
    ∷ record { call = second_call; snr = negsuc 9; spreading = none; metric = 2; rest = 1 }
    ∷ record { call = first_call; snr = pos 5; spreading = none; metric = 3; rest = 2 }
    ∷ []

-- A weaker spot of the first call that has a spreading, and a still weaker one.
abbrev spreading : List (PassSpot ℕ ℕ)
spreading =
    record { call = first_call; snr = pos 1; spreading = some 40; metric = 4; rest = 3 }
    ∷ record { call = first_call; snr = pos 0; spreading = some 50; metric = 5; rest = 4 }
    ∷ []

-- The standard pass's better spot of the second call is lost, and its stronger one of the first.
merged_passes :
    merge_wspr_passes standard spreading
    ≡ record { call = second_call; snr = negsuc 9; spreading = none; metric = 2; rest = 1 }
      ∷ record { call = first_call; snr = pos 1; spreading = some 40; metric = 40; rest = 3 }
      ∷ []
unfolding merge_wspr_passes lookup chars_eq
merged_passes = refl

merge_by_call-Prefers_example :
    NodupKeys (merge_by_call standard spreading)
    × (lookup second_call (merge_by_call standard spreading) ≡ elim (best second_call spreading) [
      | none ↦ latest second_call standard
      | some sp ↦ some (promote sp)
    ])
merge_by_call-Prefers_example = merge_by_call-Prefers second_call standard spreading
