-- ===== src/SpotProcessor/Tests.antt =====
-- The choice of spots on small inputs.
use Prim.Native.String.{String}
use wspr_recorder.Common.{ℕ, ◌≡◌, refl, none, List, [], ◌∷◌}
use wspr_recorder.Common.Int.{ℤ, negsuc}
use wspr_recorder.SpotProcessor.{RawSpot, deduplicate}
use wspr_recorder.SpotProcessor.Best.{IsUnique, kept, best_of, deduplicate_lem}

abbrev spot : String → ℕ → ℤ → ℕ → RawSpot ℕ
spot call mode snr n = record { call = call; pkt_mode = mode; snr = snr; rest = n }

-- K1ABC is heard twice in mode 2 and once in mode 3.
abbrev heard : List (RawSpot ℕ)
heard =
    spot "K1ABC" 2 (negsuc 20) 1
    ∷ spot "W9XYZ" 2 (negsuc 9) 2
    ∷ spot "K1ABC" 2 (negsuc 14) 3
    ∷ spot "K1ABC" 3 (negsuc 25) 4
    ∷ []

chosen :
    deduplicate heard
    ≡ spot "K1ABC" 2 (negsuc 14) 3 ∷ spot "W9XYZ" 2 (negsuc 9) 2 ∷ spot "K1ABC" 3 (negsuc 25) 4 ∷ []
unfolding deduplicate
chosen = refl

deduplicate_lem_example :
    IsUnique (deduplicate heard)
    × ((k : RawSpot ℕ) → kept k (deduplicate heard) ≡ best_of k none heard)
deduplicate_lem_example = deduplicate_lem heard
