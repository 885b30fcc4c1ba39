-- ===== src/DecodeMode/Tests.antt =====
-- The decode modes on small inputs.
use wspr_recorder.Common.{ℕ, ◌≡◌, refl, List, [], ◌∷◌}
use wspr_recorder.DecodeMode.{DecodeMode, w2, f2, f5, f15, f30, group_modes_by_period}

-- The periods that the package documents.
abbrev seconds : DecodeMode → ℕ
seconds w2 = 120
seconds f2 = 120
seconds f5 = 300
seconds f15 = 900
seconds f30 = 1800

abbrev three : List DecodeMode
three = f2 ∷ f5 ∷ w2 ∷ []

grouped : group_modes_by_period seconds three ≡ (120, f2 ∷ w2 ∷ []) ∷ (300, f5 ∷ []) ∷ []
unfolding group_modes_by_period
grouped = refl
