-- ===== src/DecodeHealth/Tests.antt =====
-- The health ledger on small inputs.
use wspr_recorder.Common.{ℕ, ◌%◌, ◌≤◌, ◌≡◌, ◌↔◌, ◌⊎◌, false, refl, arith, List, [], ◌∷◌, length}
use wspr_recorder.DecodeHealth.{no_streak, judge, behind}
use wspr_recorder.DecodeHealth.Streaks.{
  oldest, told, late_run, streak_after, last_status, judge-behind_iff, last_status-sustained,
}

-- Three late decodes of which the second was not less late than the first, then one that is.
abbrev history : List (ℕ × ℕ)
history = (900, 125) ∷ (800, 140) ∷ (700, 130) ∷ (600, 90) ∷ []

judge-behind_iff_example : ((judge 120 2 1000 130 (streak_after 120 2 history)).1 ≡ behind) ↔ (
    (120 ≤ 130)
    × (2 ≤ length (130 ∷ late_run 120 history))
    × (oldest 130 (late_run 120 history) ≤ 130)
    × ((told 2 (late_run 120 history) ≡ false) ⊎ (length (130 ∷ late_run 120 history) % 2 ≡ 0)))
judge-behind_iff_example = judge-behind_iff 120 2 1000 130 history (omega arith)

-- Lateness that falls at every decode but the first.
abbrev falling : List (ℕ × ℕ)
falling = (20, 500) ∷ (30, 400) ∷ (40, 300) ∷ (50, 200) ∷ []

last_status-sustained_example : last_status 120 5 no_streak ((10, 130) ∷ falling) ≡ behind
last_status-sustained_example =
    last_status-sustained 120 5 10 130 (20, 500) ((30, 400) ∷ (40, 300) ∷ (50, 200) ∷ [])
      (omega arith) (omega arith, (omega arith, (omega arith, (omega arith, tt)))) refl
