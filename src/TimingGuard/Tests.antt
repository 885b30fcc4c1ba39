-- ===== src/TimingGuard/Tests.antt =====
-- The timing guards on small inputs, over whole numbers.
use wspr_recorder.Common.{
  ℕ, ◌+◌, ◌*◌, ◌<◌, ◌≡◌, refl, arith, Option, some, leb, ltb, List, [], ◌∷◌, map,
}
use wspr_recorder.TimingGuard.{Floats, DtGuardConfig, dt_guard_step}
use wspr_recorder.TimingGuard.Strikes.{run, offences, dt_verdict, dt_guard_step-run}

abbrev whole : Floats
whole = record { Float = ℕ; abs = λ x. x; le = leb; lt = ltb }

abbrev dt_config : DtGuardConfig whole
dt_config = record { threshold_sec = 2; min_spots = 5; cycles = 3 }

-- Two cycles beyond the threshold, one with too few spots, and one beyond it again.
abbrev cycles : List (Option ℕ × ℕ)
cycles = (some 4, 9) ∷ (some 3, 8) ∷ (some 9, 1) ∷ (some 7, 6) ∷ []

dt_fires : run (λ s c. dt_guard_step whole s c.0 c.1 dt_config) 0 cycles ≡ (0, 1)
unfolding run dt_guard_step
dt_fires = refl

dt_guard_step-run_example :
    let (left, fired) = run (λ s c. dt_guard_step whole s c.0 c.1 dt_config) 0 cycles in
    (3 * fired + left ≡ 0 + offences (map (dt_verdict whole dt_config) cycles)) × (left < 3)
dt_guard_step-run_example =
    dt_guard_step-run whole dt_config 0 cycles (omega arith)
      (λ h. h, (λ h. h, (λ h. h, (λ h. h, tt))))
