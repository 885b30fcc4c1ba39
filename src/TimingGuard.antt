-- ===== src/TimingGuard.antt =====
-- wspr_recorder/timing_guard.py: the two strike counters that decide when a receiver is re-anchored,
-- and the evidence that each gives the recovery ladder. Floating-point numbers are a parameter: the
-- guards only compare them and take an absolute value.
pub mod Strikes
mod Tests
use wspr_recorder.Common.{
  ℕ, suc, ◌+◌, Bool, true, false, ◌||◌, Option, none, some, ltb, leb, if◌then◌else◌, List, [], ◌∷◌,
}

pub record Floats : Type 1 where
  pub Float : Type 0
  pub abs : Float → Float
  -- `a <= b`, false where one is not a number
  pub le : Float → Float → Bool
  -- `a < b`
  pub lt : Float → Float → Bool

module _ (F : Floats) where
  open F use {Float, abs, le, lt}

  pub record DtGuardConfig : Type 0 where
    pub threshold_sec : Float
    pub min_spots : ℕ
    pub cycles : ℕ

  unfoldable pub dt_guard_evidence : Option Float → ℕ → DtGuardConfig → Bool → Option Bool
  dt_guard_evidence avg_dt n_spots cfg true = some false
  dt_guard_evidence none n_spots cfg false = none
  dt_guard_evidence (some dt) n_spots cfg false =
      if ltb n_spots cfg.min_spots
      then none
      else if le (abs dt) cfg.threshold_sec
      then some true
      else none

  -- The new count of strikes, and whether the guard fires.
  unfoldable pub dt_guard_step : ℕ → Option Float → ℕ → DtGuardConfig → ℕ × Bool
  dt_guard_step strikes none n_spots cfg = (strikes, false)
  dt_guard_step strikes (some dt) n_spots cfg =
      if ltb n_spots cfg.min_spots
      then (strikes, false)
      else if le (abs dt) cfg.threshold_sec
      then (0, false)
      else if leb cfg.cycles (strikes + 1)
      then (0, true)
      else (strikes + 1, false)

  pub record WallClockGuardConfig : Type 0 where
    pub threshold_sec : Float
    pub strikes : ℕ
    pub min_completeness_pct : Float

  unfoldable pub wallclock_guard_evidence :
      Option Float → Float → WallClockGuardConfig → Bool → Option Bool
  wallclock_guard_evidence early_by_sec pct cfg true = some false
  wallclock_guard_evidence none pct cfg false = none
  wallclock_guard_evidence (some early) pct cfg false =
      if lt pct cfg.min_completeness_pct
      then none
      else if le early cfg.threshold_sec
      then some true
      else none

  unfoldable pub wallclock_guard_step : ℕ → Option Float → Float → WallClockGuardConfig → ℕ × Bool
  wallclock_guard_step strikes none pct cfg = (strikes, false)
  wallclock_guard_step strikes (some early) pct cfg =
      if lt pct cfg.min_completeness_pct
      then (strikes, false)
      else if le early cfg.threshold_sec
      then (0, false)
      else if leb cfg.strikes (strikes + 1)
      then (0, true)
      else (strikes + 1, false)
