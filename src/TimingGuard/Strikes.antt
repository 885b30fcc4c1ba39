-- ===== src/TimingGuard/Strikes.antt =====
-- What a run of either guard over a sequence of cycles does, and how the evidence for the recovery
-- ladder relates to the step.
use wspr_recorder.Common.{
  ◌⊎◌, ℕ, suc, ◌+◌, ◌*◌, ◌<◌, ◌≡◌, refl, Bool, true, false, Option, none, some, ltb, leb,
  if◌then◌else◌, List, [], ◌∷◌, arith, All, map, Bool-cases, inl, inr, leb→le, leb-false→lt, ◌↔◌,
}
use wspr_recorder.TimingGuard.{
  Floats, wallclock_guard_evidence, DtGuardConfig, dt_guard_evidence, dt_guard_step,
  WallClockGuardConfig, wallclock_guard_step,
}

-- One observation as either guard reads it.
pub data Verdict : Type 0 where
  quiet : Verdict
  healthy : Verdict
  offending : Verdict

-- The shape that the two guards share.
abbrev pub strike : ℕ → ℕ → Verdict → ℕ × Bool
strike limit strikes quiet = (strikes, false)
strike limit strikes healthy = (0, false)
strike limit strikes offending = if leb limit (strikes + 1) then (0, true) else (strikes + 1, false)

abbrev pub fires : Bool → ℕ
fires true = 1
fires false = 0

abbrev pub IsHealthy : Verdict → Type 0
IsHealthy healthy = Unit
IsHealthy _ = ⊥

abbrev pub offences : List Verdict → ℕ
offences [] = 0
offences (offending ∷ vs) = suc (offences vs)
offences (_ ∷ vs) = offences vs

-- The strikes left after a run, and how often the guard fired.
module _ {ℓ} {O : Type ℓ} (step : ℕ → O → ℕ × Bool) where
  unfoldable pub run : ℕ → List O → ℕ × ℕ
  run strikes [] = (strikes, 0)
  run strikes (o ∷ os) =
      let (strikes', fired) = step strikes o in
      let (final, fired_later) = run strikes' os in (final, fires fired + fired_later)

-- The counter below its limit, and the number of times that it reached the limit.
record Counts (limit strikes : ℕ) (vs : List Verdict) (out : ℕ × ℕ) : Type 0 where
  total : limit * out.1 + out.0 ≡ strikes + offences vs
  below : out.0 < limit

run-Counts :
    (limit strikes : ℕ) (vs : List Verdict)
    → strikes < limit
    → All (λ v. ¬ IsHealthy v) vs
    → Counts limit strikes vs (run (strike limit) strikes vs)
unfolding run
run-Counts limit strikes [] h a = record { total = omega arith; below = h }
run-Counts limit strikes (quiet ∷ vs) h a =
    let c = run-Counts limit strikes vs h a.1 in
    record { total = omega (arith, c.total); below = c.below }
run-Counts limit strikes (healthy ∷ vs) h a = absurd (a.0 tt)
run-Counts limit strikes (offending ∷ vs) h a = elim (Bool-cases (leb limit (strikes + 1))) [
  | inl e ↦ rw e (
      let c = run-Counts limit 0 vs (omega arith) a.1 in
      record { total = omega (arith, c.total, leb→le _ _ e); below = c.below })
  | inr e ↦ rw e (
      let c = run-Counts limit (strikes + 1) vs (leb-false→lt _ _ e) a.1 in
      record { total = omega (arith, c.total); below = c.below })
]

-- A guard whose step is `strike` of its verdict runs as `strike` does.
run-map {ℓ} :
    {O : Type ℓ} (step : ℕ → O → ℕ × Bool) (verdict : O → Verdict) (limit : ℕ)
    → ((s : ℕ) (o : O) → step s o ≡ strike limit s (verdict o))
    → (strikes : ℕ) (os : List O)
    → run step strikes os ≡ run (strike limit) strikes (map verdict os)
unfolding run
run-map step verdict limit same strikes [] = refl
run-map step verdict limit same strikes (o ∷ os) =
    rw (same strikes o, run-map step verdict limit same (strike limit strikes (verdict o)).0 os)

module _ (F : Floats) where
  open F use {Float, abs, le, lt}

  -- How the dt guard reads a cycle: no average or too few spots, within the threshold, or beyond.
  abbrev pub dt_verdict : DtGuardConfig F → Option Float × ℕ → Verdict
  dt_verdict cfg (none, n) = quiet
  dt_verdict cfg (some dt, n) =
      if ltb n cfg.min_spots
      then quiet
      else if le (abs dt) cfg.threshold_sec
      then healthy
      else offending

  abbrev pub wallclock_verdict : WallClockGuardConfig F → Option Float × Float → Verdict
  wallclock_verdict cfg (none, pct) = quiet
  wallclock_verdict cfg (some early, pct) =
      if lt pct cfg.min_completeness_pct
      then quiet
      else if le early cfg.threshold_sec
      then healthy
      else offending

  dt_guard_step-strike :
      (cfg : DtGuardConfig F) (strikes : ℕ) (cycle : Option Float × ℕ)
      → dt_guard_step F strikes cycle.0 cycle.1 cfg
        ≡ strike cfg.cycles strikes (dt_verdict cfg cycle)
  unfolding dt_guard_step
  dt_guard_step-strike cfg strikes (none, n) = refl
  dt_guard_step-strike cfg strikes (some dt, n) = ground arith

  wallclock_guard_step-strike :
      (cfg : WallClockGuardConfig F) (strikes : ℕ) (slot : Option Float × Float)
      → wallclock_guard_step F strikes slot.0 slot.1 cfg
        ≡ strike cfg.strikes strikes (wallclock_verdict cfg slot)
  unfolding wallclock_guard_step
  wallclock_guard_step-strike cfg strikes (none, pct) = refl
  wallclock_guard_step-strike cfg strikes (some early, pct) = ground arith

  -- Over cycles none of which is healthy, and from fewer strikes than `cycles`, the dt guard fires once for every `cycles` offending
  -- ones, whatever quiet cycles lie between them: `cycles` times the fires plus the strikes left
  -- is the strikes before plus the offending cycles, and the strikes left stay below `cycles`.
  pub dt_guard_step-run :
      (cfg : DtGuardConfig F) (strikes : ℕ) (history : List (Option Float × ℕ))
      → strikes < cfg.cycles
      → All (λ v. ¬ IsHealthy v) (map (dt_verdict cfg) history)
      → let (left, fired) = run (λ s c. dt_guard_step F s c.0 c.1 cfg) strikes history in
        (cfg.cycles * fired + left ≡ strikes + offences (map (dt_verdict cfg) history))
        × (left < cfg.cycles)
  dt_guard_step-run cfg strikes history h a =
      rw (run-map _ (dt_verdict cfg) cfg.cycles (dt_guard_step-strike cfg) strikes history) (
        let c = run-Counts cfg.cycles strikes (map (dt_verdict cfg) history) h a in
        (c.total, c.below))

  -- Over minutes none of which is healthy, and from fewer strikes than the limit, the wall-clock
  -- guard fires once for every `strikes` offending ones: the limit times the fires plus the strikes
  -- left is the strikes before plus the offending minutes, and the strikes left stay below the limit.
  pub wallclock_guard_step-run :
      (cfg : WallClockGuardConfig F) (strikes : ℕ) (history : List (Option Float × Float))
      → strikes < cfg.strikes
      → All (λ v. ¬ IsHealthy v) (map (wallclock_verdict cfg) history)
      → let (left, fired) = run (λ s c. wallclock_guard_step F s c.0 c.1 cfg) strikes history in
        (cfg.strikes * fired + left ≡ strikes + offences (map (wallclock_verdict cfg) history))
        × (left < cfg.strikes)
  wallclock_guard_step-run cfg strikes history h a =
      rw
        (run-map _ (wallclock_verdict cfg) cfg.strikes (wallclock_guard_step-strike cfg) strikes
          history)
        (let c = run-Counts cfg.strikes strikes (map (wallclock_verdict cfg) history) h a in
          (c.total, c.below))

  -- The ladder is told "faulted" exactly when the dt guard fires, and is told anything only for a
  -- cycle that leaves no strike.
  pub dt_guard_evidence-step :
      (cfg : DtGuardConfig F) (strikes : ℕ) (avg_dt : Option Float) (n : ℕ)
      → let (left, fired) = dt_guard_step F strikes avg_dt n cfg in
        let evidence = dt_guard_evidence F avg_dt n cfg fired in
        ((evidence ≡ some false) ↔ (fired ≡ true)) × ((evidence ≡ none) ⊎ (left ≡ 0))
  unfolding dt_guard_step dt_guard_evidence
  dt_guard_evidence-step cfg strikes none n = ground arith
  dt_guard_evidence-step cfg strikes (some dt) n = ground arith

  -- The ladder is told "faulted" exactly when the wall-clock guard fires, and is told anything only
  -- for a minute that leaves no strike.
  pub wallclock_guard_evidence-step :
      (cfg : WallClockGuardConfig F) (strikes : ℕ) (early : Option Float) (pct : Float)
      → let (left, fired) = wallclock_guard_step F strikes early pct cfg in
        let evidence = wallclock_guard_evidence F early pct cfg fired in
        ((evidence ≡ some false) ↔ (fired ≡ true)) × ((evidence ≡ none) ⊎ (left ≡ 0))
  unfolding wallclock_guard_step wallclock_guard_evidence
  wallclock_guard_evidence-step cfg strikes none pct = ground arith
  wallclock_guard_evidence-step cfg strikes (some early) pct = ground arith
