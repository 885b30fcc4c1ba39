-- ===== src/BandRecorder/TierRuns.antt =====
-- What the tier alarm says after any run of minutes.
use Prim.Native.String.{String}
use native.Mathlib.Nat.{zero-mod, mod-lt, mod-eq_of_lt, mod_self, suc-mod}
use wspr_recorder.Common.{
  ℕ, suc, ◌+◌, ◌%◌, Bool-cases, ◌&&◌, ◌==◌, sym, ap, subst, ◌∙◌, ◌≤◌, ◌<◌, ◌≡◌, refl, inl, inr,
  true, false, Option, none, some, arith, leb, if◌then◌else◌, List, [], ◌∷◌, length,
}
use wspr_recorder.BandRecorder.{Config, TierAlarm}
use wspr_recorder.BandRecorder.Alarm.{rank_of, note_tier, check_coldstart, check_floor, check_tier}
use wspr_recorder.BandRecorder.TierHistory.{
  reaches_floor, below_floor, alarm_at, alarms, best_of, started_cold,
}

-- The state that `__init__` makes.
abbrev pub quiet_alarm : TierAlarm
quiet_alarm = record {
  strikes = 0;
  seen_ok = false;
  faults = 0;
  last_active = none;
  boundaries_since_start = 0;
  best_rank = none;
  coldstart_faulted = false;
}

module _ (c : Config) where
  -- The alarm after the tiers of a run, the latest first.
  abbrev pub run_tiers : List (Option String) → TierAlarm
  run_tiers [] = quiet_alarm
  run_tiers (t ∷ ts) = check_tier c t (run_tiers ts)

  -- The alarm counts the minutes and keeps the best tier; it is armed when the floor has been reached;
  -- the strikes that pend are the tiers below the floor since then, less the full rows; a cold start
  -- is noted where it was one; and the faults are one for each full row and one for a cold start.
  pub record Agrees (ts : List (Option String)) (t : TierAlarm) : Type 0 where
    pub minutes : t.boundaries_since_start ≡ length ts
    pub best : t.best_rank ≡ best_of ts
    pub armed : t.seen_ok ≡ reaches_floor c ts
    pub pending : t.strikes ≡ below_floor c ts % (alarm_at c)
    pub cold : t.coldstart_faulted ≡ started_cold c ts
    pub filed : t.faults ≡ alarms c ts + (if t.coldstart_faulted then 1 else 0)

  abbrev pub after_minute : Option String → Option ℕ → TierAlarm → TierAlarm
  after_minute active rank t = check_floor c rank (check_coldstart c (note_tier active rank t))

  -- One more strike: the row is full, or not yet.
  row_full :
      (b s : ℕ) → s ≡ b % (alarm_at c) → c.tier_alarm_after ≤ s + 1 → suc b % (alarm_at c) ≡ 0
  row_full b s p h =
      let l = mod-lt b {m = alarm_at c} (omega arith) in
      suc-mod b (alarm_at c)
      ∙ ap (λ x. x % (alarm_at c))
          (let e : suc (b % (alarm_at c)) ≡ (alarm_at c) = omega (arith, l, p) in e)
      ∙ mod_self (alarm_at c)

  row_grows :
      (b s : ℕ) → s ≡ b % (alarm_at c) → s + 1 < c.tier_alarm_after → suc b % (alarm_at c) ≡ suc s
  row_grows b s p h =
      suc-mod b (alarm_at c)
      ∙ mod-eq_of_lt {n = suc (b % (alarm_at c))} {m = alarm_at c} (omega (arith, p))
      ∙ ap suc (sym p)

  -- One verdict on the floor, over counts `b` of tiers below it and `n` of alarms c.
  record Counts (b n cold : ℕ) (t : TierAlarm) : Type 0 where
    strikes : t.strikes ≡ b % (alarm_at c)
    faults : t.faults ≡ n + cold

  degraded-Counts :
      (k b n cold : ℕ) (u : TierAlarm)
      → leb c.tier_floor_rank k ≡ false
      → u.seen_ok ≡ true
      → Counts b n cold u
      → Counts
          (suc b)
          (if suc b % (alarm_at c) == 0 then suc n else n)
          cold
          (check_floor c (some k) u)
  unfolding check_floor
  degraded-Counts k b n cold u h seen a =
      elim (Bool-cases (leb c.tier_alarm_after (u.strikes + 1))) [
        | inl full ↦
            let z = row_full b u.strikes a.strikes (ground arith) in
            record { strikes = ground (arith, z); faults = ground (arith, z, a.faults) }
        | inr short ↦
            let z = row_grows b u.strikes a.strikes (ground arith) in
            record { strikes = ground (arith, z); faults = ground (arith, z, a.faults) }
      ]

  check_floor-Counts :
      (rank : Option ℕ) (b n cold : ℕ) (u : TierAlarm)
      → Counts b n cold u
      → Counts
          (elim rank [
            | none ↦ b
            | some k ↦ if leb c.tier_floor_rank k then 0 else if u.seen_ok then suc b else b
          ])
          (elim rank [
            | none ↦ n
            | some k ↦
                if leb c.tier_floor_rank k
                then n
                else if u.seen_ok && suc b % (alarm_at c) == 0
                then suc n
                else n
          ])
          cold
          (check_floor c rank u)
  unfolding check_floor
  check_floor-Counts none b n cold u a = a
  check_floor-Counts (some k) b n cold u a = elim (Bool-cases (leb c.tier_floor_rank k)) [
    | inl ok ↦ record {
      strikes = rw ok (sym (zero-mod (alarm_at c)));
      faults = ground (arith, a.faults);
    }
    | inr low ↦ elim (Bool-cases u.seen_ok) [
      | inl seen ↦
          let d = degraded-Counts k b n cold u low seen a in
          record { strikes = ground (arith, d.strikes); faults = ground (arith, d.faults) }
      | inr unseen ↦ record {
        strikes = ground (arith, a.strikes);
        faults = ground (arith, a.faults);
      }
    ]
  ]

  -- The verdict on the cold start leaves the strikes alone and files its own fault.
  started-Counts :
      (active : Option String) (rank : Option ℕ) (ts : List (Option String)) (t : TierAlarm)
      → Agrees ts t
      → let u = check_coldstart c (note_tier active rank t) in
        Counts (below_floor c ts) (alarms c ts) (if u.coldstart_faulted then 1 else 0) u
        × (u.seen_ok ≡ reaches_floor c ts)
  unfolding check_coldstart note_tier
  started-Counts active rank ts t a = (
    record { strikes = ground (arith, a.pending); faults = ground (arith, a.filed) },
    ground (arith, a.armed),
  )

  check_floor-coldstart :
      (rank : Option ℕ) (u : TierAlarm)
      → (check_floor c rank u).coldstart_faulted ≡ u.coldstart_faulted
  unfolding check_floor
  check_floor-coldstart rank u = ground arith

  next :
      (active : Option String) (ts : List (Option String)) (t : TierAlarm)
      → Agrees ts t
      → Agrees (active ∷ ts) (after_minute active (rank_of active) t)
  unfolding check_floor check_coldstart note_tier
  next active ts t a = record {
    minutes = ground (arith, a.minutes);
    best = ground (arith, a.best);
    armed = ground (arith, a.armed);
    pending = d.strikes;
    cold = ground (arith, a.cold, a.minutes, a.best);
    filed = rw (check_floor-coldstart (rank_of active) u) d.faults;
  }
    where
      u : TierAlarm
      u = check_coldstart c (note_tier active (rank_of active) t)

      r :
          Counts (below_floor c ts) (alarms c ts) (if u.coldstart_faulted then 1 else 0) u
          × (u.seen_ok ≡ reaches_floor c ts)
      r = started-Counts active (rank_of active) ts t a

      d :
          Counts
            (below_floor c (active ∷ ts))
            (alarms c (active ∷ ts))
            (if u.coldstart_faulted then 1 else 0)
            (check_floor c (rank_of active) u)
      d =
          subst
            (λ seen.
              Counts
                (elim (rank_of active) [
                  | none ↦ below_floor c ts
                  | some k ↦
                      if leb c.tier_floor_rank k
                      then 0
                      else if seen
                      then suc (below_floor c ts)
                      else below_floor c ts
                ])
                (elim (rank_of active) [
                  | none ↦ alarms c ts
                  | some k ↦
                      if leb c.tier_floor_rank k
                      then alarms c ts
                      else if seen && suc (below_floor c ts) % (alarm_at c) == 0
                      then suc (alarms c ts)
                      else alarms c ts
                ])
                (if u.coldstart_faulted then 1 else 0) (check_floor c (rank_of active) u))
            r.1 (check_floor-Counts (rank_of active) _ _ _ u r.0)

  -- After any run of minutes, whatever tiers they read, the alarm agrees with the run.
  pub run_tiers-Agrees : (ts : List (Option String)) → Agrees ts (run_tiers ts)
  unfolding check_tier
  run_tiers-Agrees [] = record {
    minutes = refl;
    best = refl;
    armed = refl;
    pending = sym (zero-mod (alarm_at c));
    cold = refl;
    filed = refl;
  }
  run_tiers-Agrees (t ∷ ts) = next t ts (run_tiers ts) (run_tiers-Agrees ts)
