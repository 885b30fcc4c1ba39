-- ===== src/CycleBatcher/Wakes.antt =====
-- How often `CycleBatcher` of wspr_recorder/spot_sink.py wakes the uploader for a cycle.
use Prim.Native.String.{String}
use wspr_recorder.Common.{
  ℕ, ◌+◌, ◌≤◌, Bool, false, List, [], ◌∷◌, ◌++◌, ◌≡◌, refl, ap, ◌∙◌, arith, inl, inr, if◌then◌else◌,
  if_intro, leb,
}
use wspr_recorder.Common.Dict.{
  Dict, same, contains, contains-set_add, set_add, superset, string_eq, pair_eq,
}
use wspr_recorder.Common.Totals.{same-cases}
use wspr_recorder.CycleBatcher.{CycleKey, Key, Batch, Batcher}
use wspr_recorder.CycleBatcher.Writer.{
  Task, flush, cross, Event, warned, submitted, judged, notified, woke, scheduled, take_turn,
  commit_rx, null, collect, Collected, cross_scan, cross_turn, cross_verdict, Verdict, skip, fire,
  hold, after_verdict, cross_one, missing_rx, Crossed, is_complete,
}
use wspr_recorder.CycleBatcher.Inputs.{leftovers}

-- 1 where a test holds.
abbrev pub one_if : Bool → ℕ
one_if b = if b then 1 else 0

-- How often a log wakes the uploader for a cycle, at once or by a timer.
abbrev pub wakes : {S N D : Type 0} → CycleKey → List (Event S N D) → ℕ
wakes c [] = 0
wakes c (woke a ∷ es) = one_if (same c a) + wakes c es
wakes c (scheduled a delay ∷ es) = one_if (same c a) + wakes c es
wakes c (submitted b ∷ es) = wakes c es
wakes c (warned a missing ∷ es) = wakes c es
wakes c (judged rx dt n ∷ es) = wakes c es
wakes c (notified ∷ es) = wakes c es

-- How many tasks are wakes for a cycle.
abbrev pub crosses : {S N : Type 0} → CycleKey → List (Task S N) → ℕ
crosses c [] = 0
crosses c (cross a missing ∷ ts) = one_if (same c a) + crosses c ts
crosses c (flush b late ∷ ts) = crosses c ts

-- 1 where the cycle's wake is marked as fired.
abbrev pub fired : {S N : Type 0} → CycleKey → Batcher S N → ℕ
fired c s = one_if (contains s.cycle_wake_fired c)

pub wakes-append :
    {S N D : Type 0} (c : CycleKey) (es fs : List (Event S N D))
    → wakes c (es ++ fs) ≡ wakes c es + wakes c fs
wakes-append c [] fs = omega arith
wakes-append c (woke a ∷ es) fs = omega (arith, wakes-append c es fs)
wakes-append c (scheduled a delay ∷ es) fs = omega (arith, wakes-append c es fs)
wakes-append c (submitted b ∷ es) fs = wakes-append c es fs
wakes-append c (warned a missing ∷ es) fs = wakes-append c es fs
wakes-append c (judged rx dt n ∷ es) fs = wakes-append c es fs
wakes-append c (notified ∷ es) fs = wakes-append c es fs

crosses-append :
    {S N : Type 0} (c : CycleKey) (ts us : List (Task S N))
    → crosses c (ts ++ us) ≡ crosses c ts + crosses c us
crosses-append c [] us = omega arith
crosses-append c (cross a missing ∷ ts) us = omega (arith, crosses-append c ts us)
crosses-append c (flush b late ∷ ts) us = crosses-append c ts us

-- Marking a cycle that is not marked pays for one wake of it.
set_add-marks :
    (c a : CycleKey) (marked : List CycleKey)
    → contains marked a ≡ false
    → one_if (same c a) + one_if (contains marked c) ≤ one_if (contains (set_add a marked) c)
set_add-marks c a marked h = rw (contains-set_add a c marked) (elim (same-cases c a) [
  | inl (e, t) ↦ rw t (rw (ap (contains marked) e ∙ h) (omega arith))
  | inr f ↦ rw f (omega arith)
])

module _ {S N : Type 0} (c : CycleKey) where
  collect-crosses : (now : ℕ) (d : Dict Key (Batch S N)) → crosses c (collect now d).ready ≡ 0
  unfolding collect
  collect-crosses now [] = refl
  collect-crosses now ((k, b) ∷ d) =
      let rest = collect-crosses now d in
      if_intro (λ (x : Collected S N). crosses c x.ready ≡ 0) (is_complete b) (λ _. rest)
        (λ _.
          if_intro (λ (x : Collected S N). crosses c x.ready ≡ 0) (leb b.deadline now) (λ _. rest)
            (λ _. rest))

  pub crosses-leftovers : (bs : List (Batch S N)) → crosses c (leftovers bs) ≡ 0
  crosses-leftovers [] = refl
  crosses-leftovers (b ∷ bs) = crosses-leftovers bs

  -- A state in which the cycle's marks pay for `n` wakes more than before.
  abbrev pub Pays : ℕ → Batcher S N → Batcher S N → Type 0
  Pays n s t = (n + fired c s ≤ fired c t) × (t.expected_rx_sources ≡ s.expected_rx_sources)

  -- One verdict of the scan.
  verdict-Pays :
      (v : Verdict) (a : CycleKey) (missing : List String) (r : Crossed S N) (s : Batcher S N)
      → (v ≡ fire → contains s.cycle_wake_fired a ≡ false)
      → Pays (crosses c r.fires) (after_verdict v a s) r.state
      → Pays (crosses c (cross_one v a missing r).fires) s (cross_one v a missing r).state
  verdict-Pays skip a missing r s h p = p
  verdict-Pays (hold t) a missing r s h p = p
  verdict-Pays fire a missing r s h p =
      (omega (arith, set_add-marks c a s.cycle_wake_fired (h refl), p.0), p.1)

  cross_verdict-fire :
      (now : ℕ) (a : CycleKey) (first : ℕ) (s : Batcher S N)
      → cross_verdict now a first s ≡ fire
      → contains s.cycle_wake_fired a ≡ false
  cross_verdict-fire now a first s h = ground arith

  cross_scan-Pays :
      (now : ℕ) (d : Dict CycleKey ℕ) (s : Batcher S N)
      → Pays (crosses c (cross_scan now d s).fires) s (cross_scan now d s).state
  unfolding cross_scan
  cross_scan-Pays now [] s = (omega arith, refl)
  cross_scan-Pays now ((a, first) ∷ d) s =
      let v = cross_verdict now a first s in
      verdict-Pays v a (missing_rx a s) (cross_scan now d (after_verdict v a s)) s
        (cross_verdict-fire now a first s) (cross_scan-Pays now d (after_verdict v a s))

  -- A turn sets a cycle's wake aside only with its mark.
  pub take_turn-Pays :
      (now : ℕ) (s : Batcher S N)
      → Pays (crosses c (take_turn now s).tasks) s (take_turn now s).after
  unfolding take_turn cross_turn
  take_turn-Pays now s =
      let x = cross_turn now (record s { batches = (collect now s.batches).kept }) in
      let paid : Pays (crosses c x.fires) s x.state =
        if_intro (λ (y : Crossed S N). Pays (crosses c y.fires) s y.state)
          (null s.expected_rx_sources) (λ _. (omega arith, refl))
          (λ _. cross_scan-Pays now s.cycle_first_commit_at _) in
      (
        omega (
          arith,
          crosses-append c (collect now s.batches).ready x.fires,
          collect-crosses now s.batches,
          paid.0,
        ),
        paid.1,
      )

  -- A commit lets the wake fire only with the cycle's mark.
  pub commit_rx-Pays :
      (now : ℕ) (a : CycleKey) (rx : String) (s : Batcher S N)
      → null s.expected_rx_sources ≡ false
      → Pays (if (commit_rx now a rx s).0 then one_if (same c a) else 0) s (commit_rx now a rx s).1
  unfolding commit_rx
  commit_rx-Pays now a rx s h =
      if_intro Paid (null s.expected_rx_sources) (λ t. absurd (ground arith))
        (λ _.
          if_intro Paid (contains s.cycle_wake_fired a) (λ _. (omega arith, refl))
            (λ f.
              if_intro Paid (superset _ s.expected_rx_sources)
                (λ _. (set_add-marks c a s.cycle_wake_fired f, refl)) (λ _. (omega arith, refl))))
    where
      Paid : Bool × Batcher S N → Type 0
      Paid r = Pays (if r.0 then one_if (same c a) else 0) s r.1
