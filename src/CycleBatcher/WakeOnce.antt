-- ===== src/CycleBatcher/WakeOnce.antt =====
-- That `CycleBatcher` of wspr_recorder/spot_sink.py wakes the uploader for a cycle at most once
-- where receivers are expected.
use Prim.Native.String.{String}
use wspr_recorder.Common.{
  ℕ, ◌+◌, ◌≤◌, Bool, true, false, Option, List, [], ◌∷◌, ◌++◌, ◌≡◌, refl, subst, ap, ◌∙◌, All,
  arith, inl, inr, if_intro, ◌&&◌, not, List-cases,
}
use wspr_recorder.Common.Dict.{Dict, contains, values, string_eq, pair_eq}
use wspr_recorder.CycleBatcher.{
  CycleKey, expect_band, mark_done, add, add_noise, set_wake_callback, set_bands_by_source,
  set_band_producible,
}
use wspr_recorder.CycleBatcher.Writer.{Event, Sink, Task, flush, cross, warned, submitted, null}
use wspr_recorder.CycleBatcher.Inputs.{
  Input, callback_set, bands_set, producible_set, receivers_set, band_expected, band_done,
  spots_added, noise_added, turn, work, stop_set, drained, World, schedule_wake, after_flush,
  submit_all, flush_batch, work_task, step, run, backstop_warning,
}
use wspr_recorder.CycleBatcher.Wakes.{
  one_if, wakes, crosses, fired, wakes-append, crosses-leftovers, take_turn-Pays,
}
use wspr_recorder.CycleBatcher.Accounts.{idle_work, busy_work}
use wspr_recorder.CycleBatcher.WakeEvents.{schedule_wake-Once, after_flush-Pays}

-- Whether an input leaves the expected receivers as they are.
abbrev pub keeps_receivers : {S N : Type 0} → Input S N → Bool
keeps_receivers (receivers_set sources) = false
keeps_receivers (callback_set given) = true
keeps_receivers (bands_set bands) = true
keeps_receivers (producible_set rx b can) = true
keeps_receivers (band_expected now c b radiod rx) = true
keeps_receivers (band_done c b rx) = true
keeps_receivers (spots_added now c b spots radiod rx) = true
keeps_receivers (noise_added now c b noise radiod rx) = true
keeps_receivers (turn now) = true
keeps_receivers (work now wall) = true
keeps_receivers stop_set = true
keeps_receivers drained = true

one_if-bound : (b : Bool) → one_if b ≤ 1
one_if-bound b = ground arith

module _ {T S N D : Type 0} (api : Sink T S N) (average : Dict String (List S) → Option D) where
  -- The wakes of a cycle that have come or are set aside.
  abbrev pub woken : CycleKey → World T S N D → ℕ
  woken c w = wakes c w.log + crosses c w.tasks

  -- Any more wakes of a cycle than before are paid by its mark.
  abbrev Spends : CycleKey → World T S N D → World T S N D → Type 0
  Spends c w x =
      (woken c x + fired c w.batcher ≤ woken c w + fired c x.batcher)
      × (x.batcher.expected_rx_sources ≡ w.batcher.expected_rx_sources)

  work_task-Spends :
      (c : CycleKey) (now wall : ℕ) (t : Task S N) (ts : List (Task S N)) (w : World T S N D)
      → null w.batcher.expected_rx_sources ≡ false
      → w.tasks ≡ t ∷ ts
      → Spends c w (work_task api average now wall t (record w { tasks = ts }))
  unfolding work_task flush_batch
  work_task-Spends c now wall (flush b late) ts w h p =
      let warning : List (Event S N D) = backstop_warning b late in
      let n = (submit_all api b w.sink).0 in
      let r = after_flush api average n.0 n.1 now wall b w.batcher in
      let paid = after_flush-Pays api average c n.0 n.1 now wall b w.batcher h in
      let quiet : wakes c warning ≡ 0 = ground arith in
      (
        omega (
          arith,
          wakes-append c (w.log ++ warning) (submitted b ∷ r.1),
          wakes-append c w.log warning,
          quiet,
          paid.0,
          ap (crosses c) p,
        ),
        paid.1,
      )
  work_task-Spends c now wall (cross a missing) ts w h p =
      let o = schedule_wake-Once D c now wall a w.batcher in
      let r = schedule_wake {D = D} now wall a w.batcher in
      if_intro (Spends c w) w.batcher.callback
        (λ _. (
          omega (arith, wakes-append c w.log (warned a missing ∷ r.1), o.0, o.1, ap (crosses c) p),
          o.2,
        ))
        (λ _. (omega (arith, wakes-append c w.log (warned a missing ∷ []), ap (crosses c) p), refl))

  step-Spends :
      (epoch : CycleKey → Option ℕ) (c : CycleKey) (i : Input S N) (w : World T S N D)
      → keeps_receivers i ≡ true
      → null w.batcher.expected_rx_sources ≡ false
      → Spends c w (step api average epoch i w)
  unfolding step expect_band mark_done add add_noise set_wake_callback set_bands_by_source
      set_band_producible
  step-Spends epoch c (callback_set given) w k h = (omega arith, refl)
  step-Spends epoch c (bands_set bands) w k h = (omega arith, refl)
  step-Spends epoch c (producible_set rx b can) w k h = (omega arith, refl)
  step-Spends epoch c (receivers_set sources) w k h = absurd (ground arith)
  step-Spends epoch c (band_expected now a b radiod rx) w k h = (omega arith, refl)
  step-Spends epoch c (band_done a b rx) w k h = (omega arith, refl)
  step-Spends epoch c (spots_added now a b [] radiod rx) w k h = (omega arith, refl)
  step-Spends epoch c (spots_added now a b (x ∷ xs) radiod rx) w k h = (omega arith, refl)
  step-Spends epoch c (noise_added now a b noise radiod rx) w k h = (omega arith, refl)
  step-Spends epoch c (turn now) w k h =
      if_intro (Spends c w) (null w.tasks && not w.batcher.is_stopped)
        (λ _. let paid = take_turn-Pays c now w.batcher in (omega (arith, paid.0), paid.1))
        (λ _. (omega arith, refl))
  step-Spends epoch c (work now wall) w k h = elim (List-cases w.tasks) [
    | inl e ↦
        subst (λ x. Spends c w x) (idle_work api average epoch now wall w e) (omega arith, refl)
    | inr (t, ts, e) ↦
        subst (λ x. Spends c w x) (busy_work api average epoch now wall t ts w e)
          (work_task-Spends c now wall t ts w h e)
  ]
  step-Spends epoch c stop_set w k h = (omega arith, refl)
  step-Spends epoch c drained w k h =
      if_intro (Spends c w) (null w.tasks && w.batcher.is_stopped)
        (λ _. (omega (arith, crosses-leftovers c (values w.batcher.batches)), refl))
        (λ _. (omega arith, refl))

  run-Spends :
      (epoch : CycleKey → Option ℕ) (c : CycleKey) (is : List (Input S N)) (w : World T S N D)
      → All (λ i. keeps_receivers i ≡ true) is
      → null w.batcher.expected_rx_sources ≡ false
      → Spends c w (run api average epoch is w)
  unfolding run
  run-Spends epoch c [] w k h = (omega arith, refl)
  run-Spends epoch c (i ∷ is) w k h =
      let x = step api average epoch i w in
      let p = step-Spends epoch c i w k.0 h in
      let q = run-Spends epoch c is x k.1 (ap null p.1 ∙ h) in (omega (arith, p.0, q.0), q.1 ∙ p.1)

  -- Where receivers are expected and no wake of the cycle is set aside, a run that does not set the
  -- receivers again wakes the uploader for the cycle at most once; and not at all where the cycle's
  -- wake is marked as fired.
  pub run-WakesOnce :
      (epoch : CycleKey → Option ℕ) (c : CycleKey) (is : List (Input S N)) (w : World T S N D)
      → All (λ i. keeps_receivers i ≡ true) is
      → null w.batcher.expected_rx_sources ≡ false
      → crosses c w.tasks ≡ 0
      → wakes c (run api average epoch is w).log + fired c w.batcher ≤ wakes c w.log + 1
  run-WakesOnce epoch c is w k h q =
      let p = run-Spends epoch c is w k h in
      omega (
        arith,
        p.0,
        q,
        one_if-bound (contains (run api average epoch is w).batcher.cycle_wake_fired c),
      )
