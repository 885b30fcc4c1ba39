-- ===== src/CycleBatcher/Keyed.antt =====
-- The batches of `CycleBatcher` of wspr_recorder/spot_sink.py under their keys, and which calls
-- leave them alone.
use Prim.Native.String.{String}
use wspr_recorder.Common.{
  ℕ, Bool, true, false, Option, none, List, [], ◌∷◌, ◌≡◌, refl, ap, ◌∙◌, All, arith, inl, inr,
  if_intro, leb, ltb, ◌==◌, ◌&&◌, not, List-cases,
}
use wspr_recorder.Common.Dict.{
  Dict, lookup, upsert, adjust, NodupKeys, upsert-NodupKeys, adjust-NodupKeys, string_eq, pair_eq,
}
use wspr_recorder.Common.Totals.{All-upsert, All-adjust}
use wspr_recorder.CycleBatcher.{
  CycleKey, Key, Batch, Batcher, expect_band, mark_done, add, add_noise, set_wake_callback,
  set_bands_by_source, set_band_producible, set_expected_rx_sources, batch_add, batch_add_noise,
  expect_in, complete_in, expecting_batch, legacy_batch,
}
use wspr_recorder.CycleBatcher.Writer.{
  Sink, Task, flush, cross, collect, is_complete, cross_scan, cross_turn, cross_verdict, skip, fire,
  hold, Verdict, after_verdict, cross_one, Crossed, Collected, Event, take_turn, commit_rx, null,
}
use wspr_recorder.CycleBatcher.Inputs.{
  Input, callback_set, bands_set, producible_set, receivers_set, band_expected, band_done,
  spots_added, noise_added, turn, work, stop_set, drained, World, schedule_wake, wake_if,
  on_per_rx_committed, after_flush, submit_all, flush_batch, work_task, step,
}

module _ {S N : Type 0} where
  abbrev pub key_of : Batch S N → Key
  key_of b = (b.cycle_key, b.rx_source)

  -- Each batch is kept under its own cycle and receiver, and no key is there twice.
  pub record IsKeyed (d : Dict Key (Batch S N)) : Type 0 where
    pub own : All (λ (k, b). key_of b ≡ k) d
    pub nodup : NodupKeys d

  upsert-IsKeyed :
      (k : Key) (new : Batch S N) (f : Batch S N → Batch S N) (d : Dict Key (Batch S N))
      → key_of (f new) ≡ k
      → ((b : Batch S N) → key_of (f b) ≡ key_of b)
      → IsKeyed d
      → IsKeyed (upsert k new f d)
  upsert-IsKeyed k new f d n c v = record {
    own = All-upsert (λ (i, b). key_of b ≡ i) k new f d n (λ j b h. c b ∙ h) v.own;
    nodup = upsert-NodupKeys k new f d v.nodup;
  }

  adjust-IsKeyed :
      (k : Key) (f : Batch S N → Batch S N) (d : Dict Key (Batch S N))
      → ((b : Batch S N) → key_of (f b) ≡ key_of b)
      → IsKeyed d
      → IsKeyed (adjust k f d)
  adjust-IsKeyed k f d c v = record {
    own = All-adjust (λ (i, b). key_of b ≡ i) k f d (λ j b h. c b ∙ h) v.own;
    nodup = adjust-NodupKeys k f d v.nodup;
  }

  collect-missing :
      (now : ℕ) (k : Key) (d : Dict Key (Batch S N))
      → lookup k d ≡ none
      → lookup k (collect now d).kept ≡ none
  unfolding collect lookup
  collect-missing now k [] h = refl
  collect-missing now k ((j, b) ∷ d) h = ground (arith, collect-missing now k d)

  pub collect-IsKeyed :
      (now : ℕ) (d : Dict Key (Batch S N)) → IsKeyed d → IsKeyed (collect now d).kept
  unfolding collect
  collect-IsKeyed now [] v = v
  collect-IsKeyed now ((k, b) ∷ d) v =
      let rest = collect-IsKeyed now d (record { own = v.own.1; nodup = v.nodup.1 }) in
      if_intro (λ (c : Collected S N). IsKeyed c.kept) (is_complete b) (λ _. rest)
        (λ _.
          if_intro (λ (c : Collected S N). IsKeyed c.kept) (leb b.deadline now) (λ _. rest)
            (λ _. record {
              own = (v.own.0, rest.own);
              nodup = (collect-missing now k d v.nodup.0, rest.nodup);
            }))

  after_verdict-batches :
      (v : Verdict) (c : CycleKey) (s : Batcher S N) → (after_verdict v c s).batches ≡ s.batches
  after_verdict-batches skip c s = refl
  after_verdict-batches fire c s = refl
  after_verdict-batches (hold t) c s = refl

  pub cross_one-state :
      (v : Verdict) (c : CycleKey) (missing : List String) (r : Crossed S N)
      → (cross_one v c missing r).state ≡ r.state
  cross_one-state skip c missing r = refl
  cross_one-state fire c missing r = refl
  cross_one-state (hold t) c missing r = refl

  cross_scan-batches :
      (now : ℕ) (d : Dict CycleKey ℕ) (s : Batcher S N)
      → (cross_scan now d s).state.batches ≡ s.batches
  unfolding cross_scan
  cross_scan-batches now [] s = refl
  cross_scan-batches now ((c, first) ∷ d) s =
      ap (λ r. r.batches) (cross_one-state (cross_verdict now c first s) c _ _)
      ∙ cross_scan-batches now d _
      ∙ after_verdict-batches (cross_verdict now c first s) c s

  -- A turn keeps the batches that the scan keeps.
  pub take_turn-batches :
      (now : ℕ) (s : Batcher S N) → (take_turn now s).after.batches ≡ (collect now s.batches).kept
  unfolding take_turn cross_turn
  take_turn-batches now s =
      if_intro (λ (x : Crossed S N). x.state.batches ≡ (collect now s.batches).kept)
        (null s.expected_rx_sources) (λ _. refl)
        (λ _. cross_scan-batches now s.cycle_first_commit_at _)

  commit_rx-batches :
      (now : ℕ) (c : CycleKey) (rx : String) (s : Batcher S N)
      → (commit_rx now c rx s).1.batches ≡ s.batches
  unfolding commit_rx
  commit_rx-batches now c rx s = ground arith

module _ {S N : Type 0} (D : Type 0) where
  schedule_wake-batches :
      (now wall : ℕ) (c : CycleKey) (s : Batcher S N)
      → (schedule_wake {D = D} now wall c s).0.batches ≡ s.batches
  unfolding schedule_wake
  schedule_wake-batches now wall c s = ground arith

  wake_if-batches :
      (b : Bool) (now wall : ℕ) (c : CycleKey) (s : Batcher S N)
      → (wake_if {D = D} b now wall c s).0.batches ≡ s.batches
  wake_if-batches false now wall c s = refl
  wake_if-batches true now wall c s = schedule_wake-batches now wall c s

  committed-batches :
      (now wall : ℕ) (b : Batch S N) (s : Batcher S N)
      → (on_per_rx_committed {D = D} now wall b s).0.batches ≡ s.batches
  unfolding on_per_rx_committed
  committed-batches now wall b s =
      if_intro (λ (r : Batcher S N × List (Event S N D)). r.0.batches ≡ s.batches) s.callback
        (λ _.
          wake_if-batches (commit_rx now b.cycle_key b.rx_source s).0 now wall b.cycle_key _
          ∙ commit_rx-batches now b.cycle_key b.rx_source s)
        (λ _. refl)

module _ {T S N D : Type 0} (api : Sink T S N) (average : Dict String (List S) → Option D) where
  after_flush-batches :
      (n m now wall : ℕ) (b : Batch S N) (s : Batcher S N)
      → (after_flush api average n m now wall b s).0.batches ≡ s.batches
  unfolding after_flush
  after_flush-batches n m now wall b s =
      if_intro (λ (r : Batcher S N × List (Event S N D)). r.0.batches ≡ s.batches)
        (n == 0 && m == 0) (λ _. refl)
        (λ _.
          if_intro (λ (r : Batcher S N × List (Event S N D)). r.0.batches ≡ s.batches) (ltb 0 n)
            (λ _. committed-batches D now wall b s) (λ _. refl))

  -- The work on a task leaves the batches alone.
  pub work_task-batches :
      (now wall : ℕ) (t : Task S N) (w : World T S N D)
      → (work_task api average now wall t w).batcher.batches ≡ w.batcher.batches
  unfolding work_task flush_batch
  work_task-batches now wall (flush b is_backstop) w =
      let n = (submit_all api b w.sink).0 in after_flush-batches n.0 n.1 now wall b w.batcher
  work_task-batches now wall (cross c missing) w =
      if_intro (λ (x : World T S N D). x.batcher.batches ≡ w.batcher.batches) w.batcher.callback
        (λ _. schedule_wake-batches D now wall c w.batcher) (λ _. refl)

  module _ (epoch : CycleKey → Option ℕ) where
    -- Every step keeps each batch under its own cycle and receiver, and no key twice.
    pub step-IsKeyed :
        (i : Input S N) (w : World T S N D)
        → IsKeyed w.batcher.batches
        → IsKeyed (step api average epoch i w).batcher.batches
    unfolding step expect_band mark_done add add_noise set_wake_callback set_bands_by_source
        set_band_producible set_expected_rx_sources batch_add batch_add_noise
    step-IsKeyed (callback_set given) w v = v
    step-IsKeyed (bands_set bands) w v = v
    step-IsKeyed (producible_set rx band can) w v = v
    step-IsKeyed (receivers_set sources) w v = v
    step-IsKeyed (band_expected now c band radiod rx) w v =
        upsert-IsKeyed (c, rx) (expecting_batch epoch now c radiod rx w.batcher) (expect_in band)
          w.batcher.batches refl (λ b. refl) v
    step-IsKeyed (band_done c band rx) w v =
        adjust-IsKeyed (c, rx) (complete_in band) w.batcher.batches (λ b. refl) v
    step-IsKeyed (spots_added now c band [] radiod rx) w v = v
    step-IsKeyed (spots_added now c band (x ∷ xs) radiod rx) w v =
        upsert-IsKeyed (c, rx) (legacy_batch now c radiod rx w.batcher) (batch_add band (x ∷ xs))
          w.batcher.batches refl (λ b. refl) v
    step-IsKeyed (noise_added now c band noise radiod rx) w v =
        upsert-IsKeyed (c, rx) (legacy_batch now c radiod rx w.batcher) (batch_add_noise band noise)
          w.batcher.batches refl (λ b. refl) v
    step-IsKeyed (turn now) w v =
        if_intro (λ (x : World T S N D). IsKeyed x.batcher.batches)
          (null w.tasks && not w.batcher.is_stopped)
          (λ _. rw (take_turn-batches now w.batcher) (collect-IsKeyed now w.batcher.batches v))
          (λ _. v)
    step-IsKeyed (work now wall) w v = elim (List-cases w.tasks) [
      | inl h ↦ rw h v
      | inr (t, ts, h) ↦ rw h (rw (work_task-batches now wall t (record w { tasks = ts })) v)
    ]
    step-IsKeyed stop_set w v = v
    step-IsKeyed drained w v =
        if_intro (λ (x : World T S N D). IsKeyed x.batcher.batches)
          (null w.tasks && w.batcher.is_stopped) (λ _. record { own = tt; nodup = tt }) (λ _. v)
