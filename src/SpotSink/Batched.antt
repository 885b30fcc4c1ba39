-- ===== src/SpotSink/Batched.antt =====
-- `SpotSink` as the sink of `CycleBatcher`, both of wspr_recorder/spot_sink.py: the interface of the
-- batcher's writer, filled by the sink's operations.
use Prim.Native.String.{String}
use wspr_recorder.Common.{
  ℕ, ◌+◌, true, Option, List, [], ◌∷◌, ◌++◌, ◌≡◌, refl, ap, arith, inl, inr, ◌&&◌, not,
  if◌then◌else◌, if_intro, length, List-cases, subst,
}
use wspr_recorder.Common.Dict.{Dict}
use wspr_recorder.CycleBatcher.{CycleKey, Batch}
use wspr_recorder.CycleBatcher.Writer.{Sink, Task, flush as flush_task, cross, null}
use wspr_recorder.CycleBatcher.Inputs.{
  Input, callback_set, bands_set, producible_set, receivers_set, band_expected, band_done,
  spots_added, noise_added, turn, work, stop_set, drained, World, flush_batch, submit_all,
  work_task, step, run,
}
use wspr_recorder.CycleBatcher.Accounts.{
  submissions, submissions-work_task, batches_in_task, idle_work, busy_work,
}
use wspr_recorder.SpotSink.{
  DecodedSpot, Row, NoiseRow, Station, RowFields, spot_to_row, noise_to_row,
}
use wspr_recorder.SpotSink.Sink.{TableWriter, SpotSink, by_band, submit_rows, submit_noise, flush}
use wspr_recorder.SpotSink.Ledger.{ledger, has_writer, submit_rows-Counts}

-- How many spots batches hold.
abbrev pub handed : {S N : Type 0} → List (Batch S N) → ℕ
handed [] = 0
handed (b ∷ bs) = length (by_band b.bands) + handed bs

handed-append :
    {S N : Type 0} (bs cs : List (Batch S N)) → handed (bs ++ cs) ≡ handed bs + handed cs
handed-append [] cs = omega arith
handed-append (b ∷ bs) cs = omega (arith, handed-append bs cs)

module _ {W V R M Q P : Type 0} (spots : TableWriter W (Row Q))
    (noises : TableWriter V (NoiseRow P)) (fields : RowFields R Q) (noise_fields : RowFields M P)
    (station : Station) (opened : Option V) where
  -- `opened` is what opening a writer for the noise table gives.
  unfoldable pub batched : Sink (SpotSink W V) (DecodedSpot R) M
  unfolding submit_rows submit_noise flush by_band
  batched = record {
    submit_batches = λ bands radiod_id rx_source s.
        submit_rows spots (λ item. spot_to_row fields station item.0 radiod_id rx_source item.1)
          (by_band bands) s;
    submit_noise_batches = λ noise cycle_key radiod_id rx_source s.
        submit_noise noises opened
          (λ item. noise_to_row noise_fields station item.0 cycle_key radiod_id rx_source item.1)
          noise s;
    flush_sink = flush spots noises;
  }

  -- A sink that has its writer and counts `n` more rows than before.
  abbrev pub Counts : ℕ → SpotSink W V → SpotSink W V → Type 0
  Counts n s t = (ledger t ≡ ledger s + n) × (has_writer t ≡ true)

  flush-Counts : (n : ℕ) (s t : SpotSink W V) → Counts n s t → Counts n s (flush spots noises t)
  unfolding flush
  flush-Counts n s t c = (c.0, ground arith)

  submit_noise-Counts {ℓ} :
      {A : Type ℓ} (row : A → Option (NoiseRow P)) (items : List A) (n : ℕ) (s t : SpotSink W V)
      → Counts n s t
      → Counts n s (submit_noise noises opened row items t).1
  unfolding submit_noise
  submit_noise-Counts row items n s t c = ground arith

  -- A flush counts every spot of its batch, and keeps the writer.
  submit_all-Counts :
      (b : Batch (DecodedSpot R) M) (s : SpotSink W V)
      → has_writer s ≡ true
      → Counts (length (by_band b.bands)) s (submit_all batched b s).1
  unfolding submit_all batched
  submit_all-Counts b s h =
      let n = length (by_band b.bands) in
      let row = λ (item : String × DecodedSpot R).
        spot_to_row fields station item.0 b.radiod_id b.rx_source item.1 in
      let a = submit_rows-Counts spots row (by_band b.bands) s h in
      let sent = (submit_rows spots row (by_band b.bands) s).1 in
      let noise_row = λ (item : String × M).
        noise_to_row noise_fields station item.0 b.cycle_key b.radiod_id b.rx_source item.1 in
      let r =
        if null b.noise then (0, sent) else submit_noise noises opened noise_row b.noise sent in
      flush-Counts n s r.1 (
        if_intro (λ (r : ℕ × SpotSink W V). Counts n s r.1) (null b.noise) (λ _. (a.1, a.2))
          (λ _. submit_noise-Counts noise_row b.noise n s sent (a.1, a.2)))

  module _ {D : Type 0} (average : Dict String (List (DecodedSpot R)) → Option D) where
    -- What a stretch of a run does: the sink counts what is handed to it meanwhile.
    abbrev pub Balanced :
        World (SpotSink W V) (DecodedSpot R) M D → World (SpotSink W V) (DecodedSpot R) M D → Type 0
    Balanced w x =
        (ledger x.sink + handed (submissions w.log) ≡ ledger w.sink + handed (submissions x.log))
        × (has_writer x.sink ≡ true)

    -- Counts, with what a task holds.
    work_task-Counts :
        (now wall : ℕ) (t : Task (DecodedSpot R) M) (w : World (SpotSink W V) (DecodedSpot R) M D)
        → has_writer w.sink ≡ true
        → Counts (handed (batches_in_task t)) w.sink (work_task batched average now wall t w).sink
    unfolding work_task flush_batch
    work_task-Counts now wall (flush_task b late) w h =
        let c = submit_all-Counts b w.sink h in (omega (arith, c.0), c.1)
    work_task-Counts now wall (cross a missing) w h =
        if_intro (λ (x : World (SpotSink W V) (DecodedSpot R) M D). Counts 0 w.sink x.sink)
          w.batcher.callback (λ _. (omega arith, h)) (λ _. (omega arith, h))

    work_task-Balanced :
        (now wall : ℕ) (t : Task (DecodedSpot R) M) (ts : List (Task (DecodedSpot R) M))
        (w : World (SpotSink W V) (DecodedSpot R) M D)
        → has_writer w.sink ≡ true
        → Balanced w (work_task batched average now wall t (record w { tasks = ts }))
    work_task-Balanced now wall t ts w h =
        let p = submissions-work_task batched average now wall t (record w { tasks = ts }) in
        let c = work_task-Counts now wall t (record w { tasks = ts }) h in
        (
          omega (arith, ap handed p, handed-append (submissions w.log) (batches_in_task t), c.0),
          c.1,
        )

    step-Balanced :
        (epoch : CycleKey → Option ℕ) (i : Input (DecodedSpot R) M)
        (w : World (SpotSink W V) (DecodedSpot R) M D)
        → has_writer w.sink ≡ true
        → Balanced w (step batched average epoch i w)
    unfolding step
    step-Balanced epoch (callback_set given) w h = (refl, h)
    step-Balanced epoch (bands_set bands) w h = (refl, h)
    step-Balanced epoch (producible_set rx b can) w h = (refl, h)
    step-Balanced epoch (receivers_set sources) w h = (refl, h)
    step-Balanced epoch (band_expected now c b radiod rx) w h = (refl, h)
    step-Balanced epoch (band_done c b rx) w h = (refl, h)
    step-Balanced epoch (spots_added now c b xs radiod rx) w h = (refl, h)
    step-Balanced epoch (noise_added now c b noise radiod rx) w h = (refl, h)
    step-Balanced epoch (turn now) w h =
        if_intro (Balanced w) (null w.tasks && not w.batcher.is_stopped) (λ _. (refl, h))
          (λ _. (refl, h))
    step-Balanced epoch (work now wall) w h = elim (List-cases w.tasks) [
      | inl e ↦ subst (Balanced w) (idle_work batched average epoch now wall w e) (refl, h)
      | inr (t, ts, e) ↦
          subst (Balanced w) (busy_work batched average epoch now wall t ts w e)
            (work_task-Balanced now wall t ts w h)
    ]
    step-Balanced epoch stop_set w h = (refl, h)
    step-Balanced epoch drained w h =
        if_intro (Balanced w) (null w.tasks && w.batcher.is_stopped) (λ _. (refl, h))
          (λ _. (refl, h))

    -- Over any run of the batcher, an enabled sink counts every spot that the batcher hands to it,
    -- once, as a row written or as a row dropped, and stays enabled.
    pub run-Balanced :
        (epoch : CycleKey → Option ℕ) (is : List (Input (DecodedSpot R) M))
        (w : World (SpotSink W V) (DecodedSpot R) M D)
        → has_writer w.sink ≡ true
        → Balanced w (run batched average epoch is w)
    unfolding run
    run-Balanced epoch [] w h = (refl, h)
    run-Balanced epoch (i ∷ is) w h =
        let p = step-Balanced epoch i w h in
        let q = run-Balanced epoch is (step batched average epoch i w) p.1 in
        (omega (arith, p.0, q.0), q.1)
