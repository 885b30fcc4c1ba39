-- ===== src/CycleBatcher/Inputs.antt =====
-- wspr_recorder/spot_sink.py: `CycleBatcher` at run time. The calls of other threads, the turns of
-- the writer and its work on each task are the steps of a run, in the order in which they take the
-- lock; the list of a run's inputs is the interleaving.
use Prim.Native.String.{String}
use text.Mathlib.Text.{◌==◌ as str_eq}
use wspr_recorder.Common.{
  ℕ, ◌+◌, Bool, true, false, not, ◌&&◌, Option, List, [], ◌∷◌, ◌++◌, ltb, ◌==◌, if◌then◌else◌,
}
use wspr_recorder.Common.Dict.{Dict, values, set_diff, string_eq}
use wspr_recorder.CycleBatcher.{
  CycleKey, Batch, Batcher, set_wake_callback, set_bands_by_source, set_band_producible,
  set_expected_rx_sources, expect_band, mark_done, add, add_noise,
}
use wspr_recorder.CycleBatcher.Writer.{
  Sink, Task, flush, cross, Event, warned, submitted, judged, notified, woke, scheduled,
  to_next_boundary, null, take_turn, commit_rx, alive,
}

-- One step: a call of a producer or of the recorder, a turn of the writer at a time, the work on
-- its next task at a monotonic and a wall-clock time, or one of the two parts of `stop`.
pub data Input (S N : Type 0) : Type 0 where
  callback_set : Bool → Input S N
  bands_set : Dict String (Dict String (List ℕ)) → Input S N
  producible_set : String → String → Bool → Input S N
  receivers_set : List String → Input S N
  band_expected : ℕ → CycleKey → String → String → String → Input S N
  band_done : CycleKey → String → String → Input S N
  spots_added : ℕ → CycleKey → String → List S → String → String → Input S N
  noise_added : ℕ → CycleKey → String → N → String → String → Input S N
  turn : ℕ → Input S N
  work : ℕ → ℕ → Input S N
  stop_set : Input S N
  drained : Input S N

pub record World (T S N D : Type 0) : Type 0 where
  pub sink : T
  pub batcher : Batcher S N
  pub tasks : List (Task S N)
  pub log : List (Event S N D)

abbrev pub rx_label : {S N : Type 0} → Batch S N → String
rx_label b =
    if not_empty b.rx_source
    then b.rx_source
    else if not_empty b.radiod_id
    then b.radiod_id
    else "?"
  where
    not_empty : String → Bool
    not_empty s = if str_eq s "" then false else true

-- Batches that `stop` takes away, to flush.
abbrev pub leftovers : {S N : Type 0} → List (Batch S N) → List (Task S N)
leftovers [] = []
leftovers (b ∷ bs) = flush b false ∷ leftovers bs

module _ {S N D : Type 0} where
  -- `_fire_wake`
  abbrev pub fire_wake : CycleKey → Batcher S N → List (Event S N D)
  fire_wake c s = if s.callback then woke c ∷ [] else []

  -- `_schedule_wake`, for the cycle `c`.
  unfoldable pub schedule_wake : ℕ → ℕ → CycleKey → Batcher S N → Batcher S N × List (Event S N D)
  unfolding to_next_boundary
  schedule_wake now wall c s =
      let delay = to_next_boundary wall + s.ft_settle_ms in
      if 0 == s.ft_settle_ms then (s, fire_wake c s) else (
        record s { pending_timers = alive now s.pending_timers ++ ((now + delay) ∷ []) },
        scheduled c delay ∷ [],
      )

  abbrev pub wake_if : Bool → ℕ → ℕ → CycleKey → Batcher S N → Batcher S N × List (Event S N D)
  wake_if false now wall c s = (s, [])
  wake_if true now wall c s = schedule_wake now wall c s

  unfoldable pub on_per_rx_committed :
      ℕ → ℕ → Batch S N → Batcher S N → Batcher S N × List (Event S N D)
  unfolding commit_rx schedule_wake
  on_per_rx_committed now wall b s =
      if s.callback
      then (let r = commit_rx now b.cycle_key b.rx_source s in
          let w = wake_if r.0 now wall b.cycle_key r.1 in (w.0, notified ∷ w.1))
      else (s, notified ∷ [])

  -- The warning of a backstop flush that names bands.
  abbrev pub backstop_warning : Batch S N → Bool → List (Event S N D)
  backstop_warning b is_backstop =
      if is_backstop && not (null b.expected_bands)
      then warned b.cycle_key (set_diff b.expected_bands b.completed_bands) ∷ []
      else []

module _ {T S N : Type 0} (api : Sink T S N) where
  -- The rows of a batch handed to the sink, which then writes them out.
  unfoldable pub submit_all : Batch S N → T → (ℕ × ℕ) × T
  submit_all b t =
      let spots = api.submit_batches b.bands b.radiod_id b.rx_source t in
      let noise =
        if null b.noise
        then (0, spots.1)
        else api.submit_noise_batches b.noise b.cycle_key b.radiod_id b.rx_source spots.1 in
      ((spots.0, noise.0), api.flush_sink noise.1)

module _ {T S N D : Type 0} (api : Sink T S N) (average : Dict String (List S) → Option D) where
  -- `_flush`, from the rows that the sink took: what is judged and whether the wake is due.
  unfoldable pub after_flush :
      ℕ → ℕ → ℕ → ℕ → Batch S N → Batcher S N → Batcher S N × List (Event S N D)
  unfolding on_per_rx_committed
  after_flush n n_noise now wall b s =
      let hook = if s.judge then judged (rx_label b) (average b.bands) n ∷ [] else [] in
      let c = on_per_rx_committed now wall b s in
      if n == 0 && n_noise == 0 then (s, []) else if ltb 0 n then (c.0, hook ++ c.1) else (s, hook)

  unfoldable pub flush_batch : ℕ → ℕ → Batch S N → World T S N D → World T S N D
  unfolding submit_all after_flush
  flush_batch now wall b w =
      let sent = submit_all api b w.sink in
      let rest = after_flush sent.0.0 sent.0.1 now wall b w.batcher in
      record w { sink = sent.1; batcher = rest.0; log = w.log ++ (submitted b ∷ rest.1) }

  -- The writer's work on one task.
  unfoldable pub work_task : ℕ → ℕ → Task S N → World T S N D → World T S N D
  unfolding flush_batch schedule_wake
  work_task now wall (flush b is_backstop) w =
      flush_batch now wall b (record w { log = w.log ++ backstop_warning b is_backstop })
  work_task now wall (cross c missing) w =
      let woken = schedule_wake now wall c w.batcher in
      if w.batcher.callback
      then record w { batcher = woken.0; log = w.log ++ (warned c missing ∷ woken.1) }
      else record w { log = w.log ++ (warned c missing ∷ []) }

  -- A step. The writer takes a turn only with no task left and before a stop; `stop` drains after
  -- it has waited for the writer's last task.
  module _ (epoch : CycleKey → Option ℕ) where
    unfoldable pub step : Input S N → World T S N D → World T S N D
    unfolding take_turn work_task
    step (callback_set given) w = record w { batcher = set_wake_callback given w.batcher }
    step (bands_set bands) w = record w { batcher = set_bands_by_source bands w.batcher }
    step (producible_set rx band can) w = record w {
      batcher = set_band_producible rx band can w.batcher;
    }
    step (receivers_set sources) w = record w {
      batcher = set_expected_rx_sources sources w.batcher;
    }
    step (band_expected now c band radiod rx) w = record w {
      batcher = expect_band epoch now c band radiod rx w.batcher;
    }
    step (band_done c band rx) w = record w { batcher = mark_done c band rx w.batcher }
    step (spots_added now c band spots radiod rx) w = record w {
      batcher = add now c band spots radiod rx w.batcher;
    }
    step (noise_added now c band noise radiod rx) w = record w {
      batcher = add_noise now c band noise radiod rx w.batcher;
    }
    step (turn now) w =
        let t = take_turn now w.batcher in
        if null w.tasks && not w.batcher.is_stopped
        then record w { tasks = t.tasks; batcher = t.after }
        else w
    step (work now wall) w = elim w.tasks [
      | [] ↦ w
      | task ∷ rest ↦ work_task now wall task (record w { tasks = rest })
    ]
    step stop_set w = record w { batcher = record w.batcher { is_stopped = true } }
    step drained w =
        if null w.tasks && w.batcher.is_stopped
        then record w {
          tasks = leftovers (values w.batcher.batches);
          batcher = record w.batcher { batches = []; pending_timers = [] };
        }
        else w

    unfoldable pub run : List (Input S N) → World T S N D → World T S N D
    unfolding step
    run [] w = w
    run (i ∷ is) w = run is (step i w)
