-- ===== src/CycleBatcher/Accounts.antt =====
-- The account of a run of `CycleBatcher` of wspr_recorder/spot_sink.py: what was handed to the sink,
-- what the writer has set aside and what still waits.
use Prim.Native.String.{String}
use wspr_recorder.Common.{
  ℕ, ap₂, Bool, true, false, Option, List, [], ◌∷◌, ◌++◌, ◌≡◌, refl, sym, ap, ◌∙◌, arith,
  if◌then◌else◌, if_intro, ltb, ◌==◌, ◌&&◌,
}
use wspr_recorder.Common.Dict.{Dict, string_eq, pair_eq}
use wspr_recorder.Common.Totals.{total, ++_nil, ++_assoc}
use wspr_recorder.CycleBatcher.{CycleKey, Key, Batch, Batcher}
use wspr_recorder.CycleBatcher.Writer.{
  Sink, Task, flush, cross, Event, warned, submitted, judged, notified, woke, scheduled, commit_rx,
}
use wspr_recorder.CycleBatcher.Inputs.{
  World, schedule_wake, wake_if, on_per_rx_committed, after_flush, submit_all, flush_batch,
  work_task, rx_label, backstop_warning, work, step,
}
use wspr_recorder.CycleBatcher.Conservation.{spots_of, spots_in_task, spots_in_tasks}

module _ {S N D : Type 0} where
  -- The batches that the log says were handed to the sink, in order.
  abbrev pub submissions : List (Event S N D) → List (Batch S N)
  submissions [] = []
  submissions (submitted b ∷ es) = b ∷ submissions es
  submissions (warned c missing ∷ es) = submissions es
  submissions (judged rx dt n ∷ es) = submissions es
  submissions (notified ∷ es) = submissions es
  submissions (woke c ∷ es) = submissions es
  submissions (scheduled c delay ∷ es) = submissions es

  pub submissions-append :
      (es fs : List (Event S N D)) → submissions (es ++ fs) ≡ submissions es ++ submissions fs
  submissions-append [] fs = refl
  submissions-append (submitted b ∷ es) fs = ap (λ z. b ∷ z) (submissions-append es fs)
  submissions-append (warned c missing ∷ es) fs = submissions-append es fs
  submissions-append (judged rx dt n ∷ es) fs = submissions-append es fs
  submissions-append (notified ∷ es) fs = submissions-append es fs
  submissions-append (woke c ∷ es) fs = submissions-append es fs
  submissions-append (scheduled c delay ∷ es) fs = submissions-append es fs

-- What batches hold for a key and a band, one after another.
abbrev pub spots_of_all : {S N : Type 0} → Key → String → List (Batch S N) → List S
spots_of_all k band [] = []
spots_of_all k band (b ∷ bs) = spots_of k band b ++ spots_of_all k band bs

spots_of_all-append :
    {S N : Type 0} (k : Key) (band : String) (bs cs : List (Batch S N))
    → spots_of_all k band (bs ++ cs) ≡ spots_of_all k band bs ++ spots_of_all k band cs
spots_of_all-append k band [] cs = refl
spots_of_all-append k band (b ∷ bs) cs =
    ap (λ z. spots_of k band b ++ z) (spots_of_all-append k band bs cs)
    ∙ sym (++_assoc (spots_of k band b) _ _)

-- The batch of a task.
abbrev pub batches_in_task : {S N : Type 0} → Task S N → List (Batch S N)
batches_in_task (flush b late) = b ∷ []
batches_in_task (cross c missing) = []

spots_of_all-task :
    {S N : Type 0} (k : Key) (band : String) (t : Task S N)
    → spots_of_all k band (batches_in_task t) ≡ spots_in_task k band t
spots_of_all-task k band (flush b late) = ++_nil _
spots_of_all-task k band (cross c missing) = refl

-- What the log says was handed to the sink for a key and a band.
abbrev pub shipped : {S N D : Type 0} → Key → String → List (Event S N D) → List S
shipped k band es = spots_of_all k band (submissions es)

module _ {S N : Type 0} (D : Type 0) where
  -- A call's events hand nothing to the sink.
  abbrev SubmitsNothing : Batcher S N × List (Event S N D) → Type 0
  SubmitsNothing r = submissions r.1 ≡ []

  scheduled-SubmitsNothing :
      (now wall : ℕ) (c : CycleKey) (s : Batcher S N) → SubmitsNothing (schedule_wake now wall c s)
  unfolding schedule_wake
  scheduled-SubmitsNothing now wall c s = ground arith

  wake_if-SubmitsNothing :
      (b : Bool) (now wall : ℕ) (c : CycleKey) (s : Batcher S N)
      → SubmitsNothing (wake_if b now wall c s)
  wake_if-SubmitsNothing false now wall c s = refl
  wake_if-SubmitsNothing true now wall c s = scheduled-SubmitsNothing now wall c s

  committed-SubmitsNothing :
      (now wall : ℕ) (b : Batch S N) (s : Batcher S N)
      → SubmitsNothing (on_per_rx_committed now wall b s)
  unfolding on_per_rx_committed
  committed-SubmitsNothing now wall b s =
      if_intro SubmitsNothing s.callback
        (λ _.
          wake_if-SubmitsNothing (commit_rx now b.cycle_key b.rx_source s).0 now wall b.cycle_key _)
        (λ _. refl)

module _ {T S N D : Type 0} (api : Sink T S N) (average : Dict String (List S) → Option D) where
  -- All that came in for a key and a band: shipped, set aside and waiting, in this order.
  abbrev pub account : Key → String → World T S N D → List S
  account k band w =
      shipped k band w.log
      ++ (spots_in_tasks k band w.tasks ++ total (spots_of k band) w.batcher.batches)

  after_flush-SubmitsNothing :
      (n m now wall : ℕ) (b : Batch S N) (s : Batcher S N)
      → SubmitsNothing D (after_flush api average n m now wall b s)
  unfolding after_flush
  after_flush-SubmitsNothing n m now wall b s =
      if_intro (SubmitsNothing D) (n == 0 && m == 0) (λ _. refl)
        (λ _.
          if_intro (SubmitsNothing D) (ltb 0 n)
            (λ _.
              submissions-append hook _
              ∙ ap₂ ◌++◌ hook-Empty (committed-SubmitsNothing D now wall b s))
            (λ _. hook-Empty))
    where
      hook : List (Event S N D)
      hook = if s.judge then judged (rx_label b) (average b.bands) n ∷ [] else []

      hook-Empty : submissions hook ≡ []
      hook-Empty = ground arith

  -- The work on a task hands its batch to the sink, and no other.
  pub submissions-work_task :
      (now wall : ℕ) (t : Task S N) (w : World T S N D)
      → submissions (work_task api average now wall t w).log
        ≡ submissions w.log ++ batches_in_task t
  unfolding work_task flush_batch
  submissions-work_task now wall (flush b late) w =
      let n = (submit_all api b w.sink).0 in
      let warning = backstop_warning b late in
      let quiet : submissions warning ≡ [] = ground arith in
      submissions-append (w.log ++ warning) _
      ∙ ap₂ ◌++◌
          (submissions-append w.log warning ∙ ap (λ z. submissions w.log ++ z) quiet ∙ ++_nil _)
          (ap (λ z. b ∷ z) (after_flush-SubmitsNothing n.0 n.1 now wall b w.batcher))
  submissions-work_task now wall (cross c missing) w =
      if_intro (λ (x : World T S N D). submissions x.log ≡ submissions w.log ++ [])
        w.batcher.callback
        (λ _.
          submissions-append w.log _
          ∙ ap (λ z. submissions w.log ++ z) (scheduled-SubmitsNothing D now wall c w.batcher))
        (λ _. submissions-append w.log _)

  -- The work on a task ships what the task holds, and nothing else.
  pub work_task-Ships :
      (k : Key) (band : String) (now wall : ℕ) (t : Task S N) (w : World T S N D)
      → shipped k band (work_task api average now wall t w).log
        ≡ shipped k band w.log ++ spots_in_task k band t
  work_task-Ships k band now wall t w =
      ap (spots_of_all k band) (submissions-work_task now wall t w)
      ∙ spots_of_all-append k band (submissions w.log) (batches_in_task t)
      ∙ ap (λ z. shipped k band w.log ++ z) (spots_of_all-task k band t)

  pub work_task-tasks :
      (now wall : ℕ) (t : Task S N) (w : World T S N D)
      → (work_task api average now wall t w).tasks ≡ w.tasks
  unfolding work_task flush_batch
  work_task-tasks now wall (flush b late) w = refl
  work_task-tasks now wall (cross c missing) w = ground arith

  -- The two outcomes of a step of work.
  pub idle_work :
      (epoch : CycleKey → Option ℕ) (now wall : ℕ) (w : World T S N D)
      → w.tasks ≡ []
      → w ≡ step api average epoch (work now wall) w
  unfolding step
  idle_work epoch now wall w e = rw e refl

  pub busy_work :
      (epoch : CycleKey → Option ℕ) (now wall : ℕ) (t : Task S N) (ts : List (Task S N))
      (w : World T S N D)
      → w.tasks ≡ t ∷ ts
      → work_task api average now wall t (record w { tasks = ts })
        ≡ step api average epoch (work now wall) w
  unfolding step
  busy_work epoch now wall t ts w e = rw e refl
