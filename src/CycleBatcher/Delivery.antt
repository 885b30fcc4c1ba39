-- ===== src/CycleBatcher/Delivery.antt =====
-- That `CycleBatcher` of wspr_recorder/spot_sink.py hands every ready batch to its sink.
use Prim.Native.String.{String}
use mathlib.Core.List.{Memᴰ}
use mathlib.Core.List.Memᴰ
use wspr_recorder.Common.{
  ℕ, suc, ◌≤◌, Bool, true, false, Option, some, List, [], ◌∷◌, ◌++◌, ◌≡◌, refl, subst, arith, inl,
  inr, ◌⊎◌, if◌then◌else◌, if_intro, ◌&&◌, not, List-cases, length,
}
use wspr_recorder.Common.Dict.{Dict, lookup, string_eq, pair_eq}
use wspr_recorder.CycleBatcher.{CycleKey, Key, Batch, Batcher}
use wspr_recorder.CycleBatcher.Writer.{
  Sink, Task, flush, cross, Event, submitted, take_turn, null, collect,
}
use wspr_recorder.CycleBatcher.Inputs.{
  Input, callback_set, bands_set, producible_set, receivers_set, band_expected, band_done,
  spots_added, noise_added, turn, work, stop_set, drained, World, flush_batch, work_task, step, run,
  backstop_warning,
}
use wspr_recorder.CycleBatcher.Accounts.{work_task-tasks}
use wspr_recorder.CycleBatcher.Turns.{is_ready, collect-takes}

abbrev pub is_work : {S N : Type 0} → Input S N → Bool
is_work (work now wall) = true
is_work (callback_set given) = false
is_work (bands_set bands) = false
is_work (producible_set rx b can) = false
is_work (receivers_set sources) = false
is_work (band_expected now c b radiod rx) = false
is_work (band_done c b rx) = false
is_work (spots_added now c b spots radiod rx) = false
is_work (noise_added now c b noise radiod rx) = false
is_work (turn now) = false
is_work stop_set = false
is_work drained = false

-- How often a run lets the writer work on a task.
abbrev pub works : {S N : Type 0} → List (Input S N) → ℕ
works [] = 0
works (i ∷ is) = let n = works is in if is_work i then suc n else n

take_turn-Holds :
    {S N : Type 0} (now : ℕ) (s : Batcher S N) (t : Task S N)
    → Memᴰ t (collect now s.batches).ready
    → Memᴰ t (take_turn now s).tasks
unfolding take_turn
take_turn-Holds now s t m = Memᴰ.append_left _ m

module _ {T S N D : Type 0} (api : Sink T S N) (average : Dict String (List S) → Option D)
    (epoch : CycleKey → Option ℕ) where
  work_task-Remembers :
      (e : Event S N D) (now wall : ℕ) (t : Task S N) (w : World T S N D)
      → Memᴰ e w.log
      → Memᴰ e (work_task api average now wall t w).log
  unfolding work_task flush_batch
  work_task-Remembers e now wall (flush b is_backstop) w m =
      Memᴰ.append_left _ (Memᴰ.append_left (backstop_warning b is_backstop) m)
  work_task-Remembers e now wall (cross c missing) w m =
      if_intro (λ (x : World T S N D). Memᴰ e x.log) w.batcher.callback (λ _. Memᴰ.append_left _ m)
        (λ _. Memᴰ.append_left _ m)

  -- No step drops an event from the log.
  step-Remembers :
      (e : Event S N D) (i : Input S N) (w : World T S N D)
      → Memᴰ e w.log
      → Memᴰ e (step api average epoch i w).log
  unfolding step
  step-Remembers e (callback_set given) w m = m
  step-Remembers e (bands_set bands) w m = m
  step-Remembers e (producible_set rx b can) w m = m
  step-Remembers e (receivers_set sources) w m = m
  step-Remembers e (band_expected now c b radiod rx) w m = m
  step-Remembers e (band_done c b rx) w m = m
  step-Remembers e (spots_added now c b spots radiod rx) w m = m
  step-Remembers e (noise_added now c b noise radiod rx) w m = m
  step-Remembers e (turn now) w m =
      if_intro (λ (x : World T S N D). Memᴰ e x.log) (null w.tasks && not w.batcher.is_stopped)
        (λ _. m) (λ _. m)
  step-Remembers e (work now wall) w m = elim (List-cases w.tasks) [
    | inl h ↦ rw h m
    | inr (t, ts, h) ↦ rw h (work_task-Remembers e now wall t (record w { tasks = ts }) m)
  ]
  step-Remembers e stop_set w m = m
  step-Remembers e drained w m =
      if_intro (λ (x : World T S N D). Memᴰ e x.log) (null w.tasks && w.batcher.is_stopped) (λ _. m)
        (λ _. m)

  run-Remembers :
      (e : Event S N D) (is : List (Input S N)) (w : World T S N D)
      → Memᴰ e w.log
      → Memᴰ e (run api average epoch is w).log
  unfolding run
  run-Remembers e [] w m = m
  run-Remembers e (i ∷ is) w m = run-Remembers e is _ (step-Remembers e i w m)

  -- The work on a batch hands it to the sink.
  work_task-Submits :
      (b : Batch S N) (late : Bool) (now wall : ℕ) (w : World T S N D)
      → Memᴰ (submitted b) (work_task api average now wall (flush b late) w).log
  unfolding work_task flush_batch
  work_task-Submits b late now wall w =
      Memᴰ.append_right (w.log ++ backstop_warning b late) (Memᴰ.head refl)

  -- What a step does to tasks that are set aside: the writer's work hands the first over, and any
  -- other step leaves them.
  abbrev Progresses : Input S N → Task S N → List (Task S N) → World T S N D → Type 0
  Progresses i t ts x =
      ((is_work i ≡ false) × (x.tasks ≡ t ∷ ts))
      ⊎ ((is_work i ≡ true)
          × (x.tasks ≡ ts)
          × ((b : Batch S N) (late : Bool) → flush b late ≡ t → Memᴰ (submitted b) x.log))

  step-Progresses :
      (i : Input S N) (t : Task S N) (ts : List (Task S N)) (w : World T S N D)
      → w.tasks ≡ t ∷ ts
      → Progresses i t ts (step api average epoch i w)
  unfolding step
  step-Progresses (callback_set given) t ts w h = inl (refl, h)
  step-Progresses (bands_set bands) t ts w h = inl (refl, h)
  step-Progresses (producible_set rx b can) t ts w h = inl (refl, h)
  step-Progresses (receivers_set sources) t ts w h = inl (refl, h)
  step-Progresses (band_expected now c b radiod rx) t ts w h = inl (refl, h)
  step-Progresses (band_done c b rx) t ts w h = inl (refl, h)
  step-Progresses (spots_added now c b spots radiod rx) t ts w h = inl (refl, h)
  step-Progresses (noise_added now c b noise radiod rx) t ts w h = inl (refl, h)
  step-Progresses (turn now) t ts w h =
      if_intro (λ (x : World T S N D). Progresses (turn now) t ts x)
        (null w.tasks && not w.batcher.is_stopped) (λ e. absurd (ground arith)) (λ _. inl (refl, h))
  step-Progresses (work now wall) t ts w h = rw h (
      inr (
        refl,
        work_task-tasks api average now wall t (record w { tasks = ts }),
        λ b late p.
            subst
              (λ u.
                Memᴰ (submitted b) (work_task api average now wall u (record w { tasks = ts })).log)
              p (work_task-Submits b late now wall (record w { tasks = ts })),
      ))
  step-Progresses stop_set t ts w h = inl (refl, h)
  step-Progresses drained t ts w h =
      if_intro (λ (x : World T S N D). Progresses drained t ts x)
        (null w.tasks && w.batcher.is_stopped) (λ e. absurd (ground arith)) (λ _. inl (refl, h))

  run-Submits :
      (b : Batch S N) (late : Bool) (ts : List (Task S N)) (is : List (Input S N))
      (w : World T S N D)
      → w.tasks ≡ ts
      → Memᴰ (flush b late) ts
      → length ts ≤ works is
      → Memᴰ (submitted b) (run api average epoch is w).log
  unfolding run
  run-Submits b late [] is w h m n = absurd (Memᴰ.not-nil m)
  run-Submits b late (t ∷ ts) [] w h m n = absurd (omega arith)
  run-Submits b late (t ∷ ts) (i ∷ is) w h m n = elim (step-Progresses i t ts w h) [
    | inl (o, g) ↦ run-Submits b late (t ∷ ts) is _ g m (ground arith)
    | inr (o, g, s) ↦ elim (Memᴰ.cases_cons m) [
      | inl p ↦ run-Remembers (submitted b) is _ (s b late p)
      | inr q ↦ run-Submits b late ts is _ g q (ground arith)
    ]
  ]

  turn-tasks :
      (now : ℕ) (w : World T S N D)
      → (null w.tasks && not w.batcher.is_stopped) ≡ true
      → (step api average epoch (turn now) w).tasks ≡ (take_turn now w.batcher).tasks
  unfolding step
  turn-tasks now w h = rw h refl

  -- A batch that is complete or past its deadline when the idle writer takes a turn, before any
  -- stop, is handed to the sink in every run that goes on from there and lets the writer work on as
  -- many tasks as the turn set aside, whatever calls come in between.
  pub turn-Delivers :
      (now : ℕ) (k : Key) (b : Batch S N) (is : List (Input S N)) (w : World T S N D)
      → w.tasks ≡ []
      → w.batcher.is_stopped ≡ false
      → lookup k w.batcher.batches ≡ some b
      → is_ready now b ≡ true
      → length (take_turn now w.batcher).tasks ≤ works is
      → Memᴰ (submitted b) (run api average epoch (turn now ∷ is) w).log
  unfolding run step
  turn-Delivers now k b is w idle running found ready n =
      let taken = collect-takes now k b w.batcher.batches found ready in
      run-Submits b taken.0 (take_turn now w.batcher).tasks is (step api average epoch (turn now) w)
        (turn-tasks now w (rw idle (rw running refl))) (take_turn-Holds now w.batcher _ taken.1) n
