-- ===== src/CycleBatcher/Writer.antt =====
-- wspr_recorder/spot_sink.py: the writer's side of `CycleBatcher`. A turn of `_run` has a part under
-- the lock, `take_turn`, which sets the batches to flush and the cycles to wake for aside as tasks,
-- and then works the tasks one by one with the lock free. What the writer does outside of the
-- batcher is a log of events. The sink is an interface that `SpotSink` fills.
use Prim.Native.String.{String}
use wspr_recorder.Common.{
  ℕ, ◌+◌, ◌-◌, ◌%◌, min, max, Bool, true, false, not, ◌&&◌, Option, none, some, List, [], ◌∷◌, ◌++◌,
  ltb, leb, ◌==◌, if◌then◌else◌,
}
use wspr_recorder.Common.Dict.{
  Dict, lookup, upsert, erase, get_or, contains, superset, set_add, set_diff, string_eq, pair_eq,
}
use wspr_recorder.CycleBatcher.{CycleKey, Key, Batch, Batcher}

-- What the writer uses of its sink: each call changes the sink and the first two say how many rows
-- they handed over. `flush` is the identity for a sink that has none.
pub record Sink (T S N : Type 0) : Type 0 where
  pub submit_batches : Dict String (List S) → String → String → T → ℕ × T
  pub submit_noise_batches : Dict String N → CycleKey → String → String → T → ℕ × T
  pub flush_sink : T → T

-- A batch that is ready, with a mark where its deadline passed, or a cycle whose wake cannot wait
-- for the receivers that miss.
pub data Task (S N : Type 0) : Type 0 where
  flush : Batch S N → Bool → Task S N
  cross : CycleKey → List String → Task S N

-- `submitted` is the hand-over of a batch to the sink; the dt of `judged` is the mean over its
-- spots; `woke` is a call of the wake callback and `scheduled` a timer for one.
pub data Event (S N D : Type 0) : Type 0 where
  warned : CycleKey → List String → Event S N D
  submitted : Batch S N → Event S N D
  judged : String → Option D → ℕ → Event S N D
  notified : Event S N D
  woke : CycleKey → Event S N D
  scheduled : CycleKey → ℕ → Event S N D

-- `_seconds_to_next_15s_boundary`, in milliseconds.
unfoldable pub to_next_boundary : ℕ → ℕ
to_next_boundary wall = if 0 == wall % 15_000 then 15_000 else 15_000 - wall % 15_000

abbrev pub null {ℓ} : {A : Type ℓ} → List A → Bool
null [] = true
null (x ∷ xs) = false

-- `wait_until`, with one more deadline.
abbrev pub sooner : ℕ → Option ℕ → Option ℕ
sooner t none = some t
sooner t (some u) = some (min u t)

-- The timeout of the wait: a deadline's distance, but 50 ms at least, or five seconds.
abbrev pub timeout_of : ℕ → Option ℕ → ℕ
timeout_of now none = 5_000
timeout_of now (some u) = max 50 (u - now)

abbrev pub soonest : Option ℕ → Option ℕ → Option ℕ
soonest none v = v
soonest (some t) v = sooner t v

-- Timers that are still due, as `is_alive` tells.
abbrev pub alive : ℕ → List ℕ → List ℕ
alive now [] = []
alive now (t ∷ ts) = let rest = alive now ts in if ltb now t then t ∷ rest else rest

-- What a cycle that waits for receivers comes to at a turn.
pub data Verdict : Type 0 where
  skip : Verdict
  fire : Verdict
  hold : ℕ → Verdict

pub record Collected (S N : Type 0) : Type 0 where
  pub ready : List (Task S N)
  pub kept : Dict Key (Batch S N)
  pub wait_until : Option ℕ

pub record Crossed (S N : Type 0) : Type 0 where
  pub fires : List (Task S N)
  pub state : Batcher S N
  pub cross_wait : Option ℕ

-- The outcome of a turn's locked part: tasks to work, or none and a time to sleep.
pub record Turn (S N : Type 0) : Type 0 where
  pub tasks : List (Task S N)
  pub after : Batcher S N
  pub sleep : ℕ

module _ {S N : Type 0} where
  abbrev pub is_complete : Batch S N → Bool
  is_complete b = not (null b.expected_bands) && superset b.completed_bands b.expected_bands

  -- One batch of the loop over the batches, before what the rest comes to.
  abbrev pub collect_one : ℕ → Key → Batch S N → Collected S N → Collected S N
  collect_one now k b c =
      if is_complete b
      then record c { ready = flush b false ∷ c.ready }
      else if leb b.deadline now
      then record c { ready = flush b true ∷ c.ready }
      else record c { kept = (k, b) ∷ c.kept; wait_until = sooner b.deadline c.wait_until }

  unfoldable pub collect : ℕ → Dict Key (Batch S N) → Collected S N
  collect now [] = record { ready = []; kept = []; wait_until = none }
  collect now ((k, b) ∷ d) = collect_one now k b (collect now d)

  abbrev pub cross_verdict : ℕ → CycleKey → ℕ → Batcher S N → Verdict
  cross_verdict now c first s =
      if contains s.cycle_wake_fired c
      then skip
      else if leb (first + s.backstop_ms) now
      then fire
      else hold (first + s.backstop_ms)

  abbrev pub after_verdict : Verdict → CycleKey → Batcher S N → Batcher S N
  after_verdict skip c s = s
  after_verdict fire c s = record s {
    cycle_wake_fired = set_add c s.cycle_wake_fired;
    cycle_first_commit_at = erase c s.cycle_first_commit_at;
    cycle_committed_rx = erase c s.cycle_committed_rx;
  }
  after_verdict (hold t) c s = s

  abbrev pub missing_rx : CycleKey → Batcher S N → List String
  missing_rx c s = set_diff s.expected_rx_sources (get_or [] (lookup c s.cycle_committed_rx))

  abbrev pub cross_one : Verdict → CycleKey → List String → Crossed S N → Crossed S N
  cross_one skip c missing r = r
  cross_one fire c missing r = record r { fires = cross c missing ∷ r.fires }
  cross_one (hold t) c missing r = record r { cross_wait = sooner t r.cross_wait }

  -- The loop over the cycles with a first commit.
  unfoldable pub cross_scan : ℕ → Dict CycleKey ℕ → Batcher S N → Crossed S N
  unfolding erase lookup
  cross_scan now [] s = record { fires = []; state = s; cross_wait = none }
  cross_scan now ((c, first) ∷ d) s =
      let v = cross_verdict now c first s in
      cross_one v c (missing_rx c s) (cross_scan now d (after_verdict v c s))

  -- The scan, where receivers are expected.
  unfoldable pub cross_turn : ℕ → Batcher S N → Crossed S N
  unfolding cross_scan
  cross_turn now s =
      if null s.expected_rx_sources
      then record { fires = []; state = s; cross_wait = none }
      else cross_scan now s.cycle_first_commit_at s

  unfoldable pub take_turn : ℕ → Batcher S N → Turn S N
  unfolding collect cross_turn
  take_turn now s =
      let c = collect now s.batches in
      let x = cross_turn now (record s { batches = c.kept }) in
      record {
        tasks = c.ready ++ x.fires;
        after = x.state;
        sleep = timeout_of now (soonest c.wait_until x.cross_wait);
      }

  -- The locked part of `_on_per_rx_committed`: whether the wake fires, and the state.
  unfoldable pub commit_rx : ℕ → CycleKey → String → Batcher S N → Bool × Batcher S N
  unfolding upsert lookup erase
  commit_rx now c rx s =
      if null s.expected_rx_sources
      then (true, s)
      else if contains s.cycle_wake_fired c
      then (false, s)
      else let committed = upsert c [] (set_add rx) s.cycle_committed_rx in
        let firsts = upsert c now (λ t. t) s.cycle_first_commit_at in
        if superset (get_or [] (lookup c committed)) s.expected_rx_sources
        then (
          true,
          record s {
            cycle_wake_fired = set_add c s.cycle_wake_fired;
            cycle_committed_rx = erase c committed;
            cycle_first_commit_at = erase c firsts;
          },
        )
        else (false, record s { cycle_committed_rx = committed; cycle_first_commit_at = firsts })
