-- ===== src/DecodePool.antt =====
-- wspr_recorder/decode_pool.py: the priority decode pool. A heap of the library heapq is the list of
-- its entries in ascending order: `heappush` inserts in order, `heappop` takes the head. The entries'
-- sequence numbers differ, so their order never looks past period and sequence number. The functions
-- below are the pieces that run under the pool's lock; `job` stands for an entry's function,
-- arguments and future.
pub mod Order
pub mod Workers
mod Tests
use wspr_recorder.Common.{
  ℕ, ◌+◌, ◌-◌, ◌/◌, min, max, Bool, true, false, ◌&&◌, ◌||◌, Option, none, some, List, [], ◌∷◌,
  ◌++◌, ltb, leb, ◌==◌, if◌then◌else◌, length,
}
use wspr_recorder.Common.Results.{Raised, runtime_error, value_error, Result, ok, raise, ◌>>=◌}

abbrev pub long_period_seconds : ℕ
long_period_seconds = 900

pub record Entry {ℓ} (J : Type ℓ) : Type ℓ where
  pub period : ℕ
  pub seq : ℕ
  pub job : J
  pub enqueued : ℕ

pub record Pool {ℓ} (J : Type ℓ) : Type ℓ where
  pub max_workers : ℕ
  pub max_long_inflight : ℕ
  pub short : List (Entry J)
  pub long : List (Entry J)
  pub seq : ℕ
  pub long_inflight : ℕ
  pub running : ℕ
  pub is_shutdown : Bool

pub record Backlog : Type 0 where
  pub queued : ℕ
  pub queued_short : ℕ
  pub queued_long : ℕ
  pub oldest_wait_s : ℕ
  pub running : ℕ
  pub workers : ℕ

-- What a worker gets from `_take_next`: an entry, the sentinel, or a wait on the condition.
pub data Taken {ℓ} (J : Type ℓ) : Type ℓ where
  entry : Entry J → Taken J
  sentinel : Taken J
  wait : Taken J

-- A part of the tuples in the queues: a number, or a part of the job.
pub data Part {ℓ} (J : Type ℓ) : Type ℓ where
  number : ℕ → Part J
  function_of : J → Part J
  args_of : J → Part J
  kwargs_of : J → Part J
  future_of : J → Part J

-- `_period_of`: the first argument's integer `period_seconds`, or 0 where there is none.
abbrev pub period_of : Option ℕ → ℕ
period_of none = 0
period_of (some p) = p

-- A setting, or its default.
abbrev pub setting : Option ℕ → ℕ → ℕ
setting none d = d
setting (some n) d = n

module _ {ℓ} {J : Type ℓ} where
  -- The order of the tuples `(period, seq, …)`.
  abbrev pub before : Entry J → Entry J → Bool
  before a b = ltb a.period b.period || (a.period == b.period && ltb a.seq b.seq)

  abbrev pub is_long : Entry J → Bool
  is_long e = leb long_period_seconds e.period

  unfoldable pub heappush : List (Entry J) → Entry J → List (Entry J)
  heappush [] e = e ∷ []
  heappush (x ∷ xs) e = if before e x then e ∷ x ∷ xs else x ∷ heappush xs e

  -- `PriorityDecodePool.__init__`
  unfoldable pub init : ℕ → Option ℕ → Pool J
  init workers max_long =
      let n = max 1 workers in
      let cap = setting max_long (max 1 (n / 2)) in
      record {
        max_workers = n;
        max_long_inflight = max 1 (min cap n);
        short = [];
        long = [];
        seq = 0;
        long_inflight = 0;
        running = 0;
        is_shutdown = false;
      }

  unfoldable pub submit : Pool J → Option ℕ → J → ℕ → Result (Pool J)
  submit p period_seconds job now =
      let e : Entry J = record {
        period = period_of period_seconds;
        seq = p.seq + 1;
        job = job;
        enqueued = now;
      } in
      if p.is_shutdown
      then raise runtime_error
      else if is_long e
      then ok (record p { seq = p.seq + 1; long = heappush p.long e })
      else ok (record p { seq = p.seq + 1; short = heappush p.short e })

  unfoldable pub pending : Pool J → ℕ
  pending p = length p.short + length p.long

  -- `min` of the enqueue times of a non-empty list.
  unfoldable pub earliest : Entry J → List (Entry J) → ℕ
  earliest e [] = e.enqueued
  earliest e (e' ∷ es) = min e.enqueued (earliest e' es)

  abbrev pub oldest_wait : ℕ → List (Entry J) → ℕ
  oldest_wait now [] = 0
  oldest_wait now (e ∷ es) = now - earliest e es

  unfoldable pub backlog_snapshot : Pool J → ℕ → Backlog
  unfolding earliest
  backlog_snapshot p now = record {
    queued = length p.short + length p.long;
    queued_short = length p.short;
    queued_long = length p.long;
    oldest_wait_s = oldest_wait now (p.short ++ p.long);
    running = p.running;
    workers = p.max_workers;
  }

  -- The tuple that `submit` puts into a queue.
  abbrev pub queued_tuple : Entry J → List (Part J)
  queued_tuple e =
      number e.period
      ∷ number e.seq
      ∷ function_of e.job
      ∷ args_of e.job
      ∷ kwargs_of e.job
      ∷ future_of e.job
      ∷ number e.enqueued
      ∷ []

  -- What `_, _, _, _, _, fut` takes from a tuple: Python raises unless it has just six parts.
  unfoldable pub unpack_six : List (Part J) → Result (Part J)
  unpack_six (a ∷ b ∷ c ∷ d ∷ e ∷ fut ∷ []) = ok fut
  unpack_six parts = raise value_error

  -- The loop of `shutdown`: the futures that it cancels, or what it raises.
  unfoldable pub cancel_queued : List (Entry J) → Result (List (Part J))
  unfolding unpack_six
  cancel_queued [] = ok []
  cancel_queued (e ∷ es) = do
    fut ← unpack_six (queued_tuple e)
    futs ← cancel_queued es
    ok (fut ∷ futs)

  -- The locked part of `shutdown`, and what it raises.
  unfoldable pub shutdown : Pool J → Bool → Pool J × Option Raised
  unfolding cancel_queued
  shutdown p cancel_futures =
      let closed = record p { is_shutdown = true } in
      if cancel_futures
      then elim (cancel_queued (p.short ++ p.long)) [
        | ok futs ↦ (record closed { short = []; long = [] }, none)
        | raise e ↦ (closed, some e)
      ]
      else (closed, none)

  -- One turn of the loop of `_take_next`.
  unfoldable pub take_next : Pool J → Taken J × Pool J
  take_next p = elim p.short [
    | e ∷ rest ↦ (entry e, record p { short = rest })
    | [] ↦ elim p.long [
      | [] ↦ if p.is_shutdown then (sentinel, p) else (wait, p)
      | e ∷ rest ↦
          if ltb p.long_inflight p.max_long_inflight || p.is_shutdown
          then (entry e, record p { long = rest; long_inflight = p.long_inflight + 1 })
          else (wait, p)
    ]
  ]

  unfoldable pub release_long : Pool J → Pool J
  release_long p =
      if ltb 0 p.long_inflight then record p { long_inflight = p.long_inflight - 1 } else p

  -- The pieces of `_worker_loop`: a long job's place is given back, where its future was cancelled
  -- before it started or once it has ended; a job starts; a job ends.
  unfoldable pub release : Pool J → Entry J → Pool J
  unfolding release_long
  release p e = if is_long e then release_long p else p

  unfoldable pub start : Pool J → Pool J
  start p = record p { running = p.running + 1 }

  unfoldable pub finish : Pool J → Pool J
  finish p = record p { running = p.running - 1 }

-- `build_decode_pool`: the CPUs allowed, and the two environment overrides.
unfoldable pub build_decode_pool {ℓ} : {J : Type ℓ} → ℕ → Option ℕ → Option ℕ → Pool J
unfolding init
build_decode_pool allowed workers_env long_env = init (max 2 (setting workers_env allowed)) long_env
