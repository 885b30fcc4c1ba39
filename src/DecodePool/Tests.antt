-- ===== src/DecodePool/Tests.antt =====
-- The decode pool on small inputs.
use wspr_recorder.Common.{ℕ, ◌≤◌, ◌≡◌, ◌⊎◌, refl, arith, true, false, none, some, [], ◌∷◌}
use wspr_recorder.Common.Results.{value_error}
use wspr_recorder.DecodePool.{
  Pool, Entry, init, submit, take_next, shutdown, pending, start, heappush,
}
use wspr_recorder.DecodePool.Order.{IsValid, TakesWell, take_next-TakesWell}
use wspr_recorder.DecodePool.Workers.{
  System, Reach, done, next, submitted, taken, started, here, fresh, longs, IsConsistent,
  Reach-IsConsistent, shutdown-cancel_raises,
}

abbrev job_entry : ℕ → ℕ → Entry ℕ
job_entry period seq = record { period = period; seq = seq; job = seq; enqueued = 0 }

-- A pool of two workers with a short and a long job queued.
abbrev queued : Pool ℕ
queued = record {
  max_workers = 2;
  max_long_inflight = 1;
  short = job_entry 120 2 ∷ [];
  long = job_entry 900 1 ∷ [];
  seq = 2;
  long_inflight = 0;
  running = 0;
  is_shutdown = false;
}

queued-IsValid : IsValid queued
queued-IsValid = record {
  short_sorted = (tt, tt);
  long_sorted = (tt, tt);
  short_kind = (omega arith, tt);
  long_kind = (omega arith, tt);
  short_seq = (omega arith, tt);
  long_seq = (omega arith, tt);
  some_long = omega arith;
}

take_next-TakesWell_example : TakesWell queued (take_next queued)
take_next-TakesWell_example = take_next-TakesWell queued queued-IsValid

shutdown-cancel_raises_example :
    ((shutdown queued true).1 ≡ some value_error)
    × ((shutdown queued true).0 ≡ record queued { is_shutdown = true })
unfolding pending
shutdown-cancel_raises_example = shutdown-cancel_raises queued (omega arith)

-- A long job is submitted, taken and started.
abbrev idle : Pool ℕ
idle = record {
  max_workers = 2;
  max_long_inflight = 1;
  short = [];
  long = [];
  seq = 0;
  long_inflight = 0;
  running = 0;
  is_shutdown = false;
}

abbrev one_queued : Pool ℕ
one_queued = record idle { seq = 1; long = job_entry 900 1 ∷ [] }

abbrev one_taken : Pool ℕ
one_taken = record idle { seq = 1; long_inflight = 1 }

abbrev busy : System ℕ
busy = record {
  pool = record one_taken { running = 1 };
  picked = [];
  active = job_entry 900 1 ∷ [];
  ending = [];
}

busy-Reach : Reach (fresh 2 none) busy
unfolding init submit take_next start heappush
busy-Reach =
    next
      (next (next done (submitted {p = one_queued} (some 900) 1 0 refl))
        (taken {p = one_taken} (job_entry 900 1) refl))
      (started (job_entry 900 1) here)

Reach-IsConsistent_example :
    IsConsistent busy
    × ((busy.pool.is_shutdown ≡ true) ⊎ (longs busy.active ≤ busy.pool.max_long_inflight))
Reach-IsConsistent_example = Reach-IsConsistent 2 none busy-Reach
