-- ===== src/CycleBatcher/Tests.antt =====
-- Runs of the cycle batcher on small examples.
use Prim.Native.String.{String}
use wspr_recorder.Common.{
  some, ℕ, ◌+◌, Option, none, List, [], ◌∷◌, ◌≡◌, ◌≤◌, refl, All, arith, length, true, false, ◌⊎◌,
  max,
}
use wspr_recorder.Common.Dict.{Dict, lookup, contains, string_eq, pair_eq}
use wspr_recorder.Common.Int.{pos}
use mathlib.Core.List.{Memᴰ}
use wspr_recorder.CycleBatcher.{CycleKey, Batch, Batcher, new_batch, add, init_batcher, due_bands}
use wspr_recorder.CycleBatcher.Writer.{Sink, take_turn, to_next_boundary, submitted, null}
use wspr_recorder.CycleBatcher.Inputs.{Input, World, spots_added, turn, work, run}
use wspr_recorder.CycleBatcher.Accounts.{account, shipped}
use wspr_recorder.CycleBatcher.Balance.{run-account}
use wspr_recorder.CycleBatcher.Delivery.{turn-Delivers}
use wspr_recorder.CycleBatcher.Sleep.{take_turn-Sleeps}
use wspr_recorder.CycleBatcher.Wakes.{wakes}
use wspr_recorder.CycleBatcher.WakeOnce.{run-WakesOnce}

-- A sink that counts the spots that it is given.
abbrev count : Dict String (List ℕ) → ℕ
count [] = 0
count ((_, spots) ∷ d) = length spots + count d

abbrev counting : Sink ℕ ℕ ℕ
counting = record {
  submit_batches = λ bands radiod rx n. (count bands, n + count bands);
  submit_noise_batches = λ noise cycle_key radiod rx n. (length noise, n);
  flush_sink = λ n. n;
}

abbrev no_average : Dict String (List ℕ) → Option ℕ
no_average bands = none

abbrev no_epoch : CycleKey → Option ℕ
no_epoch cycle_key = none

abbrev noon : CycleKey
noon = ("260101", "1200")

abbrev two_spots : Batch ℕ ℕ
two_spots = record (new_batch noon 30_000) {
  bands = ("40", 1 ∷ 2 ∷ []) ∷ [];
  radiod_id = "r";
  rx_source = "a";
}

abbrev fresh : Batcher ℕ ℕ
fresh = record {
  deadline_ms = 30_000;
  backstop_ms = 180_000;
  ft_settle_ms = 0;
  batches = [];
  expected_rx_sources = [];
  cycle_committed_rx = [];
  cycle_first_commit_at = [];
  cycle_wake_fired = [];
  bands_by_source = [];
  unproducible = [];
  is_stopped = false;
  callback = true;
  judge = true;
  pending_timers = [];
}

abbrev pending_one : Batcher ℕ ℕ
pending_one = record fresh { batches = ((noon, "a"), two_spots) ∷ [] }

abbrev synced : Batcher ℕ ℕ
synced = record pending_one {
  expected_rx_sources = "a" ∷ "b" ∷ [];
  cycle_first_commit_at = (("260101", "1158"), 0) ∷ [];
}

abbrev world : Batcher ℕ ℕ → World ℕ ℕ ℕ ℕ
world s = record { sink = 0; batcher = s; tasks = []; log = [] }

abbrev late_spot : List (Input ℕ ℕ)
late_spot =
    spots_added 0 noon "40" (1 ∷ 2 ∷ []) "r" "a"
    ∷ turn 40_000
    ∷ spots_added 41_000 noon "40" (3 ∷ []) "r" "a"
    ∷ spots_added 41_000 noon "30" (4 ∷ []) "r" "a"
    ∷ work 42_000 0
    ∷ []

init_batcher_run :
    init_batcher {S = ℕ} {N = ℕ} 30_000 180_000 (pos 0) true ≡ record fresh { callback = false }
unfolding init_batcher
init_batcher_run = refl

to_next_boundary_run : to_next_boundary 31_000 ≡ 14_000
unfolding to_next_boundary
to_next_boundary_run = refl

to_next_boundary_exact : to_next_boundary 30_000 ≡ 15_000
unfolding to_next_boundary
to_next_boundary_exact = refl

due_bands_run :
    due_bands 300 ("20" ∷ []) (("40", 120 ∷ []) ∷ ("80", 120 ∷ 300 ∷ []) ∷ ("20", 300 ∷ []) ∷ []) []
    ≡ "80" ∷ []
unfolding due_bands string_eq
due_bands_run = refl

shipped-late_spot :
    shipped (noon, "a") "40" (run counting no_average no_epoch late_spot (world fresh)).log
    ≡ 1 ∷ 2 ∷ []
unfolding run add pair_eq string_eq
shipped-late_spot = refl

run-account_example :
    account counting no_average
      (noon, "a")
      "40"
      (run counting no_average no_epoch late_spot (world fresh))
    ≡ 1 ∷ 2 ∷ 3 ∷ []
unfolding pair_eq string_eq
run-account_example =
    run-account counting no_average no_epoch (noon, "a") "40" late_spot (world fresh)
      (record { own = tt; nodup = tt })

turn-Delivers_example :
    Memᴰ
      (submitted two_spots)
      (run counting no_average no_epoch (turn 40_000 ∷ work 42_000 0 ∷ []) (world pending_one)).log
unfolding take_turn lookup pair_eq string_eq
turn-Delivers_example =
    turn-Delivers counting no_average no_epoch 40_000 (noon, "a") two_spots (work 42_000 0 ∷ [])
      (world pending_one) refl refl refl refl (omega arith)

run-WakesOnce_example :
    wakes noon
        (run counting no_average no_epoch (turn 40_000 ∷ work 42_000 0 ∷ []) (world synced)).log
      + 0
    ≤ 1
run-WakesOnce_example =
    run-WakesOnce counting no_average no_epoch noon (turn 40_000 ∷ work 42_000 0 ∷ [])
      (world synced) (refl, (refl, tt)) refl refl

take_turn-Sleeps_example :
    All
      (λ (k, b). 10_000 + (take_turn 10_000 synced).sleep ≤ max b.deadline 10_050)
      (take_turn 10_000 synced).after.batches
    × ((null synced.expected_rx_sources ≡ true)
        ⊎ All
            (λ (c, first).
              (contains (take_turn 10_000 synced).after.cycle_wake_fired c ≡ true)
              ⊎ (10_000 + (take_turn 10_000 synced).sleep ≤ max (first + 180_000) 10_050))
            synced.cycle_first_commit_at)
take_turn-Sleeps_example = take_turn-Sleeps 10_000 synced

-- The second band's longer period ends with the cycle.
abbrev two_bands : Dict String (List ℕ)
two_bands = ("40", 120 ∷ []) ∷ ("80", 120 ∷ 300 ∷ []) ∷ []

abbrev configured : Batcher ℕ ℕ
configured = record fresh { bands_by_source = ("a", two_bands) ∷ [] }

abbrev at_300 : CycleKey → Option ℕ
at_300 cycle_key = some 300

abbrev reported : List String
reported = "40" ∷ "80" ∷ []
