-- ===== src/AnchorGuard/Tests.antt =====
-- The timing guards' recovery and the watchdog's gate on small inputs.
use wspr_recorder.Common.{ℕ, ◌+◌, true, false, Option, none, some, [], ◌∷◌, ◌≡◌, refl, leb, ltb}
use wspr_recorder.Common.Dict.{lookup, string_eq}
use wspr_recorder.TimingGuard.{Floats, DtGuardConfig, WallClockGuardConfig}
use wspr_recorder.AnchorGuard.{
  Ladders, Recorders, Guards, on_cycle_dt, wallclock_guard_check, init_gate, update_gate,
}
use wspr_recorder.AnchorGuard.Isolation.{Spares, on_cycle_dt-Spares}
use wspr_recorder.AnchorGuard.Judgements.{MovesOnce, run_checks, request, run_checks-MovesOnce}

abbrev whole : Floats
whole = record { Float = ℕ; abs = λ x. x; le = leb; lt = ltb }

abbrev dt_config : DtGuardConfig whole
dt_config = record { threshold_sec = 2; min_spots = 5; cycles = 1 }

abbrev wallclock_config : WallClockGuardConfig whole
wallclock_config = record { threshold_sec = 1; strikes = 1; min_completeness_pct = 95 }

-- A ladder that counts its judgements and asks for a restart at the second.
abbrev counting : Ladders ℕ
counting = record { new_ladder = 0; observe = λ healthy n. (leb 2 (n + 1), n + 1) }

-- A recorder is the number of its resets.
abbrev resets : Recorders ℕ ℕ
resets = record {
  frequency_hz = λ n. 0;
  reset = λ n. some (n + 1);
  set_channel_info = λ i n. some n;
}

abbrev start : Guards ℕ ℕ
start = record {
  dt_strikes = [];
  wallclock_strikes = [];
  wallclock_ladder_slot = [];
  anchor_ladders = [];
  band_recorders = (("a", 1), 0) ∷ (("b", 1), 0) ∷ (("a", 2), 0) ∷ [];
  restarts = 0;
  reanchored = [];
}

abbrev no_states : ℕ → Option ℕ
no_states hz = none

abbrev full : ℕ → ℕ → ℕ
full samples gaps = 100

abbrev early : ℕ → ℕ
early nominal_end = 9

-- A firing guard resets the recorders of its own receiver.
resets_own :
    (on_cycle_dt counting resets whole
      (some dt_config)
      no_states
      "a"
      (some 4)
      9
      start).band_recorders
    ≡ (("a", 1), 1) ∷ (("b", 1), 0) ∷ (("a", 2), 1) ∷ []
unfolding on_cycle_dt string_eq
resets_own = refl

abbrev check : ℕ → ℕ → Guards ℕ ℕ → Guards ℕ ℕ
check slot period =
    wallclock_guard_check counting resets whole (some wallclock_config) full early no_states
      (request counting resets whole "a" slot wallclock_config full no_states 1 0 period)

-- Slots that start together are judged once, whatever their periods.
common_slot : lookup "a" (check 0 120 (check 0 300 (check 0 120 start))).anchor_ladders ≡ some 1
unfolding lookup wallclock_guard_check string_eq
common_slot = refl

-- Checks that alternate between two slots move the ladder each time.
alternating_slots :
    lookup "a" (check 180 120 (check 0 300 (check 180 120 start))).anchor_ladders ≡ some 3
unfolding lookup wallclock_guard_check string_eq
alternating_slots = refl

-- Alive while the counter moves, withheld once it has stalled too long, and alive where it is unknown.
gate_stalls :
    (update_gate
      (some 2)
      80
      (update_gate (some 2) 15 (update_gate (some 1) 10 (init_gate 60 none)).1).1).0
    ≡ false
unfolding update_gate init_gate
gate_stalls = refl

gate_unknown : (update_gate none 900 (init_gate 60 none)).0 ≡ true
unfolding update_gate init_gate
gate_unknown = refl

on_cycle_dt-Spares_example :
    Spares "b" 1 start
      (on_cycle_dt counting resets whole (some dt_config) no_states "a" (some 4) 9 start)
unfolding string_eq
on_cycle_dt-Spares_example =
    on_cycle_dt-Spares counting resets "b" 1 whole (some dt_config) no_states "a" (some 4) 9 start
      refl

run_checks-MovesOnce_example : MovesOnce counting resets whole "a" 0 start (
    run_checks counting resets whole "a" 0 wallclock_config full no_states
      ((early, 1, 0, 120) ∷ (early, 1, 0, 120) ∷ [])
      start)
run_checks-MovesOnce_example =
    run_checks-MovesOnce counting resets whole "a" 0 wallclock_config full no_states
      ((early, 1, 0, 120) ∷ (early, 1, 0, 120) ∷ []) start
