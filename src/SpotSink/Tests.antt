-- ===== src/SpotSink/Tests.antt =====
-- The spot sink on small examples.
use Prim.Native.String.{String}
use wspr_recorder.Common.{
  ℕ, ◌+◌, Option, none, some, List, [], ◌∷◌, ◌≡◌, refl, true, false, ltb, if◌then◌else◌,
}
use wspr_recorder.Common.Dict.{Dict}
use wspr_recorder.CycleBatcher.{Batcher}
use wspr_recorder.CycleBatcher.Inputs.{Input, World, spots_added, turn, work, run}
use wspr_recorder.SpotSink.{DecodedSpot, Station, RowFields, strip_resolved_brackets}
use wspr_recorder.SpotSink.Sink.{TableWriter, SpotSink, submit_rows, enabled_by_env, close}
use wspr_recorder.SpotSink.Brackets.{bracketed, strip-bracketed}
use wspr_recorder.SpotSink.Ledger.{Accounts, HandsOver, converted, submit_rows-Accounts}
use wspr_recorder.SpotSink.Batched.{batched, Balanced, run-Balanced}

-- A table of at most two inserts.
abbrev small_table : {X : Type 0} → TableWriter ℕ X
small_table = record {
  insert = λ rows n. if ltb n 2 then (true, n + 1) else (false, n);
  flush_writer = λ n. n;
  is_noop = λ n. false;
}

abbrev open_sink : SpotSink ℕ ℕ
open_sink = record {
  enabled = true;
  writer = some 0;
  noise_writer = none;
  rows_written = 0;
  rows_dropped = 0;
}

-- Conversion that refuses 0.
abbrev fields : RowFields ℕ ℕ
fields = record {
  stamp = λ date time. none;
  now = "2026-01-01T12:00:00Z";
  mode_name = λ code. none;
  packet_name = λ code. "PKT";
  convert = λ n. if ltb 0 n then some n else none;
}

abbrev station : Station
station = record {
  rx_call = "K1ABC";
  rx_grid = "FN42";
  host_id = "h";
  decoder_depth = 3;
  reporter_id = none;
}

abbrev spot : ℕ → DecodedSpot ℕ
spot n = record {
  date = "260101";
  time = "1200";
  call = 75 ∷ 49 ∷ [];
  grid = "none";
  pkt_mode = 2;
  numbers = n;
}

abbrev odd_row : ℕ → Option ℕ
odd_row n = if ltb 0 n then some n else none

abbrev fresh : Batcher (DecodedSpot ℕ) ℕ
fresh = record {
  deadline_ms = 30_000;
  backstop_ms = 180_000;
  ft_settle_ms = 0;
  batches = [];
  expected_rx_sources = [];
  cycle_committed_rx = [];
  cycle_first_commit_at = [];
  cycle_wake_fired = [];
  bands_by_source = [];
  unproducible = [];
  is_stopped = false;
  callback = true;
  judge = true;
  pending_timers = [];
}

abbrev world : World (SpotSink ℕ ℕ) (DecodedSpot ℕ) ℕ ℕ
world = record { sink = open_sink; batcher = fresh; tasks = []; log = [] }

abbrev inputs : List (Input (DecodedSpot ℕ) ℕ)
inputs =
    spots_added 0 ("260101", "1200") "40" (spot 1 ∷ spot 0 ∷ []) "r" "a"
    ∷ turn 40_000
    ∷ work 41_000 0
    ∷ []

abbrev no_average : Dict String (List (DecodedSpot ℕ)) → Option ℕ
no_average bands = none

disabled_by_default : enabled_by_env (some "0") ≡ false
unfolding enabled_by_env
disabled_by_default = refl

close_disables : (close open_sink).enabled ≡ false
unfolding close
close_disables = refl

keeps_ellipsis : strip_resolved_brackets (60 ∷ 46 ∷ 46 ∷ 46 ∷ 62 ∷ []) ≡ 60 ∷ 46 ∷ 46 ∷ 46 ∷ 62 ∷ []
unfolding strip_resolved_brackets
keeps_ellipsis = refl

strip-bracketed_example : strip_resolved_brackets (bracketed (75 ∷ 49 ∷ [])) ≡ 75 ∷ 49 ∷ []
strip-bracketed_example = strip-bracketed (75 ∷ 49 ∷ [])

submit_rows-Accounts_example :
    Accounts 3 open_sink (submit_rows small_table odd_row (1 ∷ 0 ∷ 2 ∷ []) open_sink)
    × HandsOver small_table 0
        (converted odd_row (1 ∷ 0 ∷ 2 ∷ []))
        (submit_rows small_table odd_row (1 ∷ 0 ∷ 2 ∷ []) open_sink)
submit_rows-Accounts_example =
    submit_rows-Accounts small_table odd_row (1 ∷ 0 ∷ 2 ∷ []) open_sink 0 refl refl

run-Balanced_example :
    Balanced small_table small_table fields fields station none no_average world (
      run
        (batched small_table small_table fields fields station none)
        no_average
        (λ _. none)
        inputs
        world)
run-Balanced_example =
    run-Balanced small_table small_table fields fields station none no_average (λ _. none) inputs
      world refl
