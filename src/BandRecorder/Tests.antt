-- ===== src/BandRecorder/Tests.antt =====
-- The recorder on small inputs: one sample a second.
use wspr_recorder.Common.{
  ℕ, ◌≡◌, refl, arith, Option, none, some, true, false, List, [], ◌∷◌, ◌++◌, All,
}
use wspr_recorder.Common.Int.{pos}
use wspr_recorder.Common.Results.{ok}
use wspr_recorder.DecodeMode.{DecodeMode, w2}
use wspr_recorder.RingBuffer.{RingBuffer, init}
use wspr_recorder.RingBuffer.Tracks.{init-Tracks}
use wspr_recorder.RingBuffer.Tests.{wrapped, five, wrapped-Tracks}
use wspr_recorder.BandRecorder.{
  Sync, Config, Recorder, World, Anchored, Event, StreamQuality, anchor_utc_now,
}
use wspr_recorder.BandRecorder.Boundary.{fresh_stats}
use wspr_recorder.BandRecorder.Slots.{
  harvest_slots, harvest_fuel, harvest_ready_slots, after_harvest,
}
use wspr_recorder.BandRecorder.Samples.{on_samples}
use wspr_recorder.BandRecorder.Progress.{HarvestsTo, harvest_slots-Harvested}
use wspr_recorder.BandRecorder.Windows.{IsFaithful, harvest_ready_slots-IsFaithful}
use wspr_recorder.BandRecorder.TierRuns.{quiet_alarm, Agrees, run_tiers, run_tiers-Agrees}
use wspr_recorder.BandRecorder.Minutes.{IsRecording}
use wspr_recorder.BandRecorder.Ingest.{Taken, on_samples-Taken}

abbrev config : Config
config = record {
  frequency_hz = 14_095_600;
  band_name = "20";
  sample_rate = 1;
  decode_modes = w2 ∷ [];
  rx_source = "rx";
  has_reader = true;
  tier_floor_rank = 3;
  tier_alarm_after = 2;
  expect_rank = some 4;
  tier_warmup = 3;
  abs_div_threshold = 500_000;
  abs_div_after = 2;
}

abbrev anchored : Anchored
anchored = record { wallclock = 10_000_000; rtp_timestamp = 4_294_967_295 }

abbrev world : World
world = record {
  now = 20_000_000;
  now_iso = "";
  live_anchor = λ rtp frozen. none;
  channel = none;
  tier = some "T5";
}

-- A table of periods in which W2 takes two seconds.
abbrev two_seconds : DecodeMode → ℕ
two_seconds m = 2

-- A strategy that never decides.
abbrev sync : Sync
sync = record {
  State = ℕ;
  should_start_minute = λ s rtp n wall. ok (s, none);
  on_minute_started = λ s rtp wall. s;
  reset = λ s. s;
}

abbrev recorder : RingBuffer ℕ → Recorder ℕ ℕ
recorder ring = record {
  config = config;
  sync = 0;
  resync_requested = false;
  tier = quiet_alarm;
  divergence = record {
    strikes = 0;
    faults = 0;
    last_divergence = pos 0;
    anchor_epoch = none;
    origin_step_faults = 0;
  };
  stats = fresh_stats;
  initialized = true;
  synced = true;
  last_harvest_off = 0;
  ring = ring;
  minute_count = 0;
  anchor = some anchored;
  slot_next_utc = λ p. none;
}

harvest_slots-Harvested_example : HarvestsTo config anchored 10_000_000 wrapped (w2 ∷ []) 2 10 (
    harvest_slots
      (harvest_fuel 10_000_000 wrapped)
      config
      anchored
      10_000_000
      wrapped
      (w2 ∷ [])
      2
      10)
harvest_slots-Harvested_example =
    harvest_slots-Harvested config anchored 10_000_000 wrapped (w2 ∷ []) 2 10 (omega arith)
      (omega arith)

harvest_ready_slots-IsFaithful_example :
    (next : ℕ → Option ℕ) × (events : List (Event ℕ)) × (harvest_ready_slots two_seconds world
        (recorder wrapped)
      ≡ ok (after_harvest (recorder wrapped) next events, events))
    × All
        (IsFaithful
          (recorder wrapped).config
          anchored
          (anchor_utc_now world anchored)
          (recorder wrapped).ring
          five)
        events
harvest_ready_slots-IsFaithful_example =
    harvest_ready_slots-IsFaithful two_seconds world (recorder wrapped) anchored five refl
      wrapped-Tracks (omega arith) (omega arith, tt)

abbrev empty_ring : RingBuffer ℕ
empty_ring = init 0 90 1

empty-IsRecording : IsRecording two_seconds (recorder empty_ring) []
unfolding init
empty-IsRecording = record {
  is_open = record {
    tracks = init-Tracks 0 90 1 (omega arith);
    rate = omega arith;
    periods = (omega arith, tt);
    held = anchored;
    anchored = refl;
    roomy = omega arith;
  };
  minute = omega arith;
  quiet = refl;
}

abbrev quality : StreamQuality
quality = record {
  first_rtp_timestamp = 4_294_967_295;
  total_samples_delivered = 3;
  total_samples_expected = 3;
  total_gaps_filled = 1;
  rtp_packets_received = 1;
  rtp_packets_expected = 1;
  rtp_packets_lost = 0;
  rtp_packets_late = 0;
  rtp_packets_duplicate = 0;
  rtp_packets_resequenced = 0;
  sample_rate = 1;
  batch_gaps = 1 ∷ [];
}

on_samples-Taken_example :
    Taken sync two_seconds 0
      ([] ++ 7 ∷ 8 ∷ 9 ∷ [])
      (on_samples sync two_seconds 0 world (7 ∷ 8 ∷ 9 ∷ []) quality (recorder empty_ring))
on_samples-Taken_example =
    on_samples-Taken sync two_seconds 0 world (7 ∷ 8 ∷ 9 ∷ []) quality (recorder empty_ring) [] refl
      empty-IsRecording

run_tiers-Agrees_example :
    Agrees config
      (some "T2" ∷ some "T4" ∷ none ∷ [])
      (run_tiers config (some "T2" ∷ some "T4" ∷ none ∷ []))
run_tiers-Agrees_example = run_tiers-Agrees config (some "T2" ∷ some "T4" ∷ none ∷ [])
