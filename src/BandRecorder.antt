-- ===== src/BandRecorder.antt =====
-- wspr_recorder/band_recorder.py: the recorder of one band. This file has its state; its children
-- have the operations and what is proved of them. Times are whole microseconds since the epoch, the
-- starts of slots whole seconds.
pub mod Slots
pub mod Boundary
pub mod Samples
pub mod Progress
pub mod Windows
pub mod Alarm
pub mod TierHistory
pub mod TierRuns
pub mod Minutes
pub mod Ingest
mod Tests
use Prim.Native.String.{String}
use wspr_recorder.Common.{
  ℕ, zero, suc, ◌+◌, ◌-◌, ◌*◌, ◌/◌, Bool, Option, none, some, List, leb, if◌then◌else◌,
}
use wspr_recorder.Common.Int.{ℤ, pos, negsuc}
use wspr_recorder.Common.Rounding.{round_div}
use wspr_recorder.Common.Results.{Result}
use wspr_recorder.DecodeMode.{DecodeMode}
use wspr_recorder.RingBuffer.{RingBuffer, GapEvent}
use wspr_recorder.SyncStrategy.{SyncDecision}

-- What the recorder uses of its `sync_strategy`.
pub record Sync : Type 1 where
  pub State : Type 0
  pub should_start_minute : State → ℕ → ℕ → ℕ → Result (State × Option SyncDecision)
  pub on_minute_started : State → ℕ → ℕ → State
  pub reset : State → State

-- The slice that an F15 or F30 request leaves to its worker.
pub record Deferred : Type 0 where
  pub start_offset : ℕ
  pub n_samples : ℕ
  pub start_wallclock : ℕ
  pub start_rtp_timestamp : ℕ

pub record DecodeRequest (A : Type 0) : Type 0 where
  pub frequency_hz : ℕ
  pub band_name : String
  pub modes : List DecodeMode
  pub period_seconds : ℕ
  pub samples : Option (List A)
  pub gaps : List GapEvent
  pub start_wallclock : ℕ
  pub start_rtp_timestamp : ℕ
  pub end_rtp_timestamp : ℕ
  pub rx_source : String
  pub extract : Option Deferred

-- What a harvest does with a slot: hand a request to the decode pipeline, or file a drop with the
-- health ledger.
pub data Event (A : Type 0) : Type 0 where
  dispatched : DecodeRequest A → Event A
  dropped : (band : String) (period_s cycle_start : ℕ) → Event A

-- The counters that are copied from a `StreamQuality`.
pub record StreamQuality : Type 0 where
  pub first_rtp_timestamp : ℕ
  pub total_samples_delivered : ℕ
  pub total_samples_expected : ℕ
  pub total_gaps_filled : ℕ
  pub rtp_packets_received : ℕ
  pub rtp_packets_expected : ℕ
  pub rtp_packets_lost : ℕ
  pub rtp_packets_late : ℕ
  pub rtp_packets_duplicate : ℕ
  pub rtp_packets_resequenced : ℕ
  pub sample_rate : ℕ
  -- the durations of `batch_gaps`
  pub batch_gaps : List ℕ

-- `quality` holds the `sq_` counters.
pub record BandRecorderStats : Type 0 where
  pub packets_received : ℕ
  pub samples_received : ℕ
  pub samples_written : ℕ
  pub gaps_detected : ℕ
  pub gaps_filled_samples : ℕ
  pub periods_emitted : ℕ
  pub sequence_errors : ℕ
  pub quality : Option StreamQuality

-- What `__init__` fixes. `expect_rank` is `none` where no tier is expected.
pub record Config : Type 0 where
  pub frequency_hz : ℕ
  pub band_name : String
  pub sample_rate : ℕ
  pub decode_modes : List DecodeMode
  pub rx_source : String
  pub has_reader : Bool
  pub tier_floor_rank : ℕ
  pub tier_alarm_after : ℕ
  pub expect_rank : Option ℕ
  pub tier_warmup : ℕ
  pub abs_div_threshold : ℕ
  pub abs_div_after : ℕ

-- The GPSDO / RTP-ruler integrity alarm.
pub record TierAlarm : Type 0 where
  pub strikes : ℕ
  pub seen_ok : Bool
  pub faults : ℕ
  pub last_active : Option String
  pub boundaries_since_start : ℕ
  pub best_rank : Option ℕ
  pub coldstart_faulted : Bool

-- The two detectors that compare the grid with radiod's mapping.
pub record Divergence : Type 0 where
  pub strikes : ℕ
  pub faults : ℕ
  pub last_divergence : ℤ
  pub anchor_epoch : Option ℕ
  pub origin_step_faults : ℕ

-- The anchor: `_first_wallclock` and `_first_rtp_timestamp`, which are set together.
pub record Anchored : Type 0 where
  pub wallclock : ℕ
  pub rtp_timestamp : ℕ

pub record Recorder (S A : Type 0) : Type 0 where
  pub config : Config
  pub sync : S
  pub resync_requested : Bool
  pub tier : TierAlarm
  pub divergence : Divergence
  pub stats : BandRecorderStats
  pub initialized : Bool
  pub synced : Bool
  pub last_harvest_off : ℕ
  pub ring : RingBuffer A
  pub minute_count : ℕ
  pub anchor : Option Anchored
  pub slot_next_utc : ℕ → Option ℕ

-- radiod's channel, while the strategy has one: `rtp_to_utc` of an RTP timestamp and a hint, and the
-- channel's `anchor_epoch`.
pub record Channel : Type 0 where
  pub rtp_to_utc : ℕ → ℕ → Option ℕ
  pub anchor_epoch : Option ℕ

-- The world as one call sees it. `live_anchor` is `acquire_anchor_utc` of the anchor's RTP timestamp
-- and frozen clock, `none` where the strategy has no channel or the result is not RTP-referenced.
-- `tier` is what the authority reader reads.
pub record World : Type 0 where
  pub now : ℕ
  pub now_iso : String
  pub live_anchor : ℕ → ℕ → Option ℕ
  pub channel : Option Channel
  pub tier : Option String

-- `_anchor_utc_now`, for a recorder that has an anchor.
abbrev pub anchor_utc_now : World → Anchored → ℕ
anchor_utc_now world a = elim (world.live_anchor a.rtp_timestamp a.wallclock) [
  | none ↦ a.wallclock
  | some utc ↦ utc
]

abbrev pub negate : ℕ → ℤ
negate zero = pos 0
negate (suc n) = negsuc n

-- `round((nxt - anchor_utc_now) * sr)`
unfoldable pub start_offset : ℕ → ℕ → ℕ → ℤ
start_offset sample_rate anchor nxt =
    if leb anchor (nxt * 1_000_000)
    then pos (round_div ((nxt * 1_000_000 - anchor) * sample_rate) 1_000_000)
    else negate (round_div ((anchor - nxt * 1_000_000) * sample_rate) 1_000_000)

-- `math.ceil(anchor_utc_now / period_sec) * period_sec`
abbrev pub first_slot : ℕ → ℕ → ℕ
first_slot anchor period = (anchor + period * 1_000_000 - 1) / (period * 1_000_000) * period
