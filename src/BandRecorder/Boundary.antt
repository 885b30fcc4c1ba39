-- ===== src/BandRecorder/Boundary.antt =====
-- `_on_minute_boundary` and `reset`.
use wspr_recorder.Common.{
  ℕ, ◌+◌, ◌*◌, Option, none, some, List, [], Bool, true, false, ltb, leb, ◌==◌, ◌&&◌, if◌then◌else◌,
}
use wspr_recorder.Common.Int.{pos, ◌-ℤ◌, pos_part, neg_part}
use wspr_recorder.Common.Words.{add_u32}
use wspr_recorder.Common.Results.{Result, ok, raise, attribute_error}
use wspr_recorder.DecodeMode.{DecodeMode, max_period_seconds}
use wspr_recorder.RingBuffer.{RingBuffer, init, close_minute}
use wspr_recorder.BandRecorder.{
  Sync, Config, Recorder, Divergence, BandRecorderStats, Event, World, Channel, Anchored,
  anchor_utc_now,
}
use wspr_recorder.BandRecorder.Alarm.{check_tier}
use wspr_recorder.BandRecorder.Slots.{harvest_ready_slots}

abbrev pub ring_headroom_seconds : ℕ
ring_headroom_seconds = 600

abbrev pub fresh_stats : BandRecorderStats
fresh_stats = record {
  packets_received = 0;
  samples_received = 0;
  samples_written = 0;
  gaps_detected = 0;
  gaps_filled_samples = 0;
  periods_emitted = 0;
  sequence_errors = 0;
  quality = none;
}

-- Whether a detector asked for a new correlation, and the detectors' state.
-- `abs(x)` of an integer is the sum of its parts, one of which is 0.
unfoldable pub check_divergence : Config → Option ℕ → ℕ → Divergence → Divergence × Bool
check_divergence c none minute_wallclock d = (d, false)
check_divergence c (some ref) minute_wallclock d =
    let abs_div = pos minute_wallclock -ℤ pos ref in
    let noted = record d { last_divergence = abs_div } in
    if ltb c.abs_div_threshold (pos_part abs_div + neg_part abs_div)
    then (if leb c.abs_div_after (d.strikes + 1)
        then (record noted { strikes = 0; faults = d.faults + 1 }, true)
        else (record noted { strikes = d.strikes + 1 }, false))
    else (record noted { strikes = 0 }, false)

unfoldable pub check_epoch : Option ℕ → Divergence → Divergence × Bool
check_epoch none d = (d, false)
check_epoch (some cur) d = elim d.anchor_epoch [
  | none ↦ (record d { anchor_epoch = some cur }, false)
  | some old ↦ if cur == old then (d, false) else (
    record d { origin_step_faults = d.origin_step_faults + 1; anchor_epoch = some cur },
    true,
  )
]

-- The two RTP-referenced detectors in order; the second runs only if the first asks for nothing.
unfoldable pub check_grid : Config → Channel → ℕ → ℕ → Divergence → Divergence × Bool
unfolding check_divergence check_epoch
check_grid c channel minute_rtp minute_wallclock d =
    let (d', resync) =
      check_divergence c (channel.rtp_to_utc minute_rtp minute_wallclock) minute_wallclock d in
    if resync then (d', true) else check_epoch channel.anchor_epoch d'

abbrev pub grid_verdict : Config → Bool → Option Channel → ℕ → ℕ → Divergence → Divergence × Bool
grid_verdict c false channel minute_rtp minute_wallclock d = (d, false)
grid_verdict c true none minute_rtp minute_wallclock d = (d, false)
grid_verdict c true (some channel) minute_rtp minute_wallclock d =
    check_grid c channel minute_rtp minute_wallclock d

-- `datetime.fromtimestamp(anchor_utc_now + 60 * minute_count)`
abbrev pub minute_label : World → Anchored → ℕ → ℕ
minute_label world a minute_count = anchor_utc_now world a + 60_000_000 * minute_count

module _ {S A : Type 0} (period : DecodeMode → ℕ) where
  -- What follows the detectors: the alarm, the mark of the minute, the harvest.
  unfoldable pub finish_boundary :
      World → Recorder S A → ℕ → ℕ → Result (Recorder S A × List (Event A))
  finish_boundary world r minute_wallclock minute_rtp =
      let tier =
        if r.synced && r.config.has_reader then check_tier r.config world.tier r.tier else r.tier in
      harvest_ready_slots period world
        (record r { tier = tier; ring = close_minute r.ring (pos minute_wallclock) minute_rtp })

  -- Without an anchor the code reads an attribute of `None`.
  unfoldable pub on_minute_boundary : World → Recorder S A → Result (Recorder S A × List (Event A))
  unfolding finish_boundary
  on_minute_boundary world r = elim r.anchor [
    | none ↦ raise attribute_error
    | some a ↦
        let count = r.minute_count + 1 in
        let minute_wallclock = minute_label world a count in
        let minute_rtp = add_u32 a.rtp_timestamp (count * (r.config.sample_rate * 60)) in
        let (d, resync) =
          grid_verdict r.config r.synced world.channel minute_rtp minute_wallclock r.divergence in
        let judged = record r { minute_count = count; divergence = d } in
        let finished = finish_boundary world judged minute_wallclock minute_rtp in
        if resync then ok (record judged { resync_requested = true }, []) else finished
  ]

-- A ring for the longest period and the headroom, as `__init__` and `reset` make it.
unfoldable pub new_ring : {A : Type 0} → (DecodeMode → ℕ) → A → Config → RingBuffer A
new_ring period silence c =
    init silence (max_period_seconds period c.decode_modes + ring_headroom_seconds) c.sample_rate

-- `reset`: the faults and what the alarm has seen persist.
unfoldable pub reset :
    {A : Type 0} (sync : Sync)
    → (DecodeMode → ℕ)
    → A
    → Recorder sync.State A
    → Recorder sync.State A
unfolding new_ring
reset sync period silence r =
    let tier = r.tier in
    let divergence = r.divergence in
    record r {
      initialized = false;
      synced = false;
      last_harvest_off = 0;
      resync_requested = false;
      divergence = record divergence { anchor_epoch = none };
      tier = record tier { strikes = 0 };
      minute_count = 0;
      anchor = none;
      slot_next_utc = λ p. none;
      sync = sync.reset r.sync;
      ring = new_ring period silence r.config;
      stats = fresh_stats;
    }
