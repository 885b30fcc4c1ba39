-- ===== src/BandRecorder/Samples.antt =====
-- `on_samples` and `_add_samples`: a batch of samples into the ring, minute by minute.
use wspr_recorder.Common.{
  ℕ, zero, suc, ◌+◌, ◌-◌, ◌*◌, min, Bool, true, false, ◌&&◌, none, some, List, [], ◌∷◌, ◌++◌, leb,
  if◌then◌else◌, length, take, drop,
}
use wspr_recorder.Common.Words.{sub_u32}
use wspr_recorder.Common.Results.{Result, ok, raise, out_of_fuel, ◌>>=◌}
use wspr_recorder.DecodeMode.{DecodeMode}
use wspr_recorder.RingBuffer.{GapEvent, write_samples, record_gap}
use wspr_recorder.BandRecorder.{Sync, Recorder, StreamQuality, Event, World, Config}
use wspr_recorder.BandRecorder.Slots.{harvest_ready_slots}
use wspr_recorder.BandRecorder.Boundary.{on_minute_boundary, reset}
use wspr_recorder.SyncStrategy.{SyncDecision}

-- The loop of `on_samples` over the batch's gaps, each cut to two seconds.
unfoldable pub note_gaps : {S A : Type 0} → World → List ℕ → Recorder S A → Recorder S A
note_gaps world [] r = r
note_gaps world (duration ∷ gaps) r =
    let gap_samples = min duration (r.config.sample_rate * 2) in
    let gap : GapEvent = record {
      position_samples = r.ring.current_minute_sample_count;
      duration_samples = gap_samples;
      rtp_sequence_before = 0;
      rtp_sequence_after = 0;
      timestamp_utc = world.now_iso;
    } in
    let stats = r.stats in
    note_gaps world gaps (record r {
      ring = record_gap r.ring gap;
      stats = record stats {
        gaps_detected = stats.gaps_detected + 1;
        gaps_filled_samples = stats.gaps_filled_samples + gap_samples;
      };
    })

-- What the loop over a batch leaves: whether it was cut short by a new correlation.
pub record Progress (S A : Type 0) : Type 0 where
  pub recorder : Recorder S A
  pub events : List (Event A)
  pub was_reset : Bool

abbrev pub per_minute : Config → ℕ
per_minute c = c.sample_rate * 60

module _ {A : Type 0} (sync : Sync) (period : DecodeMode → ℕ) (silence : A) where
  -- What follows a write that filled the minute, or did not, and whether it asks for a reset.
  unfoldable pub close_if_full :
      World → Recorder sync.State A → Result (Recorder sync.State A × List (Event A) × Bool)
  close_if_full world r =
      let closing =
        on_minute_boundary period world r >>= λ (c, es). ok (c, es, c.resync_requested) in
      if leb (per_minute r.config) r.ring.current_minute_sample_count
      then closing
      else ok (r, [], false)

  -- The loop `while len(remaining) > 0`.
  unfoldable pub write_loop :
      ℕ → World → List A → Recorder sync.State A → Result (Progress sync.State A)
  unfolding close_if_full
  write_loop fuel world [] r = ok (record { recorder = r; events = []; was_reset = false })
  write_loop zero world (x ∷ xs) r = raise out_of_fuel
  write_loop (suc fuel) world (x ∷ xs) r = do
    let remaining = x ∷ xs
    let space = per_minute r.config - r.ring.current_minute_sample_count
    let chunk_size = min (length remaining) space
    ring ← write_samples r.ring (take chunk_size remaining)
    (closed, events, resync) ← close_if_full world (record r { ring = ring })
    elim resync [
      | true ↦ ok (record {
        recorder = reset sync period silence closed;
        events = events;
        was_reset = true;
      })
      | false ↦ do
        rest ← write_loop fuel world (drop chunk_size remaining) closed
        ok (record rest { events = events ++ rest.events })
    ]

  -- The harvest after a batch, at most once a second of audio.
  unfoldable pub throttled_harvest :
      World → Recorder sync.State A → Result (Recorder sync.State A × List (Event A))
  throttled_harvest world r =
      let off = r.ring.absolute_sample_count in
      let harvested = harvest_ready_slots period world (record r { last_harvest_off = off }) in
      if r.synced && leb r.config.sample_rate (off - r.last_harvest_off)
      then harvested
      else ok (r, [])

  -- The samples of a batch once the recorder is synced.
  unfoldable pub take_batch :
      World → List A → Recorder sync.State A → Result (Recorder sync.State A × List (Event A))
  unfolding write_loop throttled_harvest
  take_batch world samples r = do
    progress ← write_loop (length samples) world samples r
    elim progress.was_reset [
      | true ↦ ok (progress.recorder, progress.events)
      | false ↦ do
        (harvested, more) ← throttled_harvest world progress.recorder
        ok (harvested, progress.events ++ more)
    ]

  -- The first anchor: the samples that precede the boundary are skipped.
  unfoldable pub start_at :
      World
      → List A
      → SyncDecision
      → Recorder sync.State A
      → Result (Recorder sync.State A × List (Event A))
  unfolding take_batch
  start_at world samples d r =
      let synced = record r {
        synced = true;
        anchor =
            some (record { wallclock = d.start_wallclock; rtp_timestamp = d.start_rtp_timestamp });
        sync = sync.on_minute_started r.sync d.start_rtp_timestamp d.start_wallclock;
      } in
      elim (drop d.sample_offset samples) [
        | [] ↦ ok (synced, [])
        | x ∷ xs ↦ take_batch world (x ∷ xs) synced
      ]

  -- A batch that comes before there is an anchor: the strategy decides.
  unfoldable pub await_start :
      World → List A → ℕ → Recorder sync.State A → Result (Recorder sync.State A × List (Event A))
  unfolding start_at
  await_start world samples rtp_timestamp r = do
    (state, decision) ← sync.should_start_minute r.sync rtp_timestamp (length samples) world.now
    elim decision [
      | none ↦ ok (record r { sync = state }, [])
      | some d ↦ start_at world samples d (record r { sync = state })
    ]

  -- `_add_samples`
  unfoldable pub add_samples :
      World → List A → ℕ → Recorder sync.State A → Result (Recorder sync.State A × List (Event A))
  unfolding await_start
  add_samples world samples rtp_timestamp r =
      if r.synced then take_batch world samples r else await_start world samples rtp_timestamp r

  -- `on_samples`
  unfoldable pub on_samples :
      World
      → List A
      → StreamQuality
      → Recorder sync.State A
      → Result (Recorder sync.State A × List (Event A))
  unfolding add_samples note_gaps
  on_samples world [] quality r = ok (r, [])
  on_samples world (x ∷ xs) quality r =
      let samples = x ∷ xs in
      let n = length samples in
      let stats = r.stats in
      let counted = record r {
        stats = record stats {
          samples_received = stats.samples_received + n;
          quality = some quality;
        };
      } in
      let batch_rtp_ts =
        sub_u32 (quality.first_rtp_timestamp + quality.total_samples_delivered) n in
      let noted = note_gaps world quality.batch_gaps counted in
      add_samples world samples batch_rtp_ts (record noted { initialized = true })
