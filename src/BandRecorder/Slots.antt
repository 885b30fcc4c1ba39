-- ===== src/BandRecorder/Slots.antt =====
-- `_harvest_ready_slots`: the slots of every period whose audio is complete.
use wspr_recorder.Common.{
  ℕ, suc, zero, ◌+◌, ◌*◌, Option, none, some, List, [], ◌∷◌, ◌++◌, true, false, ltb, leb, ◌==◌,
  if◌then◌else◌, length,
}
use wspr_recorder.Common.Int.{pos, negsuc}
use wspr_recorder.Common.Words.{add_u32}
use wspr_recorder.Common.Results.{Result, ok, raise, out_of_fuel, ◌>>=◌}
use wspr_recorder.DecodeMode.{DecodeMode, group_modes_by_period}
use wspr_recorder.RingBuffer.{RingBuffer, extract_by_offset}
use wspr_recorder.BandRecorder.{
  Config, Recorder, Event, dispatched, dropped, DecodeRequest, World, Anchored, anchor_utc_now,
  start_offset, first_slot,
}

-- F15 and F30 slices are left to the worker.
abbrev pub deferred_from : ℕ
deferred_from = 900

-- `_slot_next_utc.get(period_sec)`, or the first clean slot at or after the anchor.
abbrev pub cursor : (ℕ → Option ℕ) → ℕ → ℕ → ℕ
cursor next anchor_now period = elim (next period) [
  | none ↦ first_slot anchor_now period
  | some n ↦ n
]

module _ {A : Type 0} where
  -- The request for a slot, before its audio is attached.
  abbrev pub slot_request : Config → Anchored → List DecodeMode → ℕ → ℕ → ℕ → DecodeRequest A
  slot_request c a modes period nxt start_off =
      let start_rtp = add_u32 a.rtp_timestamp start_off in
      record {
        frequency_hz = c.frequency_hz;
        band_name = c.band_name;
        modes = modes;
        period_seconds = period;
        samples = none;
        gaps = [];
        start_wallclock = nxt;
        start_rtp_timestamp = start_rtp;
        end_rtp_timestamp = add_u32 start_rtp (period * c.sample_rate);
        rx_source = c.rx_source;
        extract = none;
      }

  -- What is done with a slot whose audio has arrived.
  unfoldable pub emit_slot :
      Config → Anchored → RingBuffer A → List DecodeMode → ℕ → ℕ → ℕ → Event A
  emit_slot c a ring modes period nxt start_off =
      let request = slot_request c a modes period nxt start_off in
      let n_samples = period * c.sample_rate in
      let later = record request {
        extract = some (record {
          start_offset = start_off;
          n_samples = n_samples;
          start_wallclock = nxt;
          start_rtp_timestamp = request.start_rtp_timestamp;
        });
      } in
      if leb deferred_from period
      then dispatched later
      else elim (extract_by_offset ring (pos start_off) n_samples) [
        | none ↦ dropped c.band_name period nxt
        | some (samples, gaps) ↦ dispatched (record request { samples = some samples; gaps = gaps })
      ]

  -- The `while True` of one period, from the cursor `nxt` on: the cursor where it stops, and what
  -- it did. `anchor_now` is the anchor's UTC.
  unfoldable pub harvest_slots :
      ℕ
      → Config
      → Anchored
      → ℕ
      → RingBuffer A
      → List DecodeMode
      → ℕ
      → ℕ
      → Result (ℕ × List (Event A))
  harvest_slots zero c a anchor_now ring modes period nxt = raise out_of_fuel
  harvest_slots (suc fuel) c a anchor_now ring modes period nxt =
      elim (start_offset c.sample_rate anchor_now nxt) [
        | negsuc k ↦ harvest_slots fuel c a anchor_now ring modes period (nxt + period)
        | pos start_off ↦
            elim (ltb ring.absolute_sample_count (start_off + period * c.sample_rate)) [
              | true ↦ ok (nxt, [])
              | false ↦ do
                (end, events) ← harvest_slots fuel c a anchor_now ring modes period (nxt + period)
                ok (end, emit_slot c a ring modes period nxt start_off ∷ events)
            ]
      ]

  -- Enough turns for one period: each moves the cursor on by at least a second, and a slot that
  -- starts a second per sample after the anchor has not arrived.
  abbrev pub harvest_fuel : ℕ → RingBuffer A → ℕ
  harvest_fuel anchor_now ring = anchor_now + ring.absolute_sample_count + 2

  -- The `for` over the periods.
  unfoldable pub harvest_periods :
      Config
      → Anchored
      → ℕ
      → RingBuffer A
      → List (ℕ × List DecodeMode)
      → (ℕ → Option ℕ)
      → Result ((ℕ → Option ℕ) × List (Event A))
  harvest_periods c a anchor_now ring [] next = ok (next, [])
  harvest_periods c a anchor_now ring ((period, modes) ∷ groups) next = do
    (end, events) ←
        harvest_slots (harvest_fuel anchor_now ring) c a anchor_now ring modes period
          (cursor next anchor_now period)
    (next', more) ←
        harvest_periods c a anchor_now ring groups (λ p. if p == period then some end else next p)
    ok (next', events ++ more)

  -- The samples and requests that the statistics count.
  abbrev pub written : List (Event A) → ℕ
  written [] = 0
  written (dispatched r ∷ es) = elim r.samples [
    | none ↦ written es
    | some xs ↦ length xs + written es
  ]
  written (dropped b p s ∷ es) = written es

  abbrev pub emitted : List (Event A) → ℕ
  emitted [] = 0
  emitted (dispatched r ∷ es) = suc (emitted es)
  emitted (dropped b p s ∷ es) = emitted es

module _ {S A : Type 0} where
  -- The recorder with the new cursors, and with the harvest counted.
  abbrev pub after_harvest : Recorder S A → (ℕ → Option ℕ) → List (Event A) → Recorder S A
  after_harvest r next events =
      let stats = r.stats in
      record r {
        slot_next_utc = next;
        stats = record stats {
          samples_written = stats.samples_written + written events;
          periods_emitted = stats.periods_emitted + emitted events;
        };
      }

module _ {S A : Type 0} (period : DecodeMode → ℕ) where
  unfoldable pub harvest_ready_slots : World → Recorder S A → Result (Recorder S A × List (Event A))
  harvest_ready_slots world r = elim r.anchor [
    | none ↦ ok (r, [])
    | some a ↦ do
      (next, events) ←
          harvest_periods r.config a (anchor_utc_now world a) r.ring
            (group_modes_by_period period r.config.decode_modes) r.slot_next_utc
      ok (after_harvest r next events, events)
  ]
