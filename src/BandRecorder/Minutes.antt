-- ===== src/BandRecorder/Minutes.antt =====
-- What `_on_minute_boundary` and `reset` leave, and the state in which samples are taken.
use wspr_recorder.Common.{
  Bool, true, false, ℕ, ◌+◌, ◌*◌, ◌≤◌, ◌<◌, ◌≡◌, refl, ◌⊎◌, inl, inr, List, [], Option, none, some,
  leb, leb-false→lt, arith, All, if_intro,
}
use wspr_recorder.Common.Int.{pos}
use wspr_recorder.Common.Words.{add_u32}
use wspr_recorder.Common.Results.{Result, ok, ◌>>=◌}
use wspr_recorder.DecodeMode.{DecodeMode}
use wspr_recorder.RingBuffer.{RingBuffer, close_minute}
use wspr_recorder.RingBuffer.Tracks.{Tracks, close_minute-Tracks, init-Tracks}
use wspr_recorder.BandRecorder.{Config, Recorder, World, Event, Anchored, Sync}
use wspr_recorder.BandRecorder.Slots.{harvest_ready_slots, after_harvest}
use wspr_recorder.BandRecorder.Windows.{harvest_ready_slots-IsFaithful}
use wspr_recorder.BandRecorder.Boundary.{
  finish_boundary, on_minute_boundary, reset, new_ring, minute_label, grid_verdict,
}
use wspr_recorder.BandRecorder.Samples.{close_if_full}

module _ {A : Type 0} (period : DecodeMode → ℕ) where
  -- The anchor is set, and the ring tracks the stream and has room for the open minute.
  pub record IsOpen (c : Config) (anchor : Option Anchored) (ring : RingBuffer A) (stream : List A)
      : Type 0 where
    pub tracks : Tracks ring stream
    pub rate : 0 < c.sample_rate
    pub periods : All (λ m. 0 < period m) c.decode_modes
    pub held : Anchored
    pub anchored : anchor ≡ some held
    pub roomy : c.sample_rate * 60 ≤ ring.capacity

  close_minute-IsOpen :
      {c : Config} {anchor : Option Anchored} {ring : RingBuffer A} {stream : List A}
      (minute_wallclock minute_rtp : ℕ)
      → IsOpen c anchor ring stream
      → IsOpen c anchor (close_minute ring (pos minute_wallclock) minute_rtp) stream
  unfolding close_minute
  close_minute-IsOpen minute_wallclock minute_rtp o = record {
    tracks = close_minute-Tracks (pos minute_wallclock) minute_rtp o.tracks;
    rate = o.rate;
    periods = o.periods;
    held = o.held;
    anchored = o.anchored;
    roomy = o.roomy;
  }

module _ {S A : Type 0} (period : DecodeMode → ℕ) where
  -- Besides, the open minute is not full and no new correlation is asked for.
  pub record IsRecording (r : Recorder S A) (stream : List A) : Type 0 where
    pub is_open : IsOpen period r.config r.anchor r.ring stream
    pub minute : r.ring.current_minute_sample_count < r.config.sample_rate * 60
    pub quiet : r.resync_requested ≡ false

  pub harvest_ready_slots-IsRecording :
      (world : World) (r : Recorder S A) (stream : List A)
      → IsRecording r stream
      → (r' : Recorder S A) × (events : List (Event A)) × (harvest_ready_slots period world r
          ≡ ok (r', events))
        × IsRecording r' stream
  harvest_ready_slots-IsRecording world r stream i =
      let o = i.is_open in
      let (next, events, run, f) =
        harvest_ready_slots-IsFaithful period world r o.held stream o.anchored o.tracks o.rate
          o.periods in
      (
        after_harvest r next events,
        events,
        run,
        record { is_open = o; minute = i.minute; quiet = i.quiet },
      )

  -- A call that returns a recorder that goes on, or one that asks for a new correlation.
  abbrev pub Continues : List A → Result (Recorder S A × List (Event A)) → Type 0
  Continues stream result =
      (r : Recorder S A) × (events : List (Event A)) × (result ≡ ok (r, events))
      × (((r.resync_requested ≡ true) × (0 < r.config.sample_rate)) ⊎ IsRecording r stream)

  finish_boundary-Continues :
      (world : World) (r : Recorder S A) (stream : List A) (minute_wallclock minute_rtp : ℕ)
      → r.resync_requested ≡ false
      → IsOpen period r.config r.anchor r.ring stream
      → Continues stream (finish_boundary period world r minute_wallclock minute_rtp)
  unfolding finish_boundary close_minute
  finish_boundary-Continues world r stream minute_wallclock minute_rtp q o =
      let (r', events, run, i) = harvest_ready_slots-IsRecording world _ stream (record {
        is_open = close_minute-IsOpen period minute_wallclock minute_rtp o;
        minute = omega (arith, o.rate);
        quiet = q;
      }) in
      (r', events, run, inr i)

  on_minute_boundary-Continues :
      (world : World) (r : Recorder S A) (stream : List A)
      → r.resync_requested ≡ false
      → IsOpen period r.config r.anchor r.ring stream
      → Continues stream (on_minute_boundary period world r)
  unfolding on_minute_boundary
  on_minute_boundary-Continues world r stream q o =
      let wallclock = minute_label world o.held (r.minute_count + 1) in
      let rtp = add_u32 o.held.rtp_timestamp ((r.minute_count + 1) * (r.config.sample_rate * 60)) in
      let verdict = grid_verdict r.config r.synced world.channel rtp wallclock r.divergence in
      let judged : Recorder S A = record r {
        minute_count = r.minute_count + 1;
        divergence = verdict.0;
      } in
      rw (o.anchored, on_minute_boundary)
        (if_intro (Continues stream) verdict.1
          {x = ok (record judged { resync_requested = true }, [])}
          {y = finish_boundary period world judged wallclock rtp}
          (λ e. (record judged { resync_requested = true }, [], refl, inl (refl, o.rate)))
          (λ e. finish_boundary-Continues world judged stream wallclock rtp q o))

module _ {A : Type 0} (sync : Sync) (period : DecodeMode → ℕ) (silence : A) where
  -- The same with the flag that asks for a reset.
  abbrev pub Closes : List A → Result (Recorder sync.State A × List (Event A) × Bool) → Type 0
  Closes stream result =
      (r : Recorder sync.State A) × (events : List (Event A)) × (resync : Bool) × (result
        ≡ ok (r, events, resync))
      × (((resync ≡ true) × (0 < r.config.sample_rate))
          ⊎ ((resync ≡ false) × IsRecording period r stream))

  closing-Closes :
      {stream : List A} (result : Result (Recorder sync.State A × List (Event A)))
      → Continues period stream result
      → Closes stream (result >>= λ (c, es). ok (c, es, c.resync_requested))
  closing-Closes result (r, events, run, inl (e, rate)) =
      (r, events, true, rw (run, e) refl, inl (refl, rate))
  closing-Closes result (r, events, run, inr i) =
      (r, events, false, rw (run, i.quiet) refl, inr (refl, i))

  pub close_if_full-Closes :
      (world : World) (r : Recorder sync.State A) (stream : List A)
      → r.resync_requested ≡ false
      → IsOpen period r.config r.anchor r.ring stream
      → Closes stream (close_if_full sync period silence world r)
  unfolding close_if_full
  close_if_full-Closes world r stream q o =
      if_intro (Closes stream) (leb (r.config.sample_rate * 60) r.ring.current_minute_sample_count)
        (λ e. closing-Closes _ (on_minute_boundary-Continues period world r stream q o))
        (λ e. (
          r,
          [],
          false,
          refl,
          inr (refl, record { is_open = o; minute = leb-false→lt _ _ e; quiet = q }),
        ))

  -- What `reset` leaves: a recorder without an anchor whose ring holds the empty stream.
  pub record IsFresh (r : Recorder sync.State A) : Type 0 where
    pub empty : Tracks r.ring []
    pub no_anchor : r.anchor ≡ none
    pub unsynced : r.synced ≡ false

  pub reset-IsFresh :
      (r : Recorder sync.State A) → 0 < r.config.sample_rate → IsFresh (reset sync period silence r)
  unfolding reset new_ring
  reset-IsFresh r h = record {
    empty = init-Tracks silence _ r.config.sample_rate h;
    no_anchor = refl;
    unsynced = refl;
  }
