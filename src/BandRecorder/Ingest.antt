-- ===== src/BandRecorder/Ingest.antt =====
-- What `on_samples` makes of a batch, once the recorder has an anchor.
use mathlib.Core.Path.{subst}
use mathlib.Core.List.{append-nil, append_assoc}
use wspr_recorder.Common.{
  Bool, true, false, length-take, length-drop, append-take-drop, ℕ, suc, zero, ◌+◌, ◌-◌, ◌*◌, ◌≤◌,
  ◌≡◌, refl, sym, ◌∙◌, ap, ◌⊎◌, inl, inr, List, [], ◌∷◌, ◌++◌, some, leb, ◌&&◌, arith, if_intro,
  min, length, take, drop,
}
use wspr_recorder.Common.Results.{Result, ok}
use wspr_recorder.DecodeMode.{DecodeMode}
use wspr_recorder.RingBuffer.{RingBuffer, write_samples, record_gap}
use wspr_recorder.RingBuffer.Tracks.{write_samples-Tracks, record_gap-Tracks}
use wspr_recorder.BandRecorder.{Recorder, World, Event, Sync, StreamQuality}
use wspr_recorder.BandRecorder.Boundary.{reset}
use wspr_recorder.BandRecorder.Samples.{
  Progress, close_if_full, write_loop, take_batch, throttled_harvest, on_samples, note_gaps,
  add_samples,
}
use wspr_recorder.BandRecorder.Minutes.{
  IsRecording, IsFresh, reset-IsFresh, close_if_full-Closes, harvest_ready_slots-IsRecording,
}

module _ {A : Type 0} (sync : Sync) (period : DecodeMode → ℕ) (silence : A) where
  -- What the loop over a batch may leave: a recorder after a `reset`, or one whose ring has the whole
  -- batch and whose open minute is not full.
  abbrev pub Outcome : List A → Progress sync.State A → Type 0
  Outcome stream p =
      ((p.was_reset ≡ true) × IsFresh sync period silence p.recorder)
      ⊎ ((p.was_reset ≡ false) × IsRecording period p.recorder stream)

  abbrev pub Takes : List A → Result (Progress sync.State A) → Type 0
  Takes stream result = (p : Progress sync.State A) × (result ≡ ok p) × Outcome stream p

  abbrev chunk_size : List A → Recorder sync.State A → ℕ
  chunk_size remaining r =
      min (length remaining) (r.config.sample_rate * 60 - r.ring.current_minute_sample_count)

  module _ (fuel : ℕ) (world : World) (x : A) (xs : List A) (r : Recorder sync.State A)
      {ring : RingBuffer A} {closed : Recorder sync.State A} {events : List (Event A)}
      {resync : Bool} where
    write_loop_cut :
        write_samples r.ring (take (chunk_size (x ∷ xs) r) (x ∷ xs)) ≡ ok ring
        → close_if_full sync period silence world (record r { ring = ring })
          ≡ ok (closed, events, resync)
        → resync ≡ true
        → write_loop sync period silence (suc fuel) world (x ∷ xs) r
          ≡ ok (record {
            recorder = reset sync period silence closed;
            events = events;
            was_reset = true;
          })
    unfolding write_loop reset
    write_loop_cut write run e = rw (write, run, e) refl

    write_loop_on :
        {p : Progress sync.State A}
        → write_samples r.ring (take (chunk_size (x ∷ xs) r) (x ∷ xs)) ≡ ok ring
        → close_if_full sync period silence world (record r { ring = ring })
          ≡ ok (closed, events, resync)
        → resync ≡ false
        → write_loop sync period silence fuel world (drop (chunk_size (x ∷ xs) r) (x ∷ xs)) closed
          ≡ ok p
        → write_loop sync period silence (suc fuel) world (x ∷ xs) r
          ≡ ok (record p { events = events ++ p.events })
    unfolding write_loop
    write_loop_on write run e rest = rw (write, run, e, rest) refl

  write_loop-Takes :
      (fuel : ℕ) (world : World) (xs : List A) (r : Recorder sync.State A) (stream : List A)
      → length xs ≤ fuel
      → IsRecording period r stream
      → Takes (stream ++ xs) (write_loop sync period silence fuel world xs r)
  unfolding write_loop
  write_loop-Takes fuel world [] r stream h i = (_, refl, inr (refl, rw append-nil i))
  write_loop-Takes zero world (x ∷ xs) r stream h i = absurd (omega arith)
  write_loop-Takes (suc fuel) world (x ∷ xs) r stream h i =
      let n = chunk_size (x ∷ xs) r in
      let chunk = take n (x ∷ xs) in
      let (ring, write, t, count, marks, cap) =
        write_samples-Tracks i.is_open.tracks chunk
          (omega (arith, length-take n (x ∷ xs), i.is_open.roomy)) in
      let written : Recorder sync.State A = record r { ring = ring } in
      let (closed, events, resync, run, after) =
        close_if_full-Closes sync period silence world written (stream ++ chunk) i.quiet (record {
          tracks = t;
          rate = i.is_open.rate;
          periods = i.is_open.periods;
          held = i.is_open.held;
          anchored = i.is_open.anchored;
          roomy = omega (arith, cap, i.is_open.roomy);
        }) in
      elim after [
        | inl (e, rate) ↦ (
          record { recorder = reset sync period silence closed; events = events; was_reset = true },
          write_loop_cut fuel world x xs r {ring = ring} {closed = closed} {events = events} write
              run e,
          inl (refl, reset-IsFresh sync period silence closed rate),
        )
        | inr (on, j) ↦
            let (p, rest, q) =
              write_loop-Takes fuel world (drop n (x ∷ xs)) closed (stream ++ chunk)
                (omega (arith, length-drop n (x ∷ xs), i.minute)) j in
            let whole : (stream ++ chunk) ++ drop n (x ∷ xs) ≡ stream ++ (x ∷ xs) =
              append_assoc stream chunk (drop n (x ∷ xs))
              ∙ ap (λ ys. stream ++ ys) (append-take-drop n (x ∷ xs)) in
            (
              record p { events = events ++ p.events },
              write_loop_on fuel world x xs r {ring = ring} {closed = closed} {events = events}
                  {p = p} write run on rest,
              subst (λ s. Outcome s p) whole q,
            )
      ]

  -- A batch was taken: the recorder was reset, or it goes on with the batch behind its stream.
  abbrev pub Taken : List A → Result (Recorder sync.State A × List (Event A)) → Type 0
  Taken stream result =
      (r : Recorder sync.State A) × (events : List (Event A)) × (result ≡ ok (r, events))
      × (IsFresh sync period silence r ⊎ IsRecording period r stream)

  throttled_harvest-Taken :
      (world : World) (r : Recorder sync.State A) (stream : List A)
      → IsRecording period r stream
      → Taken stream (throttled_harvest sync period silence world r)
  unfolding throttled_harvest
  throttled_harvest-Taken world r stream i =
      let harvesting : Recorder sync.State A = record r {
        last_harvest_off = r.ring.absolute_sample_count;
      } in
      let (r', events, run, j) =
        harvest_ready_slots-IsRecording period world harvesting stream
          (record { is_open = i.is_open; minute = i.minute; quiet = i.quiet }) in
      if_intro (Taken stream)
        (r.synced && leb r.config.sample_rate (r.ring.absolute_sample_count - r.last_harvest_off))
        (λ e. (r', events, run, inr j)) (λ e. (r, [], refl, inr i))

  module _ (world : World) (xs : List A) (r : Recorder sync.State A) {p : Progress sync.State A}
      (run : write_loop sync period silence (length xs) world xs r ≡ ok p) where
    take_batch_cut :
        p.was_reset ≡ true → take_batch sync period silence world xs r ≡ ok (p.recorder, p.events)
    unfolding take_batch
    take_batch_cut e = rw (run, e) refl

    take_batch_on :
        {r' : Recorder sync.State A} {events : List (Event A)}
        → p.was_reset ≡ false
        → throttled_harvest sync period silence world p.recorder ≡ ok (r', events)
        → take_batch sync period silence world xs r ≡ ok (r', p.events ++ events)
    unfolding take_batch
    take_batch_on e harvest = rw (run, e, harvest) refl

  take_batch-Taken :
      (world : World) (xs : List A) (r : Recorder sync.State A) (stream : List A)
      → IsRecording period r stream
      → Taken (stream ++ xs) (take_batch sync period silence world xs r)
  unfolding take_batch
  take_batch-Taken world xs r stream i =
      let (p, run, outcome) = write_loop-Takes (length xs) world xs r stream (omega arith) i in
      elim outcome [
        | inl (e, fresh) ↦ (p.recorder, p.events, take_batch_cut world xs r run e, inl fresh)
        | inr (e, j) ↦
            let (r', events, harvest, k) =
              throttled_harvest-Taken world p.recorder (stream ++ xs) j in
            (r', p.events ++ events, take_batch_on world xs r run e harvest, k)
      ]

  gap-IsRecording :
      (world : World) (d : ℕ) (r : Recorder sync.State A) (stream : List A)
      → IsRecording period r stream
      → IsRecording period (note_gaps world (d ∷ []) r) stream
  unfolding note_gaps record_gap
  gap-IsRecording world d r stream i = record {
    is_open = record {
      tracks = record_gap-Tracks _ i.is_open.tracks;
      rate = i.is_open.rate;
      periods = i.is_open.periods;
      held = i.is_open.held;
      anchored = i.is_open.anchored;
      roomy = i.is_open.roomy;
    };
    minute = i.minute;
    quiet = i.quiet;
  }

  note_gaps-keeps :
      (world : World) (gaps : List ℕ) (r : Recorder sync.State A) (stream : List A)
      → IsRecording period r stream
      → IsRecording period (note_gaps world gaps r) stream
        × ((note_gaps world gaps r).synced ≡ r.synced)
  unfolding note_gaps
  note_gaps-keeps world [] r stream i = (i, refl)
  note_gaps-keeps world (d ∷ gaps) r stream i =
      note_gaps-keeps world gaps (note_gaps world (d ∷ []) r) stream
        (gap-IsRecording world d r stream i)

  add_samples-Taken :
      (world : World) (xs : List A) (rtp_timestamp : ℕ) (r : Recorder sync.State A)
      (stream : List A)
      → r.synced ≡ true
      → IsRecording period r stream
      → Taken (stream ++ xs) (add_samples sync period silence world xs rtp_timestamp r)
  unfolding add_samples
  add_samples-Taken world xs rtp_timestamp r stream s i =
      if_intro (Taken (stream ++ xs)) r.synced (λ e. take_batch-Taken world xs r stream i)
        (λ e. let q : true ≡ false = sym s ∙ e in cc q)

  -- `on_samples` of a recorder that is synced and recording returns, whatever the batch, its gaps and the
  -- world: no loop runs out of fuel and nothing is raised. It leaves a recorder that was reset, or
  -- one that is recording and whose ring tracks the stream with the batch behind it.
  pub on_samples-Taken :
      (world : World) (xs : List A) (quality : StreamQuality) (r : Recorder sync.State A)
      (stream : List A)
      → r.synced ≡ true
      → IsRecording period r stream
      → Taken (stream ++ xs) (on_samples sync period silence world xs quality r)
  unfolding on_samples
  on_samples-Taken world [] quality r stream s i = (r, [], refl, inr (rw append-nil i))
  on_samples-Taken world (x ∷ xs) quality r stream s i =
      let stats = r.stats in
      let counted : Recorder sync.State A = record r {
        stats = record stats {
          samples_received = stats.samples_received + length (x ∷ xs);
          quality = some quality;
        };
      } in
      let (j, synced) =
        note_gaps-keeps world quality.batch_gaps counted stream
          (record { is_open = i.is_open; minute = i.minute; quiet = i.quiet }) in
      let noted : Recorder sync.State A = record (note_gaps world quality.batch_gaps counted) {
        initialized = true;
      } in
      add_samples-Taken world (x ∷ xs) _ noted stream (synced ∙ s)
        (record { is_open = j.is_open; minute = j.minute; quiet = j.quiet })
