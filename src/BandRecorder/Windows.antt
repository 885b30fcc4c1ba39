-- ===== src/BandRecorder/Windows.antt =====
-- What a harvest of `_harvest_ready_slots` hands on, against the stream of samples.
use native.Mathlib.Decide.{dec_lt}
use native.Mathlib.Nat.{le-mul_of_pos_right}
use mathlib.Core.Path.{subst}
use wspr_recorder.Common.{
  if_intro, ℕ, suc, zero, ◌+◌, ◌*◌, ◌≤◌, ◌<◌, ◌≡◌, refl, sym, ◌⊎◌, inl, inr, List, [], ◌∷◌, ◌++◌,
  Option, none, some, leb, ◌==◌, Bool-cases, leb→le, leb-false→lt, arith, if◌then◌else◌, All,
  All-append,
}
use wspr_recorder.Common.Int.{pos, ℤ-cases}
use wspr_recorder.Common.Words.{add_u32}
use wspr_recorder.Common.Results.{ok}
use wspr_recorder.DecodeMode.{DecodeMode, add_to_group, group_from, group_modes_by_period}
use wspr_recorder.RingBuffer.{RingBuffer, slice}
use wspr_recorder.RingBuffer.Tracks.{Tracks}
use wspr_recorder.RingBuffer.Extract.{extract_by_offset-window, extract_by_offset-none}
use wspr_recorder.BandRecorder.{
  Config, Recorder, World, Event, dispatched, dropped, DecodeRequest, Anchored, start_offset,
  anchor_utc_now,
}
use wspr_recorder.BandRecorder.Slots.{
  deferred_from, emit_slot, harvest_periods, harvest_ready_slots, after_harvest, cursor,
}
use wspr_recorder.BandRecorder.Progress.{
  IsWaiting, Harvested, events_of, slot_events, harvest_slots-Harvested,
}

module _ {A : Type 0} (c : Config) (a : Anchored) (now : ℕ) (ring : RingBuffer A)
    (stream : List A) where
  -- The request for the slot whose first sample is sample `o` of the stream: its stamps are those
  -- of that sample and of the one behind the slot, and it has the slot's samples or, from F15 on,
  -- says where they are.
  pub record Carries (r : DecodeRequest A) (o : ℕ) : Type 0 where
    pub starts : start_offset c.sample_rate now r.start_wallclock ≡ pos o
    pub first : r.start_rtp_timestamp ≡ add_u32 a.rtp_timestamp o
    pub behind :
        r.end_rtp_timestamp ≡ add_u32 r.start_rtp_timestamp (r.period_seconds * c.sample_rate)
    pub content :
        ((r.period_seconds < deferred_from)
          × (r.samples ≡ some (slice stream o (r.period_seconds * c.sample_rate))))
        ⊎ ((deferred_from ≤ r.period_seconds)
            × (r.samples ≡ none)
            × (r.extract
                ≡ some (record {
                  start_offset = o;
                  n_samples = r.period_seconds * c.sample_rate;
                  start_wallclock = r.start_wallclock;
                  start_rtp_timestamp = r.start_rtp_timestamp;
                })))

  -- A request carries the audio of its slot; and a slot is filed as a drop only if the ring no
  -- longer holds its first sample.
  abbrev pub IsFaithful : Event A → Type 0
  IsFaithful (dispatched r) = (o : ℕ) × Carries r o
  IsFaithful (dropped b p s) =
      (o : ℕ) × (start_offset c.sample_rate now s ≡ pos o)
      × (o + ring.capacity < ring.absolute_sample_count)

  module _ (t : Tracks ring stream) (rate : 0 < c.sample_rate) (modes : List DecodeMode)
      (period : ℕ) (positive : 0 < period) where
    emit_slot-IsFaithful :
        (nxt o : ℕ)
        → start_offset c.sample_rate now nxt ≡ pos o
        → o + period * c.sample_rate ≤ ring.absolute_sample_count
        → IsFaithful (emit_slot c a ring modes period nxt o)
    unfolding emit_slot
    emit_slot-IsFaithful nxt o e h = elim (Bool-cases (leb deferred_from period)) [
      | inl d ↦ rw d (
        o,
        record {
          starts = e;
          first = refl;
          behind = refl;
          content = inr (leb→le deferred_from period d, refl, refl);
        },
      )
      | inr d ↦ elim (dec_lt (o + ring.capacity) ring.absolute_sample_count) [
        | yes old ↦ rw (d, extract_by_offset-none t o n (inr (inl old))) (o, e, old)
        | no new ↦
            rw (d, extract_by_offset-window t o n some_samples (omega arith) h)
              (
                o,
                record {
                  starts = e;
                  first = refl;
                  behind = refl;
                  content = inl (leb-false→lt deferred_from period d, refl);
                },
              )
      ]
    ]
      where
        n : ℕ
        n = period * c.sample_rate

        some_samples : 0 < n
        some_samples = omega (arith, le-mul_of_pos_right period rate)

    slot_events-IsFaithful :
        (nxt : ℕ)
        → ¬ IsWaiting c a now ring period nxt
        → All IsFaithful (slot_events c a now ring modes period nxt)
    slot_events-IsFaithful nxt w = elim (ℤ-cases (start_offset c.sample_rate now nxt)) [
      | inr (k, e) ↦ rw (e, slot_events) tt
      | inl (o, e) ↦ elim (dec_lt ring.absolute_sample_count (o + period * c.sample_rate)) [
        | yes short ↦ absurd (w (record { offset = o; starts = e; short = short }))
        | no arrived ↦ rw (e, slot_events) (emit_slot-IsFaithful nxt o e (omega arith), tt)
      ]
    ]

    events_of-IsFaithful :
        (count nxt : ℕ)
        → ((i : ℕ) → i < count → ¬ IsWaiting c a now ring period (nxt + i * period))
        → All IsFaithful (events_of c a now ring count modes period nxt)
    unfolding events_of
    events_of-IsFaithful zero nxt w = tt
    events_of-IsFaithful (suc count) nxt w =
        All-append IsFaithful (slot_events c a now ring modes period nxt)
          (events_of c a now ring count modes period (nxt + period))
          (slot_events-IsFaithful nxt
            (subst (λ x. ¬ IsWaiting c a now ring period x) (omega arith) (w 0 (omega arith))))
          (events_of-IsFaithful count (nxt + period) (λ i h.
            subst (λ x. ¬ IsWaiting c a now ring period x) (omega arith) (w (suc i) (omega arith))))

    Harvested-IsFaithful :
        {nxt end : ℕ} {events : List (Event A)}
        → Harvested c a now ring modes period nxt end events
        → All IsFaithful events
    Harvested-IsFaithful {nxt} d =
        subst (All IsFaithful) (sym d.handled) (events_of-IsFaithful d.count nxt d.arrived)

  harvest_periods-IsFaithful :
      Tracks ring stream
      → 0 < c.sample_rate
      → (groups : List (ℕ × List DecodeMode)) (next : ℕ → Option ℕ) → All (λ g. 0 < g.0) groups
      → (next' : ℕ → Option ℕ) × (events : List (Event A)) × (harvest_periods c a now ring groups
            next
          ≡ ok (next', events))
        × All IsFaithful events
  unfolding harvest_periods
  harvest_periods-IsFaithful t rate [] next u = (next, [], refl, tt)
  harvest_periods-IsFaithful t rate ((period, modes) ∷ groups) next (h, u) =
      let (end, es, run, d) =
        harvest_slots-Harvested c a now ring modes period (cursor next now period) rate h in
      let (next', more, run', f) =
        harvest_periods-IsFaithful t rate groups (λ p. if p == period then some end else next p)
          u in
      (
        next',
        es ++ more,
        rw (run, run') refl,
        All-append IsFaithful es more (Harvested-IsFaithful t rate modes period h d) f,
      )

module _ (period : DecodeMode → ℕ) where
  add_to_group-positive :
      (p : ℕ) (m : DecodeMode) (groups : List (ℕ × List DecodeMode))
      → 0 < p
      → All (λ g. 0 < g.0) groups
      → All (λ (g : ℕ × List DecodeMode). 0 < g.0) (add_to_group p m groups)
  add_to_group-positive p m [] h u = (h, tt)
  add_to_group-positive p m ((q, ms) ∷ groups) h (k, u) =
      if_intro (All (λ (g : ℕ × List DecodeMode). 0 < g.0)) (q == p) (λ e. (k, u))
        (λ e. (k, add_to_group-positive p m groups h u))

  group_from-positive :
      (groups : List (ℕ × List DecodeMode)) (modes : List DecodeMode)
      → All (λ g. 0 < g.0) groups
      → All (λ m. 0 < period m) modes
      → All (λ (g : ℕ × List DecodeMode). 0 < g.0) (group_from period groups modes)
  unfolding group_from
  group_from-positive groups [] u v = u
  group_from-positive groups (m ∷ ms) u (h, v) =
      group_from-positive (add_to_group (period m) m groups) ms
        (add_to_group-positive (period m) m groups h u) v

  module _ {S A : Type 0} where
    -- A harvest of a recorder that has an anchor, and whose ring tracks a stream, ends and returns;
    -- it moves the cursors, counts what it did and leaves the rest alone; and every request and
    -- drop that it hands on is faithful to the stream.
    pub harvest_ready_slots-IsFaithful :
        (world : World) (r : Recorder S A) (a : Anchored) (stream : List A)
        → r.anchor ≡ some a
        → Tracks r.ring stream
        → 0 < r.config.sample_rate
        → All (λ m. 0 < period m) r.config.decode_modes
        → (next : ℕ → Option ℕ) × (events : List (Event A)) × (harvest_ready_slots period world r
            ≡ ok (after_harvest r next events, events))
          × All (IsFaithful r.config a (anchor_utc_now world a) r.ring stream) events
    unfolding harvest_ready_slots group_modes_by_period
    harvest_ready_slots-IsFaithful world r a stream e t rate u =
        let (next, events, run, f) =
          harvest_periods-IsFaithful r.config a (anchor_utc_now world a) r.ring stream t rate
            (group_modes_by_period period r.config.decode_modes) r.slot_next_utc
            (group_from-positive [] r.config.decode_modes tt u) in
        (next, events, rw (e, run) refl, f)
