-- ===== src/BandRecorder/Progress.antt =====
-- The loop of `_harvest_ready_slots` over one period ends, and which slots it handles.
use native.Mathlib.Decide.{dec_lt}
use native.Mathlib.Nat.{le-mul_of_pos_right}
use mathlib.Core.Path.{subst}
use wspr_recorder.Common.{
  ℕ, suc, zero, ◌+◌, ◌-◌, ◌*◌, ◌≤◌, ◌<◌, ◌≡◌, refl, sym, ◌∙◌, inl, inr, ap, List, [], ◌∷◌, ◌++◌,
  ltb, Bool-cases, ltb-false, lt→ltb, ltb→lt, ltb-false→le, le→leb, arith,
}
use wspr_recorder.Common.Int.{pos, pos_part, negsuc, ℤ-cases}
use wspr_recorder.Common.Rounding.{round_div, round_div-near}
use wspr_recorder.Common.Results.{Result, ok}
use wspr_recorder.DecodeMode.{DecodeMode}
use wspr_recorder.RingBuffer.{RingBuffer}
use wspr_recorder.BandRecorder.{Config, Event, Anchored, start_offset}
use wspr_recorder.BandRecorder.Slots.{emit_slot, harvest_slots, harvest_fuel}

-- A slot that starts `count` seconds after the anchor starts at sample `count` or later.
far_offset :
    (rate now count nxt : ℕ)
    → 0 < rate
    → now + count < nxt
    → (o : ℕ) × (start_offset rate now nxt ≡ pos o) × (count ≤ o)
unfolding start_offset
far_offset rate now count nxt h k =
    let x = (nxt * 1_000_000 - now) * rate in
    let big : nxt * 1_000_000 - now ≤ x = le-mul_of_pos_right (nxt * 1_000_000 - now) h in
    (
      round_div x 1_000_000,
      rw (le→leb now (nxt * 1_000_000) (omega arith)) refl,
      omega (arith, round_div-near x, big),
    )

module _ {A : Type 0} (c : Config) (a : Anchored) (now : ℕ) (ring : RingBuffer A) where
  -- The audio of the slot that starts at `nxt` has not all arrived.
  pub record IsWaiting (period nxt : ℕ) : Type 0 where
    pub offset : ℕ
    pub starts : start_offset c.sample_rate now nxt ≡ pos offset
    pub short : ring.absolute_sample_count < offset + period * c.sample_rate

  -- What is done with a slot whose audio has arrived: nothing if it starts before the anchor.
  abbrev pub slot_events : List DecodeMode → ℕ → ℕ → List (Event A)
  slot_events modes period nxt = elim (start_offset c.sample_rate now nxt) [
    | negsuc k ↦ []
    | pos o ↦ emit_slot c a ring modes period nxt o ∷ []
  ]

  -- The same for `count` slots in a row.
  unfoldable pub events_of : ℕ → List DecodeMode → ℕ → ℕ → List (Event A)
  events_of zero modes period nxt = []
  events_of (suc count) modes period nxt =
      slot_events modes period nxt ++ events_of count modes period (nxt + period)

  -- From the slot at `nxt` on, `count` consecutive slots had arrived, each was handled once and in
  -- order, and the cursor `end` is the first slot that has not arrived.
  pub record Harvested (modes : List DecodeMode) (period nxt end : ℕ) (events : List (Event A))
      : Type 0 where
    pub count : ℕ
    pub cursor : end ≡ nxt + count * period
    pub handled : events ≡ events_of count modes period nxt
    pub arrived : (i : ℕ) → i < count → ¬ IsWaiting period (nxt + i * period)
    pub waiting : IsWaiting period end

  far-IsWaiting :
      (period nxt : ℕ)
      → 0 < c.sample_rate
      → 0 < period
      → now + ring.absolute_sample_count < nxt
      → IsWaiting period nxt
  far-IsWaiting period nxt h k l =
      let (o, e, m) = far_offset c.sample_rate now ring.absolute_sample_count nxt h l in
      record { offset = o; starts = e; short = omega (arith, m, le-mul_of_pos_right period h, k) }

  arrived-near :
      (period nxt : ℕ)
      → 0 < c.sample_rate
      → 0 < period
      → ¬ IsWaiting period nxt
      → nxt ≤ now + ring.absolute_sample_count
  arrived-near period nxt h k w = elim (dec_lt (now + ring.absolute_sample_count) nxt) [
    | yes q ↦ absurd (w (far-IsWaiting period nxt h k q))
    | no q ↦ omega arith
  ]

  slot_events-Harvested :
      (modes : List DecodeMode) (period nxt end : ℕ) (events : List (Event A))
      → ¬ IsWaiting period nxt
      → Harvested modes period (nxt + period) end events
      → Harvested modes period nxt end (slot_events modes period nxt ++ events)
  unfolding events_of
  slot_events-Harvested modes period nxt end events h d = record {
    count = suc d.count;
    cursor = omega (arith, d.cursor);
    handled = ap (λ es. slot_events modes period nxt ++ es) d.handled;
    arrived = later;
    waiting = d.waiting;
  }
    where
      later : (i : ℕ) → i < suc d.count → ¬ IsWaiting period (nxt + i * period)
      later zero u w = h (subst (IsWaiting period) (omega arith) w)
      later (suc i) u w = d.arrived i (omega arith) (subst (IsWaiting period) (omega arith) w)

  abbrev pub HarvestsTo : List DecodeMode → ℕ → ℕ → Result (ℕ × List (Event A)) → Type 0
  HarvestsTo modes period nxt result =
      (end : ℕ) × (events : List (Event A)) × (result ≡ ok (end, events))
      × Harvested modes period nxt end events

  module _ (fuel : ℕ) (modes : List DecodeMode) (period nxt : ℕ) where
    step_before :
        {k : ℕ}
        → start_offset c.sample_rate now nxt ≡ negsuc k
        → HarvestsTo modes period
            (nxt + period)
            (harvest_slots fuel c a now ring modes period (nxt + period))
        → HarvestsTo modes period nxt (harvest_slots (suc fuel) c a now ring modes period nxt)
    unfolding harvest_slots
    step_before {k} e (end, events, run, d) = (
      end,
      events,
      rw (e, harvest_slots) run,
      subst (Harvested modes period nxt end) (rw (e, slot_events) refl) (
          slot_events-Harvested modes period nxt end events
            (λ w. let q : negsuc k ≡ pos w.offset = sym e ∙ w.starts in cc q) d),
    )

    step_arrived :
        {o : ℕ}
        → start_offset c.sample_rate now nxt ≡ pos o
        → o + period * c.sample_rate ≤ ring.absolute_sample_count
        → HarvestsTo modes period
            (nxt + period)
            (harvest_slots fuel c a now ring modes period (nxt + period))
        → HarvestsTo modes period nxt (harvest_slots (suc fuel) c a now ring modes period nxt)
    unfolding harvest_slots
    step_arrived {o} e h (end, events, run, d) = (
      end,
      emit_slot c a ring modes period nxt o ∷ events,
      rw (e, harvest_slots, ltb-false _ _ h, run) refl,
      subst (Harvested modes period nxt end) (rw (e, slot_events) refl) (
          slot_events-Harvested modes period nxt end events
            (λ w. omega (arith, ap pos_part (sym e ∙ w.starts), w.short)) d),
    )

    step_waiting :
        IsWaiting period nxt
        → HarvestsTo modes period nxt (harvest_slots (suc fuel) c a now ring modes period nxt)
    unfolding harvest_slots events_of
    step_waiting w = (
      nxt,
      [],
      rw (w.starts, harvest_slots, lt→ltb _ _ w.short) refl,
      record {
        count = 0;
        cursor = omega arith;
        handled = refl;
        arrived = λ i h. absurd (omega arith);
        waiting = w;
      },
    )

  harvest_slots-ends :
      (fuel : ℕ) (modes : List DecodeMode) (period nxt : ℕ)
      → 0 < c.sample_rate
      → 0 < period
      → 0 < fuel
      → now + ring.absolute_sample_count + 1 < nxt + fuel
      → HarvestsTo modes period nxt (harvest_slots fuel c a now ring modes period nxt)
  harvest_slots-ends zero modes period nxt h k l m = absurd (omega arith)
  harvest_slots-ends (suc fuel) modes period nxt h k l m =
      let rest : ¬ IsWaiting period nxt
          → HarvestsTo modes period (nxt + period)
              (harvest_slots fuel c a now ring modes period (nxt + period)) =
        λ w.
          let near : nxt ≤ now + ring.absolute_sample_count = arrived-near period nxt h k w in
          harvest_slots-ends fuel modes period (nxt + period) h k (omega arith) (omega arith) in
      elim (ℤ-cases (start_offset c.sample_rate now nxt)) [
        | inr (j, e) ↦
            step_before fuel modes period nxt e
              (rest (λ w. let q : negsuc j ≡ pos w.offset = sym e ∙ w.starts in cc q))
        | inl (o, e) ↦
            elim (Bool-cases (ltb ring.absolute_sample_count (o + period * c.sample_rate))) [
              | inl q ↦
                  step_waiting fuel modes period nxt
                    (record { offset = o; starts = e; short = ltb→lt _ _ q })
              | inr q ↦ step_arrived fuel modes period nxt e (ltb-false→le _ _ q) (
                  rest (λ w.
                    omega (arith, ap pos_part (sym e ∙ w.starts), w.short, ltb-false→le _ _ q)))
            ]
      ]

  -- The loop over one period ends, whatever slot it starts from, where the sample rate and the
  -- period are positive and the fuel is `harvest_fuel`. It handles consecutive slots whose audio has
  -- arrived, each once and in order, and stops at the first slot whose audio has not.
  pub harvest_slots-Harvested :
      (modes : List DecodeMode) (period nxt : ℕ)
      → 0 < c.sample_rate
      → 0 < period
      → HarvestsTo modes period nxt
          (harvest_slots (harvest_fuel now ring) c a now ring modes period nxt)
  harvest_slots-Harvested modes period nxt h k =
      harvest_slots-ends (harvest_fuel now ring) modes period nxt h k (omega arith) (omega arith)
