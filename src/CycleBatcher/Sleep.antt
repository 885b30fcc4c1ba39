-- ===== src/CycleBatcher/Sleep.antt =====
-- How long the writer of `CycleBatcher` of wspr_recorder/spot_sink.py sleeps between its turns.
use Prim.Native.String.{String}
use wspr_recorder.Common.{
  ℕ, ◌+◌, ◌≤◌, max, true, false, Option, List, [], ◌∷◌, ◌≡◌, refl, sym, subst, All, All-map_weaken,
  arith, inl, inr, ◌⊎◌, if_intro, Bool-cases, leb,
}
use wspr_recorder.Common.Dict.{Dict, contains, contains-set_add, set_add, string_eq, pair_eq}
use wspr_recorder.Common.Totals.{same_self}
use wspr_recorder.CycleBatcher.{CycleKey, Batcher}
use wspr_recorder.CycleBatcher.Writer.{
  take_turn, collect, cross_scan, cross_turn, cross_verdict, skip, fire, hold, Verdict,
  after_verdict, cross_one, missing_rx, Crossed, Collected, null, soonest, timeout_of,
}
use wspr_recorder.CycleBatcher.Keyed.{take_turn-batches, cross_one-state}
use wspr_recorder.CycleBatcher.Turns.{
  WaitsBy, sooner-WaitsBy, sooner-WaitsBy_other, soonest-WaitsBy, timeout-InTime, collect-WaitsBy,
}

module _ {S N : Type 0} where
  -- A cycle with a first commit has its wake fired, or the next turn comes in its time.
  abbrev Awaited : ℕ → CycleKey → ℕ → Crossed S N → Type 0
  Awaited backstop c first r =
      (contains r.state.cycle_wake_fired c ≡ true) ⊎ WaitsBy (first + backstop) r.cross_wait

  cross_one-Awaited :
      (v : Verdict) (backstop : ℕ) (a c : CycleKey) (first : ℕ) (missing : List String)
      (r : Crossed S N)
      → Awaited backstop c first r
      → Awaited backstop c first (cross_one v a missing r)
  cross_one-Awaited skip backstop a c first missing r h = h
  cross_one-Awaited fire backstop a c first missing r h = h
  cross_one-Awaited (hold t) backstop a c first missing r (inl h) = inl h
  cross_one-Awaited (hold t) backstop a c first missing r (inr h) =
      inr (sooner-WaitsBy_other (first + backstop) t r.cross_wait h)

  after_verdict-Fired :
      (v : Verdict) (a c : CycleKey) (s : Batcher S N)
      → contains s.cycle_wake_fired c ≡ true
      → contains (after_verdict v a s).cycle_wake_fired c ≡ true
  after_verdict-Fired skip a c s h = h
  after_verdict-Fired fire a c s h = ground (arith, contains-set_add a c s.cycle_wake_fired)
  after_verdict-Fired (hold t) a c s h = h

  cross_scan-Fired :
      (now : ℕ) (c : CycleKey) (d : Dict CycleKey ℕ) (s : Batcher S N)
      → contains s.cycle_wake_fired c ≡ true
      → contains (cross_scan now d s).state.cycle_wake_fired c ≡ true
  unfolding cross_scan
  cross_scan-Fired now c [] s h = h
  cross_scan-Fired now c ((a, first) ∷ d) s h =
      rw (cross_one-state (cross_verdict now a first s) a (missing_rx a s) (cross_scan now d _))
        (cross_scan-Fired now c d _ (after_verdict-Fired (cross_verdict now a first s) a c s h))

  after_verdict-backstop :
      (v : Verdict) (a : CycleKey) (s : Batcher S N)
      → (after_verdict v a s).backstop_ms ≡ s.backstop_ms
  after_verdict-backstop skip a s = refl
  after_verdict-backstop fire a s = refl
  after_verdict-backstop (hold t) a s = refl

  -- The verdict on a cycle makes it awaited, whatever the rest of the scan does.
  verdict-Awaited :
      (now : ℕ) (c : CycleKey) (first : ℕ) (d : Dict CycleKey ℕ) (s : Batcher S N)
      → Awaited s.backstop_ms c first (cross_scan now ((c, first) ∷ d) s)
  unfolding cross_scan
  verdict-Awaited now c first d s =
      if_intro Leads (contains s.cycle_wake_fired c) (λ f. inl (cross_scan-Fired now c d s f))
        (λ _.
          if_intro Leads (leb (first + s.backstop_ms) now)
            (λ _. inl (cross_scan-Fired now c d (after_verdict fire c s) marked))
            (λ _. inr (sooner-WaitsBy (first + s.backstop_ms) _)))
    where
      Leads : Verdict → Type 0
      Leads v =
          Awaited s.backstop_ms c first
            (cross_one v c (missing_rx c s) (cross_scan now d (after_verdict v c s)))

      marked : contains (set_add c s.cycle_wake_fired) c ≡ true
      marked = rw (contains-set_add c c s.cycle_wake_fired) (rw (same_self c) refl)

  cross_scan-Awaited :
      (now : ℕ) (d : Dict CycleKey ℕ) (s : Batcher S N)
      → All (λ (c, first). Awaited s.backstop_ms c first (cross_scan now d s)) d
  unfolding cross_scan
  cross_scan-Awaited now [] s = tt
  cross_scan-Awaited now ((a, first) ∷ d) s = (
    verdict-Awaited now a first d s,
    All-map_weaken _ _
        (λ (c, f) h. cross_one-Awaited (cross_verdict now a first s) s.backstop_ms a c f _ _ h) d
        (subst
          (λ t.
            All
              (λ (c, f).
                Awaited t c f (cross_scan now d (after_verdict (cross_verdict now a first s) a s)))
              d)
          (after_verdict-backstop (cross_verdict now a first s) a s)
          (cross_scan-Awaited now d (after_verdict (cross_verdict now a first s) a s))),
  )

  cross_turn-Awaited :
      (now : ℕ) (s : Batcher S N)
      → null s.expected_rx_sources ≡ false
      → All (λ (c, first). Awaited s.backstop_ms c first (cross_turn now s)) s.cycle_first_commit_at
  unfolding cross_turn
  cross_turn-Awaited now s h = rw h (cross_scan-Awaited now s.cycle_first_commit_at s)

  -- While the writer sleeps, no deadline that a turn leaves passes by more than 50 ms: neither a
  -- batch's nor, where receivers are expected, that of a cycle with a first commit whose wake has
  -- not fired.
  pub take_turn-Sleeps :
      (now : ℕ) (s : Batcher S N)
      → All
          (λ (k, b). now + (take_turn now s).sleep ≤ max b.deadline (now + 50))
          (take_turn now s).after.batches
        × ((null s.expected_rx_sources ≡ true)
            ⊎ All
                (λ (c, first).
                  (contains (take_turn now s).after.cycle_wake_fired c ≡ true)
                  ⊎ (now + (take_turn now s).sleep ≤ max (first + s.backstop_ms) (now + 50)))
                s.cycle_first_commit_at)
  unfolding take_turn
  take_turn-Sleeps now s = (
    subst (All (λ (k, b). now + timeout_of now next ≤ max b.deadline (now + 50)))
        (sym (take_turn-batches now s))
        (All-map_weaken _ _
          (λ (k, b) h. timeout-InTime now b.deadline next (soonest-WaitsBy b.deadline _ _ (inl h)))
          c.kept (collect-WaitsBy now s.batches)),
    elim (Bool-cases (null s.expected_rx_sources)) [
      | inl t ↦ inl t
      | inr f ↦ inr (
          All-map_weaken (λ (a, first). Awaited s.backstop_ms a first x) _ in_time
            s.cycle_first_commit_at (cross_turn-Awaited now (record s { batches = c.kept }) f))
    ],
  )
    where
      c : Collected S N
      c = collect now s.batches

      x : Crossed S N
      x = cross_turn now (record s { batches = c.kept })

      next : Option ℕ
      next = soonest c.wait_until x.cross_wait

      in_time :
          (e : CycleKey × ℕ)
          → Awaited s.backstop_ms e.0 e.1 x
          → (contains x.state.cycle_wake_fired e.0 ≡ true)
            ⊎ (now + timeout_of now next ≤ max (e.1 + s.backstop_ms) (now + 50))
      in_time e (inl f) = inl f
      in_time e (inr u) =
          inr (
            timeout-InTime now (e.1 + s.backstop_ms) next
              (soonest-WaitsBy _ c.wait_until _ (inr u)))
