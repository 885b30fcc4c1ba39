-- ===== src/CycleBatcher/WakeEvents.antt =====
-- What wakes the calls behind a flush of `CycleBatcher` of wspr_recorder/spot_sink.py log.
use Prim.Native.String.{String}
use wspr_recorder.Common.{
  ℕ, ◌≤◌, Bool, true, false, Option, List, [], ◌∷◌, ◌≡◌, refl, ◌∙◌, arith, if◌then◌else◌, if_intro,
  ltb, ◌==◌, ◌&&◌,
}
use wspr_recorder.Common.Dict.{Dict, same, string_eq, pair_eq}
use wspr_recorder.CycleBatcher.{CycleKey, Batch, Batcher}
use wspr_recorder.CycleBatcher.Writer.{Sink, Event, judged, commit_rx, null}
use wspr_recorder.CycleBatcher.Inputs.{
  schedule_wake, wake_if, on_per_rx_committed, after_flush, rx_label,
}
use wspr_recorder.CycleBatcher.Wakes.{one_if, wakes, fired, Pays, wakes-append, commit_rx-Pays}

module _ {S N : Type 0} (D : Type 0) (c : CycleKey) where
  -- One call wakes for its own cycle at most, once at most, and marks nothing.
  pub schedule_wake-Once :
      (now wall : ℕ) (a : CycleKey) (t : Batcher S N)
      → (wakes c (schedule_wake {D = D} now wall a t).1 ≤ one_if (same c a))
        × (fired c (schedule_wake {D = D} now wall a t).0 ≡ fired c t)
        × ((schedule_wake {D = D} now wall a t).0.expected_rx_sources ≡ t.expected_rx_sources)
  unfolding schedule_wake
  schedule_wake-Once now wall a t =
      if_intro Once (0 == t.ft_settle_ms)
        (λ _.
          if_intro (λ (es : List (Event S N D)). Once (t, es)) t.callback
            (λ _. (omega arith, refl, refl)) (λ _. (omega arith, refl, refl)))
        (λ _. (omega arith, refl, refl))
    where
      Once : Batcher S N × List (Event S N D) → Type 0
      Once r =
          (wakes c r.1 ≤ one_if (same c a))
          × (fired c r.0 ≡ fired c t)
          × (r.0.expected_rx_sources ≡ t.expected_rx_sources)

  schedule_wake-Pays :
      (now wall : ℕ) (a : CycleKey) (s t : Batcher S N)
      → Pays c (one_if (same c a)) s t
      → Pays c
          (wakes c (schedule_wake {D = D} now wall a t).1)
          s
          (schedule_wake {D = D} now wall a t).0
  schedule_wake-Pays now wall a s t p =
      let o = schedule_wake-Once now wall a t in (omega (arith, p.0, o.0, o.1), o.2 ∙ p.1)

  wake_if-Pays :
      (b : Bool) (now wall : ℕ) (a : CycleKey) (s t : Batcher S N)
      → Pays c (if b then one_if (same c a) else 0) s t
      → Pays c (wakes c (wake_if {D = D} b now wall a t).1) s (wake_if {D = D} b now wall a t).0
  wake_if-Pays false now wall a s t p = p
  wake_if-Pays true now wall a s t p = schedule_wake-Pays now wall a s t p

  committed-Pays :
      (now wall : ℕ) (b : Batch S N) (s : Batcher S N)
      → null s.expected_rx_sources ≡ false
      → Pays c
          (wakes c (on_per_rx_committed {D = D} now wall b s).1)
          s
          (on_per_rx_committed {D = D} now wall b s).0
  unfolding on_per_rx_committed
  committed-Pays now wall b s h =
      if_intro (λ (r : Batcher S N × List (Event S N D)). Pays c (wakes c r.1) s r.0) s.callback
        (λ _.
          let r = commit_rx now b.cycle_key b.rx_source s in
          wake_if-Pays r.0 now wall b.cycle_key s r.1
            (commit_rx-Pays c now b.cycle_key b.rx_source s h))
        (λ _. (omega arith, refl))

module _ {T S N D : Type 0} (api : Sink T S N) (average : Dict String (List S) → Option D) where
  pub after_flush-Pays :
      (c : CycleKey) (n m now wall : ℕ) (b : Batch S N) (s : Batcher S N)
      → null s.expected_rx_sources ≡ false
      → Pays c
          (wakes c (after_flush api average n m now wall b s).1)
          s
          (after_flush api average n m now wall b s).0
  unfolding after_flush
  after_flush-Pays c n m now wall b s h =
      if_intro Paid (n == 0 && m == 0) (λ _. (omega arith, refl))
        (λ _.
          if_intro Paid (ltb 0 n)
            (λ _. (
              omega
                  (arith, wakes-append c hook (on_per_rx_committed now wall b s).1, quiet, paid.0),
              paid.1,
            ))
            (λ _. (omega (arith, quiet), refl)))
    where
      Paid : Batcher S N × List (Event S N D) → Type 0
      Paid r = Pays c (wakes c r.1) s r.0

      hook : List (Event S N D)
      hook = if s.judge then judged (rx_label b) (average b.bands) n ∷ [] else []

      quiet : wakes c hook ≡ 0
      quiet = ground arith

      paid : Paid (on_per_rx_committed now wall b s)
      paid = committed-Pays D c now wall b s h
