-- ===== src/SyncStrategy/Boundary.antt =====
-- A contiguous stream of packets: the first minute begins at the sample that the correlation chose.
use native.Mathlib.Decide.{dec_lt}
use wspr_recorder.Common.{
  ℕ, ◌+◌, ◌-◌, ◌*◌, ◌%◌, ◌^◌, ◌≤◌, ◌<◌, ◌≡◌, refl, arith, Option, none, some, true, List, [], ◌∷◌,
  All, ltb, if◌then◌else◌,
}
use wspr_recorder.Common.Int.{pos}
use wspr_recorder.Common.Rounding.{round_div, round_div-near}
use wspr_recorder.Common.Results.{Result, ok, ◌>>=◌}
use wspr_recorder.SyncStrategy.{
  RtpSync, SyncDecision, Anchor, minute_us, init, unwrap, correlate, decide, should_start_minute,
}
use wspr_recorder.SyncStrategy.Unwrap.{At, unwrap-At}

-- A correlated strategy that waits for stream position `b`, the start of minute `m`, having seen the
-- packet at position `t`.
record Waiting (s : RtpSync) (t b m : ℕ) : Type 0 where
  at : At s t
  ready : s.correlated ≡ true
  boundary : s.next_boundary ≡ some (pos b)
  minute : s.next_minute ≡ some m

abbrev decision : ℕ → ℕ → ℕ → SyncDecision
decision p b m = record {
  start_wallclock = m;
  start_rtp_timestamp = b % 2 ^ 32;
  sample_offset = b - p;
}

-- A decision with the packet that it is for.
pub record Placed : Type 0 where
  pub position : ℕ
  pub length : ℕ
  pub decision : SyncDecision

decide-here :
    (s : RtpSync) (p b m n wall : ℕ)
    → s.unwrapped ≡ pos p
    → s.next_minute ≡ some m
    → p ≤ b
    → b < p + n
    → decide s (pos b) (p % 2 ^ 32) n wall ≡ some (decision p b m)
unfolding decide
decide-here s p b m n wall u e h k = ground arith

decide-later :
    (s : RtpSync) (p b n wall : ℕ)
    → s.unwrapped ≡ pos p
    → p + n ≤ b
    → decide s (pos b) (p % 2 ^ 32) n wall ≡ none
unfolding decide
decide-later s p b n wall u h = ground arith

module _ (acquire : ℕ → ℕ → Anchor) where
  -- The recorder asks packet by packet until it is given a decision, which comes with the stream
  -- position and the number of samples of the packet that it is for. `p` is the stream position of
  -- the first packet; a packet is its number of samples and the wall clock at its arrival.
  unfoldable pub first_decision : RtpSync → ℕ → List (ℕ × ℕ) → Result (Option Placed)
  first_decision s p [] = ok none
  first_decision s p ((n, wall) ∷ rest) = do
    (s', d) ← should_start_minute acquire s (p % 2 ^ 32) n wall
    elim d [
      | some found ↦ ok (some (record { position = p; length = n; decision = found }))
      | none ↦ first_decision s' (p + n) rest
    ]

  abbrev pub samples : List (ℕ × ℕ) → ℕ
  samples [] = 0
  samples ((n, wall) ∷ rest) = n + samples rest

  module _ (s : RtpSync) (t b m p n wall : ℕ) (w : Waiting s t b m) (h : p < t + 2 ^ 31)
      (k : t < p + 2 ^ 31) where
    seen : Waiting (unwrap s (p % 2 ^ 32)) p b m
    unfolding unwrap
    seen = record {
      at = unwrap-At t p w.at h k;
      ready = w.ready;
      boundary = w.boundary;
      minute = w.minute;
    }

    should_start-decide :
        should_start_minute acquire s (p % 2 ^ 32) n wall
        ≡ ok (unwrap s (p % 2 ^ 32), decide (unwrap s (p % 2 ^ 32)) (pos b) (p % 2 ^ 32) n wall)
    unfolding should_start_minute
    should_start-decide = ground (arith, seen)

  -- The recorder is told to start at stream position `b`, the start of minute `m`: the packet that
  -- the decision is for holds that sample, `sample_offset` samples from its start.
  abbrev pub StartsAt : ℕ → ℕ → Result (Option Placed) → Type 0
  StartsAt b m (ok (some d)) =
      (d.position + d.decision.sample_offset ≡ b)
      × (d.decision.sample_offset < d.length)
      × (d.decision.start_rtp_timestamp ≡ b % 2 ^ 32)
      × (d.decision.start_wallclock ≡ m)
  StartsAt b m _ = ⊥

  Waiting-StartsAt :
      (s : RtpSync) (t b m p : ℕ) (packets : List (ℕ × ℕ))
      → Waiting s t b m
      → p < t + 2 ^ 31
      → t < p + 2 ^ 31
      → All (λ (x : ℕ × ℕ). x.0 < 2 ^ 31) packets
      → p ≤ b
      → b < p + samples packets
      → StartsAt b m (first_decision s p packets)
  unfolding first_decision
  Waiting-StartsAt s t b m p [] w h k a l u = absurd (omega arith)
  Waiting-StartsAt s t b m p ((n, wall) ∷ rest) w h k a l u = elim (dec_lt b (p + n)) [
    | yes q ↦
        rw
          (
            should_start-decide s t b m p n wall w h k,
            decide-here (unwrap s (p % 2 ^ 32)) p b m n wall v.at.position v.minute l q,
          )
          (omega arith, omega arith, refl, refl)
    | no q ↦
        rw
          (
            should_start-decide s t b m p n wall w h k,
            decide-later (unwrap s (p % 2 ^ 32)) p b n wall v.at.position (omega arith),
          )
          (Waiting-StartsAt (unwrap s (p % 2 ^ 32)) p b m (p + n) rest v (omega arith) (omega arith)
            a.1 (omega arith) (omega arith))
  ]
    where
      v : Waiting (unwrap s (p % 2 ^ 32)) p b m
      v = seen s t b m p n wall w h k

  -- Microseconds from a clock to the next minute, 0 at a minute.
  abbrev pub until_minute : ℕ → ℕ
  until_minute utc = if ltb 0 (utc % minute_us) then minute_us - utc % minute_us else 0

  -- The sample that the correlation of the packet at `p` chooses.
  abbrev pub chosen : ℕ → ℕ → ℕ → ℕ
  chosen sample_rate p wall =
      p + round_div (until_minute (acquire (p % 2 ^ 32) wall).utc * sample_rate) 1_000_000

  abbrev correlated_at : ℕ → ℕ → ℕ → RtpSync
  correlated_at sample_rate p wall =
      correlate acquire (unwrap (init sample_rate) (p % 2 ^ 32)) (p % 2 ^ 32) wall

  correlated-Waiting :
      (sample_rate p wall : ℕ)
      → p < 2 ^ 32
      → Waiting
          (correlated_at sample_rate p wall)
          p
          (chosen sample_rate p wall)
          (let utc = (acquire (p % 2 ^ 32) wall).utc in utc + until_minute utc)
  unfolding correlate unwrap init
  correlated-Waiting sample_rate p wall h = record {
    at = record { position = ground arith; raw = refl };
    ready = refl;
    boundary = ground arith;
    minute = ground arith;
  }

  first_packet :
      (sample_rate p n wall : ℕ)
      → p < 2 ^ 32
      → should_start_minute acquire (init sample_rate) (p % 2 ^ 32) n wall
        ≡ ok (
          correlated_at sample_rate p wall,
          decide
              (correlated_at sample_rate p wall)
              (pos (chosen sample_rate p wall))
              (p % 2 ^ 32)
              n
              wall,
        )
  unfolding should_start_minute init
  first_packet sample_rate p n wall h = ground (arith, correlated-Waiting sample_rate p wall h)

  -- A new strategy that is shown a contiguous stream of packets, each of fewer than 2^31 samples and
  -- the first at a position below 2^32,
  -- that reaches the chosen sample, starts the recording at that sample, counted from the start of the packet that holds it,
  -- and labels it with the minute that follows the first packet's reference clock.
  pub first_decision-StartsAt :
      (sample_rate p n wall : ℕ) (rest : List (ℕ × ℕ))
      → p < 2 ^ 32
      → n < 2 ^ 31
      → All (λ (x : ℕ × ℕ). x.0 < 2 ^ 31) rest
      → chosen sample_rate p wall < p + n + samples rest
      → StartsAt
          (chosen sample_rate p wall)
          (let utc = (acquire (p % 2 ^ 32) wall).utc in utc + until_minute utc)
          (first_decision (init sample_rate) p ((n, wall) ∷ rest))
  unfolding first_decision
  first_decision-StartsAt sample_rate p n wall rest h k a u = elim (dec_lt b (p + n)) [
    | yes q ↦
        rw
          (
            first_packet sample_rate p n wall h,
            decide-here s p b m n wall w.at.position w.minute (omega arith) q,
          )
          (omega arith, omega arith, refl, refl)
    | no q ↦
        rw
          (
            first_packet sample_rate p n wall h,
            decide-later s p b n wall w.at.position (omega arith),
          )
          (Waiting-StartsAt s p b m (p + n) rest w (omega arith) (omega arith) a (omega arith)
            (omega arith))
  ]
    where
      b : ℕ
      b = chosen sample_rate p wall

      s : RtpSync
      s = correlated_at sample_rate p wall

      m : ℕ
      m = let utc = (acquire (p % 2 ^ 32) wall).utc in utc + until_minute utc

      w : Waiting s p b m
      w = correlated-Waiting sample_rate p wall h

  -- The minute that the correlation chooses is a whole minute, less than a minute ahead, and the
  -- chosen sample is within half a sample of it.
  pub chosen-near :
      (sample_rate p wall : ℕ)
      → let utc = (acquire (p % 2 ^ 32) wall).utc in
        let ahead = until_minute utc in
        let samples_ahead = chosen sample_rate p wall - p in
        ((utc + ahead) % minute_us ≡ 0)
        × (ahead < minute_us)
        × (2 * (ahead * sample_rate) ≤ 2 * (1_000_000 * samples_ahead) + 1_000_000)
        × (2 * (1_000_000 * samples_ahead) ≤ 2 * (ahead * sample_rate) + 1_000_000)
  chosen-near sample_rate p wall =
      let utc = (acquire (p % 2 ^ 32) wall).utc in
      let near = round_div-near (until_minute utc * sample_rate) in
      (ground arith, ground arith, omega (arith, near), omega (arith, near))
