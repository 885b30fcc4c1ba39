-- ===== src/SyncStrategy/Tests.antt =====
-- The synchronisation strategies on small inputs: 1000 samples a second, a reference clock that is
-- the wall clock, and packets of 600 samples from a second before a minute on.
use wspr_recorder.Common.{ℕ, ◌+◌, ◌%◌, ◌^◌, ◌≡◌, refl, arith, false, none, some, [], ◌∷◌}
use wspr_recorder.Common.Int.{pos}
use wspr_recorder.Common.Rounding.{round_div}
use wspr_recorder.SyncStrategy.{RtpSync, Anchor, init, unwrap}
use wspr_recorder.SyncStrategy.Unwrap.{At, unwrap-At}
use wspr_recorder.SyncStrategy.Boundary.{
  StartsAt, first_decision, chosen, until_minute, first_decision-StartsAt,
}

abbrev clock : ℕ → ℕ → Anchor
clock rtp wall = record { utc = wall; source = "RTP"; offset_ns = none }

-- The last packet was seen just before the timestamps wrap round.
abbrev before_wrap : RtpSync
before_wrap = record {
  sample_rate = 1000;
  samples_per_minute = 60_000;
  correlated = false;
  correlation_source = none;
  correlation_offset_ns = none;
  anchor = none;
  next_boundary = none;
  next_minute = none;
  last_raw = some 4_294_967_200;
  unwrapped = pos 4_294_967_200;
}

before_wrap-At : At before_wrap 4_294_967_200
before_wrap-At = record { position = refl; raw = refl }

unwrap-At_example : At (unwrap before_wrap (4_294_967_400 % 2 ^ 32)) 4_294_967_400
unwrap-At_example = unwrap-At 4_294_967_200 4_294_967_400 before_wrap-At (omega arith) (omega arith)

chosen_sample : chosen clock 1000 7000 59_000_000 ≡ 8000
unfolding round_div
chosen_sample = refl

first_decision-StartsAt_example :
    StartsAt clock
      (chosen clock 1000 7000 59_000_000)
      (59_000_000 + until_minute clock 59_000_000)
      (first_decision clock (init 1000) 7000 ((600, 59_000_000) ∷ (600, 59_600_000) ∷ []))
first_decision-StartsAt_example =
    first_decision-StartsAt clock 1000 7000 600 59_000_000 ((600, 59_600_000) ∷ []) (omega arith)
      (omega arith) (omega arith, tt) (omega (arith, chosen_sample))
