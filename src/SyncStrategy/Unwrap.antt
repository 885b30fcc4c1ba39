-- ===== src/SyncStrategy/Unwrap.antt =====
-- The unwrapped position follows a counter of any size from its low 32 bits.
use wspr_recorder.Common.{ℕ, ◌+◌, ◌%◌, ◌^◌, ◌<◌, ◌≡◌, arith, some}
use wspr_recorder.Common.Int.{pos, ◌+ℤ◌}
use wspr_recorder.SyncStrategy.{RtpSync, unwrap, signed_delta}

-- The strategy has seen the packet at position `t` of the stream's unbounded sample counter.
pub record At (s : RtpSync) (t : ℕ) : Type 0 where
  pub position : s.unwrapped ≡ pos t
  pub raw : s.last_raw ≡ some (t % 2 ^ 32)

delta-eq :
    (t t' : ℕ)
    → t' < t + 2 ^ 31
    → t < t' + 2 ^ 31
    → pos t +ℤ signed_delta (t % 2 ^ 32) (t' % 2 ^ 32) ≡ pos t'
unfolding signed_delta
delta-eq t t' h k = ground arith

-- From position `t` to any position less than 2^31 samples away, in either direction, the strategy
-- finds the true position from the 32 bits of the timestamp.
pub unwrap-At :
    (t t' : ℕ) {s : RtpSync}
    → At s t
    → t' < t + 2 ^ 31
    → t < t' + 2 ^ 31
    → At (unwrap s (t' % 2 ^ 32)) t'
unfolding unwrap
unwrap-At t t' a h k = ground (arith, delta-eq t t' h k)
