-- ===== src/Common/Words.antt =====
-- 32-bit arithmetic of RTP timestamps.
use Prim.Native.Nat.{ℕ, ◌+◌, ◌-◌, ◌*◌, ◌/◌, ◌%◌, ◌^◌}

-- `(a + b) & 0xFFFFFFFF`
abbrev pub add_u32 : ℕ → ℕ → ℕ
add_u32 a b = (a + b) % 2 ^ 32

-- `(a - b) & 0xFFFFFFFF`: enough turns are added first to stay above 0.
abbrev pub sub_u32 : ℕ → ℕ → ℕ
sub_u32 a b = (a + 2 ^ 32 * (b / 2 ^ 32 + 1) - b) % 2 ^ 32
