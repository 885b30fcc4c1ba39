-- ===== src/HostSlot/Tests.antt =====
-- The host's slots on small examples.
use wspr_recorder.Common.{ℕ, suc, ◌+◌, ◌*◌, Bool, ◌≡◌, ◌≢◌, refl, arith, ◌==◌, ltb, ◌&&◌}
use wspr_recorder.HostSlot.{got, unfinished, host_wide_slot}
use wspr_recorder.HostSlot.Rounds.{Explained, host_wide_slot-Explained}

-- From the fourth round on, the second slot is free.
abbrev free : ℕ → ℕ → Bool
free i c = ltb 2 i && c == 1

abbrev clock : ℕ → ℕ
clock i = 100 + 500 * i

second_slot : (host_wide_slot free clock 2 100 2000 6).0 ≡ got 1
unfolding host_wide_slot
second_slot = refl

host_wide_slot-Explained_example :
    ((host_wide_slot free clock 2 100 2000 (suc 5)).0 ≢ unfinished)
    × Explained free clock 2 (100 + 2000) (host_wide_slot free clock 2 100 2000 (suc 5)).0
host_wide_slot-Explained_example =
    host_wide_slot-Explained free clock 2 100 2000 5 (omega arith) (λ i. omega arith) (omega arith)
