-- ===== src/BacklogMonitor.antt =====
-- wspr_recorder/backlog_monitor.py: the judgement of the decode pool's queue, and which log lines its
-- transitions cause. Times are whole milliseconds; the texts of the lines are left out.
pub mod Episodes
mod Tests
use wspr_recorder.Common.{
  ℕ, ◌+◌, ◌-◌, max, Bool, true, false, ◌&&◌, Option, none, some, List, [], ◌∷◌, ◌++◌, ltb, leb,
  ◌==◌, if◌then◌else◌, length, get_elem?,
}
use wspr_recorder.Common.Maps.{append_bounded}

pub data Level : Type 0 where
  ok : Level
  warn : Level

pub data Reason : Type 0 where
  stuck : Reason
  growing : Reason
  keeping_up : Reason

pub record Assessment : Type 0 where
  pub level : Level
  pub reason : Reason
  pub queued : ℕ
  pub oldest_wait_s : ℕ
  pub running : ℕ

-- The part of `backlog_snapshot()` that the monitor reads.
pub record Snapshot : Type 0 where
  pub queued : ℕ
  pub oldest_wait_s : ℕ
  pub running : ℕ

pub record Monitor : Type 0 where
  pub warn_wait_s : ℕ
  pub floor : ℕ
  pub grow_samples : ℕ
  pub remind_s : ℕ
  pub history : List ℕ
  pub last : Option Assessment
  pub warn_since : Option ℕ
  pub last_logged : ℕ

-- A line that `observe` writes: a warning on entry, a reminder, or the all-clear.
pub data LogLine : Type 0 where
  entered : LogLine
  persisting : LogLine
  cleared : LogLine

-- `all(b >= a for a, b in zip(h, h[1:]))`
unfoldable pub never_shrinks : List ℕ → Bool
never_shrinks [] = true
never_shrinks (a ∷ []) = true
never_shrinks (a ∷ b ∷ h) = leb a b && never_shrinks (b ∷ h)

-- `h[-1 - k]`, for a list with more than `k` elements (0 otherwise, which `assess` does not reach).
unfoldable pub from_end : ℕ → List ℕ → ℕ
from_end k h = elim (get_elem? h (length h - (1 + k))) [ none ↦ 0 | some x ↦ x ]

abbrev pub is_warn : Option Assessment → Bool
is_warn none = false
is_warn (some a) = elim a.level [ warn ↦ true | ok ↦ false ]

unfoldable pub is_growing : Monitor → List ℕ → ℕ → Bool
is_growing m h queued =
    ltb m.grow_samples (length h)
    && leb m.floor queued
    && never_shrinks h
    && ltb (from_end m.grow_samples h) (from_end 0 h)

abbrev pub judged : Snapshot → Level → Reason → Assessment
judged s level reason = record {
  level = level;
  reason = reason;
  queued = s.queued;
  oldest_wait_s = s.oldest_wait_s;
  running = s.running;
}

-- `assess` appends to the history and judges.
unfoldable pub assess : Monitor → Snapshot → Monitor × Assessment
assess m s =
    let h = append_bounded (max 2 (m.grow_samples + 1)) m.history s.queued in
    let m' = record m { history = h } in
    if ltb 0 s.queued && ltb m.warn_wait_s s.oldest_wait_s
    then (m', judged s warn stuck)
    else if is_growing m h s.queued
    then (m', judged s warn growing)
    else (m', judged s ok keeping_up)

-- The transition that `observe` makes once the snapshot is assessed.
unfoldable pub settle : ℕ → Monitor × Assessment → Monitor × Assessment × Option LogLine
settle now (m, a) =
    let done = record m { last = some a } in
    if is_warn (some a)
    then (if is_warn m.last
        then (if leb m.remind_s (now - m.last_logged)
            then (record done { last_logged = now }, a, some persisting)
            else (done, a, none))
        else (record done { warn_since = some now; last_logged = now }, a, some entered))
    else (if is_warn m.last
        then (record done { warn_since = none }, a, some cleared)
        else (done, a, none))

unfoldable pub observe : Monitor → Snapshot → ℕ → Monitor × Assessment × Option LogLine
observe m s now = settle now (assess m s)
