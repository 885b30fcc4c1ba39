-- ===== src/BacklogMonitor/Episodes.antt =====
-- What `observe` logs, and what the history holds.
use wspr_recorder.Common.{
  ℕ, ◌-◌, ◌≤◌, ◌≡◌, ◌↔◌, Bool, true, false, Option, none, some, List, [], ◌∷◌, arith,
}
use mathlib.Core.Path.{subst}
use wspr_recorder.BacklogMonitor.{
  Monitor, Snapshot, warn, ok, LogLine, entered, persisting, cleared, is_warn, assess, settle,
  observe,
}

-- The lines of a run tell of episodes: `remind` is the least time between two warnings of one
-- episode, `warning` whether one is under way, `since` the time of its last warning.
abbrev pub Episodes : ℕ → Bool → ℕ → List (ℕ × Option LogLine) → Type 0
Episodes remind warning since [] = Unit
Episodes remind warning since ((now, none) ∷ ls) = Episodes remind warning since ls
Episodes remind false since ((now, some entered) ∷ ls) = Episodes remind true now ls
Episodes remind true since ((now, some persisting) ∷ ls) =
    (remind ≤ now - since) × Episodes remind true now ls
Episodes remind true since ((now, some cleared) ∷ ls) = Episodes remind false since ls
Episodes remind _ since ((now, some _) ∷ ls) = ⊥

-- A run of the monitor over snapshots and the times at which they are taken.
unfoldable pub observe_all : Monitor → List (Snapshot × ℕ) → Monitor × List (ℕ × Option LogLine)
observe_all m [] = (m, [])
observe_all m ((s, now) ∷ rest) =
    let (m', a, line) = observe m s now in
    let (final, lines) = observe_all m' rest in (final, (now, line) ∷ lines)

assess-keeps :
    (m : Monitor) (s : Snapshot)
    → ((assess m s).0.last ≡ m.last)
      × ((assess m s).0.warn_since ≡ m.warn_since)
      × ((assess m s).0.last_logged ≡ m.last_logged)
      × ((assess m s).0.remind_s ≡ m.remind_s)
unfolding assess
assess-keeps m s = ground arith

observe-Episodes :
    (m : Monitor) (s : Snapshot) (now : ℕ) (ls : List (ℕ × Option LogLine))
    → let (m', a, line) = observe m s now in
      Episodes m.remind_s (is_warn m'.last) m'.last_logged ls
      → Episodes m.remind_s (is_warn m.last) m.last_logged ((now, (observe m s now).2) ∷ ls)
unfolding observe settle
observe-Episodes m s now ls h = ground (arith, assess-keeps m s)

observe-remind : (m : Monitor) (s : Snapshot) (now : ℕ) → (observe m s now).0.remind_s ≡ m.remind_s
unfolding observe settle
observe-remind m s now = ground (arith, assess-keeps m s)

-- In any run the log is a sequence of episodes: a warning on entry, then only reminders, each at
-- least `remind_s` after the warning before it, then the all-clear; and nothing is logged outside.
pub observe_all-Episodes :
    (m : Monitor) (samples : List (Snapshot × ℕ))
    → Episodes m.remind_s (is_warn m.last) m.last_logged (observe_all m samples).1
unfolding observe_all
observe_all-Episodes m [] = tt
observe_all-Episodes m ((s, now) ∷ rest) =
    observe-Episodes m s now (observe_all (observe m s now).0 rest).1 (
      subst
        (λ r.
          Episodes r (is_warn (observe m s now).0.last) (observe m s now).0.last_logged
            (observe_all (observe m s now).0 rest).1)
        (observe-remind m s now) (observe_all-Episodes (observe m s now).0 rest))

-- An observation returns the assessment that it stores, and logs the entry exactly when it turns to
-- a warning and the all-clear exactly when it turns back.
pub observe-logs :
    (m : Monitor) (s : Snapshot) (now : ℕ)
    → let (m', a, line) = observe m s now in
      ((line ≡ some entered) ↔ ((is_warn m.last ≡ false) × (a.level ≡ warn)))
      × ((line ≡ some cleared) ↔ ((is_warn m.last ≡ true) × (a.level ≡ ok)))
      × (m'.last ≡ some a)
unfolding observe settle
observe-logs m s now = ground (arith, assess-keeps m s)
