-- ===== src/BacklogMonitor/Tests.antt =====
-- The backlog monitor on small inputs.
use wspr_recorder.Common.{ℕ, ◌≡◌, refl, none, some, List, [], ◌∷◌}
use wspr_recorder.BacklogMonitor.{
  Monitor, Snapshot, entered, cleared, persisting, is_warn, observe, assess, settle, is_growing,
}
use wspr_recorder.BacklogMonitor.Episodes.{Episodes, observe_all, observe_all-Episodes}

abbrev monitor : Monitor
monitor = record {
  warn_wait_s = 60;
  floor = 4;
  grow_samples = 3;
  remind_s = 100;
  history = [];
  last = none;
  warn_since = none;
  last_logged = 0;
}

abbrev waiting : ℕ → Snapshot
waiting seconds = record { queued = 1; oldest_wait_s = seconds; running = 2 }

abbrev night : List (Snapshot × ℕ)
night = (waiting 70, 1000) ∷ (waiting 80, 1050) ∷ (waiting 90, 1100) ∷ (waiting 10, 1150) ∷ []

-- The second warning is too early to be repeated.
logged :
    (observe_all monitor night).1
    ≡ (1000, some entered) ∷ (1050, none) ∷ (1100, some persisting) ∷ (1150, some cleared) ∷ []
unfolding observe_all observe assess settle is_growing
logged = refl

observe_all-Episodes_example :
    Episodes monitor.remind_s
      (is_warn monitor.last)
      monitor.last_logged
      (observe_all monitor night).1
observe_all-Episodes_example = observe_all-Episodes monitor night
