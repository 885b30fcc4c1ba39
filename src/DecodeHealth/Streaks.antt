-- ===== src/DecodeHealth/Streaks.antt =====
-- The streak of a band as the run of its late decodes, and when BEHIND is raised.
use wspr_recorder.Common.{
  ℕ, suc, ◌+◌, ◌%◌, ◌≤◌, ◌<◌, ◌≡◌, ◌↔◌, ◌⊎◌, max, Bool, false, leb, ◌&&◌, ◌||◌, refl, List, [], ◌∷◌,
  arith, ltb, ◌==◌, if◌then◌else◌, length, All,
}
use wspr_recorder.DecodeHealth.{Streak, no_streak, Status, healthy, behind, judge}

-- The lateness of the oldest decode of a run, latest first; `d` for an empty one.
abbrev pub oldest : ℕ → List ℕ → ℕ
oldest d [] = d
oldest d (x ∷ xs) = oldest x xs

abbrev pub worst : List ℕ → ℕ
worst [] = 0
worst (x ∷ xs) = max x (worst xs)

-- Whether a decode of the run, latest first, was reported as falling behind: it came late enough in
-- the run and was not less late than the run's first.
abbrev pub told : ℕ → List ℕ → Bool
told sustain [] = false
told sustain (x ∷ xs) = (leb sustain (length (x ∷ xs)) && leb (oldest x xs) x) || told sustain xs

-- The streak sums up a run of late decodes, latest first.
pub record Follows (threshold sustain : ℕ) (s : Streak) (run : List ℕ) : Type 0 where
  pub counted : s.count ≡ length run
  pub first : oldest s.first_late_s run ≡ s.first_late_s
  pub highest : worst run ≡ (if s.count == 0 then 0 else s.max_late_s)
  pub all_late : All (λ x. threshold ≤ x) run
  pub reported : s.reported ≡ told sustain run

-- What the next decode makes of the run: one that is late enough joins it, any other ends it.
abbrev pub next_run : ℕ → ℕ → List ℕ → List ℕ
next_run threshold x run = if ltb x threshold then [] else x ∷ run

-- The current run of late decodes of a band's history, latest first, of clocks and latenesses.
abbrev pub late_run : ℕ → List (ℕ × ℕ) → List ℕ
late_run threshold [] = []
late_run threshold ((now, x) ∷ ds) = next_run threshold x (late_run threshold ds)

-- The band's streak after its history, latest first.
abbrev pub streak_after : ℕ → ℕ → List (ℕ × ℕ) → Streak
streak_after threshold sustain [] = no_streak
streak_after threshold sustain ((now, x) ∷ ds) =
    (judge threshold sustain now x (streak_after threshold sustain ds)).0

-- Every decode keeps the streak a summary of the current run of late decodes.
judge-Follows :
    (threshold sustain now x : ℕ) {s : Streak} (run : List ℕ)
    → Follows threshold sustain s run
    → Follows threshold sustain (judge threshold sustain now x s).0 (next_run threshold x run)
unfolding judge
judge-Follows threshold sustain now x [] f = ground (arith, f)
judge-Follows threshold sustain now x (y ∷ ys) f = ground (arith, f)

streak_after-Follows :
    (threshold sustain : ℕ) (ds : List (ℕ × ℕ))
    → Follows threshold sustain (streak_after threshold sustain ds) (late_run threshold ds)
streak_after-Follows threshold sustain [] = record {
  counted = refl;
  first = refl;
  highest = refl;
  all_late = tt;
  reported = refl;
}
streak_after-Follows threshold sustain ((now, x) ∷ ds) =
    judge-Follows threshold sustain now x (late_run threshold ds)
      (streak_after-Follows threshold sustain ds)

Follows-behind_iff :
    (threshold sustain now x : ℕ) {s : Streak} (run : List ℕ)
    → Follows threshold sustain s run
    → ((judge threshold sustain now x s).1 ≡ behind) ↔ (
        (threshold ≤ x)
        × (sustain ≤ length (x ∷ run))
        × (oldest x run ≤ x)
        × ((told sustain run ≡ false) ⊎ (length (x ∷ run) % sustain ≡ 0)))
unfolding judge
Follows-behind_iff threshold sustain now x [] f = ground (arith, f)
Follows-behind_iff threshold sustain now x (y ∷ ys) f = ground (arith, f)

-- After any history of a band, BEHIND is raised exactly for a late decode whose run of late decodes
-- is long enough, that is not less late than the run's first decode, and where no earlier decode of
-- the run was such a decode or the run's length is a multiple of `sustain`.
pub judge-behind_iff :
    (threshold sustain now x : ℕ) (ds : List (ℕ × ℕ))
    → 0 < sustain
    → ((judge threshold sustain now x (streak_after threshold sustain ds)).1 ≡ behind) ↔ (
        (threshold ≤ x)
        × (sustain ≤ length (x ∷ late_run threshold ds))
        × (oldest x (late_run threshold ds) ≤ x)
        × ((told sustain (late_run threshold ds) ≡ false)
            ⊎ (length (x ∷ late_run threshold ds) % sustain ≡ 0)))
judge-behind_iff threshold sustain now x ds h =
    Follows-behind_iff threshold sustain now x (late_run threshold ds)
      (streak_after-Follows threshold sustain ds)

-- The status of the last of a sequence of decodes of one band, given as pairs of the clock and the
-- lateness; `healthy` for none.
unfoldable pub last_status : ℕ → ℕ → Streak → List (ℕ × ℕ) → Status
last_status threshold sustain s [] = healthy
last_status threshold sustain s ((now, x) ∷ []) = (judge threshold sustain now x s).1
last_status threshold sustain s ((now, x) ∷ d ∷ ds) =
    last_status threshold sustain (judge threshold sustain now x s).0 (d ∷ ds)

-- A streak that is open at lateness `first` and has not been reported.
record Open (first count : ℕ) (s : Streak) : Type 0 where
  counted : s.count ≡ count
  opened : s.first_late_s ≡ first
  silent : s.reported ≡ false
  positive : 0 < count

judge-Open :
    (threshold sustain now x first count : ℕ) {s : Streak}
    → Open first count s
    → threshold ≤ first
    → first ≤ x
    → suc count < sustain
    → Open first (suc count) (judge threshold sustain now x s).0
unfolding judge
judge-Open threshold sustain now x first count o h k l = ground arith

last_status-Open :
    (threshold sustain first count : ℕ) (s : Streak) (d : ℕ × ℕ) (ds : List (ℕ × ℕ))
    → Open first count s
    → threshold ≤ first
    → All (λ (e : ℕ × ℕ). first ≤ e.1) (d ∷ ds)
    → count + length (d ∷ ds) ≡ sustain
    → last_status threshold sustain s (d ∷ ds) ≡ behind
unfolding last_status judge
last_status-Open threshold sustain first count s (now, x) [] o h a e = ground arith
last_status-Open threshold sustain first count s (now, x) (d ∷ ds) o h a e =
    last_status-Open threshold sustain first (suc count) (judge threshold sustain now x s).0 d ds
      (judge-Open threshold sustain now x first count o h a.0 (omega arith)) h a.1 (omega arith)

-- A band with no late run that is then late `sustain` times, twice or more, never less late than at the first of
-- them, is reported BEHIND at the last, also where its lateness fell at every decode but the first.
pub last_status-sustained :
    (threshold sustain now first : ℕ) (d : ℕ × ℕ) (ds : List (ℕ × ℕ))
    → threshold ≤ first
    → All (λ (e : ℕ × ℕ). first ≤ e.1) (d ∷ ds)
    → suc (length (d ∷ ds)) ≡ sustain
    → last_status threshold sustain no_streak ((now, first) ∷ d ∷ ds) ≡ behind
unfolding last_status judge
last_status-sustained threshold sustain now first d ds h a e =
    last_status-Open threshold sustain first 1 (judge threshold sustain now first no_streak).0 d ds
      (ground arith) h a (omega arith)
