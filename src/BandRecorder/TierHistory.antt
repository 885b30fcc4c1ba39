-- ===== src/BandRecorder/TierHistory.antt =====
-- What a run of tiers says of the alarm of wspr_recorder/band_recorder.py, from the tiers alone.
use Prim.Native.String.{String}
use wspr_recorder.Common.{
  ℕ, suc, ◌%◌, ◌&&◌, ◌==◌, Bool, false, ◌||◌, Option, none, some, leb, if◌then◌else◌, List, [], ◌∷◌,
  length, max,
}
use wspr_recorder.BandRecorder.{Config}
use wspr_recorder.BandRecorder.Alarm.{rank_of, improves, falls_short}

-- The best tier that was read.
abbrev pub best_of : List (Option String) → Option ℕ
best_of [] = none
best_of (t ∷ ts) = elim (rank_of t) [
  | none ↦ best_of ts
  | some k ↦ if improves (best_of ts) k then some k else best_of ts
]

module _ (c : Config) where
  -- The floor was reached by some tier of the run.
  abbrev pub reaches_floor : List (Option String) → Bool
  reaches_floor [] = false
  reaches_floor (t ∷ ts) = elim (rank_of t) [
    | none ↦ reaches_floor ts
    | some k ↦ leb c.tier_floor_rank k || reaches_floor ts
  ]

  -- The tiers below the floor since it was last reached; none before it ever was. An unreadable tier
  -- is passed over.
  abbrev pub below_floor : List (Option String) → ℕ
  below_floor [] = 0
  below_floor (t ∷ ts) = elim (rank_of t) [
    | none ↦ below_floor ts
    | some k ↦
        if leb c.tier_floor_rank k
        then 0
        else if reaches_floor ts
        then suc (below_floor ts)
        else below_floor ts
  ]

  -- As many of them in a row make an alarm.
  abbrev pub alarm_at : ℕ
  alarm_at = max 1 c.tier_alarm_after

  -- The alarms of degradation in the run: one for each full row.
  abbrev pub alarms : List (Option String) → ℕ
  alarms [] = 0
  alarms (t ∷ ts) = elim (rank_of t) [
    | none ↦ alarms ts
    | some k ↦
        if leb c.tier_floor_rank k
        then alarms ts
        else if reaches_floor ts && suc (below_floor ts) % alarm_at == 0
        then suc (alarms ts)
        else alarms ts
  ]

  -- At some minute from the end of the warm-up on, the best tier so far fell short of the expected.
  abbrev pub started_cold : List (Option String) → Bool
  started_cold [] = false
  started_cold (t ∷ ts) = started_cold ts || elim c.expect_rank [
    | none ↦ false
    | some expect ↦ leb c.tier_warmup (suc (length ts)) && falls_short (best_of (t ∷ ts)) expect
  ]
