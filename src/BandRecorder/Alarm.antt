-- ===== src/BandRecorder/Alarm.antt =====
-- The tier-sourced integrity alarm of `_on_minute_boundary`, and what it can do.
use Prim.Native.String.{String}
use text.Mathlib.Text.{◌==◌ as str_eq}
use wspr_recorder.Common.{
  ℕ, ◌+◌, Bool, true, ◌&&◌, not, Option, none, some, ltb, leb, if◌then◌else◌,
}
use wspr_recorder.BandRecorder.{Config, TierAlarm}

-- `_TIER_RANK.get`
unfoldable pub tier_rank : String → Option ℕ
tier_rank t =
    if str_eq t "T6"
    then some 6
    else if str_eq t "T5"
    then some 5
    else if str_eq t "T4"
    then some 4
    else if str_eq t "T3"
    then some 3
    else if str_eq t "T2"
    then some 2
    else if str_eq t "T1"
    then some 1
    else if str_eq t "T0"
    then some 0
    else none

abbrev pub rank_of : Option String → Option ℕ
rank_of none = none
rank_of (some t) = tier_rank t

-- `rank > best`, for a best rank that may be unset.
abbrev pub improves : Option ℕ → ℕ → Bool
improves none rank = true
improves (some best) rank = ltb best rank

-- `best is None or best < expect`
abbrev pub falls_short : Option ℕ → ℕ → Bool
falls_short none expect = true
falls_short (some best) expect = ltb best expect

-- The reading of the tier: the counters before any verdict.
unfoldable pub note_tier : Option String → Option ℕ → TierAlarm → TierAlarm
note_tier active rank t = record t {
  last_active = active;
  boundaries_since_start = t.boundaries_since_start + 1;
  best_rank = elim rank [
    | none ↦ t.best_rank
    | some k ↦ if improves t.best_rank k then some k else t.best_rank
  ];
}

-- The one-shot verdict on a station that never reached the tier that it is expected to reach.
unfoldable pub check_coldstart : Config → TierAlarm → TierAlarm
check_coldstart c t = elim c.expect_rank [
  | none ↦ t
  | some expect ↦
      if not t.coldstart_faulted
        && leb c.tier_warmup t.boundaries_since_start
        && falls_short t.best_rank expect
      then record t { coldstart_faulted = true; faults = t.faults + 1 }
      else t
]

-- The degradation alarm, armed once a tier at or above the floor was seen.
unfoldable pub check_floor : Config → Option ℕ → TierAlarm → TierAlarm
check_floor c none t = t
check_floor c (some rank) t =
    if leb c.tier_floor_rank rank
    then record t { seen_ok = true; strikes = 0 }
    else if t.seen_ok
    then (if leb c.tier_alarm_after (t.strikes + 1)
        then record t { strikes = 0; faults = t.faults + 1 }
        else record t { strikes = t.strikes + 1 })
    else t

unfoldable pub check_tier : Config → Option String → TierAlarm → TierAlarm
unfolding note_tier check_coldstart check_floor
check_tier c active t =
    let rank = rank_of active in check_floor c rank (check_coldstart c (note_tier active rank t))
