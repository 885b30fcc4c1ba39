-- ===== src/AnchorGuard.antt =====
-- wspr_recorder/__main__.py: what the main program does with the verdicts of the two timing guards,
-- and the gate of its watchdog. Times are whole seconds. The recovery ladder belongs to the package
-- ka9q, and a band's recorder is known by what the main program calls of it.
pub mod Isolation
pub mod Judgements
mod Tests
use Prim.Native.String.{String}
use wspr_recorder.Common.{
  ℕ, ◌+◌, ◌-◌, ◌*◌, Bool, true, false, not, Option, none, some, List, [], ◌∷◌, ◌++◌, ltb, ◌==◌,
  if◌then◌else◌,
}
use wspr_recorder.Common.Dict.{Dict, lookup, upsert, get_or, same, string_eq, pair_eq}
use wspr_recorder.TimingGuard.{
  Floats, DtGuardConfig, WallClockGuardConfig, dt_guard_step, dt_guard_evidence,
  wallclock_guard_step, wallclock_guard_evidence,
}

-- A new ladder, and a ladder's judgement of a healthy or a faulted observation: whether it asks for a
-- restart, and the ladder after it.
pub record Ladders (L : Type 0) : Type 0 where
  pub new_ladder : L
  pub observe : Bool → L → Bool × L

-- A recorder's frequency, its reset and the binding to a channel; both calls may raise.
pub record Recorders (A I : Type 0) : Type 0 where
  pub frequency_hz : A → ℕ
  pub reset : A → Option A
  pub set_channel_info : I → A → Option A

-- What the guards keep and change; `restarts` counts the requests for a restart and `reanchored` lists
-- the receivers that were re-anchored.
pub record Guards (L A : Type 0) : Type 0 where
  pub dt_strikes : Dict String ℕ
  pub wallclock_strikes : Dict String ℕ
  pub wallclock_ladder_slot : Dict String ℕ
  pub anchor_ladders : Dict String L
  pub band_recorders : Dict (String × ℕ) A
  pub restarts : ℕ
  pub reanchored : List String

-- What the check reads of a decode request: its receiver, its start, its samples and the samples that
-- its gaps miss, and its period.
pub record SlotRequest : Type 0 where
  pub rx_source : String
  pub start_wallclock : Option ℕ
  pub samples : ℕ
  pub gap_samples : ℕ
  pub period_seconds : ℕ

-- `d[k] = v`
abbrev pub put {ℓ} : {V : Type ℓ} → String → V → Dict String V → Dict String V
put k v d = upsert k v (λ _. v) d

module _ {L A I : Type 0} (ladders : Ladders L) (recorders : Recorders A I) where
  -- `_anchor_ladder_for`, and the ladder's judgement.
  unfoldable pub judge_anchor : String → Bool → Guards L A → Bool × Guards L A
  unfolding lookup upsert
  judge_anchor rx healthy g =
      let r = ladders.observe healthy (get_or ladders.new_ladder (lookup rx g.anchor_ladders)) in
      (r.0, record g { anchor_ladders = put rx r.1 g.anchor_ladders })

  -- One turn of the loop of `_reanchor_rx`: a call that raises leaves what was done before it.
  -- `states` gives the information on the channel of a frequency, where there is any.
  unfoldable pub reanchor_one : (ℕ → Option I) → A → A
  reanchor_one states a = elim (recorders.reset a) [
    | none ↦ a
    | some b ↦ elim (states (recorders.frequency_hz a)) [
      | none ↦ b
      | some info ↦ get_or b (recorders.set_channel_info info b)
    ]
  ]

  unfoldable pub reanchor_all : String → (ℕ → Option I) → Dict (String × ℕ) A → Dict (String × ℕ) A
  unfolding reanchor_one
  reanchor_all rx states [] = []
  reanchor_all rx states ((k, a) ∷ d) =
      (k, if same rx k.0 then reanchor_one states a else a) ∷ reanchor_all rx states d

  unfoldable pub reanchor_rx : String → (ℕ → Option I) → Guards L A → Guards L A
  unfolding reanchor_all
  reanchor_rx rx states g = record g {
    band_recorders = reanchor_all rx states g.band_recorders;
    reanchored = g.reanchored ++ (rx ∷ []);
  }

  -- What a guard that fires leads to: a restart where the ladder asks for it, or a re-anchoring.
  unfoldable pub recover : Bool → String → (ℕ → Option I) → Guards L A → Guards L A
  unfolding reanchor_rx
  recover restart rx states g =
      if restart then record g { restarts = g.restarts + 1 } else reanchor_rx rx states g

  module _ (F : Floats) where
    open F use {Float}

    unfoldable pub dt_guard_observe :
        String → Option Float → ℕ → DtGuardConfig F → Bool → Guards L A → Bool × Guards L A
    unfolding judge_anchor dt_guard_evidence
    dt_guard_observe rx avg_dt n_spots cfg fired g =
        elim (dt_guard_evidence F avg_dt n_spots cfg fired) [
          | none ↦ (false, g)
          | some healthy ↦ judge_anchor rx healthy g
        ]

    unfoldable pub on_cycle_dt :
        Option (DtGuardConfig F)
        → (ℕ → Option I)
        → String
        → Option Float
        → ℕ
        → Guards L A
        → Guards L A
    unfolding lookup upsert dt_guard_step dt_guard_observe recover
    on_cycle_dt none states rx avg_dt n_spots g = g
    on_cycle_dt (some cfg) states rx avg_dt n_spots g =
        let s = dt_guard_step F (get_or 0 (lookup rx g.dt_strikes)) avg_dt n_spots cfg in
        let o =
          dt_guard_observe rx avg_dt n_spots cfg s.1
            (record g { dt_strikes = put rx s.0 g.dt_strikes }) in
        if s.1 then recover o.0 rx states o.1 else o.1

    -- Whether the last slot that was judged for a receiver is this one.
    abbrev pub is_judged : String → ℕ → Guards L A → Bool
    is_judged rx slot g = elim (lookup rx g.wallclock_ladder_slot) [
      | none ↦ false
      | some last ↦ last == slot
    ]

    unfoldable pub wallclock_ladder_observe :
        String
        → ℕ
        → Option Float
        → Float
        → WallClockGuardConfig F
        → Bool
        → Guards L A
        → Bool × Guards L A
    unfolding lookup upsert judge_anchor wallclock_guard_evidence
    wallclock_ladder_observe rx slot early_by pct cfg fired g =
        elim (wallclock_guard_evidence F early_by pct cfg fired) [
          | none ↦ (false, g)
          | some healthy ↦
              if is_judged rx slot g
              then (false, g)
              else judge_anchor rx healthy
                  (record g { wallclock_ladder_slot = put rx slot g.wallclock_ladder_slot })
        ]

    -- `percent` is the completeness of a slot's samples and gaps, and `early_by` how long before
    -- its nominal end the check runs.
    unfoldable pub wallclock_guard_check :
        Option (WallClockGuardConfig F)
        → (ℕ → ℕ → Float)
        → (ℕ → Float)
        → (ℕ → Option I)
        → SlotRequest
        → Guards L A
        → Guards L A
    unfolding lookup upsert wallclock_guard_step wallclock_ladder_observe recover
    wallclock_guard_check none percent early_by states r g = g
    wallclock_guard_check (some cfg) percent early_by states r g = elim r.start_wallclock [
      | none ↦ g
      | some start ↦
          let pct = percent r.samples r.gap_samples in
          let early = some (early_by (start + r.period_seconds)) in
          let s =
            wallclock_guard_step F (get_or 0 (lookup r.rx_source g.wallclock_strikes)) early pct
              cfg in
          let o =
            wallclock_ladder_observe r.rx_source start early pct cfg s.1
              (record g { wallclock_strikes = put r.rx_source s.0 g.wallclock_strikes }) in
          if r.samples == 0 then g else if s.1 then recover o.0 r.rx_source states o.1 else o.1
    ]

-- `_ProgressGate`
pub record ProgressGate : Type 0 where
  pub stall : ℕ
  pub startup_grace : ℕ
  pub last : Option ℕ
  pub last_advance : Option ℕ
  pub is_seen : Bool
  pub start : Option ℕ

unfoldable pub init_gate : ℕ → Option ℕ → ProgressGate
init_gate stall grace = record {
  stall = stall;
  startup_grace = get_or (stall * 2) grace;
  last = none;
  last_advance = none;
  is_seen = false;
  start = none;
}

-- The gate after a known progress, from its start.
unfoldable pub note_progress : ℕ → ℕ → ProgressGate → ProgressGate
note_progress progress now g =
    let first : ProgressGate = elim g.last_advance [
      | none ↦ record g { last = some progress; last_advance = some now }
      | some _ ↦ g
    ] in
    let changed : Bool = elim first.last [ none ↦ true | some p ↦ not (p == progress) ] in
    if changed
    then record first { last = some progress; last_advance = some now; is_seen = true }
    else first

-- Whether to ping, and the gate.
unfoldable pub update_gate : Option ℕ → ℕ → ProgressGate → Bool × ProgressGate
unfolding note_progress
update_gate progress now g =
    let begun = record g { start = some (get_or now g.start) } in
    elim progress [
      | none ↦ (true, begun)
      | some p ↦
          let h = note_progress p now begun in
          let stalled =
            if h.is_seen
            then ltb h.stall (now - get_or now h.last_advance)
            else ltb h.startup_grace (now - get_or now h.start) in
          (not stalled, h)
    ]
