-- ===== src/AnchorGuard/Judgements.antt =====
-- How often the wall-clock guard of wspr_recorder/__main__.py moves a receiver's recovery ladder.
use Prim.Native.String.{String}
use wspr_recorder.Common.{
  ℕ, ◌+◌, Bool, true, false, Option, none, some, List, [], ◌∷◌, ◌≡◌, refl, ap, ◌∙◌, ◌⊎◌, inl, inr,
  Option-cases, if_intro, ◌==◌, ==_self, arith,
}
use wspr_recorder.Common.Dict.{Dict, lookup, get_or, lookup-upsert, string_eq}
use wspr_recorder.Common.Totals.{same_self}
use wspr_recorder.TimingGuard.{
  Floats, WallClockGuardConfig, wallclock_guard_step, wallclock_guard_evidence,
}
use wspr_recorder.AnchorGuard.{
  Ladders, Recorders, Guards, SlotRequest, put, judge_anchor, reanchor_rx, recover, is_judged,
  wallclock_ladder_observe, wallclock_guard_check,
}

put_self {ℓ} :
    {V : Type ℓ} (rx : String) (v : V) (d : Dict String V) → lookup rx (put rx v d) ≡ some v
put_self rx v d = rw (lookup-upsert rx rx v (λ _. v) d) (rw (same_self rx) refl)

module _ {L A I : Type 0} (ladders : Ladders L) (recorders : Recorders A I) (F : Floats)
    (rx : String) (slot : ℕ) where
  open F use {Float}

  abbrev judged : Guards L A → Bool
  judged g = is_judged ladders recorders F rx slot g

  -- The ladder of the receiver is where it was, or one judgement further.
  abbrev pub MovesOnce : Guards L A → Guards L A → Type 0
  MovesOnce g h =
      (lookup rx h.anchor_ladders ≡ lookup rx g.anchor_ladders)
      ⊎ ((healthy : Bool) × (lookup rx h.anchor_ladders
            ≡ some
                (ladders.observe healthy
                  (get_or ladders.new_ladder (lookup rx g.anchor_ladders))).1))

  -- One check: a slot that is judged stays judged and moves no ladder; another is judged if the
  -- ladder moves.
  from_same :
      (g h i : Guards L A)
      → lookup rx h.anchor_ladders ≡ lookup rx g.anchor_ladders
      → MovesOnce h i
      → MovesOnce g i
  from_same g h i p (inl q) = inl (q ∙ p)
  from_same g h i p (inr (healthy, q)) =
      inr (healthy, q ∙ ap (λ o. some (ladders.observe healthy (get_or ladders.new_ladder o)).1) p)

  record Moves (g h : Guards L A) : Type 0 where
    still :
        judged g ≡ true
        → (judged h ≡ true) × (lookup rx h.anchor_ladders ≡ lookup rx g.anchor_ladders)
    once :
        (lookup rx h.anchor_ladders ≡ lookup rx g.anchor_ladders)
        ⊎ ((judged h ≡ true) × MovesOnce g h)

  Moves-refl : (g : Guards L A) → Moves g g
  Moves-refl g = record { still = λ j. (j, refl); once = inl refl }

  judge_anchor-Moves :
      (healthy : Bool) (g : Guards L A)
      → judged g ≡ false
      → Moves g
          (judge_anchor ladders recorders rx healthy
            (record g { wallclock_ladder_slot = put rx slot g.wallclock_ladder_slot })).1
  unfolding judge_anchor
  judge_anchor-Moves healthy g n = record {
    still = λ j. absurd (ground arith);
    once = inr (
      ap (λ (o : Option ℕ). elim o as (λ _. Bool) [ none ↦ false | some last ↦ last == slot ])
            (put_self rx slot g.wallclock_ladder_slot)
          ∙ ==_self slot,
      inr (healthy, put_self rx _ g.anchor_ladders),
    );
  }

  wallclock_ladder_observe-Moves :
      (early : Option Float) (pct : Float) (cfg : WallClockGuardConfig F) (fired : Bool)
      (g : Guards L A)
      → Moves g (wallclock_ladder_observe ladders recorders F rx slot early pct cfg fired g).1
  unfolding wallclock_ladder_observe
  wallclock_ladder_observe-Moves early pct cfg fired g =
      elim (Option-cases (wallclock_guard_evidence F early pct cfg fired)) [
        | inl e ↦ rw (wallclock_ladder_observe, e) (Moves-refl g)
        | inr (healthy, e) ↦
            rw (wallclock_ladder_observe, e)
              (if_intro (λ (o : Bool × Guards L A). Moves g o.1) (judged g) (λ _. Moves-refl g)
                (λ n. judge_anchor-Moves healthy g n))
      ]

  recover-Moves :
      (restart : Bool) (states : ℕ → Option I) (g h : Guards L A)
      → Moves g h
      → Moves g (recover ladders recorders restart rx states h)
  unfolding recover reanchor_rx
  recover-Moves true states g h m = record { still = m.still; once = m.once }
  recover-Moves false states g h m = record { still = m.still; once = m.once }

  module _ (cfg : WallClockGuardConfig F) (percent : ℕ → ℕ → Float) (states : ℕ → Option I) where
    -- A band's request for the slot.
    abbrev pub request : ℕ → ℕ → ℕ → SlotRequest
    request samples gap_samples period = record {
      rx_source = rx;
      start_wallclock = some slot;
      samples = samples;
      gap_samples = gap_samples;
      period_seconds = period;
    }

    -- Checks of the slot one after another, each with its clock, samples, gap and period.
    unfoldable pub run_checks : List ((ℕ → Float) × ℕ × ℕ × ℕ) → Guards L A → Guards L A
    unfolding wallclock_guard_check
    run_checks [] g = g
    run_checks ((early_by, samples, gap, period) ∷ cs) g = run_checks cs (
        wallclock_guard_check ladders recorders F (some cfg) percent early_by states
          (request samples gap period) g)

    check-Moves :
        (early_by : ℕ → Float) (samples gap period : ℕ) (g : Guards L A)
        → Moves g (
            wallclock_guard_check ladders recorders F
              (some cfg)
              percent
              early_by
              states
              (request samples gap period)
              g)
    unfolding wallclock_guard_check
    check-Moves early_by samples gap period g =
        let pct = percent samples gap in
        let early : Option Float = some (early_by (slot + period)) in
        let s = wallclock_guard_step F (get_or 0 (lookup rx g.wallclock_strikes)) early pct cfg in
        let h = record g { wallclock_strikes = put rx s.0 g.wallclock_strikes } in
        let o = wallclock_ladder_observe ladders recorders F rx slot early pct cfg s.1 h in
        let observed = wallclock_ladder_observe-Moves early pct cfg s.1 h in
        let m : Moves g o.1 = record { still = observed.still; once = observed.once } in
        if_intro (Moves g) (samples == 0) (λ _. Moves-refl g)
          (λ _. if_intro (Moves g) s.1 (λ _. recover-Moves o.0 states g o.1 m) (λ _. m))

    run_checks-Still :
        (cs : List ((ℕ → Float) × ℕ × ℕ × ℕ)) (g : Guards L A)
        → judged g ≡ true
        → lookup rx (run_checks cs g).anchor_ladders ≡ lookup rx g.anchor_ladders
    unfolding run_checks
    run_checks-Still [] g j = refl
    run_checks-Still ((early_by, samples, gap, period) ∷ cs) g j =
        let k = (check-Moves early_by samples gap period g).still j in
        run_checks-Still cs _ k.0 ∙ k.1

    -- However many bands check one slot of a receiver one after another, whatever their clocks,
    -- samples, gaps and periods, the receiver's ladder moves by one judgement at most.
    pub run_checks-MovesOnce :
        (cs : List ((ℕ → Float) × ℕ × ℕ × ℕ)) (g : Guards L A) → MovesOnce g (run_checks cs g)
    unfolding run_checks
    run_checks-MovesOnce [] g = inl refl
    run_checks-MovesOnce ((early_by, samples, gap, period) ∷ cs) g =
        let h =
          wallclock_guard_check ladders recorders F (some cfg) percent early_by states
            (request samples gap period) g in
        elim (check-Moves early_by samples gap period g).once [
          | inl p ↦ from_same g h (run_checks cs h) p (run_checks-MovesOnce cs h)
          | inr (j, m) ↦ elim m [
            | inl p ↦ inl (run_checks-Still cs h j ∙ p)
            | inr (healthy, p) ↦ inr (healthy, run_checks-Still cs h j ∙ p)
          ]
        ]
