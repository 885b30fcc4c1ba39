-- ===== src/AnchorGuard/Isolation.antt =====
-- That the timing guards of wspr_recorder/__main__.py touch only the receiver that they judge.
use Prim.Native.String.{String}
use wspr_recorder.Common.{
  ℕ, ◌+◌, Bool, true, false, Option, none, some, [], ◌∷◌, ◌≡◌, refl, ap, ◌∙◌, arith, inl, inr,
  Option-cases, if_intro, ◌==◌,
}
use wspr_recorder.Common.Dict.{
  Dict, lookup, get_or, same, lookup-upsert, string_eq, nat_eq, pair_eq,
}
use wspr_recorder.Common.Totals.{same-cases}
use wspr_recorder.TimingGuard.{
  Floats, DtGuardConfig, WallClockGuardConfig, dt_guard_step, dt_guard_evidence,
  wallclock_guard_step, wallclock_guard_evidence,
}
use wspr_recorder.AnchorGuard.{
  Ladders, Recorders, Guards, SlotRequest, put, judge_anchor, reanchor_all, reanchor_rx, recover,
  dt_guard_observe, on_cycle_dt, is_judged, wallclock_ladder_observe, wallclock_guard_check,
}

-- What the guards keep of a receiver and of one of its recorders is the same in two states.
pub record Spares {L A : Type 0} (rx : String) (ssrc : ℕ) (g h : Guards L A) : Type 0 where
  pub same_dt : lookup rx h.dt_strikes ≡ lookup rx g.dt_strikes
  pub same_wallclock : lookup rx h.wallclock_strikes ≡ lookup rx g.wallclock_strikes
  pub same_slot : lookup rx h.wallclock_ladder_slot ≡ lookup rx g.wallclock_ladder_slot
  pub same_ladder : lookup rx h.anchor_ladders ≡ lookup rx g.anchor_ladders
  pub same_recorder : lookup (rx, ssrc) h.band_recorders ≡ lookup (rx, ssrc) g.band_recorders

put-other {ℓ} :
    {V : Type ℓ} (other rx : String) (v : V) (d : Dict String V)
    → same other rx ≡ false
    → lookup other (put rx v d) ≡ lookup other d
put-other other rx v d h = rw (lookup-upsert other rx v (λ _. v) d) (rw h refl)

module _ {L A I : Type 0} (ladders : Ladders L) (recorders : Recorders A I) (other : String)
    (ssrc : ℕ) where
  Spares-trans :
      (g h i : Guards L A) → Spares other ssrc g h → Spares other ssrc h i → Spares other ssrc g i
  Spares-trans g h i p q = record {
    same_dt = q.same_dt ∙ p.same_dt;
    same_wallclock = q.same_wallclock ∙ p.same_wallclock;
    same_slot = q.same_slot ∙ p.same_slot;
    same_ladder = q.same_ladder ∙ p.same_ladder;
    same_recorder = q.same_recorder ∙ p.same_recorder;
  }

  Spares-refl : (g : Guards L A) → Spares other ssrc g g
  Spares-refl g = record {
    same_dt = refl;
    same_wallclock = refl;
    same_slot = refl;
    same_ladder = refl;
    same_recorder = refl;
  }

  judge_anchor-Spares :
      (rx : String) (healthy : Bool) (g : Guards L A)
      → same other rx ≡ false
      → Spares other ssrc g (judge_anchor ladders recorders rx healthy g).1
  unfolding judge_anchor
  judge_anchor-Spares rx healthy g n = record {
    same_dt = refl;
    same_wallclock = refl;
    same_slot = refl;
    same_ladder = put-other other rx _ g.anchor_ladders n;
    same_recorder = refl;
  }

  apart : (k : String × ℕ) (rx : String) → other ≡ k.0 → same other rx ≡ false → same rx k.0 ≡ false
  apart k rx p n = elim (same-cases rx k.0) [ inl (q, t) ↦ absurd (ground arith) | inr f ↦ f ]

  reanchor_all-other :
      (rx : String) (states : ℕ → Option I) (d : Dict (String × ℕ) A)
      → same other rx ≡ false
      → lookup (other, ssrc) (reanchor_all ladders recorders rx states d) ≡ lookup (other, ssrc) d
  unfolding reanchor_all lookup
  reanchor_all-other rx states [] n = refl
  reanchor_all-other rx states ((k, a) ∷ d) n = elim (same-cases (other, ssrc) k) [
    | inl (p, t) ↦ rw t (rw (apart k rx (ap (λ i. i.0) p) n) refl)
    | inr t ↦ rw t (reanchor_all-other rx states d n)
  ]

  recover-Spares :
      (restart : Bool) (rx : String) (states : ℕ → Option I) (g : Guards L A)
      → same other rx ≡ false
      → Spares other ssrc g (recover ladders recorders restart rx states g)
  unfolding recover reanchor_rx
  recover-Spares true rx states g n = record {
    same_dt = refl;
    same_wallclock = refl;
    same_slot = refl;
    same_ladder = refl;
    same_recorder = refl;
  }
  recover-Spares false rx states g n = record {
    same_dt = refl;
    same_wallclock = refl;
    same_slot = refl;
    same_ladder = refl;
    same_recorder = reanchor_all-other rx states g.band_recorders n;
  }

  module _ (F : Floats) where
    open F use {Float}

    dt_guard_observe-Spares :
        (rx : String) (avg_dt : Option Float) (n_spots : ℕ) (cfg : DtGuardConfig F) (fired : Bool)
        (g : Guards L A)
        → same other rx ≡ false
        → Spares other ssrc g (dt_guard_observe ladders recorders F rx avg_dt n_spots cfg fired g).1
    unfolding dt_guard_observe
    dt_guard_observe-Spares rx avg_dt n_spots cfg fired g n =
        elim (Option-cases (dt_guard_evidence F avg_dt n_spots cfg fired)) [
          | inl e ↦ rw (dt_guard_observe, e) (Spares-refl g)
          | inr (healthy, e) ↦ rw (dt_guard_observe, e) (judge_anchor-Spares rx healthy g n)
        ]

    wallclock_ladder_observe-Spares :
        (rx : String) (slot : ℕ) (early : Option Float) (pct : Float) (cfg : WallClockGuardConfig F)
        (fired : Bool) (g : Guards L A)
        → same other rx ≡ false
        → Spares other ssrc g
            (wallclock_ladder_observe ladders recorders F rx slot early pct cfg fired g).1
    unfolding wallclock_ladder_observe
    wallclock_ladder_observe-Spares rx slot early pct cfg fired g n =
        elim (Option-cases (wallclock_guard_evidence F early pct cfg fired)) [
          | inl e ↦ rw (wallclock_ladder_observe, e) (Spares-refl g)
          | inr (healthy, e) ↦
              rw (wallclock_ladder_observe, e)
                (if_intro (λ (o : Bool × Guards L A). Spares other ssrc g o.1)
                  (is_judged ladders recorders F rx slot g) (λ _. Spares-refl g)
                  (λ _.
                    Spares-trans g _ _
                      (record {
                        same_dt = refl;
                        same_wallclock = refl;
                        same_slot = put-other other rx slot g.wallclock_ladder_slot n;
                        same_ladder = refl;
                        same_recorder = refl;
                      })
                      (judge_anchor-Spares rx healthy _ n)))
        ]

    -- A cycle's verdict on one receiver leaves another receiver's strikes, judged slot, ladder and
    -- recorders as they are, whether the guard fires or not.
    pub on_cycle_dt-Spares :
        (cfg : Option (DtGuardConfig F)) (states : ℕ → Option I) (rx : String)
        (avg_dt : Option Float) (n_spots : ℕ) (g : Guards L A)
        → same other rx ≡ false
        → Spares other ssrc g (on_cycle_dt ladders recorders F cfg states rx avg_dt n_spots g)
    unfolding on_cycle_dt
    on_cycle_dt-Spares none states rx avg_dt n_spots g n = Spares-refl g
    on_cycle_dt-Spares (some cfg) states rx avg_dt n_spots g n =
        let s = dt_guard_step F (get_or 0 (lookup rx g.dt_strikes)) avg_dt n_spots cfg in
        let h = record g { dt_strikes = put rx s.0 g.dt_strikes } in
        let o = dt_guard_observe ladders recorders F rx avg_dt n_spots cfg s.1 h in
        let p =
          Spares-trans g h o.1
            (record {
              same_dt = put-other other rx s.0 g.dt_strikes n;
              same_wallclock = refl;
              same_slot = refl;
              same_ladder = refl;
              same_recorder = refl;
            })
            (dt_guard_observe-Spares rx avg_dt n_spots cfg s.1 h n) in
        if_intro (Spares other ssrc g) s.1
          (λ _. Spares-trans g o.1 _ p (recover-Spares o.0 rx states o.1 n)) (λ _. p)

    -- So does the check of a slot.
    pub wallclock_guard_check-Spares :
        (cfg : Option (WallClockGuardConfig F)) (percent : ℕ → ℕ → Float) (early_by : ℕ → Float)
        (states : ℕ → Option I) (r : SlotRequest) (g : Guards L A)
        → same other r.rx_source ≡ false
        → Spares other ssrc g
            (wallclock_guard_check ladders recorders F cfg percent early_by states r g)
    unfolding wallclock_guard_check
    wallclock_guard_check-Spares none percent early_by states r g n = Spares-refl g
    wallclock_guard_check-Spares (some cfg) percent early_by states r g n =
        elim (Option-cases r.start_wallclock) [
          | inl e ↦ rw e (Spares-refl g)
          | inr (start, e) ↦
              let rx = r.rx_source in
              let pct = percent r.samples r.gap_samples in
              let early : Option Float = some (early_by (start + r.period_seconds)) in
              let s =
                wallclock_guard_step F (get_or 0 (lookup rx g.wallclock_strikes)) early pct cfg in
              let h = record g { wallclock_strikes = put rx s.0 g.wallclock_strikes } in
              let o = wallclock_ladder_observe ladders recorders F rx start early pct cfg s.1 h in
              let p =
                Spares-trans g h o.1
                  (record {
                    same_dt = refl;
                    same_wallclock = put-other other rx s.0 g.wallclock_strikes n;
                    same_slot = refl;
                    same_ladder = refl;
                    same_recorder = refl;
                  })
                  (wallclock_ladder_observe-Spares rx start early pct cfg s.1 h n) in
              rw e (
                if_intro (Spares other ssrc g) (r.samples == 0) (λ _. Spares-refl g)
                  (λ _.
                    if_intro (Spares other ssrc g) s.1
                      (λ _. Spares-trans g o.1 _ p (recover-Spares o.0 rx states o.1 n)) (λ _. p)))
        ]
