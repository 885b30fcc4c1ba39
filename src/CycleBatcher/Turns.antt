-- ===== src/CycleBatcher/Turns.antt =====
-- The turns of the writer of `CycleBatcher` of wspr_recorder/spot_sink.py: what a turn takes and how
-- long the writer sleeps.
use mathlib.Core.List.{Memᴰ}
use wspr_recorder.Common.{
  ℕ, ◌+◌, ◌≤◌, max, Bool, true, false, Option, none, some, List, [], ◌∷◌, ◌≡◌, refl, sym, subst, ap,
  ◌∙◌, All, All-map_weaken, arith, inl, inr, ◌⊎◌, ◌||◌, if_intro, leb, not,
}
use wspr_recorder.Common.Dict.{Dict, lookup, string_eq, pair_eq}
use wspr_recorder.Common.Totals.{same-cases}
use wspr_recorder.CycleBatcher.{Key, Batch}
use wspr_recorder.CycleBatcher.Writer.{
  Task, flush, collect, collect_one, is_complete, Collected, sooner, soonest, timeout_of,
}

-- The time of the next wake is no later than `t`.
abbrev pub WaitsBy : ℕ → Option ℕ → Type 0
WaitsBy t w = (u : ℕ) × (w ≡ some u) × (u ≤ t)

pub sooner-WaitsBy : (t : ℕ) (w : Option ℕ) → WaitsBy t (sooner t w)
sooner-WaitsBy t none = (t, refl, omega arith)
sooner-WaitsBy t (some u) = (_, refl, omega arith)

pub sooner-WaitsBy_other : (t u : ℕ) (w : Option ℕ) → WaitsBy t w → WaitsBy t (sooner u w)
sooner-WaitsBy_other t u none h = absurd (ground arith)
sooner-WaitsBy_other t u (some x) h = (_, refl, ground arith)

pub soonest-WaitsBy : (t : ℕ) (v w : Option ℕ) → WaitsBy t v ⊎ WaitsBy t w → WaitsBy t (soonest v w)
soonest-WaitsBy t none w h = ground arith
soonest-WaitsBy t (some u) none h = ground arith
soonest-WaitsBy t (some u) (some x) h = (_, refl, ground arith)

-- A sleep that is no longer than the time to `t`, or 50 ms.
pub timeout-InTime :
    (now t : ℕ) (w : Option ℕ) → WaitsBy t w → now + timeout_of now w ≤ max t (now + 50)
timeout-InTime now t none h = absurd (ground arith)
timeout-InTime now t (some u) h = ground arith

module _ {S N : Type 0} where
  -- A turn takes a batch that is complete or whose deadline has come.
  abbrev pub is_ready : ℕ → Batch S N → Bool
  is_ready now b = is_complete b || leb b.deadline now

  -- A ready batch is among the tasks, as complete or as late.
  abbrev pub Taken : Batch S N → List (Task S N) → Type 0
  Taken b ts = (late : Bool) × Memᴰ (flush b late) ts × (late ≡ not (is_complete b))

  collect_one-takes :
      (now : ℕ) (k : Key) (b : Batch S N) (c : Collected S N)
      → is_ready now b ≡ true
      → Taken b (collect_one now k b c).ready
  collect_one-takes now k b c r =
      if_intro TakenIn (is_complete b) (λ t. (false, Memᴰ.head refl, rw t refl))
        (λ f.
          if_intro TakenIn (leb b.deadline now) (λ l. (true, Memᴰ.head refl, rw f refl))
            (λ l. absurd (ground arith)))
    where
      TakenIn : Collected S N → Type 0
      TakenIn x = Taken b x.ready

  collect_one-Taken :
      (now : ℕ) (k : Key) (a b : Batch S N) (c : Collected S N)
      → Taken b c.ready
      → Taken b (collect_one now k a c).ready
  collect_one-Taken now k a b c (late, m, e) =
      if_intro TakenIn (is_complete a) (λ t. (late, Memᴰ.tail m, e))
        (λ f.
          if_intro TakenIn (leb a.deadline now) (λ l. (late, Memᴰ.tail m, e)) (λ l. (late, m, e)))
    where
      TakenIn : Collected S N → Type 0
      TakenIn x = Taken b x.ready

  pub collect-takes :
      (now : ℕ) (k : Key) (b : Batch S N) (d : Dict Key (Batch S N))
      → lookup k d ≡ some b
      → is_ready now b ≡ true
      → Taken b (collect now d).ready
  unfolding collect lookup
  collect-takes now k b [] h r = absurd (ground arith)
  collect-takes now k b ((j, c) ∷ d) h r = elim (same-cases k j) [
    | inl (_, t) ↦
        let p : b ≡ c = ground arith in
        subst (λ x. Taken x (collect_one now j c (collect now d)).ready) (sym p)
          (collect_one-takes now j c (collect now d) (sym (ap (is_ready now) p) ∙ r))
    | inr f ↦ collect_one-Taken now j c b (collect now d) (collect-takes now k b d (ground arith) r)
  ]

  pub collect-keeps :
      (now : ℕ) (k : Key) (b : Batch S N) (d : Dict Key (Batch S N))
      → lookup k d ≡ some b
      → is_ready now b ≡ false
      → lookup k (collect now d).kept ≡ some b
  unfolding collect lookup
  collect-keeps now k b [] h r = absurd (ground arith)
  collect-keeps now k b ((j, c) ∷ d) h r = elim (same-cases k j) [
    | inl (_, t) ↦
        let p : b ≡ c = ground arith in
        let q : is_ready now c ≡ false = sym (ap (is_ready now) p) ∙ r in ground arith
    | inr f ↦ ground (arith, collect-keeps now k b d)
  ]

  pub collect-WaitsBy :
      (now : ℕ) (d : Dict Key (Batch S N))
      → All (λ (k, b). WaitsBy b.deadline (collect now d).wait_until) (collect now d).kept
  unfolding collect
  collect-WaitsBy now [] = tt
  collect-WaitsBy now ((k, b) ∷ d) =
      let rest = collect-WaitsBy now d in
      if_intro Waits (is_complete b) (λ _. rest)
        (λ _.
          if_intro Waits (leb b.deadline now) (λ _. rest)
            (λ _. (
              sooner-WaitsBy b.deadline (collect now d).wait_until,
              All-map_weaken (λ (j, c). WaitsBy c.deadline (collect now d).wait_until)
                  (λ (j, c). WaitsBy c.deadline (sooner b.deadline (collect now d).wait_until))
                  (λ (j, c) h. sooner-WaitsBy_other c.deadline b.deadline _ h) (collect now d).kept
                  rest,
            )))
    where
      Waits : Collected S N → Type 0
      Waits x = All (λ (j, c). WaitsBy c.deadline x.wait_until) x.kept
