-- ===== src/ReceiverManager/Gate.antt =====
-- The settled-capture gate of wspr_recorder/receiver_manager.py: what it waits for, and that it
-- ends.
use wspr_recorder.Common.{
  ℕ, zero, suc, ◌+◌, ◌*◌, ◌-◌, ◌≤◌, ◌<◌, Bool, true, false, ◌≡◌, ◌≢◌, refl, sym, ap, ◌∙◌, ◌↔◌, ltb,
  leb, arith, inl, inr, Bool-cases, ==_iff, ◌==◌, ltb→lt, Option, ltb-false→le, leb→le,
  leb-false→lt, subst,
}
use wspr_recorder.Common.Int.{ℤ}
use wspr_recorder.Common.Texts.{Chars}
use wspr_recorder.ReceiverManager.Settle.{
  Reading, is_small, Outcome, settled, timed_out, unfinished, settle_loop, result_of,
  wait_for_chrony_settled,
}

-- Three small readings in a row, from number `j` on, of which the last is taken in time.
pub record ThreeSmall (small : ℕ → Bool) (clock : ℕ → ℕ) (deadline j : ℕ) : Type 0 where
  pub first : small j ≡ true
  pub second : small (suc j) ≡ true
  pub third : small (suc (suc j)) ≡ true
  pub in_time : clock (suc (suc j)) < deadline

module _ (small : ℕ → Bool) (clock : ℕ → ℕ) (deadline : ℕ)
    (sleeps : (i : ℕ) → clock i + 5000 ≤ clock (suc i)) where
  loop : (fuel i consecutive : ℕ) → Outcome
  loop fuel i consecutive = settle_loop small clock deadline fuel i consecutive

  clock_mono : (i n j : ℕ) → i + n ≡ j → clock i ≤ clock j
  clock_mono i zero j p = subst (λ k. clock i ≤ clock k) {x = i} (omega arith) (omega arith)
  clock_mono i (suc n) j p =
      subst (λ k. clock i ≤ clock k) {x = suc (i + n)} (omega arith)
        (omega (arith, sleeps (i + n), clock_mono i n (i + n) refl))

  -- What a turn of the loop comes to.
  data Turn (fuel i c : ℕ) : Type 0 where
    late : deadline ≤ clock i → loop (suc fuel) i c ≡ timed_out → Turn fuel i c
    third_small :
        clock i < deadline → small i ≡ true → 2 ≤ c → loop (suc fuel) i c ≡ settled → Turn fuel i c
    one_more :
        clock i < deadline
        → small i ≡ true
        → c < 2
        → loop (suc fuel) i c ≡ loop fuel (suc i) (suc c)
        → Turn fuel i c
    afresh :
        clock i < deadline
        → small i ≡ false
        → loop (suc fuel) i c ≡ loop fuel (suc i) 0
        → Turn fuel i c

  turn : (fuel i c : ℕ) → Turn fuel i c
  unfolding loop settle_loop
  turn fuel i c = elim (Bool-cases (ltb (clock i) deadline)) [
    | inr l ↦ late (ltb-false→le (clock i) deadline l) (rw l refl)
    | inl e ↦ elim (Bool-cases (small i)) [
      | inr f ↦ afresh (ltb→lt (clock i) deadline e) f (rw e (rw f refl))
      | inl t ↦ elim (Bool-cases (leb 3 (suc c))) [
        | inl m ↦
            third_small (ltb→lt (clock i) deadline e) t (omega (arith, leb→le 3 (suc c) m))
              (rw e (rw t (rw m refl)))
        | inr m ↦
            one_more (ltb→lt (clock i) deadline e) t (omega (arith, leb-false→lt 3 (suc c) m))
              (rw e (rw t (rw m refl)))
      ]
    ]
  ]

  -- A loop with one more turn than 5 s fit before the deadline does not use up its fuel.
  loop_ends : (n i c : ℕ) → deadline ≤ clock i + 5000 * n → loop (suc n) i c ≢ unfinished
  loop_ends zero i c h = elim (turn zero i c) [
    | late _ p ↦ λ u. ended (sym p ∙ u)
    | third_small e _ _ _ ↦ absurd (omega arith)
    | one_more e _ _ _ ↦ absurd (omega arith)
    | afresh e _ _ ↦ absurd (omega arith)
  ]
    where
      ended : timed_out ≡ unfinished → ⊥
      ended p = ground arith
  loop_ends (suc n) i c h = elim (turn (suc n) i c) [
    | late _ p ↦ λ u. ended (sym p ∙ u)
    | third_small _ _ _ p ↦ λ u. done (sym p ∙ u)
    | one_more _ _ _ p ↦ λ u. loop_ends n (suc i) (suc c) (omega (arith, sleeps i)) (sym p ∙ u)
    | afresh _ _ p ↦ λ u. loop_ends n (suc i) 0 (omega (arith, sleeps i)) (sym p ∙ u)
  ]
    where
      ended : timed_out ≡ unfinished → ⊥
      ended p = ground arith

      done : settled ≡ unfinished → ⊥
      done p = ground arith

  -- The `c` readings before number `i` are small.
  Behind : (i c : ℕ) → Type 0
  Behind i c = (k : ℕ) → k < i → i ≤ k + c → small k ≡ true

  none-Behind : (i : ℕ) → Behind i 0
  unfolding Behind
  none-Behind i k l m = absurd (omega arith)

  loop-zero : (i c : ℕ) → loop zero i c ≡ unfinished
  unfolding loop settle_loop
  loop-zero i c = refl

  three_at :
      (i c : ℕ)
      → 2 ≤ c
      → c ≤ i
      → Behind i c
      → small i ≡ true
      → clock i < deadline
      → (j : ℕ) × ThreeSmall small clock deadline j
  unfolding Behind
  three_at zero c h l b s e = absurd (omega arith)
  three_at (suc zero) c h l b s e = absurd (omega arith)
  three_at (suc (suc j)) c h l b s e = (
    j,
    record {
      first = b j (omega arith) (omega arith);
      second = b (suc j) (omega arith) (omega arith);
      third = s;
      in_time = e;
    },
  )

  -- The readings before the next, where this one is small.
  Behind-suc : (i c : ℕ) → Behind i c → small i ≡ true → Behind (suc i) (suc c)
  unfolding Behind
  Behind-suc i c b s k l m = elim (Bool-cases (k == i)) [
    | inl e ↦ ap small ((==_iff k i).0 e) ∙ s
    | inr e ↦ b k (ground arith) (omega arith)
  ]

  loop_sound :
      (fuel i c : ℕ)
      → c ≤ i
      → Behind i c
      → loop fuel i c ≡ settled
      → (j : ℕ) × ThreeSmall small clock deadline j
  loop_sound zero i c k b h = absurd (spent (sym (loop-zero i c) ∙ h))
    where
      spent : unfinished ≡ settled → ⊥
      spent p = ground arith
  loop_sound (suc fuel) i c k b h = elim (turn fuel i c) [
    | late _ p ↦ absurd (ended (sym p ∙ h))
    | third_small e s m _ ↦ three_at i c m k b s e
    | one_more _ s _ p ↦
        loop_sound fuel (suc i) (suc c) (omega arith) (Behind-suc i c b s) (sym p ∙ h)
    | afresh _ _ p ↦ loop_sound fuel (suc i) 0 (omega arith) (none-Behind (suc i)) (sym p ∙ h)
  ]
    where
      ended : timed_out ≡ settled → ⊥
      ended p = ground arith

  -- Where a reading that is not small reading has number `i`, three from `j` on do not stand before it.
  past : (i j : ℕ) → small i ≡ false → i ≤ j + 2 → ThreeSmall small clock deadline j → i < j
  past i j f l t = elim (Bool-cases (i == j)) [
    | inl e ↦ absurd (clash j ((==_iff i j).0 e) t.first)
    | inr e ↦ elim (Bool-cases (i == suc j)) [
      | inl e' ↦ absurd (clash (suc j) ((==_iff i (suc j)).0 e') t.second)
      | inr e' ↦ elim (Bool-cases (i == suc (suc j))) [
        | inl e'' ↦ absurd (clash (suc (suc j)) ((==_iff i (suc (suc j))).0 e'') t.third)
        | inr e'' ↦ ground arith
      ]
    ]
  ]
    where
      clash : (k : ℕ) → i ≡ k → small k ≡ true → ⊥
      clash k p s = ground (arith, ap small p)

  loop_complete :
      (fuel i c j : ℕ)
      → c ≤ 2
      → i ≤ j + c
      → ThreeSmall small clock deadline j
      → loop fuel i c ≢ unfinished
      → loop fuel i c ≡ settled
  loop_complete zero i c j k l t h = absurd (h (loop-zero i c))
  loop_complete (suc fuel) i c j k l t h = elim (turn fuel i c) [
    | late e _ ↦ absurd (too_late e)
    | third_small _ _ _ p ↦ p
    | one_more _ _ m p ↦
        p ∙ loop_complete fuel (suc i) (suc c) j (omega arith) (omega arith) t (λ u. h (p ∙ u))
    | afresh _ f p ↦
        let before = past i j f (omega arith) t in
        p ∙ loop_complete fuel (suc i) 0 j (omega arith) (omega arith) t (λ u. h (p ∙ u))
  ]
    where
      too_late : deadline ≤ clock i → ⊥
      too_late e =
          omega (arith, t.in_time, clock_mono i (suc (suc j) - i) (suc (suc j)) (omega arith))

  -- From the start, the loop is settled exactly where there are three such readings.
  pub settle_loop_iff :
      (n : ℕ)
      → deadline ≤ clock 0 + 5000 * n
      → (settle_loop small clock deadline (suc n) 0 0 ≢ unfinished)
        × ((settle_loop small clock deadline (suc n) 0 0 ≡ settled)
            ↔ ((j : ℕ) × ThreeSmall small clock deadline j))
  unfolding loop
  settle_loop_iff n h =
      let ends = loop_ends n 0 0 h in
      (
        ends,
        (
          loop_sound (suc n) 0 0 (omega arith) (none-Behind 0),
          (λ (j, t). loop_complete (suc n) 0 0 j (omega arith) (omega arith) t ends),
        ),
      )

-- Where chronyc runs, the clock moves on by the 5 s that each turn sleeps, and the gate is not yet
-- satisfied, the wait ends with the gate satisfied, and it returns true exactly where three readings
-- in a row were small, the last of them taken in the minute.
pub wait_for_chrony_settled-Settles :
    (readings : ℕ → Reading) (to_float : Chars → Option ℤ) (clock : ℕ → ℕ) (start : ℕ)
    → start ≤ clock 0
    → ((i : ℕ) → clock i + 5000 ≤ clock (suc i))
    → ((wait_for_chrony_settled true readings to_float clock start false).1 ≡ true)
      × (((wait_for_chrony_settled true readings to_float clock start false).0 ≡ true)
          ↔ ((j : ℕ) × ThreeSmall (λ i. is_small to_float (readings i)) clock (start + 60000) j))
unfolding wait_for_chrony_settled
wait_for_chrony_settled-Settles readings to_float clock start from_start sleeps =
    let small = λ (i : ℕ). is_small to_float (readings i) in
    let loop_result = settle_loop_iff small clock (start + 60000) sleeps 12 (omega arith) in
    result (settle_loop small clock (start + 60000) 13 0 0) loop_result.0 loop_result.1
  where
    not_settled : timed_out ≡ settled → ⊥
    not_settled p = ground arith

    result :
        {X : Type 0} (o : Outcome)
        → o ≢ unfinished
        → (o ≡ settled) ↔ X
        → ((result_of o).1 ≡ true) × (((result_of o).0 ≡ true) ↔ X)
    result settled h (f, g) = (refl, ((λ _. f refl), (λ _. refl)))
    result timed_out h (f, g) =
        (refl, ((λ e. absurd (ground arith)), (λ x. absurd (not_settled (g x)))))
    result unfinished h e = absurd (h refl)
