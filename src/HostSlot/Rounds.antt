-- ===== src/HostSlot/Rounds.antt =====
-- The rounds of wspr_recorder/host_slot.py: which slot is got, and that the wait ends.
use wspr_recorder.Common.{
  ℕ, zero, suc, ◌+◌, ◌*◌, ◌≤◌, ◌<◌, Bool, true, false, none, some, ◌≡◌, ◌≢◌, refl, sym, ap, ◌∙◌,
  subst, arith, ◌⊎◌, inl, inr, ◌==◌, ==_iff, Bool-cases, Option-cases, ltb, ltb→lt, ltb-false→le,
  ◌↔◌,
}
use wspr_recorder.HostSlot.{
  first_free, Acquired, got, timeout_error, unfinished, acquire, slot_for_period, host_wide_slot,
}
use wspr_recorder.DecodePool.{Entry, is_long}

-- No candidate of a round is free.
abbrev pub NoneFree : (ℕ → Bool) → ℕ → Type 0
NoneFree free n = (c : ℕ) → c < n → free c ≡ false

-- The slot is the least free candidate of a round.
pub record IsLeast (free : ℕ → Bool) (n slot : ℕ) : Type 0 where
  pub bounded : slot < n
  pub is_free : free slot ≡ true
  pub least : NoneFree free slot

module _ (free : ℕ → Bool) where
  -- No candidate from the one up to the other is free.
  Busy : (from upto : ℕ) → Type 0
  Busy from upto = (c : ℕ) → from ≤ c → c < upto → free c ≡ false

  Busy-self : (k : ℕ) → Busy k k
  unfolding Busy
  Busy-self k c l h = absurd (omega arith)

  Busy-extend : (from upto : ℕ) → free from ≡ false → Busy (suc from) upto → Busy from upto
  unfolding Busy
  Busy-extend from upto f b c l h = elim (Bool-cases (c == from)) [
    | inl e ↦ ap free ((==_iff c from).0 e) ∙ f
    | inr e ↦ b c (ground arith) h
  ]

  first_free-none :
      (left candidate : ℕ)
      → first_free free left candidate ≡ none
      → Busy candidate (candidate + left)
  unfolding first_free
  first_free-none zero candidate h = subst (Busy candidate) (omega arith) (Busy-self candidate)
  first_free-none (suc left) candidate h = elim (Bool-cases (free candidate)) [
    | inl t ↦ absurd (ground arith)
    | inr f ↦ Busy-extend candidate (candidate + suc left) f (
        subst (Busy (suc candidate)) (omega arith)
          (first_free-none left (suc candidate) (ground arith)))
  ]

  first_free-some :
      (left candidate slot : ℕ)
      → first_free free left candidate ≡ some slot
      → (slot < candidate + left) × (free slot ≡ true) × Busy candidate slot
  unfolding first_free
  first_free-some zero candidate slot h = absurd (ground arith)
  first_free-some (suc left) candidate slot h = elim (Bool-cases (free candidate)) [
    | inl t ↦
        let p : candidate ≡ slot = ground arith in
        subst (λ s. (s < candidate + suc left) × (free s ≡ true) × Busy candidate s) p
          (omega arith, t, Busy-self candidate)
    | inr f ↦
        let (l, t, b) = first_free-some left (suc candidate) slot (ground arith) in
        (omega arith, t, Busy-extend candidate slot f b)
  ]

-- What an outcome says of the rounds.
abbrev pub Explained :
    (free : ℕ → ℕ → Bool) (clock : ℕ → ℕ) (n_slots deadline : ℕ) → Acquired → Type 0
Explained free clock n_slots deadline (got slot) =
    (j : ℕ) × IsLeast (free j) n_slots slot × ((k : ℕ) → k < j → NoneFree (free k) n_slots)
Explained free clock n_slots deadline timeout_error =
    (j : ℕ) × (deadline < clock j) × ((k : ℕ) → k ≤ j → NoneFree (free k) n_slots)
Explained free clock n_slots deadline unfinished = Unit

module _ (free : ℕ → ℕ → Bool) (clock : ℕ → ℕ) (n_slots deadline : ℕ) where
  acquire-zero : (i : ℕ) → acquire free clock n_slots deadline zero i ≡ unfinished
  unfolding acquire
  acquire-zero i = refl

  acquire-got :
      (fuel i slot : ℕ)
      → first_free (free i) n_slots 0 ≡ some slot
      → acquire free clock n_slots deadline (suc fuel) i ≡ got slot
  unfolding acquire
  acquire-got fuel i slot e = rw (e, acquire) refl

  acquire-late :
      (fuel i : ℕ)
      → first_free (free i) n_slots 0 ≡ none
      → ltb deadline (clock i) ≡ true
      → acquire free clock n_slots deadline (suc fuel) i ≡ timeout_error
  unfolding acquire
  acquire-late fuel i e l = rw (e, acquire) (rw l refl)

  acquire-next :
      (fuel i : ℕ)
      → first_free (free i) n_slots 0 ≡ none
      → ltb deadline (clock i) ≡ false
      → acquire free clock n_slots deadline (suc fuel) i
        ≡ acquire free clock n_slots deadline fuel (suc i)
  unfolding acquire
  acquire-next fuel i e l = rw (e, acquire) (rw l refl)

  round_busy : (i : ℕ) → first_free (free i) n_slots 0 ≡ none → NoneFree (free i) n_slots
  unfolding Busy
  round_busy i e c h = first_free-none (free i) n_slots 0 e c (omega arith) (omega arith)

  round-IsLeast :
      (i slot : ℕ) → first_free (free i) n_slots 0 ≡ some slot → IsLeast (free i) n_slots slot
  unfolding Busy
  round-IsLeast i slot e =
      let (l, t, b) = first_free-some (free i) n_slots 0 slot e in
      record { bounded = omega arith; is_free = t; least = λ c h. b c (omega arith) h }

  -- The rounds before are busy, and this one too.
  and_this :
      (i : ℕ)
      → ((k : ℕ) → k < i → NoneFree (free k) n_slots)
      → NoneFree (free i) n_slots
      → (k : ℕ) → k < suc i
      → NoneFree (free k) n_slots
  and_this i before now k h = elim (Bool-cases (k == i)) [
    | inl e ↦ subst (λ r. NoneFree (free r) n_slots) (sym ((==_iff k i).0 e)) now
    | inr e ↦ before k (ground arith)
  ]

  acquire-Explained :
      (fuel i : ℕ)
      → ((k : ℕ) → k < i → NoneFree (free k) n_slots)
      → Explained free clock n_slots deadline (acquire free clock n_slots deadline fuel i)
  acquire-Explained zero i before =
      subst (Explained free clock n_slots deadline) (sym (acquire-zero i)) tt
  acquire-Explained (suc fuel) i before = elim (Option-cases (first_free (free i) n_slots 0)) [
    | inr (slot, e) ↦
        subst (Explained free clock n_slots deadline) (sym (acquire-got fuel i slot e))
          (i, round-IsLeast i slot e, before)
    | inl e ↦
        let rounds = and_this i before (round_busy i e) in
        elim (Bool-cases (ltb deadline (clock i))) [
          | inl l ↦
              subst (Explained free clock n_slots deadline) (sym (acquire-late fuel i e l))
                (i, ltb→lt deadline (clock i) l, (λ k h. rounds k (omega arith)))
          | inr l ↦
              subst (Explained free clock n_slots deadline) (sym (acquire-next fuel i e l))
                (acquire-Explained fuel (suc i) rounds)
        ]
  ]

  ended_or_next :
      (fuel i : ℕ)
      → (acquire free clock n_slots deadline (suc fuel) i ≢ unfinished)
        ⊎ ((clock i ≤ deadline)
            × (acquire free clock n_slots deadline (suc fuel) i
                ≡ acquire free clock n_slots deadline fuel (suc i)))
  ended_or_next fuel i = elim (Option-cases (first_free (free i) n_slots 0)) [
    | inr (slot, e) ↦ inl (λ u. not_got slot (sym (acquire-got fuel i slot e) ∙ u))
    | inl e ↦ elim (Bool-cases (ltb deadline (clock i))) [
      | inl l ↦ inl (λ u. not_late (sym (acquire-late fuel i e l) ∙ u))
      | inr l ↦ inr (ltb-false→le deadline (clock i) l, acquire-next fuel i e l)
    ]
  ]
    where
      not_got : (slot : ℕ) → got slot ≡ unfinished → ⊥
      not_got slot p = ground arith

      not_late : timeout_error ≡ unfinished → ⊥
      not_late p = ground arith

  acquire_ends :
      ((i : ℕ) → clock i + 500 ≤ clock (suc i))
      → (n i : ℕ) → deadline < clock i + 500 * n
      → acquire free clock n_slots deadline (suc n) i ≢ unfinished
  acquire_ends sleeps zero i h = elim (ended_or_next zero i) [
    | inl ends ↦ ends
    | inr (l, p) ↦ absurd (omega arith)
  ]
  acquire_ends sleeps (suc n) i h = elim (ended_or_next (suc n) i) [
    | inl ends ↦ ends
    | inr (l, p) ↦ λ u. acquire_ends sleeps n (suc i) (omega (arith, sleeps i)) (sym p ∙ u)
  ]

-- Where the clock moves on by the half second that each round sleeps, the wait ends: with the least
-- slot that is free in the first round with a free one, or with a timeout, past the deadline and after
-- rounds without one.
pub host_wide_slot-Explained :
    (free : ℕ → ℕ → Bool) (clock : ℕ → ℕ) (n_slots start timeout n : ℕ)
    → start ≤ clock 0
    → ((i : ℕ) → clock i + 500 ≤ clock (suc i))
    → timeout < 500 * n
    → ((host_wide_slot free clock n_slots start timeout (suc n)).0 ≢ unfinished)
      × Explained free clock n_slots
          (start + timeout)
          (host_wide_slot free clock n_slots start timeout (suc n)).0
unfolding host_wide_slot
host_wide_slot-Explained free clock n_slots start timeout n from_start sleeps h = (
  acquire_ends free clock n_slots (start + timeout) sleeps n 0 (omega arith),
  acquire-Explained free clock n_slots (start + timeout) (suc n) 0 (λ k l. absurd (omega arith)),
)

-- The periods that take a slot are those of the decode pool's long jobs.
pub slot_for_period-is_long :
    {J : Type 0} (f30_slots f15_slots : ℕ) (e : Entry J)
    → (slot_for_period f30_slots f15_slots e.period ≡ none) ↔ (is_long e ≡ false)
unfolding slot_for_period
slot_for_period-is_long f30_slots f15_slots e = ground arith
