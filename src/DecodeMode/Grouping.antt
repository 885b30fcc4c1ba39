-- ===== src/DecodeMode/Grouping.antt =====
-- The groups of `group_modes_by_period`, and the longest period.
use wspr_recorder.Common.{
  ℕ, ◌≤◌, ◌≡◌, refl, sym, ◌∙◌, ◌⊎◌, List, [], ◌∷◌, ◌++◌, arith, true, false, ◌==◌, if◌then◌else◌,
  All, All-map_weaken, Bool-cases, inl, inr, max,
}
use native.Mathlib.Decide.{dec_le}
use mathlib.Core.Path.{subst}
use mathlib.Core.List.{append_assoc, append-nil}
use wspr_recorder.DecodeMode.{
  DecodeMode, select, add_to_group, longest, max_period_seconds, group_from, group_modes_by_period,
}

-- The modes filed under a period; none where the dictionary lacks it.
abbrev pub group_at : ℕ → List (ℕ × List DecodeMode) → List DecodeMode
group_at p [] = []
group_at p ((q, ms) ∷ groups) = if q == p then ms else group_at p groups

-- No period is a key twice, and no group is empty.
abbrev pub Fresh : ℕ → List (ℕ × List DecodeMode) → Type 0
Fresh p [] = Unit
Fresh p ((q, ms) ∷ groups) = ((q == p) ≡ false) × Fresh p groups

abbrev pub IsDictionary : List (ℕ × List DecodeMode) → Type 0
IsDictionary [] = Unit
IsDictionary ((q, ms) ∷ groups) = Fresh q groups × IsDictionary groups

group_at-add :
    (p q : ℕ) (m : DecodeMode) (groups : List (ℕ × List DecodeMode))
    → group_at q (add_to_group p m groups)
      ≡ (if p == q then group_at q groups ++ (m ∷ []) else group_at q groups)
group_at-add p q m [] = ground arith
group_at-add p q m ((k, ms) ∷ groups) = ground (arith, group_at-add p q m groups)

Fresh-add :
    (p q : ℕ) (m : DecodeMode) (groups : List (ℕ × List DecodeMode))
    → (p == q) ≡ false
    → Fresh q groups
    → Fresh q (add_to_group p m groups)
Fresh-add p q m [] h f = (h, tt)
Fresh-add p q m ((k, ms) ∷ groups) h f = ground (arith, Fresh-add p q m groups h f.1)

IsDictionary-add :
    (p : ℕ) (m : DecodeMode) (groups : List (ℕ × List DecodeMode))
    → IsDictionary groups
    → IsDictionary (add_to_group p m groups)
IsDictionary-add p m [] d = (tt, tt)
IsDictionary-add p m ((k, ms) ∷ groups) d = elim (Bool-cases (k == p)) [
  | inl e ↦ rw e d
  | inr e ↦ rw e (Fresh-add p k m groups (ground arith) d.0, IsDictionary-add p m groups d.1)
]

module _ (period : DecodeMode → ℕ) where
  group_at-group_from :
      (q : ℕ) (groups : List (ℕ × List DecodeMode)) (modes : List DecodeMode)
      → group_at q (group_from period groups modes)
        ≡ group_at q groups ++ select (λ m. period m == q) modes
  unfolding group_from
  group_at-group_from q groups [] = sym (append-nil _)
  group_at-group_from q groups (m ∷ ms) =
      group_at-group_from q (add_to_group (period m) m groups) ms
      ∙ step (Bool-cases (period m == q))
    where
      held : List DecodeMode
      held = group_at q groups

      rest : List DecodeMode
      rest = select (λ x. period x == q) ms

      step :
          ((period m == q) ≡ true) ⊎ ((period m == q) ≡ false)
          → group_at q (add_to_group (period m) m groups) ++ rest
            ≡ held ++ select (λ x. period x == q) (m ∷ ms)
      step (inl e) = rw (group_at-add (period m) q m groups, e) (append_assoc held (m ∷ []) rest)
      step (inr e) = rw (group_at-add (period m) q m groups, e) refl

  group_from-IsDictionary :
      (groups : List (ℕ × List DecodeMode)) (modes : List DecodeMode)
      → IsDictionary groups
      → IsDictionary (group_from period groups modes)
  unfolding group_from
  group_from-IsDictionary groups [] d = d
  group_from-IsDictionary groups (m ∷ ms) d =
      group_from-IsDictionary (add_to_group (period m) m groups) ms
        (IsDictionary-add (period m) m groups d)

  -- Every period is a key at most once, and its group is the list of the modes with that period,
  -- in the order in which the modes were given (none where no mode has it).
  pub group_modes_by_period_lem :
      (modes : List DecodeMode)
      → IsDictionary (group_modes_by_period period modes)
        × ((q : ℕ)
            → group_at q (group_modes_by_period period modes) ≡ select (λ m. period m == q) modes)
  unfolding group_modes_by_period
  group_modes_by_period_lem modes =
      (group_from-IsDictionary [] modes tt, λ q. group_at-group_from q [] modes)

  longest-bounds :
      (m : DecodeMode) (ms : List DecodeMode) → All (λ x. period x ≤ longest period m ms) (m ∷ ms)
  unfolding longest
  longest-bounds m [] = (omega arith, tt)
  longest-bounds m (m' ∷ ms) = (
    omega arith,
    All-map_weaken (λ x. period x ≤ longest period m' ms)
        (λ x. period x ≤ max (period m) (longest period m' ms)) (λ x h. omega arith) (m' ∷ ms)
        (longest-bounds m' ms),
  )

  abbrev pub Attains : ℕ → List DecodeMode → Type 0
  Attains n [] = ⊥
  Attains n (m ∷ ms) = (period m ≡ n) ⊎ Attains n ms

  longest-attained :
      (m : DecodeMode) (ms : List DecodeMode) → Attains (longest period m ms) (m ∷ ms)
  unfolding longest
  longest-attained m [] = inl refl
  longest-attained m (m' ∷ ms) = elim (dec_le (longest period m' ms) (period m)) [
    | yes h ↦ inl (omega arith)
    | no h ↦
        let e : longest period m' ms ≡ max (period m) (longest period m' ms) = omega arith in
        inr (subst (λ n. Attains n (m' ∷ ms)) e (longest-attained m' ms))
  ]

  -- The longest period is at least the period of every mode, and it is the period of one of them.
  pub max_period_seconds_lem :
      (m : DecodeMode) (ms : List DecodeMode)
      → All (λ x. period x ≤ max_period_seconds period (m ∷ ms)) (m ∷ ms)
        × Attains (max_period_seconds period (m ∷ ms)) (m ∷ ms)
  unfolding max_period_seconds
  max_period_seconds_lem m ms = (longest-bounds m ms, longest-attained m ms)
