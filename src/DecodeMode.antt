-- ===== src/DecodeMode.antt =====
-- wspr_recorder/decode_mode.py: the decode modes, and which of them share a period. A mode's period
-- is defined by the package hs_uploader, so the table of periods is an argument.
pub mod Grouping
mod Tests
use wspr_recorder.Common.{ℕ, ◌*◌, ◌%◌, max, Bool, List, [], ◌∷◌, ◌++◌, ◌==◌, if◌then◌else◌}

pub data DecodeMode : Type 0 where
  w2 : DecodeMode
  f2 : DecodeMode
  f5 : DecodeMode
  f15 : DecodeMode
  f30 : DecodeMode

-- A comprehension's filter over a list.
abbrev pub select {ℓ} : {A : Type ℓ} → (A → Bool) → List A → List A
select p [] = []
select p (x ∷ xs) = let rest = select p xs in if p x then x ∷ rest else rest

-- `groups.setdefault(p, []).append(m)` on an insertion-ordered dictionary.
abbrev pub add_to_group : ℕ → DecodeMode → List (ℕ × List DecodeMode) → List (ℕ × List DecodeMode)
add_to_group p m [] = (p, m ∷ []) ∷ []
add_to_group p m ((q, ms) ∷ groups) =
    if q == p then (q, ms ++ (m ∷ [])) ∷ groups else (q, ms) ∷ add_to_group p m groups

module _ (period : DecodeMode → ℕ) where
  unfoldable pub modes_completing_at_minute : ℕ → List DecodeMode → List DecodeMode
  modes_completing_at_minute minute_index modes =
      select (λ m. minute_index * 60 % period m == 0) modes

  -- `max` over a non-empty list.
  unfoldable pub longest : DecodeMode → List DecodeMode → ℕ
  longest m [] = period m
  longest m (m' ∷ ms) = max (period m) (longest m' ms)

  unfoldable pub max_period_seconds : List DecodeMode → ℕ
  unfolding longest
  max_period_seconds [] = 120
  max_period_seconds (m ∷ ms) = longest m ms

  -- The loop of `group_modes_by_period`.
  unfoldable pub group_from :
      List (ℕ × List DecodeMode) → List DecodeMode → List (ℕ × List DecodeMode)
  group_from groups [] = groups
  group_from groups (m ∷ ms) = group_from (add_to_group (period m) m groups) ms

  unfoldable pub group_modes_by_period : List DecodeMode → List (ℕ × List DecodeMode)
  unfolding group_from
  group_modes_by_period modes = group_from [] modes
