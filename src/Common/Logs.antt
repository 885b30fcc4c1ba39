-- ===== src/Common/Logs.antt =====
-- Answers with the times at which they were given, for code that caches them.
use Prim.Native.Nat.{ℕ, ◌-◌, ◌<◌}
use mathlib.Core.Path.{◌≡◌}
use mathlib.Core.Logic.{◌⊎◌, inl, inr}
use mathlib.Core.List.{List, [], ◌∷◌}
use native.Mathlib.Omega.{arith}

-- The latest answer comes first.
abbrev pub Log : Type 0 → Type 0
Log A = List (ℕ × A)

module _ {A : Type 0} where
  -- The answer is one of less than `window` before `now`.
  abbrev pub Recent : (window now : ℕ) → Log A → A → Type 0
  Recent window now [] a = ⊥
  Recent window now ((t, b) ∷ log) a = ((a ≡ b) × (now - t < window)) ⊎ Recent window now log a

  -- The answer is the one of that time.
  abbrev pub Answered : (at : ℕ) → Log A → A → Type 0
  Answered at [] a = ⊥
  Answered at ((t, b) ∷ log) a = ((a ≡ b) × (at ≡ t)) ⊎ Answered at log a

  pub Answered-Recent :
      (window now at : ℕ) (log : Log A) (a : A)
      → now - at < window
      → Answered at log a
      → Recent window now log a
  Answered-Recent window now at [] a h r = elim r [ ]
  Answered-Recent window now at ((t, b) ∷ log) a h (inl (p, q)) = inl (p, omega arith)
  Answered-Recent window now at ((t, b) ∷ log) a h (inr r) =
      inr (Answered-Recent window now at log a h r)
