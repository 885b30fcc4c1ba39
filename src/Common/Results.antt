-- ===== src/Common/Results.antt =====
-- Outcomes of code that may raise.
pub data Raised : Type 0 where
  value_error : Raised
  runtime_error : Raised
  overflow_error : Raised
  assertion_error : Raised
  attribute_error : Raised
  -- not an exception: a loop of the model used up its fuel
  out_of_fuel : Raised

pub data Result {ℓ} (A : Type ℓ) : Type ℓ where
  ok : A → Result A
  raise : Raised → Result A

infixl 5 ◌>>=◌
abbrev pub ◌>>=◌ {ℓ κ} : {A : Type ℓ} {B : Type κ} → Result A → (A → Result B) → Result B
ok a >>= f = f a
raise e >>= f = raise e
