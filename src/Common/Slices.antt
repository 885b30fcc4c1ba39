-- ===== src/Common/Slices.antt =====
-- Reading and overwriting a stretch of an array, element by element, and lists from their elements.
use Prim.Native.Nat.{ℕ, zero, suc, ◌+◌, ◌-◌, ◌≤◌, ◌<◌}
use mathlib.Core.Path.{◌≡◌, refl, ap, ap₂, ◌∙◌}
use mathlib.Core.List.{List, [], ◌∷◌, ◌++◌}
use native.Mathlib.Omega.{arith}
use wspr_recorder.Common.Lists.{length, get_elem?, take, drop}

module _ {ℓ} {A : Type ℓ} where
  -- `a[p : p + len(xs)] = xs`, for a stretch that lies inside the array.
  abbrev pub assign : List A → ℕ → List A → List A
  assign [] p xs = []
  assign (b ∷ buf) zero [] = b ∷ buf
  assign (b ∷ buf) zero (x ∷ xs) = x ∷ assign buf zero xs
  assign (b ∷ buf) (suc p) xs = b ∷ assign buf p xs

  pub length-assign : (buf : List A) (p : ℕ) (xs : List A) → length (assign buf p xs) ≡ length buf
  length-assign [] p xs = refl
  length-assign (b ∷ buf) zero [] = refl
  length-assign (b ∷ buf) zero (x ∷ xs) = ap suc (length-assign buf zero xs)
  length-assign (b ∷ buf) (suc p) xs = ap suc (length-assign buf p xs)

  pub get_elem?-assign_in :
      (buf : List A) (p : ℕ) (xs : List A) (i : ℕ)
      → p + length xs ≤ length buf
      → p ≤ i
      → i < p + length xs
      → get_elem? (assign buf p xs) i ≡ get_elem? xs (i - p)
  get_elem?-assign_in [] p xs i h k l = absurd (omega arith)
  get_elem?-assign_in (b ∷ buf) zero [] i h k l = absurd (omega arith)
  get_elem?-assign_in (b ∷ buf) zero (x ∷ xs) zero h k l = refl
  get_elem?-assign_in (b ∷ buf) zero (x ∷ xs) (suc i) h k l =
      get_elem?-assign_in buf zero xs i (omega arith) (omega arith) (omega arith)
      ∙ ap (get_elem? (x ∷ xs)) {x = suc (i - 0)} {y = suc i - 0} (omega arith)
  get_elem?-assign_in (b ∷ buf) (suc p) xs zero h k l = absurd (omega arith)
  get_elem?-assign_in (b ∷ buf) (suc p) xs (suc i) h k l =
      get_elem?-assign_in buf p xs i (omega arith) (omega arith) (omega arith)
      ∙ ap (get_elem? xs) (omega arith)

  pub get_elem?-assign_below :
      (buf : List A) (p : ℕ) (xs : List A) (i : ℕ)
      → i < p
      → get_elem? (assign buf p xs) i ≡ get_elem? buf i
  get_elem?-assign_below [] p xs i h = refl
  get_elem?-assign_below (b ∷ buf) zero xs i h = absurd (omega arith)
  get_elem?-assign_below (b ∷ buf) (suc p) xs zero h = refl
  get_elem?-assign_below (b ∷ buf) (suc p) xs (suc i) h =
      get_elem?-assign_below buf p xs i (omega arith)

  pub get_elem?-assign_above :
      (buf : List A) (p : ℕ) (xs : List A) (i : ℕ)
      → p + length xs ≤ i
      → get_elem? (assign buf p xs) i ≡ get_elem? buf i
  get_elem?-assign_above [] p xs i h = refl
  get_elem?-assign_above (b ∷ buf) zero [] i h = refl
  get_elem?-assign_above (b ∷ buf) zero (x ∷ xs) zero h = absurd (omega arith)
  get_elem?-assign_above (b ∷ buf) zero (x ∷ xs) (suc i) h =
      get_elem?-assign_above buf zero xs i (omega arith)
  get_elem?-assign_above (b ∷ buf) (suc p) xs zero h = absurd (omega arith)
  get_elem?-assign_above (b ∷ buf) (suc p) xs (suc i) h =
      get_elem?-assign_above buf p xs i (omega arith)

  pub get_elem?-take :
      (n : ℕ) (xs : List A) (i : ℕ) → i < n → get_elem? (take n xs) i ≡ get_elem? xs i
  get_elem?-take zero xs i h = absurd (omega arith)
  get_elem?-take (suc n) [] i h = refl
  get_elem?-take (suc n) (x ∷ xs) zero h = refl
  get_elem?-take (suc n) (x ∷ xs) (suc i) h = get_elem?-take n xs i (omega arith)

  pub get_elem?-drop :
      (n : ℕ) (xs : List A) (i : ℕ) → get_elem? (drop n xs) i ≡ get_elem? xs (n + i)
  get_elem?-drop zero xs i = ap (get_elem? xs) (omega arith)
  get_elem?-drop (suc n) [] i = refl
  get_elem?-drop (suc n) (x ∷ xs) i =
      get_elem?-drop n xs i
      ∙ ap (get_elem? (x ∷ xs)) {x = suc (n + i)} {y = suc n + i} (omega arith)

  pub get_elem?-append_left :
      (xs ys : List A) (i : ℕ) → i < length xs → get_elem? (xs ++ ys) i ≡ get_elem? xs i
  get_elem?-append_left [] ys i h = absurd (omega arith)
  get_elem?-append_left (x ∷ xs) ys zero h = refl
  get_elem?-append_left (x ∷ xs) ys (suc i) h = get_elem?-append_left xs ys i (omega arith)

  pub get_elem?-append_right :
      (xs ys : List A) (i : ℕ)
      → length xs ≤ i
      → get_elem? (xs ++ ys) i ≡ get_elem? ys (i - length xs)
  get_elem?-append_right [] ys i h = ap (get_elem? ys) (omega arith)
  get_elem?-append_right (x ∷ xs) ys zero h = absurd (omega arith)
  get_elem?-append_right (x ∷ xs) ys (suc i) h =
      get_elem?-append_right xs ys i (omega arith) ∙ ap (get_elem? ys) (omega arith)

  -- Lists of one length with the same elements are equal.
  pub eq_of_get_elem? :
      (xs ys : List A)
      → length xs ≡ length ys
      → ((i : ℕ) → i < length xs → get_elem? xs i ≡ get_elem? ys i)
      → xs ≡ ys
  eq_of_get_elem? [] [] h f = refl
  eq_of_get_elem? [] (y ∷ ys) h f = absurd (omega arith)
  eq_of_get_elem? (x ∷ xs) [] h f = absurd (omega arith)
  eq_of_get_elem? (x ∷ xs) (y ∷ ys) h f =
      ap₂ ◌∷◌ (cc (f 0 (omega arith)))
        (eq_of_get_elem? xs ys (omega arith) (λ i k. f (suc i) (omega arith)))
