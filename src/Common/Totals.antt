-- ===== src/Common/Totals.antt =====
-- What the values of a dictionary hold together: the lists `g v` of its entries, one after another.
use mathlib.Core.Path.{◌≡◌, refl, sym, ap, ap₂, ◌∙◌}
use mathlib.Core.Logic.{◌⊎◌, inl, inr}
use mathlib.Core.Bool.{true, false}
use mathlib.Core.Option.{none}
use mathlib.Core.List.{List, [], ◌∷◌, ◌++◌}
use native.Mathlib.Omega.{arith}
use wspr_recorder.Common.Lists.{All}
use wspr_recorder.Common.Dict.{Eq, Dict, same, lookup, upsert, adjust, NodupKeys}

pub ++_nil {ℓ} : {A : Type ℓ} (xs : List A) → xs ++ [] ≡ xs
++_nil [] = refl
++_nil (x ∷ xs) = ap (λ ys. x ∷ ys) (++_nil xs)

pub ++_assoc {ℓ} : {A : Type ℓ} (xs ys zs : List A) → (xs ++ ys) ++ zs ≡ xs ++ (ys ++ zs)
++_assoc [] ys zs = refl
++_assoc (x ∷ xs) ys zs = ap (λ us. x ∷ us) (++_assoc xs ys zs)

pub ++_nil_left {ℓ} : {A : Type ℓ} (xs ys : List A) → xs ++ ys ≡ [] → xs ≡ []
++_nil_left [] ys h = refl
++_nil_left (x ∷ xs) ys h = absurd (ground arith)

pub ++_nil_right {ℓ} : {A : Type ℓ} (xs ys : List A) → xs ++ ys ≡ [] → ys ≡ []
++_nil_right [] ys h = h
++_nil_right (x ∷ xs) ys h = absurd (ground arith)

-- A list between two lists of which one is empty may stand on either side of the second.
pub ++_swap {ℓ} : {A : Type ℓ} (xs ys : List A) → (xs ≡ []) ⊎ (ys ≡ []) → xs ++ ys ≡ ys ++ xs
++_swap xs ys (inl h) = rw h (sym (++_nil ys))
++_swap xs ys (inr h) = rw h (++_nil xs)

pub ++_middle {ℓ} :
    {A : Type ℓ} (xs ys zs : List A) → (xs ≡ []) ⊎ (ys ≡ []) → xs ++ (ys ++ zs) ≡ ys ++ (xs ++ zs)
++_middle xs ys zs (inl h) = rw h refl
++_middle xs ys zs (inr h) = rw h refl

module _ {ℓ} {K : Type ℓ} ⦃e : Eq K⦄ where
  pub same-cases : (a b : K) → ((a ≡ b) × (same a b ≡ true)) ⊎ (same a b ≡ false)
  same-cases a b = ground arith

  pub same→eq : (a b : K) → same a b ≡ true → a ≡ b
  same→eq a b h = ground arith

  pub same_self : (a : K) → same a a ≡ true
  same_self a = ground arith

module _ {ℓ κ μ} {K : Type ℓ} {V : Type κ} {S : Type μ} ⦃e : Eq K⦄ where
  abbrev pub total : (V → List S) → Dict K V → List S
  total g [] = []
  total g ((_, v) ∷ d) = g v ++ total g d

  -- Only the entry of `k` holds something.
  abbrev pub HeldBy : (V → List S) → K → Dict K V → Type μ
  HeldBy g k d = All (λ (j, v). same k j ≡ false → g v ≡ []) d

  pub total-missing :
      (g : V → List S) (k : K) (d : Dict K V) → lookup k d ≡ none → HeldBy g k d → total g d ≡ []
  unfolding lookup
  total-missing g k [] h a = refl
  total-missing g k ((j, v) ∷ d) h a = elim (same-cases k j) [
    | inl (_, t) ↦ absurd (ground arith)
    | inr f ↦ ap₂ ◌++◌ (a.0 f) (total-missing g k d (ground arith) a.1)
  ]

  -- An update that adds `extra` to what an entry holds adds it to the total.
  pub total-upsert :
      (g : V → List S) (k : K) (new : V) (f : V → V) (extra : List S) (d : Dict K V)
      → g (f new) ≡ extra
      → All (λ (j, v). same k j ≡ true → g (f v) ≡ g v ++ extra) d
      → (extra ≡ []) ⊎ HeldBy g k d
      → NodupKeys d
      → total g (upsert k new f d) ≡ total g d ++ extra
  unfolding upsert
  total-upsert g k new f extra [] n c a u = ++_nil (g (f new)) ∙ n
  total-upsert g k new f extra ((j, v) ∷ d) n c a u = elim (same-cases k j) [
    | inl (p, t) ↦ rw t (
        rw (c.0 t) (
          ++_assoc (g v) extra (total g d)
          ∙ ap (λ z. g v ++ z) (++_swap extra (total g d) (alone p a))
          ∙ sym (++_assoc (g v) (total g d) extra)))
    | inr t ↦ rw t (
        ap (λ z. g v ++ z) (total-upsert g k new f extra d n c.1 (others a) u.1)
        ∙ sym (++_assoc (g v) (total g d) extra))
  ]
    where
      alone : k ≡ j → (extra ≡ []) ⊎ HeldBy g k ((j, v) ∷ d) → (extra ≡ []) ⊎ (total g d ≡ [])
      alone p (inl h) = inl h
      alone p (inr h) = inr (total-missing g k d (ap (λ i. lookup i d) p ∙ u.0) h.1)

      others : (extra ≡ []) ⊎ HeldBy g k ((j, v) ∷ d) → (extra ≡ []) ⊎ HeldBy g k d
      others (inl h) = inl h
      others (inr h) = inr h.1

  pub total-adjust :
      (g : V → List S) (k : K) (f : V → V) (d : Dict K V)
      → ((v : V) → g (f v) ≡ g v)
      → total g (adjust k f d) ≡ total g d
  unfolding adjust
  total-adjust g k f [] c = refl
  total-adjust g k f ((j, v) ∷ d) c = elim (same-cases k j) [
    | inl (_, t) ↦ rw t (rw (c v) refl)
    | inr t ↦ rw t (ap (λ z. g v ++ z) (total-adjust g k f d c))
  ]

module _ {ℓ κ} {K : Type ℓ} {V : Type κ} ⦃e : Eq K⦄ where
  pub All-upsert {ν} :
      (P : K × V → Type ν) (k : K) (new : V) (f : V → V) (d : Dict K V)
      → P (k, f new)
      → ((j : K) (v : V) → P (j, v) → P (j, f v))
      → All P d
      → All P (upsert k new f d)
  unfolding upsert
  All-upsert P k new f [] n c a = (n, tt)
  All-upsert P k new f ((j, v) ∷ d) n c a = elim (same-cases k j) [
    | inl (_, t) ↦ rw t (c j v a.0, a.1)
    | inr t ↦ rw t (a.0, All-upsert P k new f d n c a.1)
  ]

  pub All-adjust {ν} :
      (P : K × V → Type ν) (k : K) (f : V → V) (d : Dict K V)
      → ((j : K) (v : V) → P (j, v) → P (j, f v))
      → All P d
      → All P (adjust k f d)
  unfolding adjust
  All-adjust P k f [] c a = tt
  All-adjust P k f ((j, v) ∷ d) c a = elim (same-cases k j) [
    | inl (_, t) ↦ rw t (c j v a.0, a.1)
    | inr t ↦ rw t (a.0, All-adjust P k f d c a.1)
  ]
