-- ===== src/Common/Dict.antt =====
-- Python's dictionaries and sets, in insertion order, over keys whose equality can be decided.
use Prim.Native.String.{String}
use mathlib.Core.Logic.{◌↔◌, ite, dite}
use mathlib.Core.Path.{◌≡◌, refl, ap, ap₂}
use mathlib.Core.Bool.{Bool, true, false, ◌||◌, ◌&&◌, Bool-discrete}
use mathlib.Core.Option.{Option, none, some}
use mathlib.Core.List.{List, [], ◌∷◌, ◌++◌}
use native.Mathlib.Omega.{arith}
use text.Mathlib.Text
use text.Mathlib.TextEquality.{eq_iff}
use Prim.Native.Nat.{ℕ}
use wspr_recorder.Common.Tests.{if◌then◌else◌, ◌==◌, ==_iff}

pub record Eq {ℓ} (A : Type ℓ) : Type ℓ where
  pub dec : Discrete A

instance unfoldable pub string_eq : Eq String
string_eq = record {
  dec = λ s t.
      dite (Bool-discrete (Text.◌==◌ s t) true) (λ same. yes ((eq_iff s t).0 same))
        (λ differ. no (λ p. differ ((eq_iff s t).1 p)));
}

instance unfoldable pub nat_eq : Eq ℕ
nat_eq = record {
  dec = λ a b.
      dite (Bool-discrete (a == b) true) (λ e. yes ((==_iff a b).0 e))
        (λ differ. no (λ p. differ ((==_iff a b).1 p)));
}

instance unfoldable pub pair_eq {ℓ κ} : {A : Type ℓ} {B : Type κ} ⦃e : Eq A⦄ ⦃f : Eq B⦄ → Eq (A × B)
pair_eq ⦃e⦄ ⦃f⦄ = record {
  dec = λ p q.
      dite (e.dec p.0 q.0)
        (λ a.
          dite (f.dec p.1 q.1) (λ b. yes (ap₂ (λ x y. (x, y)) a b))
            (λ n. no (λ h. n (ap (λ r. r.1) h))))
        (λ n. no (λ h. n (ap (λ r. r.0) h)));
}

abbrev pub chars_same : List ℕ → List ℕ → Bool
chars_same [] [] = true
chars_same [] (d ∷ ds) = false
chars_same (c ∷ cs) [] = false
chars_same (c ∷ cs) (d ∷ ds) = c == d && chars_same cs ds

pub chars_same_iff : (cs ds : List ℕ) → (chars_same cs ds ≡ true) ↔ (cs ≡ ds)
chars_same_iff [] [] = ground arith
chars_same_iff [] (d ∷ ds) = ground arith
chars_same_iff (c ∷ cs) [] = ground arith
chars_same_iff (c ∷ cs) (d ∷ ds) = ground (arith, ==_iff c d, chars_same_iff cs ds)

instance unfoldable pub chars_eq : Eq (List ℕ)
chars_eq = record {
  dec = λ a b.
      dite (Bool-discrete (chars_same a b) true) (λ e. yes ((chars_same_iff a b).0 e))
        (λ differ. no (λ p. differ ((chars_same_iff a b).1 p)));
}

abbrev pub Dict {ℓ κ} : Type ℓ → Type κ → Type (ℓ ⊔ κ)
Dict K V = List (K × V)

module _ {ℓ} {A : Type ℓ} ⦃e : Eq A⦄ where
  abbrev pub same : A → A → Bool
  same a b = ite (e.dec a b) true false

  -- `a in s`
  abbrev pub contains : List A → A → Bool
  contains [] a = false
  contains (x ∷ xs) a = same a x || contains xs a

  -- `s.add(a)`
  abbrev pub set_add : A → List A → List A
  set_add a s = if contains s a then s else s ++ (a ∷ [])

  -- `s.discard(a)`
  abbrev pub set_discard : A → List A → List A
  set_discard a [] = []
  set_discard a (x ∷ xs) = let rest = set_discard a xs in if same a x then rest else x ∷ rest

  -- `s |= t`
  abbrev pub set_union : List A → List A → List A
  set_union s [] = s
  set_union s (x ∷ xs) = set_union (set_add x s) xs

  -- `s - t`
  abbrev pub set_diff : List A → List A → List A
  set_diff [] t = []
  set_diff (x ∷ xs) t = let rest = set_diff xs t in if contains t x then rest else x ∷ rest

  -- `s >= t`
  abbrev pub superset : List A → List A → Bool
  superset s [] = true
  superset s (x ∷ xs) = contains s x && superset s xs

  pub contains-append :
      (xs ys : List A) (a : A) → contains (xs ++ ys) a ≡ (contains xs a || contains ys a)
  contains-append [] ys a = refl
  contains-append (x ∷ xs) ys a = ground (arith, contains-append xs ys a)

  pub contains-set_add :
      (a b : A) (s : List A) → contains (set_add a s) b ≡ (same b a || contains s b)
  contains-set_add a b s = ground (arith, contains-append s (a ∷ []) b)

-- `list(d.values())`
abbrev pub values {ℓ κ} : {K : Type ℓ} {V : Type κ} → Dict K V → List V
values [] = []
values ((_, v) ∷ d) = v ∷ values d

abbrev pub get_or {κ} : {V : Type κ} → V → Option V → V
get_or d none = d
get_or d (some v) = v

module _ {ℓ κ} {K : Type ℓ} {V : Type κ} ⦃e : Eq K⦄ where
  -- `d.get(k)`
  unfoldable pub lookup : K → Dict K V → Option V
  lookup k [] = none
  lookup k ((j, v) ∷ d) = if same k j then some v else lookup k d

  -- The entry of `k`, made from `new` where it is missing, changed by `f` in its place.
  unfoldable pub upsert : K → V → (V → V) → Dict K V → Dict K V
  upsert k new f [] = (k, f new) ∷ []
  upsert k new f ((j, w) ∷ d) = if same k j then (j, f w) ∷ d else (j, w) ∷ upsert k new f d

  -- The same where a missing entry is left missing.
  unfoldable pub adjust : K → (V → V) → Dict K V → Dict K V
  adjust k f [] = []
  adjust k f ((j, w) ∷ d) = if same k j then (j, f w) ∷ d else (j, w) ∷ adjust k f d

  -- `d.pop(k, None)`
  unfoldable pub erase : K → Dict K V → Dict K V
  erase k [] = []
  erase k ((j, w) ∷ d) = let rest = erase k d in if same k j then rest else (j, w) ∷ rest

  abbrev pub NodupKeys : Dict K V → Type κ
  NodupKeys [] = Unit
  NodupKeys ((k, _) ∷ d) = (lookup k d ≡ none) × NodupKeys d

  pub lookup-upsert :
      (j k : K) (new : V) (f : V → V) (d : Dict K V)
      → lookup j (upsert k new f d)
        ≡ (if same j k then some (f (get_or new (lookup k d))) else lookup j d)
  unfolding upsert lookup
  lookup-upsert j k new f [] = ground arith
  lookup-upsert j k new f ((i, w) ∷ d) = ground (arith, lookup-upsert j k new f d)

  pub lookup-adjust :
      (j k : K) (f : V → V) (d : Dict K V)
      → lookup j (adjust k f d)
        ≡ (if same j k then elim (lookup k d) [ none ↦ none | some w ↦ some (f w) ] else lookup j d)
  unfolding adjust lookup
  lookup-adjust j k f [] = ground arith
  lookup-adjust j k f ((i, w) ∷ d) = ground (arith, lookup-adjust j k f d)

  pub upsert-NodupKeys :
      (k : K) (new : V) (f : V → V) (d : Dict K V) → NodupKeys d → NodupKeys (upsert k new f d)
  unfolding upsert lookup
  upsert-NodupKeys k new f [] _ = (refl, tt)
  upsert-NodupKeys k new f ((j, w) ∷ d) (fresh, u) =
      ground (arith, upsert-NodupKeys k new f d u, lookup-upsert j k new f d)

  pub adjust-NodupKeys : (k : K) (f : V → V) (d : Dict K V) → NodupKeys d → NodupKeys (adjust k f d)
  unfolding adjust lookup
  adjust-NodupKeys k f [] _ = tt
  adjust-NodupKeys k f ((j, w) ∷ d) (fresh, u) =
      ground (arith, adjust-NodupKeys k f d u, lookup-adjust j k f d)
