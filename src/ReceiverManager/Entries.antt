-- ===== src/ReceiverManager/Entries.antt =====
-- The entries of the dictionaries and lists of wspr_recorder/receiver_manager.py.
use wspr_recorder.Common.{
  ℕ, Bool, true, false, ◌||◌, none, some, List, [], ◌∷◌, ◌≡◌, refl, ap, All, All-append, arith, inl,
  inr, ◌==◌, ==_iff, if◌then◌else◌, if_intro,
}
use wspr_recorder.Common.Dict.{
  Eq, Dict, same, contains, lookup, upsert, adjust, erase, set_add, set_discard, lookup-upsert,
  NodupKeys, nat_eq, string_eq, pair_eq,
}
use wspr_recorder.Common.Totals.{same-cases, same_self}
use wspr_recorder.ReceiverManager.{Group, ChannelState, drop_ssrc}

module _ {ℓ κ} {K : Type ℓ} {V : Type κ} ⦃e : Eq K⦄ where
  -- `k in d`
  abbrev pub has : K → Dict K V → Bool
  has k d = elim (lookup k d) [ none ↦ false | some _ ↦ true ]

  pub has-upsert :
      (j k : K) (new : V) (f : V → V) (d : Dict K V)
      → has j (upsert k new f d) ≡ (same j k || has j d)
  has-upsert j k new f d = ground (arith, lookup-upsert j k new f d)

  pub has-upsert_other :
      (j k : K) (new : V) (f : V → V) (d : Dict K V)
      → has j d ≡ true
      → has j (upsert k new f d) ≡ true
  has-upsert_other j k new f d h = ground (arith, has-upsert j k new f d)

  pub has-upsert_self :
      (k : K) (new : V) (f : V → V) (d : Dict K V) → has k (upsert k new f d) ≡ true
  has-upsert_self k new f d = ground (arith, has-upsert k k new f d, same_self k)

  pub has-adjust : (j k : K) (f : V → V) (d : Dict K V) → has j (adjust k f d) ≡ has j d
  unfolding adjust lookup
  has-adjust j k f [] = refl
  has-adjust j k f ((i, w) ∷ d) = ground (arith, has-adjust j k f d)

  pub lookup-erase :
      (j k : K) (d : Dict K V) → lookup j (erase k d) ≡ (if same j k then none else lookup j d)
  unfolding erase lookup
  lookup-erase j k [] = ground arith
  lookup-erase j k ((i, w) ∷ d) = ground (arith, lookup-erase j k d)

  pub erase-NodupKeys : (k : K) (d : Dict K V) → NodupKeys d → NodupKeys (erase k d)
  unfolding erase
  erase-NodupKeys k [] u = tt
  erase-NodupKeys k ((j, w) ∷ d) (fresh, u) =
      ground (arith, erase-NodupKeys k d u, lookup-erase j k d)

  pub All-erase {ν} : (P : K × V → Type ν) (k : K) (d : Dict K V) → All P d → All P (erase k d)
  unfolding erase
  All-erase P k [] a = tt
  All-erase P k ((j, w) ∷ d) a =
      if_intro (All P) (same k j) (λ _. All-erase P k d a.1) (λ _. (a.0, All-erase P k d a.1))

  -- `d[k] = v` where every entry under `k` may be `v`.
  pub All-put {ν} :
      (P : K × V → Type ν) (k : K) (v : V) (d : Dict K V)
      → ((j : K) → same k j ≡ true → P (j, v))
      → All P d
      → All P (upsert k v (λ _. v) d)
  unfolding upsert
  All-put P k v [] n a = (n k (same_self k), tt)
  All-put P k v ((j, w) ∷ d) n a =
      if_intro (All P) (same k j) (λ t. (n j t, a.1)) (λ _. (a.0, All-put P k v d n a.1))

pub set_add-All : (P : ℕ → Type 0) (a : ℕ) (s : List ℕ) → P a → All P s → All P (set_add a s)
set_add-All P a s p h =
    if_intro (All P) (contains s a) (λ _. h) (λ _. All-append P s (a ∷ []) h (p, tt))

pub has-erase_other :
    (s old : ℕ) (d : Dict ℕ ChannelState)
    → (s == old) ≡ false
    → has s d ≡ true
    → has s (erase old d) ≡ true
has-erase_other s old d n h = elim (same-cases s old) [
  | inl (p, _) ↦ absurd (ground (arith, ==_iff s old))
  | inr f ↦ ground (arith, lookup-erase s old d)
]

pub drop_ssrc-lifetimes :
    (old : ℕ) (d : Dict ℕ ChannelState) (es : List (Group × ℕ))
    → All (λ (_, s). has s d ≡ true) es
    → All (λ (_, s). has s (erase old d) ≡ true) (drop_ssrc old es)
drop_ssrc-lifetimes old d [] a = tt
drop_ssrc-lifetimes old d ((g, s) ∷ es) a =
    if_intro (All (λ (_, s). has s (erase old d) ≡ true)) (s == old)
      (λ _. drop_ssrc-lifetimes old d es a.1)
      (λ n. (has-erase_other s old d n a.0, drop_ssrc-lifetimes old d es a.1))

pub drop_ssrc-All :
    (P : Group × ℕ → Type 0) (old : ℕ) (es : List (Group × ℕ)) → All P es → All P (drop_ssrc old es)
drop_ssrc-All P old [] a = tt
drop_ssrc-All P old ((g, s) ∷ es) a =
    if_intro (All P) (s == old) (λ _. drop_ssrc-All P old es a.1)
      (λ _. (a.0, drop_ssrc-All P old es a.1))

pub set_discard-listened :
    (stuck : ℕ → Bool) (old : ℕ) (d : Dict ℕ ChannelState) (ss : List ℕ)
    → All (λ s. (has s d || stuck s) ≡ true) ss
    → All (λ s. (has s (erase old d) || stuck s) ≡ true) (set_discard old ss)
set_discard-listened stuck old d [] a = tt
set_discard-listened stuck old d (s ∷ ss) a =
    if_intro (All (λ s. (has s (erase old d) || stuck s) ≡ true)) (same old s)
      (λ _. set_discard-listened stuck old d ss a.1)
      (λ n. (
        ground (arith, a.0, lookup-erase s old d, same-cases s old, same_self s),
        set_discard-listened stuck old d ss a.1,
      ))

-- A registration of the erased channel stays where its SSRC is marked.
pub erase-listened :
    (stuck : ℕ → Bool) (old : ℕ) (d : Dict ℕ ChannelState) (ss : List ℕ)
    → stuck old ≡ true
    → All (λ s. (has s d || stuck s) ≡ true) ss
    → All (λ s. (has s (erase old d) || stuck s) ≡ true) ss
erase-listened stuck old d [] k a = tt
erase-listened stuck old d (s ∷ ss) k a = (
  elim (same-cases s old) [
    | inl (p, _) ↦ ground (arith, k, ap stuck p)
    | inr f ↦ ground (arith, a.0, lookup-erase s old d, f)
  ],
  erase-listened stuck old d ss k a.1,
)
