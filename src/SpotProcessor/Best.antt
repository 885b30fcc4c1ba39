-- ===== src/SpotProcessor/Best.antt =====
-- `_deduplicate` keeps, of each key, the first spot with the best SNR.
use mathlib.Core.Path.{ap₂}
use text.Mathlib.Text.{◌==◌ as str_eq}
use text.Mathlib.TextEquality.{eq_iff}
use wspr_recorder.Common.{
  arith, ◌&&◌, ◌==◌, ==_iff, ◌≡◌, refl, sym, ◌∙◌, ap, Bool, true, false, Bool-cases, inl, inr,
  Option, none, some, List, [], ◌∷◌, if◌then◌else◌, if_intro,
}
use wspr_recorder.Common.Int.{ltb_ℤ}
use wspr_recorder.SpotProcessor.{RawSpot, same_key, keep_best, deduplicate_from, deduplicate}

and_true : (a b : Bool) → (a && b) ≡ true → (a ≡ true) × (b ≡ true)
and_true a b h = ground arith

module _ {ℓ} {R : Type ℓ} where
  -- The spot kept of key `k`, if there is one.
  abbrev pub kept : RawSpot R → List (RawSpot R) → Option (RawSpot R)
  kept k [] = none
  kept k (b ∷ best) = let later = kept k best in if same_key b k then some b else later

  -- The first of the spots with key `k` whose SNR no other exceeds, given the best one before them.
  abbrev pub better : Option (RawSpot R) → RawSpot R → Option (RawSpot R)
  better none s = some s
  better (some b) s = if ltb_ℤ b.snr s.snr then some s else some b

  abbrev pub best_of : RawSpot R → Option (RawSpot R) → List (RawSpot R) → Option (RawSpot R)
  best_of k o [] = o
  best_of k o (s ∷ ss) = best_of k (if same_key s k then better o s else o) ss

  same_key-paths :
      (s t : RawSpot R) → same_key s t ≡ true → (s.call ≡ t.call) × (s.pkt_mode ≡ t.pkt_mode)
  same_key-paths s t h =
      let (a, b) = and_true (str_eq s.call t.call) (s.pkt_mode == t.pkt_mode) h in
      ((eq_iff s.call t.call).0 a, (==_iff s.pkt_mode t.pkt_mode).0 b)

  same_key-swap : (s t k : RawSpot R) → same_key s t ≡ true → same_key s k ≡ same_key t k
  same_key-swap s t k h =
      let (p, q) = same_key-paths s t h in ap₂ (λ c m. str_eq c k.call && m == k.pkt_mode) p q

  same_key-join :
      (s t k : RawSpot R) → same_key s k ≡ true → same_key t k ≡ true → same_key s t ≡ true
  same_key-join s t k h l =
      let (p, q) = same_key-paths s k h in
      let (p', q') = same_key-paths t k l in
      let call : s.call ≡ t.call = p ∙ sym p' in
      let mode : s.pkt_mode ≡ t.pkt_mode = q ∙ sym q' in
      rw ((eq_iff s.call t.call).1 call, (==_iff s.pkt_mode t.pkt_mode).1 mode) refl

  -- A new spot `s` betters the one kept of its own key, and leaves the other keys alone.
  kept-keep_best :
      (k s : RawSpot R) (best : List (RawSpot R))
      → kept k (keep_best best s) ≡ (if same_key s k then better (kept k best) s else kept k best)
  unfolding keep_best
  kept-keep_best k s [] = refl
  kept-keep_best k s (b ∷ best) = elim (Bool-cases (same_key b s)) [
    | inl e ↦ ground (arith, e, same_key-swap b s k e)
    | inr e ↦ elim (Bool-cases (same_key s k)) [
      | inl l ↦ elim (Bool-cases (same_key b k)) [
        | inl m ↦ let q : true ≡ false = sym (same_key-join b s k m l) ∙ e in cc q
        | inr m ↦ ground (arith, e, l, m, kept-keep_best k s best)
      ]
      | inr l ↦ ground (arith, e, l, kept-keep_best k s best)
    ]
  ]

  kept-deduplicate_from :
      (k : RawSpot R) (best ss : List (RawSpot R))
      → kept k (deduplicate_from best ss) ≡ best_of k (kept k best) ss
  unfolding deduplicate_from
  kept-deduplicate_from k best [] = refl
  kept-deduplicate_from k best (s ∷ ss) =
      kept-deduplicate_from k (keep_best best s) ss
      ∙ ap (λ o. best_of k o ss) (kept-keep_best k s best)

  -- No key has two spots.
  abbrev pub Lacks : RawSpot R → List (RawSpot R) → Type 0
  Lacks k [] = Unit
  Lacks k (b ∷ best) = (same_key k b ≡ false) × Lacks k best

  abbrev pub IsUnique : List (RawSpot R) → Type 0
  IsUnique [] = Unit
  IsUnique (b ∷ best) = Lacks b best × IsUnique best

  Lacks-keep_best :
      (q s : RawSpot R) (best : List (RawSpot R))
      → same_key q s ≡ false
      → Lacks q best
      → Lacks q (keep_best best s)
  unfolding keep_best
  Lacks-keep_best q s [] h l = (h, tt)
  Lacks-keep_best q s (b ∷ best) h l =
      if_intro (Lacks q) (same_key b s)
        (λ e. if_intro (Lacks q) (ltb_ℤ b.snr s.snr) (λ t. (h, l.1)) (λ t. l))
        (λ e. (l.0, Lacks-keep_best q s best h l.1))

  Lacks-swap :
      (b s : RawSpot R) (best : List (RawSpot R))
      → same_key b s ≡ true
      → Lacks b best
      → Lacks s best
  Lacks-swap b s [] e l = tt
  Lacks-swap b s (x ∷ best) e l = (sym (same_key-swap b s x e) ∙ l.0, Lacks-swap b s best e l.1)

  keep_best-IsUnique :
      (best : List (RawSpot R)) (s : RawSpot R) → IsUnique best → IsUnique (keep_best best s)
  unfolding keep_best
  keep_best-IsUnique [] s u = (tt, tt)
  keep_best-IsUnique (b ∷ best) s u =
      if_intro IsUnique (same_key b s)
        (λ e.
          if_intro IsUnique (ltb_ℤ b.snr s.snr) (λ t. (Lacks-swap b s best e u.0, u.1)) (λ t. u))
        (λ e. (Lacks-keep_best b s best e u.0, keep_best-IsUnique best s u.1))

  deduplicate_from-IsUnique :
      (best ss : List (RawSpot R)) → IsUnique best → IsUnique (deduplicate_from best ss)
  unfolding deduplicate_from
  deduplicate_from-IsUnique best [] u = u
  deduplicate_from-IsUnique best (s ∷ ss) u =
      deduplicate_from-IsUnique (keep_best best s) ss (keep_best-IsUnique best s u)

  -- Of any list of spots, no key is kept twice; and of each key the spot kept is the first of those
  -- with the best SNR, and there is one if any spot has the key.
  pub deduplicate_lem :
      (ss : List (RawSpot R))
      → IsUnique (deduplicate ss) × ((k : RawSpot R) → kept k (deduplicate ss) ≡ best_of k none ss)
  unfolding deduplicate
  deduplicate_lem ss = (deduplicate_from-IsUnique [] ss tt, λ k. kept-deduplicate_from k [] ss)
