-- ===== src/RingBuffer/Store.antt =====
-- What a write round the end of the ring puts where, and what a copy round it reads.
use wspr_recorder.Common.{
  ℕ, ◌+◌, ◌-◌, ◌≤◌, ◌<◌, ◌≡◌, ◌∙◌, ap, List, arith, leb, length, get_elem?, take, drop, length-take,
  length-drop, Bool-cases, inl, inr, leb→le,
}
use wspr_recorder.Common.Slices
use wspr_recorder.RingBuffer.{store}

module _ {ℓ} {A : Type ℓ} where
  pub length-store :
      (cap : ℕ) (buf : List A) (p : ℕ) (xs : List A) → length (store cap buf p xs) ≡ length buf
  unfolding store
  length-store cap buf p xs = ground (
    arith,
    Slices.length-assign buf p xs,
    Slices.length-assign buf p (take (cap - p) xs),
    Slices.length-assign (Slices.assign buf p (take (cap - p) xs)) 0 (drop (cap - p) xs),
  )

  -- The lemmas on the two writes round the end, at index `i`.
  module _ (cap : ℕ) (buf : List A) (p : ℕ) (xs : List A) (size : length buf ≡ cap)
      (inside : p < cap) (fits : length xs ≤ cap) where
    -- From `p` on, before the end of the ring.
    pub get_elem?-store_ahead :
        (i : ℕ)
        → p ≤ i
        → i < p + length xs
        → i < cap
        → get_elem? (store cap buf p xs) i ≡ get_elem? xs (i - p)
    unfolding store
    get_elem?-store_ahead i h k l = elim (Bool-cases (leb (p + length xs) cap)) [
      | inl e ↦
          rw (e, store) (Slices.get_elem?-assign_in buf p xs i (omega (arith, leb→le _ _ e)) h k)
      | inr e ↦
          rw (e, store)
            (Slices.get_elem?-assign_above first 0 (drop (cap - p) xs) i
                (omega (arith, length-drop (cap - p) xs))
              ∙ Slices.get_elem?-assign_in buf p (take (cap - p) xs) i
                  (omega (arith, length-take (cap - p) xs)) h
                  (omega (arith, length-take (cap - p) xs))
              ∙ Slices.get_elem?-take (cap - p) xs (i - p) (omega arith))
    ]
      where
        first : List A
        first = Slices.assign buf p (take (cap - p) xs)

    -- From the start of the ring on, what went round the end.
    pub get_elem?-store_wrapped :
        (i : ℕ)
        → i + cap < p + length xs
        → get_elem? (store cap buf p xs) i ≡ get_elem? xs (i + cap - p)
    unfolding store
    get_elem?-store_wrapped i h = elim (Bool-cases (leb (p + length xs) cap)) [
      | inl e ↦ absurd (omega (arith, leb→le _ _ e))
      | inr e ↦
          rw (e, store)
            (Slices.get_elem?-assign_in (Slices.assign buf p (take (cap - p) xs)) 0
                (drop (cap - p) xs) i
                (omega
                  (arith, length-drop (cap - p) xs, Slices.length-assign buf p (take (cap - p) xs)))
                (omega arith) (omega (arith, length-drop (cap - p) xs))
              ∙ Slices.get_elem?-drop (cap - p) xs (i - 0)
              ∙ ap (get_elem? xs) (omega arith))
    ]

    -- Everything else stays.
    pub get_elem?-store_ahead_of :
        (i : ℕ) → p + length xs ≤ i → get_elem? (store cap buf p xs) i ≡ get_elem? buf i
    unfolding store
    get_elem?-store_ahead_of i h = ground (
      arith,
      Slices.get_elem?-assign_above buf p xs i,
      Slices.get_elem?-assign_above buf p (take (cap - p) xs) i,
      Slices.get_elem?-assign_above (Slices.assign buf p (take (cap - p) xs)) 0 (drop (cap - p) xs)
          i,
      length-take (cap - p) xs,
      length-drop (cap - p) xs,
    )

    pub get_elem?-store_below :
        (i : ℕ)
        → i < p
        → p + length xs ≤ i + cap
        → get_elem? (store cap buf p xs) i ≡ get_elem? buf i
    unfolding store
    get_elem?-store_below i h k = ground (
      arith,
      Slices.get_elem?-assign_below buf p xs i,
      Slices.get_elem?-assign_below buf p (take (cap - p) xs) i,
      Slices.get_elem?-assign_above (Slices.assign buf p (take (cap - p) xs)) 0 (drop (cap - p) xs)
          i,
      length-drop (cap - p) xs,
    )
