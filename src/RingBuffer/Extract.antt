-- ===== src/RingBuffer/Extract.antt =====
-- What `extract_by_offset` and `extract_slice` return of a ring that tracks a stream.
use native.Mathlib.Decide.{dec_lt}
use native.Mathlib.Nat.{mod-lt}
use wspr_recorder.Common.{
  ℕ, ◌+◌, ◌-◌, ◌%◌, ◌≤◌, ◌<◌, ◌≡◌, sym, ◌∙◌, ap, List, arith, length, get_elem?, take, drop,
  length-take, length-drop, length-append, some, none, leb, ltb, ◌==◌, ◌⊎◌, inl, inr, Bool-cases,
  leb→le, leb-false→lt,
}
use mathlib.Core.Bool.{◌||◌, true, false}
use wspr_recorder.Common.Slices
use wspr_recorder.Common.Slices.{eq_of_get_elem?}
use wspr_recorder.Common.Int.{pos}
use wspr_recorder.RingBuffer.{
  RingBuffer, copy_out, slice, extract_by_offset, overlapping_all, gap_sources,
}
use wspr_recorder.RingBuffer.Tracks.{Tracks, mod_short, mod_long}

module _ {ℓ} {A : Type ℓ} where
  module _ (r : RingBuffer A) (p n : ℕ) (size : length r.samples ≡ r.capacity)
      (inside : p < r.capacity) (fits : n ≤ r.capacity) where
    length-copy_out : length (copy_out r p n) ≡ n
    unfolding copy_out
    length-copy_out = elim (Bool-cases (leb (p + n) r.capacity)) [
      | inl e ↦
          rw (e, copy_out)
            (omega (arith, leb→le _ _ e, length-take n (drop p r.samples), length-drop p r.samples))
      | inr e ↦
          rw (e, copy_out)
            (omega (
              arith,
              length-append (slice r.samples p (r.capacity - p))
                  (take (n - (r.capacity - p)) r.samples),
              length-take (r.capacity - p) (drop p r.samples),
              length-drop p r.samples,
              length-take (n - (r.capacity - p)) r.samples,
              leb-false→lt _ _ e,
            ))
    ]

    get_elem?-copy_out_ahead :
        (i : ℕ)
        → i < n
        → p + i < r.capacity
        → get_elem? (copy_out r p n) i ≡ get_elem? r.samples (p + i)
    unfolding copy_out
    get_elem?-copy_out_ahead i h k = elim (Bool-cases (leb (p + n) r.capacity)) [
      | inl e ↦
          rw (e, copy_out)
            (Slices.get_elem?-take n (drop p r.samples) i h ∙ Slices.get_elem?-drop p r.samples i)
      | inr e ↦
          rw (e, copy_out)
            (Slices.get_elem?-append_left (slice r.samples p (r.capacity - p))
                (take (n - (r.capacity - p)) r.samples) i
                (omega
                  (arith, length-take (r.capacity - p) (drop p r.samples), length-drop p r.samples))
              ∙ Slices.get_elem?-take (r.capacity - p) (drop p r.samples) i (omega arith)
              ∙ Slices.get_elem?-drop p r.samples i)
    ]

    get_elem?-copy_out_wrapped :
        (i : ℕ)
        → i < n
        → r.capacity ≤ p + i
        → get_elem? (copy_out r p n) i ≡ get_elem? r.samples (p + i - r.capacity)
    unfolding copy_out
    get_elem?-copy_out_wrapped i h k = elim (Bool-cases (leb (p + n) r.capacity)) [
      | inl e ↦ absurd (omega (arith, leb→le _ _ e))
      | inr e ↦
          rw (e, copy_out)
            (Slices.get_elem?-append_right (slice r.samples p (r.capacity - p))
                (take (n - (r.capacity - p)) r.samples) i (omega (arith, head))
              ∙ Slices.get_elem?-take (n - (r.capacity - p)) r.samples _ (omega (arith, head))
              ∙ ap (get_elem? r.samples) (omega (arith, head)))
    ]
      where
        head : length (slice r.samples p (r.capacity - p)) ≡ r.capacity - p
        head =
            omega (arith, length-take (r.capacity - p) (drop p r.samples), length-drop p r.samples)

  module _ {r : RingBuffer A} {stream : List A} (t : Tracks r stream) (start n : ℕ)
      (old : r.absolute_sample_count ≤ start + r.capacity)
      (new : start + n ≤ r.absolute_sample_count) where
    copied : List A
    copied = copy_out r (start % r.capacity) n

    copy_out-elem : (i : ℕ) → i < n → get_elem? copied i ≡ get_elem? stream (start + i)
    unfolding copied
    copy_out-elem i h = elim (dec_lt (start % r.capacity + i) r.capacity) [
      | yes s ↦
          get_elem?-copy_out_ahead r (start % r.capacity) n t.size inside (omega arith) i h s
          ∙ ap (get_elem? r.samples) (sym (mod_short r.capacity start i s))
          ∙ t.resident (start + i) (omega arith) (omega arith)
      | no s ↦
          get_elem?-copy_out_wrapped r (start % r.capacity) n t.size inside (omega arith) i h
            (omega arith)
          ∙ ap (get_elem? r.samples)
              (sym (mod_long r.capacity start i t.roomy (omega arith) (omega arith)))
          ∙ t.resident (start + i) (omega arith) (omega arith)
    ]
      where
        inside : start % r.capacity < r.capacity
        inside = mod-lt start t.roomy

    -- A copy of a window that is in the ring is the stream's window.
    pub copy_out-window : copy_out r (start % r.capacity) n ≡ slice stream start n
    unfolding copied
    copy_out-window =
        eq_of_get_elem? (copy_out r (start % r.capacity) n) (slice stream start n)
          (omega
            (arith, size, length-take n (drop start stream), length-drop start stream, t.counted))
          (λ i h.
            copy_out-elem i (omega (arith, size))
            ∙ sym (
                Slices.get_elem?-take n (drop start stream) i (omega (arith, size))
                ∙ Slices.get_elem?-drop start stream i))
      where
        size : length (copy_out r (start % r.capacity) n) ≡ n
        size = length-copy_out r (start % r.capacity) n t.size (mod-lt start t.roomy) (omega arith)

-- The test of `extract_by_offset`: the window is empty, evicted or not yet written.
outside-test :
    (n start old count : ℕ)
    → 0 < n
    → old ≤ start
    → start + n ≤ count
    → (n == 0 || (ltb start old || ltb count (start + n))) ≡ false
outside-test n start old count h k l = ground arith

outside-test_true :
    (n start old count : ℕ)
    → (n ≡ 0) ⊎ (start < old) ⊎ (count < start + n)
    → (n == 0 || (ltb start old || ltb count (start + n))) ≡ true
outside-test_true n start old count h = ground arith

module _ {ℓ} {A : Type ℓ} {r : RingBuffer A} {stream : List A} (t : Tracks r stream)
    (start n : ℕ) where
  -- A window of at least one sample that is wholly in the ring is returned, and its samples are
  -- the stream's samples from `start` on.
  pub extract_by_offset-window :
      0 < n
      → r.absolute_sample_count ≤ start + r.capacity
      → start + n ≤ r.absolute_sample_count
      → extract_by_offset r (pos start) n
        ≡ some (slice stream start n, overlapping_all start (start + n) (gap_sources r))
  unfolding extract_by_offset
  extract_by_offset-window h old new = rw (
    outside-test n start (r.absolute_sample_count - r.capacity) r.absolute_sample_count h
        (omega arith) new,
    copy_out-window t start n old new,
  )

  -- A window that is empty, or of which the first sample has been overwritten or the last has not
  -- been written, is refused.
  pub extract_by_offset-none :
      (n ≡ 0)
        ⊎ (start + r.capacity < r.absolute_sample_count)
        ⊎ (r.absolute_sample_count < start + n)
      → extract_by_offset r (pos start) n ≡ none
  unfolding extract_by_offset
  extract_by_offset-none h = rw (
      outside-test_true n start (r.absolute_sample_count - r.capacity) r.absolute_sample_count
        (omega arith))
