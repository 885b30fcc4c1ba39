-- ===== src/RingBuffer/Tracks.antt =====
-- The ring holds the last `capacity` samples of the stream: the invariant, and what keeps it.
use native.Mathlib.Nat.{mod-add-mod, mod-eq_of_lt, mod-eq-sub-mod, mod-lt}
use native.Mathlib.Decide.{dec_lt}
use mathlib.Core.List.{append-nil}
use mathlib.Core.Bool.{◌&&◌, false}
use wspr_recorder.Common.{
  ℕ, ◌+◌, ◌-◌, ◌%◌, ◌≤◌, ◌<◌, ◌≡◌, refl, sym, ◌∙◌, ap, List, [], ◌∷◌, ◌++◌, arith, ltb, ◌==◌,
  length, get_elem?, length-append, length-replicate,
}
use wspr_recorder.Common.Slices
use wspr_recorder.Common.Results.{ok}
use wspr_recorder.Common.Int.{ℤ}
use wspr_recorder.RingBuffer.{
  RingBuffer, GapEvent, init, clear, record_gap, close_minute, store, write_samples,
}
use wspr_recorder.RingBuffer.Store.{
  length-store, get_elem?-store_ahead, get_elem?-store_wrapped, get_elem?-store_ahead_of,
  get_elem?-store_below,
}

-- `stream` is every sample written since the start or the last `clear`, gap fill included.
pub record Tracks {ℓ} {A : Type ℓ} (r : RingBuffer A) (stream : List A) : Type ℓ where
  pub roomy : 0 < r.capacity
  pub size : length r.samples ≡ r.capacity
  pub counted : r.absolute_sample_count ≡ length stream
  pub positioned : r.write_pos ≡ r.absolute_sample_count % r.capacity
  pub resident :
      (k : ℕ)
      → k < r.absolute_sample_count
      → r.absolute_sample_count ≤ k + r.capacity
      → get_elem? r.samples (k % r.capacity) ≡ get_elem? stream k

-- Stepping `d` on round a ring of size `n`, before its end and round it.
pub mod_short : (n a d : ℕ) → a % n + d < n → (a + d) % n ≡ a % n + d
mod_short n a d h = sym (mod-add-mod a n d) ∙ mod-eq_of_lt h

pub mod_long : (n a d : ℕ) → 0 < n → d ≤ n → n ≤ a % n + d → (a + d) % n ≡ a % n + d - n
mod_long n a d h k l =
    sym (mod-add-mod a n d) ∙ mod-eq-sub-mod l ∙ mod-eq_of_lt (omega (arith, mod-lt a h))

fits-test : (cap p n : ℕ) → p < cap → n ≤ cap → (ltb cap (p + n) && ltb cap (n - (cap - p))) ≡ false
fits-test cap p n h k = ground arith

test_ne_zero : (n : ℕ) → 0 < n → (n == 0) ≡ false
test_ne_zero n h = ground arith

write_samples-nil {ℓ} : {A : Type ℓ} (r : RingBuffer A) → write_samples r [] ≡ ok r
unfolding write_samples
write_samples-nil r = refl

module _ {ℓ} {A : Type ℓ} {r : RingBuffer A} {stream : List A} (t : Tracks r stream) (xs : List A)
    (fits : length xs ≤ r.capacity) where
  stored : List A
  stored = store r.capacity r.samples r.write_pos xs

  inside : r.write_pos < r.capacity
  inside = omega (arith, t.positioned, mod-lt r.absolute_sample_count t.roomy)

  -- A new sample, `d` behind the first one written.
  resident_new :
      (d : ℕ)
      → d < length xs
      → get_elem? stored ((r.absolute_sample_count + d) % r.capacity) ≡ get_elem? xs d
  unfolding stored
  resident_new d h = elim (dec_lt (r.absolute_sample_count % r.capacity + d) r.capacity) [
    | yes e ↦
        ap (get_elem? stored) (mod_short r.capacity r.absolute_sample_count d e)
        ∙ get_elem?-store_ahead r.capacity r.samples r.write_pos xs t.size inside fits _
            (omega (arith, t.positioned)) (omega (arith, t.positioned)) e
        ∙ ap (get_elem? xs) (omega (arith, t.positioned))
    | no e ↦
        ap (get_elem? stored)
          (mod_long r.capacity r.absolute_sample_count d t.roomy (omega arith) (omega arith))
        ∙ get_elem?-store_wrapped r.capacity r.samples r.write_pos xs t.size inside fits _
            (omega (arith, t.positioned))
        ∙ ap (get_elem? xs) (omega (arith, t.positioned))
  ]

  -- An old sample, `d` before the first one written, that the write does not reach.
  resident_old :
      (k d : ℕ)
      → r.absolute_sample_count ≡ k + d
      → 0 < d
      → d + length xs ≤ r.capacity
      → get_elem? stored (k % r.capacity) ≡ get_elem? r.samples (k % r.capacity)
  unfolding stored
  resident_old k d e h l = elim (dec_lt (k % r.capacity + d) r.capacity) [
    | yes s ↦
        get_elem?-store_below r.capacity r.samples r.write_pos xs t.size inside fits _
          (omega (arith, placed, mod_short r.capacity k d s))
          (omega (arith, placed, mod_short r.capacity k d s))
    | no s ↦
        let back = mod_long r.capacity k d t.roomy (omega arith) (omega arith) in
        get_elem?-store_ahead_of r.capacity r.samples r.write_pos xs t.size inside fits _
          (omega (arith, placed, back))
  ]
    where
      placed : r.write_pos ≡ (k + d) % r.capacity
      placed = t.positioned ∙ ap (λ n. n % r.capacity) e

  resident-append :
      (k : ℕ)
      → k < r.absolute_sample_count + length xs
      → r.absolute_sample_count + length xs ≤ k + r.capacity
      → get_elem? stored (k % r.capacity) ≡ get_elem? (stream ++ xs) k
  resident-append k h l = elim (dec_lt k r.absolute_sample_count) [
    | yes old ↦
        resident_old k (r.absolute_sample_count - k) (omega arith) (omega arith) (omega arith)
        ∙ t.resident k old (omega arith)
        ∙ sym (Slices.get_elem?-append_left stream xs k (omega (arith, t.counted)))
    | no new ↦
        let d = k - r.absolute_sample_count in
        ap (λ n. get_elem? stored (n % r.capacity)) {x = k} {y = r.absolute_sample_count + d}
          (omega arith)
        ∙ resident_new d (omega arith)
        ∙ sym (
            Slices.get_elem?-append_right stream xs k (omega (arith, t.counted))
            ∙ ap (get_elem? xs) (omega (arith, t.counted)))
  ]

  pub written : RingBuffer A
  unfolding stored
  written = record r {
    samples = stored;
    write_pos = (r.write_pos + length xs) % r.capacity;
    absolute_sample_count = r.absolute_sample_count + length xs;
    current_minute_sample_count = r.current_minute_sample_count + length xs;
  }

  pub written-Tracks : Tracks written (stream ++ xs)
  unfolding written stored
  written-Tracks = record {
    roomy = t.roomy;
    size = length-store r.capacity r.samples r.write_pos xs ∙ t.size;
    counted = omega (arith, length-append stream xs, t.counted);
    positioned =
        ap (λ n. (n + length xs) % r.capacity) t.positioned
        ∙ mod-add-mod r.absolute_sample_count r.capacity (length xs);
    resident = resident-append;
  }

  pub write_samples-written : 0 < length xs → write_samples r xs ≡ ok written
  unfolding write_samples written stored
  write_samples-written h =
      rw (test_ne_zero (length xs) h, fits-test r.capacity r.write_pos (length xs) inside fits)

-- Every write of at most `capacity` samples to a ring that tracks a stream succeeds, and the ring
-- then tracks the longer stream. The count of the open minute grows by as many samples; the marks and
-- the capacity stay.
pub write_samples-Tracks {ℓ} :
    {A : Type ℓ} {r : RingBuffer A} {stream : List A}
    → Tracks r stream
    → (xs : List A) → length xs ≤ r.capacity
    → (r' : RingBuffer A) × (write_samples r xs ≡ ok r')
      × Tracks r' (stream ++ xs)
      × (r'.current_minute_sample_count ≡ r.current_minute_sample_count + length xs)
      × (r'.minute_marks ≡ r.minute_marks)
      × (r'.capacity ≡ r.capacity)
unfolding written
write_samples-Tracks {r = r} {stream = stream} t [] fits =
    (r, write_samples-nil r, rw append-nil t, omega arith, refl, refl)
write_samples-Tracks t (x ∷ xs) fits = (
  written t (x ∷ xs) fits,
  write_samples-written t (x ∷ xs) fits (omega arith),
  written-Tracks t (x ∷ xs) fits,
  refl,
  refl,
  refl,
)

-- A new ring, at a positive sample rate, holds the empty stream.
pub init-Tracks {ℓ} :
    {A : Type ℓ} (silence : A) (seconds sample_rate : ℕ)
    → 0 < sample_rate
    → Tracks (init silence seconds sample_rate) []
unfolding init
init-Tracks silence seconds sample_rate h = record {
  roomy = grind arith;
  size = length-replicate _ silence;
  counted = refl;
  positioned = omega arith;
  resident = λ k l m. absurd (omega arith);
}

-- A ring that tracks a stream holds the empty one once it is cleared.
pub clear-Tracks {ℓ} :
    {A : Type ℓ} {r : RingBuffer A} {stream : List A} (silence : A)
    → Tracks r stream
    → Tracks (clear silence r) []
unfolding clear
clear-Tracks {r = r} silence t = record {
  roomy = t.roomy;
  size = length-replicate (length r.samples) silence ∙ t.size;
  counted = refl;
  positioned = omega arith;
  resident = λ k l m. absurd (omega arith);
}

pub record_gap-Tracks {ℓ} :
    {A : Type ℓ} {r : RingBuffer A} {stream : List A} (gap : GapEvent)
    → Tracks r stream
    → Tracks (record_gap r gap) stream
unfolding record_gap
record_gap-Tracks gap t = record {
  roomy = t.roomy;
  size = t.size;
  counted = t.counted;
  positioned = t.positioned;
  resident = t.resident;
}

pub close_minute-Tracks {ℓ} :
    {A : Type ℓ} {r : RingBuffer A} {stream : List A} (wallclock : ℤ) (rtp : ℕ)
    → Tracks r stream
    → Tracks (close_minute r wallclock rtp) stream
unfolding close_minute
close_minute-Tracks wallclock rtp t = record {
  roomy = t.roomy;
  size = t.size;
  counted = t.counted;
  positioned = t.positioned;
  resident = t.resident;
}
