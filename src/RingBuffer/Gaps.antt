-- ===== src/RingBuffer/Gaps.antt =====
-- The gap events of an extracted window: each lies in the window, and none that begins in it is
-- left out.
use mathlib.Core.List.{Memᴰ}
use mathlib.Core.List.Memᴰ
use mathlib.Core.Path.{subst}
use mathlib.Core.Bool.{◌&&◌, true}
use wspr_recorder.Common.{
  ℕ, ◌+◌, ◌-◌, ◌≤◌, ◌<◌, ◌≡◌, refl, List, [], ◌∷◌, arith, leb, ltb, Bool-cases, inl, inr,
}
use wspr_recorder.RingBuffer.{RingBuffer, GapEvent, overlapping, overlapping_all}

window-test : (lo hi k : ℕ) → lo ≤ k → k < hi → (leb lo k && ltb k hi) ≡ true
window-test lo hi k h l = ground arith

-- The gap as the window reports it.
abbrev pub rebased : ℕ → ℕ → GapEvent → GapEvent
rebased lo base g = record g { position_samples = base + g.position_samples - lo }

-- What a window from `lo` to `hi` reports: a gap that a source holds and that begins in the window,
-- at its distance from the window's start.
abbrev pub Reported : (lo hi : ℕ) → List (ℕ × List GapEvent) → GapEvent → Type 0
Reported lo hi sources x =
    (base : ℕ) × (held : List GapEvent) × (g : GapEvent) × Memᴰ (base, held) sources
    × Memᴰ g held
    × (lo ≤ base + g.position_samples)
    × (base + g.position_samples < hi)
    × (x ≡ rebased lo base g)

overlapping-complete :
    (lo hi base : ℕ) (g : GapEvent) (gs : List GapEvent)
    → Memᴰ g gs
    → lo ≤ base + g.position_samples
    → base + g.position_samples < hi
    → Memᴰ (rebased lo base g) (overlapping lo hi base gs)
unfolding overlapping
overlapping-complete lo hi base g [] m h k = absurd (Memᴰ.not-nil m)
overlapping-complete lo hi base g (g' ∷ gs) (Memᴰ.head e) h k =
    subst (λ x. Memᴰ (rebased lo base g) (overlapping lo hi base (x ∷ gs))) e
      (rw (window-test lo hi (base + g.position_samples) h k) (Memᴰ.head refl))
overlapping-complete lo hi base g (g' ∷ gs) (Memᴰ.tail m) h k =
    elim (Bool-cases (leb lo (base + g'.position_samples) && ltb (base + g'.position_samples) hi)) [
      | inl e ↦ rw e (Memᴰ.tail (overlapping-complete lo hi base g gs m h k))
      | inr e ↦ rw e (overlapping-complete lo hi base g gs m h k)
    ]

pub overlapping_all-complete :
    (lo hi base : ℕ) (g : GapEvent) (gs : List GapEvent) (sources : List (ℕ × List GapEvent))
    → Memᴰ (base, gs) sources
    → Memᴰ g gs
    → lo ≤ base + g.position_samples
    → base + g.position_samples < hi
    → Memᴰ (rebased lo base g) (overlapping_all lo hi sources)
unfolding overlapping_all
overlapping_all-complete lo hi base g gs [] n m h k = absurd (Memᴰ.not-nil n)
overlapping_all-complete lo hi base g gs ((b', gs') ∷ sources) (Memᴰ.head e) m h k =
    subst
      (λ (x : ℕ × List GapEvent). Memᴰ (rebased lo base g) (overlapping_all lo hi (x ∷ sources))) e
      (Memᴰ.append_left (overlapping_all lo hi sources)
        (overlapping-complete lo hi base g gs m h k))
overlapping_all-complete lo hi base g gs ((b', gs') ∷ sources) (Memᴰ.tail n) m h k =
    Memᴰ.append_right (overlapping lo hi b' gs')
      (overlapping_all-complete lo hi base g gs sources n m h k)
