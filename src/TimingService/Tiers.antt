-- ===== src/TimingService/Tiers.antt =====
-- What the tiers and the choices of wspr_recorder/timing_service.py claim.
use text.Mathlib.Text.{◌==◌ as str_eq}
use wspr_recorder.Common.{
  ℕ, ◌≤◌, Bool, true, false, ◌||◌, ◌&&◌, Option, none, some, ◌≡◌, refl, sym, arith, subst, ltb,
  if◌then◌else◌, if_intro, option_intro,
}
use wspr_recorder.TimingService.{
  Quality, tier_a, tier_b, tier_c, tier_d, from_uncertainty, ChronyStatus, estimated_uncertainty,
  is_primary, quality_tier, HfTimeStdStatus, is_locked, is_fused, Snapshot, Choice, default_choice,
  from_chrony, rtp_authority_expected_gps, from_hf, choose, get_best_uncertainty,
}

abbrev pub rank : Quality → ℕ
rank tier_a = 0
rank tier_b = 1
rank tier_c = 2
rank tier_d = 3

-- The tier claims no more than the uncertainty.
abbrev pub IsHonest : Choice → Type 0
IsHonest c = rank (from_uncertainty c.uncertainty) ≤ rank c.quality

quality_tier-rank :
    (ch : ChronyStatus)
    → rank (from_uncertainty (estimated_uncertainty ch)) ≤ rank (quality_tier ch)
unfolding from_uncertainty quality_tier
quality_tier-rank ch = ground arith

from_chrony-IsHonest :
    (c : Choice) (chrony : Option ChronyStatus) → IsHonest c → IsHonest (from_chrony c chrony)
unfolding from_chrony
from_chrony-IsHonest c none h = h
from_chrony-IsHonest c (some ch) h =
    if_intro IsHonest (is_primary ch.ref_id) (λ _. quality_tier-rank ch)
      (λ _. if_intro IsHonest (ltb ch.stratum 16) (λ _. quality_tier-rank ch) (λ _. h))

rank_max : (q : Quality) → rank q ≤ 3
rank_max tier_a = omega arith
rank_max tier_b = omega arith
rank_max tier_c = omega arith
rank_max tier_d = omega arith

waiting-IsHonest : (c : Choice) → c.quality ≡ tier_d → IsHonest c
waiting-IsHonest c p =
    subst (λ q. rank (from_uncertainty c.uncertainty) ≤ rank q) (sym p)
      (rank_max (from_uncertainty c.uncertainty))

-- Is the authority's offset used?
abbrev pub is_usable : Option Snapshot → Bool
is_usable none = false
is_usable (some s) = s.offset_usable

-- Does chrony, where there is one, follow a reference?
abbrev pub is_synced : Option ChronyStatus → Bool
is_synced none = true
is_synced (some ch) = is_primary ch.ref_id || ltb ch.stratum 16

from_hf-IsHonest :
    (chrony : Option ChronyStatus) (hf : HfTimeStdStatus)
    → (str_eq hf.authority "fusion" && is_locked hf) ≡ false
    → IsHonest (from_hf chrony hf)
unfolding from_hf
from_hf-IsHonest chrony hf f = rw f (
    if_intro IsHonest (str_eq hf.authority "rtp")
      (λ _.
        from_chrony-IsHonest (record default_choice { source = rtp_authority_expected_gps }) chrony
          (waiting-IsHonest (record default_choice { source = rtp_authority_expected_gps }) refl))
      (λ _. from_chrony-IsHonest default_choice chrony (waiting-IsHonest default_choice refl)))

-- Without the authority's offset and a locked fusion, the tier that goes with a recording claims no
-- more than the uncertainty that goes with it.
pub choose-IsHonest :
    (snap : Option Snapshot) (chrony : Option ChronyStatus) (hf : Option HfTimeStdStatus)
    → is_usable snap ≡ false
    → is_fused hf ≡ false
    → IsHonest (choose snap chrony hf)
unfolding choose
choose-IsHonest snap chrony hf u f =
    option_intro IsHonest snap (λ _. fallback hf f)
      (λ s e. if_intro IsHonest s.offset_usable (λ t. absurd (ground arith)) (λ _. fallback hf f))
  where
    by_chrony : IsHonest (from_chrony default_choice chrony)
    by_chrony = from_chrony-IsHonest default_choice chrony (waiting-IsHonest default_choice refl)

    fallback :
        (h : Option HfTimeStdStatus)
        → is_fused h ≡ false
        → IsHonest (elim h [
          | none ↦ from_chrony default_choice chrony
          | some x ↦ if x.is_active then from_hf chrony x else from_chrony default_choice chrony
        ])
    fallback none g = by_chrony
    fallback (some x) g =
        if_intro IsHonest x.is_active (λ a. from_hf-IsHonest chrony x (ground arith))
          (λ _. by_chrony)

-- Without the authority's offset, and unless chrony follows no reference, the uncertainty that goes
-- with a recording is the one in the status.
pub choose-get_best_uncertainty :
    (snap : Option Snapshot) (chrony : Option ChronyStatus) (hf : Option HfTimeStdStatus)
    → is_usable snap ≡ false
    → is_synced chrony ≡ true
    → (choose snap chrony hf).uncertainty ≡ get_best_uncertainty chrony hf
unfolding choose from_hf from_chrony get_best_uncertainty
choose-get_best_uncertainty snap chrony hf u s = ground arith
