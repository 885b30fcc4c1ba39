-- ===== src/TimingService.antt =====
-- wspr_recorder/timing_service.py: the sources of time and the choice between them. Durations are
-- whole microseconds, and an uncertainty, which halves a delay, whole halves of one. What chronyc
-- prints, what the service hf-timestd answers and the authority's file are arguments.
pub mod Tiers
pub mod Freshness
mod Tests
use Prim.Native.String.{String}
use text.Mathlib.Text.{◌==◌ as str_eq}
use wspr_recorder.Common.{
  ℕ, ◌+◌, ◌-◌, ◌*◌, Bool, true, false, not, ◌&&◌, ◌||◌, Option, none, some, List, [], ◌∷◌, ltb, leb,
  ◌==◌, if◌then◌else◌,
}
use wspr_recorder.Common.Dict.{get_or}
use wspr_recorder.Common.Int.{ℤ, pos_part, neg_part, ◌+ℤ◌, ◌-ℤ◌}

-- `TimingQuality`, from the best tier down.
pub data Quality : Type 0 where
  tier_a : Quality
  tier_b : Quality
  tier_c : Quality
  tier_d : Quality

-- `from_uncertainty_ms`
unfoldable pub from_uncertainty : ℕ → Quality
from_uncertainty u =
    if ltb u 2000
    then tier_a
    else (if ltb u 20000 then tier_b else (if ltb u 200000 then tier_c else tier_d))

-- `_TIER_FOR_T_LEVEL`, of the number of a level from T0 to T6, or of another text.
unfoldable pub tier_for_t_level : String → Quality
tier_for_t_level t =
    if str_eq t "T6" || str_eq t "T5"
    then tier_a
    else (if str_eq t "T4" || str_eq t "T3"
        then tier_b
        else (if str_eq t "T2" || str_eq t "T1" then tier_c else tier_d))

pub record ChronyStatus : Type 0 where
  pub ref_id : String
  pub stratum : ℕ
  pub system_time_offset : ℤ
  pub root_delay : ℕ
  pub root_dispersion : ℕ
  pub leap_status : String

-- `estimated_uncertainty_ms`, in halves of a microsecond.
abbrev pub estimated_uncertainty : ChronyStatus → ℕ
estimated_uncertainty ch = 2 * ch.root_dispersion + ch.root_delay

-- `ref_id in ('PPS', 'GPS', 'NIST')`
abbrev pub is_primary : String → Bool
is_primary r = str_eq r "PPS" || str_eq r "GPS" || str_eq r "NIST"

-- `ChronyStatus.quality_tier`
unfoldable pub quality_tier : ChronyStatus → Quality
quality_tier ch =
    let u = estimated_uncertainty ch in
    if is_primary ch.ref_id && ltb u 2000
    then tier_a
    else (if leb ch.stratum 2 && ltb u 20000
        then tier_b
        else (if leb ch.stratum 4 && ltb u 200000 then tier_c else tier_d))

-- The grade's letter stands for its tier.
pub record HfTimeStdStatus : Type 0 where
  pub is_active : Bool
  pub authority : String
  pub fusion_d_clock : Option ℤ
  pub fusion_quality_grade : Option Quality
  pub fusion_uncertainty : Option ℕ

-- `HFTimeStdStatus.is_locked`
unfoldable pub is_locked : HfTimeStdStatus → Bool
is_locked hf = elim hf.fusion_quality_grade [
  | none ↦ false
  | some tier_a ↦ true
  | some tier_b ↦ true
  | some tier_c ↦ false
  | some tier_d ↦ false
]

-- What is read of the authority's file.
pub record Snapshot : Type 0 where
  pub offset_usable : Bool
  pub t_level_active : Option String
  pub sigma : Option ℕ
  pub offset : ℤ

pub data Source : Type 0 where
  system : Source
  hf_timestd : String → Source
  hf_fusion : Source
  gps_local : Source
  ntp : Source
  rtp_authority_expected_gps : Source

-- The part of `TimingMetadata` that the choice of a source sets: `authority_offset` is set where the
-- authority's offset is used.
pub record Choice : Type 0 where
  pub source : Source
  pub quality : Quality
  pub uncertainty : ℕ
  pub clock_offset : Option ℤ
  pub authority_offset : Option ℤ

abbrev pub default_choice : Choice
default_choice = record {
  source = system;
  quality = tier_d;
  uncertainty = 2000000;
  clock_offset = none;
  authority_offset = none;
}

-- The choice of a chrony that names a primary reference, or another.
abbrev pub chrony_choice : Source → ChronyStatus → Choice
chrony_choice source ch = record {
  source = source;
  quality = quality_tier ch;
  uncertainty = estimated_uncertainty ch;
  clock_offset = some ch.system_time_offset;
  authority_offset = none;
}

-- What chrony says where nothing better is known: `otherwise` is what has been chosen so far.
unfoldable pub from_chrony : Choice → Option ChronyStatus → Choice
unfolding quality_tier
from_chrony otherwise none = otherwise
from_chrony otherwise (some ch) =
    if is_primary ch.ref_id
    then chrony_choice gps_local ch
    else (if ltb ch.stratum 16 then chrony_choice ntp ch else otherwise)

-- Python's `u or 5.0`: no uncertainty, or none that is not 0, counts as 5 ms.
abbrev pub or_5_ms : Option ℕ → ℕ
or_5_ms none = 10000
or_5_ms (some u) = if u == 0 then 10000 else u

unfoldable pub from_hf : Option ChronyStatus → HfTimeStdStatus → Choice
unfolding from_chrony is_locked
from_hf chrony hf =
    let waiting : Choice = record default_choice { source = rtp_authority_expected_gps } in
    if str_eq hf.authority "fusion" && is_locked hf
    then record {
      source = hf_fusion;
      quality = get_or tier_b hf.fusion_quality_grade;
      uncertainty = or_5_ms hf.fusion_uncertainty;
      clock_offset = hf.fusion_d_clock;
      authority_offset = none;
    }
    else (if str_eq hf.authority "rtp"
        then from_chrony waiting chrony
        else from_chrony default_choice chrony)

-- `snap.t_level_active or 'T?'`
abbrev pub level_name : Option String → String
level_name none = "T?"
level_name (some t) = if str_eq t "" then "T?" else t

-- The choice in `get_timing_metadata`.
unfoldable pub choose : Option Snapshot → Option ChronyStatus → Option HfTimeStdStatus → Choice
unfolding from_chrony from_hf tier_for_t_level
choose snap chrony hf =
    let fallback : Choice = elim hf [
      | none ↦ from_chrony default_choice chrony
      | some h ↦ if h.is_active then from_hf chrony h else from_chrony default_choice chrony
    ] in
    elim snap [
      | none ↦ fallback
      | some s ↦
          if s.offset_usable
          then record {
            source = hf_timestd (level_name s.t_level_active);
            quality = tier_for_t_level (level_name s.t_level_active);
            uncertainty = get_or 2000000 s.sigma;
            clock_offset = some s.offset;
            authority_offset = some s.offset;
          }
          else fallback
    ]

-- The corrected time of a wall-clock time: the authority's offset is added, chrony's subtracted.
unfoldable pub corrected : Choice → ℤ → Option ℤ
corrected c t = elim c.authority_offset [
  | some off ↦ some (t +ℤ off)
  | none ↦ elim c.clock_offset [ none ↦ none | some off ↦ some (t -ℤ off) ]
]

pub record TimingService : Type 0 where
  pub enable_chrony : Bool
  pub enable_hf_timestd : Bool
  pub authority : String
  pub last_chrony_status : Option ChronyStatus
  pub last_chrony_query : ℕ
  pub last_hf_status : Option HfTimeStdStatus
  pub last_hf_query : ℕ

-- `get_chrony_status`, at `now`: `answer` is what chronyc's output says, or none where it fails or
-- does not parse.
unfoldable pub get_chrony_status :
    (force_refresh : Bool) (now : ℕ)
    → Option ChronyStatus
    → TimingService
    → Option ChronyStatus × TimingService
get_chrony_status force_refresh now answer s =
    let asked : Option ChronyStatus × TimingService = elim answer [
      | none ↦ (none, s)
      | some ch ↦ (some ch, record s { last_chrony_status = some ch; last_chrony_query = now })
    ] in
    if s.enable_chrony
    then elim s.last_chrony_status [
      | none ↦ asked
      | some ch ↦
          if not force_refresh && ltb (now - s.last_chrony_query) 10000000
          then (some ch, s)
          else asked
    ]
    else (none, s)

-- `get_hf_status`: `configured` is the authority in the configuration of hf-timestd, `active` whether
-- its service answers, and `fusion` its latest fusion.
unfoldable pub get_hf_status :
    (force_refresh : Bool) (now : ℕ) (configured : Option String) (active : Bool)
    → Option (Option ℤ × (Option Quality × Option ℕ))
    → TimingService
    → Option HfTimeStdStatus × TimingService
get_hf_status force_refresh now configured active fusion s =
    let authority = if str_eq s.authority "auto" then get_or "rtp" configured else s.authority in
    let quiet : HfTimeStdStatus = record {
      is_active = active;
      authority = authority;
      fusion_d_clock = none;
      fusion_quality_grade = none;
      fusion_uncertainty = none;
    } in
    let status : HfTimeStdStatus =
      if active && str_eq authority "fusion"
      then elim fusion [
        | none ↦ quiet
        | some (d_clock, (grade, uncertainty)) ↦ record quiet {
          fusion_d_clock = d_clock;
          fusion_quality_grade = grade;
          fusion_uncertainty = uncertainty;
        }
      ]
      else quiet in
    let asked : Option HfTimeStdStatus × TimingService =
      (some status, record s { last_hf_status = some status; last_hf_query = now }) in
    if s.enable_hf_timestd
    then elim s.last_hf_status [
      | none ↦ asked
      | some hf ↦
          if not force_refresh && ltb (now - s.last_hf_query) 60000000 then (some hf, s) else asked
    ]
    else (none, s)

-- `check_clock_health`, of a fresh answer of chrony: the leap status is stripped.
unfoldable pub clock_is_healthy : Option ChronyStatus → Bool
clock_is_healthy none = false
clock_is_healthy (some ch) =
    not (str_eq ch.leap_status "Not synchronised" || ch.stratum == 0)
    && ltb (pos_part ch.system_time_offset + neg_part ch.system_time_offset) 1000000

pub data Level : Type 0 where
  l1 : Level
  l2 : Level
  l3 : Level
  l4 : Level
  l5 : Level

abbrev pub is_fused : Option HfTimeStdStatus → Bool
is_fused none = false
is_fused (some hf) = hf.is_active && str_eq hf.authority "fusion" && is_locked hf

-- `detect_timing_level`
unfoldable pub detect_timing_level :
    (authority : String) → Option ChronyStatus → Option HfTimeStdStatus → Level
unfolding is_locked
detect_timing_level authority chrony hf =
    let precise : Bool = elim chrony [
      | none ↦ false
      | some ch ↦
          (str_eq ch.ref_id "GPS" || str_eq ch.ref_id "PPS") && ltb (estimated_uncertainty ch) 2000
    ] in
    let synced : Bool = elim chrony [ none ↦ false | some ch ↦ ltb ch.stratum 16 ] in
    if str_eq authority "rtp"
    then l5
    else (if precise then l4 else (if is_fused hf then l3 else (if synced then l2 else l1)))

-- `_get_best_uncertainty`
unfoldable pub get_best_uncertainty : Option ChronyStatus → Option HfTimeStdStatus → ℕ
unfolding is_locked
get_best_uncertainty chrony hf =
    let by_chrony : ℕ = elim chrony [ none ↦ 2000000 | some ch ↦ estimated_uncertainty ch ] in
    elim hf [
      | none ↦ by_chrony
      | some h ↦ if is_fused (some h) then or_5_ms h.fusion_uncertainty else by_chrony
    ]
