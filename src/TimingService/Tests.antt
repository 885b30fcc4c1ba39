-- ===== src/TimingService/Tests.antt =====
-- The timing service on small examples.
use wspr_recorder.Common.{true, false, none, some, List, [], ◌∷◌, ◌≡◌, refl, arith}
use wspr_recorder.Common.Int.{negsuc}
use wspr_recorder.TimingService.{
  ChronyStatus, HfTimeStdStatus, TimingService, choose, get_best_uncertainty, gps_local,
}
use wspr_recorder.TimingService.Tiers.{choose-get_best_uncertainty}
use wspr_recorder.TimingService.Freshness.{
  Question, Remembers, AllFresh, get_chrony_status-AllFresh,
}

abbrev gps : ChronyStatus
gps = record {
  ref_id = "GPS";
  stratum = 1;
  system_time_offset = negsuc 4;
  root_delay = 20;
  root_dispersion = 300;
  leap_status = "Normal";
}

abbrev quiet : HfTimeStdStatus
quiet = record {
  is_active = true;
  authority = "rtp";
  fusion_d_clock = none;
  fusion_quality_grade = none;
  fusion_uncertainty = none;
}

gps_chosen : (choose none (some gps) (some quiet)).source ≡ gps_local
unfolding choose
gps_chosen = refl

choose-get_best_uncertainty_example :
    (choose none (some gps) (some quiet)).uncertainty ≡ get_best_uncertainty (some gps) (some quiet)
choose-get_best_uncertainty_example =
    choose-get_best_uncertainty none (some gps) (some quiet) refl refl

abbrev service : TimingService
service = record {
  enable_chrony = true;
  enable_hf_timestd = true;
  authority = "auto";
  last_chrony_status = none;
  last_chrony_query = 0;
  last_hf_status = none;
  last_hf_query = 0;
}

-- An answer, a question within its ten seconds, and a failure past them.
abbrev questions : List Question
questions = (false, (1000, some gps)) ∷ (false, (9000000, none)) ∷ (true, (9500000, none)) ∷ []

service-Remembers : Remembers [] service
service-Remembers ch p = absurd (ground arith)

get_chrony_status-AllFresh_example : AllFresh [] questions service
get_chrony_status-AllFresh_example =
    get_chrony_status-AllFresh [] 1000 questions service service-Remembers tt
      (omega arith, (omega arith, (omega arith, tt)))
