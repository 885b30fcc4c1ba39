-- ===== src/RingBuffer/Tests.antt =====
-- The ring buffer on small inputs: a ring of two minutes at one sample a second.
use wspr_recorder.Common.{
  ℕ, ◌+◌, ◌≤◌, ◌<◌, ◌≡◌, refl, List, [], ◌∷◌, ◌++◌, arith, some, get_elem?, ◌%◌, zero, suc,
}
use wspr_recorder.Common.Int.{pos}
use wspr_recorder.Common.Results.{ok}
use wspr_recorder.RingBuffer.{
  RingBuffer, GapEvent, init, slice, write_samples, extract_by_offset, overlapping_all, gap_sources,
}
use wspr_recorder.RingBuffer.Tracks.{Tracks, init-Tracks, write_samples-Tracks}
use wspr_recorder.RingBuffer.Extract.{extract_by_offset-window}

abbrev two_minutes : RingBuffer ℕ
two_minutes = init 0 90 1

write_samples-Tracks_example :
    (r' : RingBuffer ℕ) × (write_samples two_minutes (5 ∷ 6 ∷ 7 ∷ []) ≡ ok r')
    × Tracks r' ([] ++ 5 ∷ 6 ∷ 7 ∷ [])
    × (r'.current_minute_sample_count ≡ two_minutes.current_minute_sample_count + 3)
    × (r'.minute_marks ≡ two_minutes.minute_marks)
    × (r'.capacity ≡ two_minutes.capacity)
unfolding init
write_samples-Tracks_example =
    write_samples-Tracks (init-Tracks 0 90 1 (omega arith)) (5 ∷ 6 ∷ 7 ∷ []) (omega arith)

-- A ring of three samples that has wrapped: the stream is 1 to 5, of which 3 to 5 remain, and a gap
-- was filled at sample 4.
abbrev pub gap_at : ℕ → GapEvent
gap_at position = record {
  position_samples = position;
  duration_samples = 1;
  rtp_sequence_before = 0;
  rtp_sequence_after = 0;
  timestamp_utc = "";
}

abbrev pub wrapped : RingBuffer ℕ
wrapped = record {
  capacity_minutes = 1;
  sample_rate = 1;
  samples_per_minute = 60;
  samples = 4 ∷ 5 ∷ 3 ∷ [];
  capacity = 3;
  write_pos = 2;
  absolute_sample_count = 5;
  current_minute_start_pos = 0;
  current_minute_sample_count = 5;
  current_minute_gaps = gap_at 3 ∷ [];
  minute_marks = [];
}

abbrev pub five : List ℕ
five = 1 ∷ 2 ∷ 3 ∷ 4 ∷ 5 ∷ []

resident-wrapped :
    (k : ℕ) → k < 5 → 5 ≤ k + 3 → get_elem? (4 ∷ 5 ∷ 3 ∷ []) (k % 3) ≡ get_elem? five k
resident-wrapped zero h l = absurd (omega arith)
resident-wrapped (suc zero) h l = absurd (omega arith)
resident-wrapped (suc (suc zero)) h l = refl
resident-wrapped (suc (suc (suc zero))) h l = refl
resident-wrapped (suc (suc (suc (suc zero)))) h l = refl
resident-wrapped (suc (suc (suc (suc (suc k))))) h l = absurd (omega arith)

pub wrapped-Tracks : Tracks wrapped five
wrapped-Tracks = record {
  roomy = omega arith;
  size = refl;
  counted = refl;
  positioned = refl;
  resident = resident-wrapped;
}

extract_by_offset-window_example :
    extract_by_offset wrapped (pos 3) 2
    ≡ some (slice five 3 2, overlapping_all 3 5 (gap_sources wrapped))
extract_by_offset-window_example =
    extract_by_offset-window wrapped-Tracks 3 2 (omega arith) (omega arith) (omega arith)
