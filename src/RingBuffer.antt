-- ===== src/RingBuffer.antt =====
-- wspr_recorder/ring_buffer.py: the circular sample buffer of one band, with its minute marks and
-- gap events, over any type of samples. The numpy array is a list of `capacity` samples; a slice
-- assignment is `assign`, a slice read `slice`. `GapEvent` is of wspr_recorder/band_recorder.py.
pub mod Store
pub mod Tracks
pub mod Extract
pub mod Gaps
pub mod Tests
use Prim.Native.String.{String}
use wspr_recorder.Common.{
  ℕ, ◌+◌, ◌-◌, ◌*◌, ◌/◌, ◌%◌, ◌^◌, max, Bool, ◌&&◌, ◌||◌, Option, none, some, List, [], ◌∷◌, ◌++◌,
  ltb, leb, ◌==◌, if◌then◌else◌, length, take, drop, replicate,
}
use wspr_recorder.Common.Maps.{append_bounded}
use wspr_recorder.Common.Words.{sub_u32}
use wspr_recorder.Common.Slices.{assign}
use wspr_recorder.Common.Int.{ℤ, pos, negsuc, ◌-ℤ◌}
use wspr_recorder.Common.Results.{Result, ok, raise, value_error}

pub record GapEvent : Type 0 where
  pub position_samples : ℕ
  pub duration_samples : ℕ
  pub rtp_sequence_before : ℕ
  pub rtp_sequence_after : ℕ
  pub timestamp_utc : String

-- `wallclock` is in microseconds since the epoch, the resolution of a `datetime`.
pub record MinuteMark : Type 0 where
  pub ring_position : ℕ
  pub absolute_sample_index : ℕ
  pub wallclock : ℤ
  pub rtp_timestamp : ℕ
  pub gaps : List GapEvent

pub record RingBuffer {ℓ} (A : Type ℓ) : Type ℓ where
  pub capacity_minutes : ℕ
  pub sample_rate : ℕ
  pub samples_per_minute : ℕ
  pub samples : List A
  pub capacity : ℕ
  pub write_pos : ℕ
  pub absolute_sample_count : ℕ
  pub current_minute_start_pos : ℕ
  pub current_minute_sample_count : ℕ
  pub current_minute_gaps : List GapEvent
  pub minute_marks : List MinuteMark

-- `a[p : p + n]`
abbrev pub slice {ℓ} : {A : Type ℓ} → List A → ℕ → ℕ → List A
slice xs p n = take n (drop p xs)

module _ {ℓ} {A : Type ℓ} where
  -- `RingBuffer.__init__`; `np.zeros` is a list of the sample `silence`.
  unfoldable pub init : A → ℕ → ℕ → RingBuffer A
  init silence capacity_seconds sample_rate =
      let minutes = max 2 ((capacity_seconds + 59) / 60) in
      let total = minutes * (sample_rate * 60) in
      record {
        capacity_minutes = minutes;
        sample_rate = sample_rate;
        samples_per_minute = sample_rate * 60;
        samples = replicate total silence;
        capacity = total;
        write_pos = 0;
        absolute_sample_count = 0;
        current_minute_start_pos = 0;
        current_minute_sample_count = 0;
        current_minute_gaps = [];
        minute_marks = [];
      }

  -- The array after `xs` is written at position `p`, round the end.
  unfoldable pub store : ℕ → List A → ℕ → List A → List A
  store capacity buf p xs =
      if leb (p + length xs) capacity
      then assign buf p xs
      else let first_chunk = capacity - p in
        assign (assign buf p (take first_chunk xs)) 0 (drop first_chunk xs)

  -- A write of more than fits makes numpy raise: the second slice is shorter than its source.
  unfoldable pub write_samples : RingBuffer A → List A → Result (RingBuffer A)
  write_samples r xs =
      let n = length xs in
      let end_pos = r.write_pos + n in
      if n == 0
      then ok r
      else if ltb r.capacity end_pos && ltb r.capacity (n - (r.capacity - r.write_pos))
      then raise value_error
      else ok (record r {
        samples = store r.capacity r.samples r.write_pos xs;
        write_pos = end_pos % r.capacity;
        absolute_sample_count = r.absolute_sample_count + n;
        current_minute_sample_count = r.current_minute_sample_count + n;
      })

  unfoldable pub write_zeros : A → RingBuffer A → ℕ → Result (RingBuffer A)
  write_zeros silence r count =
      if count == 0 then ok r else write_samples r (replicate count silence)

  unfoldable pub record_gap : RingBuffer A → GapEvent → RingBuffer A
  record_gap r gap = record r { current_minute_gaps = r.current_minute_gaps ++ (gap ∷ []) }

  unfoldable pub clear : A → RingBuffer A → RingBuffer A
  clear silence r = record r {
    samples = replicate (length r.samples) silence;
    write_pos = 0;
    absolute_sample_count = 0;
    current_minute_start_pos = 0;
    current_minute_sample_count = 0;
    current_minute_gaps = [];
    minute_marks = [];
  }

  -- `timedelta(seconds=60)` is 60 000 000 microseconds.
  unfoldable pub close_minute : RingBuffer A → ℤ → ℕ → RingBuffer A
  close_minute r wallclock rtp_timestamp =
      let mark : MinuteMark = record {
        ring_position = r.current_minute_start_pos;
        absolute_sample_index = r.absolute_sample_count - r.current_minute_sample_count;
        wallclock = wallclock -ℤ pos 60_000_000;
        rtp_timestamp = sub_u32 rtp_timestamp r.samples_per_minute;
        gaps = r.current_minute_gaps;
      } in
      record r {
        minute_marks = append_bounded r.capacity_minutes r.minute_marks mark;
        current_minute_start_pos = r.write_pos;
        current_minute_sample_count = 0;
        current_minute_gaps = [];
      }

  -- The copy that both extractions make: `n` samples from ring position `p` on, round the end.
  unfoldable pub copy_out : RingBuffer A → ℕ → ℕ → List A
  copy_out r p n =
      if leb (p + n) r.capacity
      then slice r.samples p n
      else slice r.samples p (r.capacity - p) ++ take (n - (r.capacity - p)) r.samples

unfoldable pub rebase_minute : ℕ → List GapEvent → List GapEvent
rebase_minute offset [] = []
rebase_minute offset (g ∷ gs) =
    record g { position_samples = offset + g.position_samples } ∷ rebase_minute offset gs

-- The loop of `extract_slice` over the selected marks; `i` is the counter of `enumerate`.
unfoldable pub merge_gaps : ℕ → ℕ → List MinuteMark → List GapEvent
merge_gaps samples_per_minute i [] = []
merge_gaps samples_per_minute i (m ∷ ms) =
    rebase_minute (i * samples_per_minute) m.gaps ++ merge_gaps samples_per_minute (i + 1) ms

-- The inner loop of `extract_by_offset`: the gaps of one source that begin in `[lo, hi)`.
unfoldable pub overlapping : ℕ → ℕ → ℕ → List GapEvent → List GapEvent
overlapping lo hi base [] = []
overlapping lo hi base (g ∷ gs) =
    let abs_pos = base + g.position_samples in
    let rest = overlapping lo hi base gs in
    if leb lo abs_pos && ltb abs_pos hi
    then record g { position_samples = abs_pos - lo } ∷ rest
    else rest

-- The outer loop: `sources` pairs a minute's first absolute index with its gaps.
unfoldable pub overlapping_all : ℕ → ℕ → List (ℕ × List GapEvent) → List GapEvent
overlapping_all lo hi [] = []
overlapping_all lo hi ((base, gs) ∷ sources) =
    overlapping lo hi base gs ++ overlapping_all lo hi sources

abbrev pub mark_sources : List MinuteMark → List (ℕ × List GapEvent)
mark_sources [] = []
mark_sources (m ∷ ms) = (m.absolute_sample_index, m.gaps) ∷ mark_sources ms

-- `marks[-num_minutes:]` of a list with at least that many; `[-0:]` is the whole list.
unfoldable pub select_marks : ℕ → List MinuteMark → List MinuteMark
select_marks num_minutes marks =
    if num_minutes == 0 then marks else drop (length marks - num_minutes) marks

module _ {ℓ} {A : Type ℓ} where
  abbrev pub gap_sources : RingBuffer A → List (ℕ × List GapEvent)
  gap_sources r =
      mark_sources r.minute_marks
      ++ ((r.absolute_sample_count - r.current_minute_sample_count, r.current_minute_gaps) ∷ [])

  -- The first absolute index that is still in the ring.
  abbrev pub oldest_resident : RingBuffer A → ℕ
  oldest_resident r = r.absolute_sample_count - r.capacity

  -- A negative offset lies below `oldest_resident`, which is at least 0.
  unfoldable pub extract_by_offset : RingBuffer A → ℤ → ℕ → Option (List A × List GapEvent)
  extract_by_offset r (negsuc k) n = none
  extract_by_offset r (pos start) n =
      if n == 0 || (ltb start (oldest_resident r) || ltb r.absolute_sample_count (start + n))
      then none
      else some
          (copy_out r (start % r.capacity) n, overlapping_all start (start + n) (gap_sources r))

  -- The samples, the gaps, and the first mark's clock and RTP timestamp. (`selected[0]` of an empty
  -- list raises.)
  unfoldable pub extract_slice : RingBuffer A → ℕ → Result (List A × List GapEvent × ℤ × ℕ)
  extract_slice r num_minutes =
      if ltb (length r.minute_marks) num_minutes
      then raise value_error
      else elim (select_marks num_minutes r.minute_marks) [
        | [] ↦ raise value_error
        | start_mark ∷ rest ↦ ok (
          copy_out r start_mark.ring_position (num_minutes * r.samples_per_minute),
          merge_gaps r.samples_per_minute 0 (start_mark ∷ rest),
          start_mark.wallclock,
          start_mark.rtp_timestamp,
        )
      ]
