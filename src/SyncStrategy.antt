-- ===== src/SyncStrategy.antt =====
-- wspr_recorder/sync_strategy.py: where the first minute of a recording begins. Clocks are whole
-- microseconds since the epoch. `acquire_anchor_utc` is of the package hamsci_dsp: with the channel
-- and authority that a strategy holds it is the argument `acquire`, a function of the packet's RTP
-- timestamp and the wall clock.
pub mod Unwrap
pub mod Boundary
mod Tests
use Prim.Native.String.{String}
use wspr_recorder.Common.{
  ℕ, ◌+◌, ◌-◌, ◌*◌, ◌/◌, ◌%◌, ◌^◌, min, Bool, true, false, ◌&&◌, not, Option, none, some, ltb, ◌==◌,
  if◌then◌else◌,
}
use wspr_recorder.Common.Int.{ℤ, pos, ◌+ℤ◌, ◌-ℤ◌, ltb_ℤ, pos_part}
use wspr_recorder.Common.Words.{add_u32, sub_u32}
use wspr_recorder.Common.Rounding.{round_div}
use wspr_recorder.Common.Results.{Result, ok, raise, assertion_error}

pub record SyncDecision : Type 0 where
  pub start_wallclock : ℕ
  pub start_rtp_timestamp : ℕ
  pub sample_offset : ℕ

-- What `acquire_anchor_utc` returns, as far as the strategy reads it.
pub record Anchor : Type 0 where
  pub utc : ℕ
  pub source : String
  pub offset_ns : Option ℤ

abbrev pub minute_us : ℕ
minute_us = 60_000_000

-- `RtpSyncStrategy`
pub record RtpSync : Type 0 where
  pub sample_rate : ℕ
  pub samples_per_minute : ℕ
  pub correlated : Bool
  pub correlation_source : Option String
  pub correlation_offset_ns : Option ℤ
  pub anchor : Option Anchor
  pub next_boundary : Option ℤ
  pub next_minute : Option ℕ
  pub last_raw : Option ℕ
  pub unwrapped : ℤ

unfoldable pub init : ℕ → RtpSync
init sample_rate = record {
  sample_rate = sample_rate;
  samples_per_minute = sample_rate * 60;
  correlated = false;
  correlation_source = none;
  correlation_offset_ns = none;
  anchor = none;
  next_boundary = none;
  next_minute = none;
  last_raw = none;
  unwrapped = pos 0;
}

-- The signed distance from `last` to `ts`: more than half the range forward counts as backward.
unfoldable pub signed_delta : ℕ → ℕ → ℤ
signed_delta last ts =
    let delta = sub_u32 ts last in
    if ltb (2 ^ 31) delta then pos delta -ℤ pos (2 ^ 32) else pos delta

-- `_unwrap`; the new position is the field `unwrapped`.
unfoldable pub unwrap : RtpSync → ℕ → RtpSync
unfolding signed_delta
unwrap s ts =
    let moved : ℤ = elim s.last_raw [
      | none ↦ pos ts
      | some last ↦ s.unwrapped +ℤ signed_delta last ts
    ] in
    record s { unwrapped = moved; last_raw = some ts }

-- `_correlate`, with `_acquire_reference_utc`.
unfoldable pub correlate : (ℕ → ℕ → Anchor) → RtpSync → ℕ → ℕ → RtpSync
correlate acquire s rtp_timestamp wall_clock =
    let a = acquire rtp_timestamp wall_clock in
    let past = a.utc % minute_us in
    let until = if ltb 0 past then minute_us - past else 0 in
    record s {
      correlated = true;
      correlation_source = some a.source;
      correlation_offset_ns = a.offset_ns;
      anchor = some a;
      next_boundary = some (s.unwrapped +ℤ pos (round_div (until * s.sample_rate) 1_000_000));
      next_minute = some (a.utc - past + (if ltb 0 past then minute_us else 0));
    }

-- Whether the boundary lies in the packet's samples, and the decision if so.
unfoldable pub decide : RtpSync → ℤ → ℕ → ℕ → ℕ → Option SyncDecision
decide s boundary rtp_timestamp packet_samples wall_clock =
    let sample_offset = pos_part (boundary -ℤ s.unwrapped) in
    if not (ltb_ℤ boundary s.unwrapped) && ltb_ℤ boundary (s.unwrapped +ℤ pos packet_samples)
    then some (record {
      start_wallclock = elim s.next_minute [
        | none ↦ wall_clock - wall_clock % minute_us
        | some m ↦ m
      ];
      start_rtp_timestamp = add_u32 rtp_timestamp sample_offset;
      sample_offset = sample_offset;
    })
    else none

-- `should_start_minute`: the strategy afterwards, and the decision. The code asserts that a
-- correlated strategy has a boundary.
unfoldable pub should_start_minute :
    (ℕ → ℕ → Anchor) → RtpSync → ℕ → ℕ → ℕ → Result (RtpSync × Option SyncDecision)
unfolding unwrap correlate decide
should_start_minute acquire s rtp_timestamp packet_samples wall_clock =
    let seen = unwrap s rtp_timestamp in
    let ready = if seen.correlated then seen else correlate acquire seen rtp_timestamp wall_clock in
    elim ready.next_boundary [
      | none ↦ raise assertion_error
      | some b ↦ ok (ready, decide ready b rtp_timestamp packet_samples wall_clock)
    ]

unfoldable pub on_minute_started : RtpSync → RtpSync
on_minute_started s = record s {
  next_boundary = elim s.next_boundary [
    | none ↦ none
    | some b ↦ some (b +ℤ pos s.samples_per_minute)
  ];
  next_minute = elim s.next_minute [ none ↦ none | some m ↦ some (m + minute_us) ];
}

unfoldable pub reset : RtpSync → RtpSync
reset s = record s {
  correlated = false;
  correlation_source = none;
  correlation_offset_ns = none;
  anchor = none;
  next_boundary = none;
  next_minute = none;
  last_raw = none;
  unwrapped = pos 0;
}

-- `ClockSyncStrategy.should_start_minute`; its `start_rtp_timestamp` is not reduced to 32 bits.
unfoldable pub clock_should_start_minute : ℕ → ℕ → ℕ → ℕ → Option SyncDecision
clock_should_start_minute sample_rate rtp_timestamp packet_samples wall_clock =
    let past = wall_clock % 1_000_000 * sample_rate / 1_000_000 in
    let sample_offset = if ltb 0 packet_samples then min past (packet_samples - 1) else 0 in
    if wall_clock / 1_000_000 % 60 == 0
    then some (record {
      start_wallclock = wall_clock - wall_clock % minute_us;
      start_rtp_timestamp = rtp_timestamp + sample_offset;
      sample_offset = sample_offset;
    })
    else none

-- `FallbackSyncStrategy.should_start_minute`
unfoldable pub fallback_should_start_minute : ℕ → ℕ → Option SyncDecision
fallback_should_start_minute rtp_timestamp wall_clock =
    if wall_clock / 1_000_000 % 60 == 0
    then some (record {
      start_wallclock = wall_clock - wall_clock % minute_us;
      start_rtp_timestamp = rtp_timestamp;
      sample_offset = 0;
    })
    else none
