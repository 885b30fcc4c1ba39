-- ===== src/DecodeHealth.antt =====
-- wspr_recorder/decode_health.py: the ledger of decode outcomes and its rule for a band that falls
-- behind. Times and durations are whole milliseconds. `now` is the value of `time.time()`, read once
-- a call. The dictionaries are functions with the default that the code's `get` and `setdefault`
-- supply. The texts of events and log lines, and the JSONL file, are left out.
pub mod Streaks
mod Tests
use Prim.Native.String.{String}
use wspr_recorder.Common.{
  ℕ, ◌+◌, ◌-◌, ◌*◌, ◌%◌, max, Bool, true, false, not, ◌&&◌, ◌||◌, List, [], ◌∷◌, ltb, leb, ◌==◌,
  if◌then◌else◌,
}
use wspr_recorder.Common.Int.{ℤ, pos, negsuc}
use wspr_recorder.Common.Maps.{update, append_bounded}
use wspr_recorder.Common.Rounding.{round_div}

pub data Status : Type 0 where
  healthy : Status
  late : Status
  behind : Status
  caught_up : Status
  killed : Status
  dropped : Status

-- `cycle_utc` and `utc` are kept as times; `elapsed_s` is -1 s for a cycle that never ran.
pub record DecodeEvent : Type 0 where
  pub utc : ℕ
  pub status : Status
  pub band : String
  pub mode : String
  pub period_s : ℕ
  pub cycle_utc : ℕ
  pub late_s : ℕ
  pub elapsed_s : ℤ

-- `_Streak`
pub record Streak : Type 0 where
  pub count : ℕ
  pub first_late_s : ℕ
  pub max_late_s : ℕ
  pub started_at : ℕ
  pub reported : Bool

abbrev pub no_streak : Streak
no_streak = record { count = 0; first_late_s = 0; max_late_s = 0; started_at = 0; reported = false }

pub record Ledger : Type 0 where
  pub enabled : Bool
  pub late_s : ℕ
  pub sustain_cycles : ℕ
  pub events : List DecodeEvent
  pub counts : Status → ℕ
  pub band_last : String → List DecodeEvent
  pub band_slowest : String → ℕ
  pub band_decodes : String → ℕ
  pub last_ok_stored : String → ℕ
  pub streaks : String → Streak

abbrev pub same_status : Status → Status → Bool
same_status healthy healthy = true
same_status late late = true
same_status behind behind = true
same_status caught_up caught_up = true
same_status killed killed = true
same_status dropped dropped = true
same_status _ _ = false

abbrev pub max_events_kept : ℕ
max_events_kept = 500

abbrev pub ok_heartbeat : ℕ
ok_heartbeat = 3_600_000

-- `round(x, 1)` of a number of seconds.
unfoldable pub tenths : ℕ → ℕ
tenths x = round_div x 100 * 100

-- The bookkeeping of `_add_locked` before an event is stored. `band_last` holds at most one event.
unfoldable pub note_event : Ledger → DecodeEvent → Ledger
note_event l e =
    let counted = record l {
      counts = λ s. if same_status s e.status then l.counts s + 1 else l.counts s;
    } in
    if same_status e.status dropped
    then counted
    else record counted { band_last = update l.band_last e.band (e ∷ []) }

-- `_add_locked`: a healthy decode is stored at most once an hour for a band.
unfoldable pub add_locked : ℕ → Ledger → DecodeEvent → Ledger
add_locked now l e =
    let noted = note_event l e in
    let stored = append_bounded max_events_kept l.events e in
    if not l.enabled
    then l
    else if same_status e.status healthy
    then (if ltb (now - l.last_ok_stored e.band) ok_heartbeat
        then noted
        else record noted { last_ok_stored = update l.last_ok_stored e.band now; events = stored })
    else record noted { events = stored }

-- The rule of `record`: the band's new streak, and the status of this decode. `sustain` is positive:
-- at 0 the remainder raises in Python.
unfoldable pub judge : ℕ → ℕ → ℕ → ℕ → Streak → Streak × Status
judge threshold sustain now late_s s =
    let opened = record s {
      count = s.count + 1;
      first_late_s = if s.count == 0 then late_s else s.first_late_s;
      started_at = if s.count == 0 then now else s.started_at;
      max_late_s = max (if s.count == 0 then 0 else s.max_late_s) late_s;
    } in
    if ltb late_s threshold
    then (if s.count == 0 then (s, healthy) else (no_streak, caught_up))
    else if ltb opened.count sustain || ltb late_s opened.first_late_s
    then (opened, late)
    else (
      record opened { reported = true },
      if not s.reported || opened.count % sustain == 0 then behind else late,
    )

-- `max(0.0, decode_start - (cycle_start + period_s))`, the period in seconds.
abbrev pub lateness : ℕ → ℕ → ℕ → ℕ
lateness decode_start cycle_start period_s = decode_start - (cycle_start + period_s * 1000)

abbrev pub event : ℕ → Status → String → String → ℕ → ℕ → ℕ → ℤ → DecodeEvent
event now status band mode period_s cycle_start late_s elapsed_s = record {
  utc = now;
  status = status;
  band = band;
  mode = mode;
  period_s = period_s;
  cycle_utc = cycle_start;
  late_s = tenths late_s;
  elapsed_s = elapsed_s;
}

-- `record`: the ledger afterwards and the event it returns.
unfoldable pub record_decode :
    ℕ → Ledger → String → String → ℕ → ℕ → ℕ → ℕ → Bool → Ledger × DecodeEvent
record_decode now l band mode period_s cycle_start decode_start elapsed_s was_killed =
    let late_s = lateness decode_start cycle_start period_s in
    let (streak, status) = judge l.late_s l.sustain_cycles now late_s (l.streaks band) in
    let killed_event =
      event now killed band mode period_s cycle_start late_s (pos (tenths elapsed_s)) in
    let judged = event now status band mode period_s cycle_start late_s (pos (tenths elapsed_s)) in
    let counted = record l {
      streaks = update l.streaks band streak;
      band_slowest = update l.band_slowest band (max (l.band_slowest band) elapsed_s);
      band_decodes = update l.band_decodes band (l.band_decodes band + 1);
    } in
    if was_killed
    then (add_locked now l killed_event, killed_event)
    else (add_locked now counted judged, judged)

unfoldable pub record_drop : ℕ → Ledger → String → ℕ → ℕ → Ledger × DecodeEvent
record_drop now l band period_s cycle_start =
    let e =
      event now dropped band "-" period_s cycle_start (lateness now cycle_start period_s)
        (negsuc 999) in
    (add_locked now l e, e)
