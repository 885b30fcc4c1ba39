-- ===== src/SpotSink.antt =====
-- wspr_recorder/spot_sink.py: the rows that `SpotSink` writes. Texts that the code looks into,
-- callsigns and grids, are lists of code points; the other texts are `String`. `R` stands for the
-- numeric fields of a spot and `Q` for what their conversions make of them.
pub mod Sink
pub mod Brackets
pub mod Ledger
pub mod Batched
mod Tests
use Prim.Native.String.{String}
use text.Mathlib.Text.{◌==◌ as str_eq}
use wspr_recorder.Common.{
  ℕ, suc, ◌+◌, ◌-◌, Bool, true, false, not, ◌&&◌, ◌||◌, Option, none, some, List, [], ◌∷◌, ◌++◌,
  ltb, leb, ◌==◌, if◌then◌else◌, length, all,
}
use wspr_recorder.Common.Dict.{get_or}

abbrev pub Chars : Type 0
Chars = List ℕ

-- A text without its last character, if that is `>`.
abbrev pub without_close : Chars → Option Chars
without_close [] = none
without_close (c ∷ []) = if c == 62 then some [] else none
without_close (c ∷ d ∷ cs) = elim (without_close (d ∷ cs)) [ none ↦ none | some ds ↦ some (c ∷ ds) ]

-- What stands between `<` and `>`, for a text that starts with the one and ends with the other.
abbrev pub between_brackets : Chars → Option Chars
between_brackets [] = none
between_brackets (c ∷ cs) = if c == 60 then without_close cs else none

abbrev pub is_digit : ℕ → Bool
is_digit c = leb 48 c && leb c 57

-- `...`
abbrev pub is_ellipsis : Chars → Bool
is_ellipsis cs = length cs == 3 && all (λ c. c == 46) cs

-- `_strip_resolved_brackets`
unfoldable pub strip_resolved_brackets : Chars → Chars
strip_resolved_brackets call = elim (if leb 3 (length call) then between_brackets call else none) [
  | none ↦ call
  | some [] ↦ call
  | some (c ∷ cs) ↦ if is_ellipsis (c ∷ cs) || all is_digit (c ∷ cs) then call else c ∷ cs
]

-- A `RawSpot` of decoder.py.
pub record DecodedSpot (R : Type 0) : Type 0 where
  pub date : String
  pub time : String
  pub call : Chars
  pub grid : String
  pub pkt_mode : ℕ
  pub numbers : R

pub record Row (Q : Type 0) : Type 0 where
  pub time : String
  pub band : String
  pub mode : String
  pub radiod_id : String
  pub rx_source : String
  pub reporter_id : String
  pub host_id : String
  pub callsign : Chars
  pub grid : String
  pub decoder_kind : String
  pub decoder_depth : ℕ
  pub rx_call : String
  pub rx_grid : String
  pub schema_version : ℕ
  pub pkt_mode : ℕ
  pub numbers : Q

pub record NoiseRow (Q : Type 0) : Type 0 where
  pub time : String
  pub band : String
  pub radiod_id : String
  pub rx_source : String
  pub reporter_id : String
  pub host_id : String
  pub rx_call : String
  pub rx_grid : String
  pub schema_version : ℕ
  pub numbers : Q

-- Who reports: the fields that every row of a sink carries.
pub record Station : Type 0 where
  pub rx_call : String
  pub rx_grid : String
  pub host_id : String
  pub decoder_depth : ℕ
  pub reporter_id : Option String

-- What the rows take from elsewhere: a timestamp from a date and a time, or none where they are
-- malformed; the present time; a mode's name in the uploader's table, and one for a mode that is
-- not in it; and the conversion of the numeric fields, which may raise.
pub record RowFields (R Q : Type 0) : Type 0 where
  pub stamp : String → String → Option String
  pub now : String
  pub mode_name : ℕ → Option String
  pub packet_name : ℕ → String
  pub convert : R → Option Q

-- Python's `a or b` on texts.
abbrev pub or_else : String → String → String
or_else a b = if str_eq a "" then b else a

abbrev pub option_or_else : Option String → String → String
option_or_else none b = b
option_or_else (some a) b = or_else a b

module _ {R Q : Type 0} (fields : RowFields R Q) (station : Station) where
  unfoldable pub spot_to_row : String → String → String → DecodedSpot R → Option (Row Q)
  unfolding strip_resolved_brackets
  spot_to_row band radiod_id rx_source spot = elim (fields.convert spot.numbers) [
    | none ↦ none
    | some numbers ↦ some (record {
      time = get_or fields.now (fields.stamp spot.date spot.time);
      band = band;
      mode = get_or (fields.packet_name spot.pkt_mode) (fields.mode_name spot.pkt_mode);
      radiod_id = radiod_id;
      rx_source = or_else rx_source radiod_id;
      reporter_id = option_or_else station.reporter_id radiod_id;
      host_id = station.host_id;
      callsign = strip_resolved_brackets spot.call;
      grid = if str_eq spot.grid "none" then "" else spot.grid;
      decoder_kind = if spot.pkt_mode == 2 then "wsprd" else "jt9";
      decoder_depth = station.decoder_depth;
      rx_call = station.rx_call;
      rx_grid = station.rx_grid;
      schema_version = 2;
      pkt_mode = spot.pkt_mode;
      numbers = numbers;
    })
  ]

module _ {M Q : Type 0} (fields : RowFields M Q) (station : Station) where
  -- The noise of a band is its three numbers.
  unfoldable pub noise_to_row : String → String × String → String → String → M → Option (NoiseRow Q)
  noise_to_row band cycle_key radiod_id rx_source noise = elim (fields.convert noise) [
    | none ↦ none
    | some numbers ↦ some (record {
      time = get_or fields.now (fields.stamp cycle_key.0 cycle_key.1);
      band = band;
      radiod_id = radiod_id;
      rx_source = or_else rx_source radiod_id;
      reporter_id = option_or_else station.reporter_id radiod_id;
      host_id = station.host_id;
      rx_call = station.rx_call;
      rx_grid = station.rx_grid;
      schema_version = 1;
      numbers = numbers;
    })
  ]
