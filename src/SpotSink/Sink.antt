-- ===== src/SpotSink/Sink.antt =====
-- wspr_recorder/spot_sink.py: `SpotSink`, over the writers of the spot and the noise table. A writer
-- is not of this repository: its calls are the fields of an interface.
use Prim.Native.String.{String}
use text.Mathlib.Text.{◌==◌ as str_eq}
use wspr_recorder.Common.{
  ℕ, suc, ◌+◌, Bool, true, false, not, ◌&&◌, Option, none, some, List, [], ◌∷◌, ◌++◌, ◌==◌,
  if◌then◌else◌, length,
}
use wspr_recorder.Common.Dict.{Dict, get_or}

-- A table's writer: `insert` says whether it went through, and `is_noop` whether the writer discards.
pub record TableWriter (W X : Type 0) : Type 0 where
  pub insert : List X → W → Bool × W
  pub flush_writer : W → W
  pub is_noop : W → Bool

pub record SpotSink (W V : Type 0) : Type 0 where
  pub enabled : Bool
  pub writer : Option W
  pub noise_writer : Option V
  pub rows_written : ℕ
  pub rows_dropped : ℕ

-- `_enabled`, from the setting as it is given, stripped.
unfoldable pub enabled_by_env : Option String → Bool
enabled_by_env none = false
enabled_by_env (some raw) = not (str_eq raw "") && not (str_eq raw "0")

-- `_resolve_reporter_identity`: the override where it is set and not empty, or else the receiver's.
unfoldable pub resolve_identity : Option String → Option String → String
resolve_identity (some override) fallback =
    if str_eq override "" then get_or "" fallback else override
resolve_identity none fallback = get_or "" fallback

-- The rows that convert, and how many items do not.
unfoldable pub convert_rows {ℓ κ} : {A : Type ℓ} {X : Type κ} → (A → Option X) → List A → List X × ℕ
convert_rows row [] = ([], 0)
convert_rows row (a ∷ items) =
    let rest = convert_rows row items in
    elim (row a) [ none ↦ (rest.0, suc rest.1) | some x ↦ (x ∷ rest.0, rest.1) ]

abbrev tag_band {ℓ} : {A : Type ℓ} → String → List A → List (String × A)
tag_band band [] = []
tag_band band (a ∷ items) = (band, a) ∷ tag_band band items

-- A batch's items, one by one, each with its band.
unfoldable pub by_band {ℓ} : {A : Type ℓ} → Dict String (List A) → List (String × A)
by_band [] = []
by_band ((band, items) ∷ d) = tag_band band items ++ by_band d

module _ {W V X : Type 0} (spots : TableWriter W X) where
  -- `SpotSink.__init__`: `given` is an explicit setting, `env` the environment's, `writer` a writer
  -- that is passed in and `resolved` one that the libraries may give.
  unfoldable pub init_sink : Option Bool → Option String → Option W → Option W → SpotSink W V
  unfolding enabled_by_env
  init_sink given env writer resolved =
      let enabled = get_or (enabled_by_env env) given in
      let found : Option W =
        if enabled then (elim writer [ none ↦ resolved | some w ↦ some w ]) else none in
      let usable : Option W = elim found [
        | none ↦ none
        | some w ↦ if spots.is_noop w then none else some w
      ] in
      record {
        enabled = elim usable [ none ↦ false | some _ ↦ true ];
        writer = usable;
        noise_writer = none;
        rows_written = 0;
        rows_dropped = 0;
      }

  -- The part of `submit_batch` and `submit_batches` from the conversion on.
  unfoldable pub insert_rows : W → List X × ℕ → SpotSink W V → ℕ × SpotSink W V
  insert_rows w (rows, bad) s =
      let t = record s { rows_dropped = s.rows_dropped + bad } in
      let n = length rows in
      let r = spots.insert rows w in
      if n == 0
      then (0, t)
      else if r.0
      then (n, record t { writer = some r.1; rows_written = t.rows_written + n })
      else (0, record t { writer = some r.1; rows_dropped = t.rows_dropped + n })

  -- `submit_batch` and `submit_batches`, over the items in their order.
  unfoldable pub submit_rows {ℓ} :
      {A : Type ℓ} → (A → Option X) → List A → SpotSink W V → ℕ × SpotSink W V
  unfolding insert_rows convert_rows
  submit_rows row items s =
      if s.enabled
      then (elim s.writer [ none ↦ (0, s) | some w ↦ insert_rows w (convert_rows row items) s ])
      else (0, s)

module _ {W V Y : Type 0} (noises : TableWriter V Y) where
  -- The noise writer that is there, or one that is opened now and does not discard.
  abbrev pub noise_writer_for : Option V → SpotSink W V → Option V
  noise_writer_for opened s = elim s.noise_writer [
    | some v ↦ some v
    | none ↦ elim opened [ none ↦ none | some v ↦ if noises.is_noop v then none else some v ]
  ]

  -- `submit_noise_batches`: `opened` is the writer that the library opens, unless that raises.
  unfoldable pub submit_noise {ℓ} :
      {A : Type ℓ} → Option V → (A → Option Y) → List A → SpotSink W V → ℕ × SpotSink W V
  unfolding convert_rows
  submit_noise opened row items s =
      let rows = (convert_rows row items).0 in
      let n = length rows in
      if s.enabled
      then (elim s.writer [
        | none ↦ (0, s)
        | some _ ↦ elim (noise_writer_for opened s) [
          | none ↦ (0, s)
          | some v ↦
              let r = noises.insert rows v in
              if n == 0
              then (0, record s { noise_writer = some v })
              else (if r.0 then n else 0, record s { noise_writer = some r.1 })
        ]
      ])
      else (0, s)

module _ {W V X Y : Type 0} (spots : TableWriter W X) (noises : TableWriter V Y) where
  unfoldable pub flush : SpotSink W V → SpotSink W V
  flush s = record s {
    writer = elim s.writer [ none ↦ none | some w ↦ some (spots.flush_writer w) ];
    noise_writer = elim s.noise_writer [ none ↦ none | some v ↦ some (noises.flush_writer v) ];
  }

-- `close`: the writers are closed and dropped, and a sink that had one is disabled.
unfoldable pub close : {W V : Type 0} → SpotSink W V → SpotSink W V
close s = record s {
  enabled = elim s.writer [ none ↦ s.enabled | some _ ↦ false ];
  writer = none;
  noise_writer = none;
}
