-- ===== src/WavWriter.antt =====
-- wspr_recorder/wav_writer.py: the retention of a band's files, the header of a float32 file, and
-- the name of a source's directory. The file system's answers are arguments: `stat` is a file's time
-- of modification, or none where it has gone, and `unlinks` says whether its removal goes through.
pub mod Retention
pub mod Header
mod Tests
use Prim.Native.String.{String}
use wspr_recorder.Common.{
  ℕ, zero, suc, ◌+◌, ◌-◌, ◌*◌, ◌/◌, ◌%◌, ◌^◌, Bool, true, false, ◌&&◌, ◌||◌, Option, none, some,
  List, [], ◌∷◌, ◌++◌, map, ltb, leb, ◌==◌, if◌then◌else◌, length, take, drop,
}
use wspr_recorder.Common.Results.{Result, ok, raise, Raised, value_error}
use wspr_recorder.Common.Texts.{Chars, codes}

-- A text without the prefix, if it starts with it.
abbrev pub without_prefix : Chars → Chars → Option Chars
without_prefix [] cs = some cs
without_prefix (p ∷ ps) [] = none
without_prefix (p ∷ ps) (c ∷ cs) = if p == c then without_prefix ps cs else none

-- `[A-Za-z0-9._-]`
abbrev pub is_portable : ℕ → Bool
is_portable c =
    (leb 65 c && leb c 90)
    || (leb 97 c && leb c 122)
    || (leb 48 c && leb c 57)
    || c == 46
    || c == 95
    || c == 45

-- `source_slug`
unfoldable pub source_slug : Chars → Chars
source_slug source =
    let bare : Chars = elim (without_prefix (codes "radiod:") source) [
      | some rest ↦ rest
      | none ↦ elim (without_prefix (codes "kiwisdr:") source) [
        | some rest ↦ rest
        | none ↦ elim (without_prefix (codes "usb:") source) [ some rest ↦ rest | none ↦ source ]
      ]
    ] in
    map (λ c. if is_portable c then c else 45) bare

module _ {P : Type 0} where
  -- The stable sort of `_safe_sorted_by_mtime`.
  unfoldable pub insert_by_mtime : P × ℕ → List (P × ℕ) → List (P × ℕ)
  insert_by_mtime x [] = x ∷ []
  insert_by_mtime x (y ∷ ys) =
      let rest = insert_by_mtime x ys in if leb x.1 y.1 then x ∷ y ∷ ys else y ∷ rest

  unfoldable pub sort_by_mtime : List (P × ℕ) → List (P × ℕ)
  unfolding insert_by_mtime
  sort_by_mtime [] = []
  sort_by_mtime (x ∷ xs) = insert_by_mtime x (sort_by_mtime xs)

  -- The files that are there, with their times.
  unfoldable pub snapshot : (P → Option ℕ) → List P → List (P × ℕ)
  snapshot stat [] = []
  snapshot stat (p ∷ ps) =
      let rest = snapshot stat ps in elim (stat p) [ none ↦ rest | some t ↦ (p, t) ∷ rest ]

  -- How many of the files go, and those that stay since they do not.
  unfoldable pub unlink_all : (P → Bool) → List (P × ℕ) → ℕ × List (P × ℕ)
  unlink_all unlinks [] = (0, [])
  unlink_all unlinks ((p, t) ∷ files) =
      let rest = unlink_all unlinks files in
      if unlinks p then (suc rest.0, rest.1) else (rest.0, (p, t) ∷ rest.1)

  -- The oldest files of a band are removed so that `allowed` stay: how many went, and what stays.
  unfoldable pub keep_newest :
      (allowed : ℕ) (stat : P → Option ℕ) (unlinks : P → Bool) → List P → ℕ × List (P × ℕ)
  unfolding sort_by_mtime snapshot unlink_all
  keep_newest allowed stat unlinks dir =
      let files = sort_by_mtime (snapshot stat dir) in
      let surplus = length files - allowed in
      let r = unlink_all unlinks (take surplus files) in (r.0, r.1 ++ drop surplus files)

  -- `make_room_for_file`
  unfoldable pub make_room_for_file :
      (max_files : ℕ) (stat : P → Option ℕ) (unlinks : P → Bool) → List P → List (P × ℕ)
  unfolding keep_newest
  make_room_for_file max_files stat unlinks dir = (keep_newest (max_files - 1) stat unlinks dir).1

  -- `enforce_max_files_per_band`, over the bands' directories.
  unfoldable pub enforce_max_files_per_band :
      (max_files : ℕ) (stat : P → Option ℕ) (unlinks : P → Bool)
      → List (List P)
      → ℕ × List (List (P × ℕ))
  unfolding keep_newest
  enforce_max_files_per_band max_files stat unlinks [] = (0, [])
  enforce_max_files_per_band max_files stat unlinks (dir ∷ dirs) =
      let r = keep_newest max_files stat unlinks dir in
      let rest = enforce_max_files_per_band max_files stat unlinks dirs in
      (r.0 + rest.0, r.1 ∷ rest.1)

-- `struct.pack('<H', n)` and `struct.pack('<I', n)` in range.
abbrev pub le16 : ℕ → List ℕ
le16 n = n % 256 ∷ n / 256 % 256 ∷ []

abbrev pub le32 : ℕ → List ℕ
le32 n = n % 256 ∷ n / 256 % 256 ∷ n / 65536 % 256 ∷ n / 16777216 % 256 ∷ []

-- The bytes of `_write_float32_wav` before its samples.
unfoldable pub float32_header : (sample_rate num_samples : ℕ) → List ℕ
float32_header sample_rate num_samples =
    let data_size = num_samples * 4 in
    codes "RIFF"
    ++ le32 (38 + data_size)
    ++ codes "WAVE"
    ++ codes "fmt "
    ++ le32 18
    ++ le16 3
    ++ le16 1
    ++ le32 sample_rate
    ++ le32 (sample_rate * 4)
    ++ le16 4
    ++ le16 32
    ++ le16 0
    ++ codes "data"
    ++ le32 data_size

-- `samples.tobytes()`
abbrev pub joined : List (List ℕ) → List ℕ
joined [] = []
joined (bytes ∷ rest) = bytes ++ joined rest

-- `_write_float32_wav`, for samples of four bytes each: a number that does not fit 32 bits raises
-- (a `struct.error`, for which `value_error` stands).
unfoldable pub write_float32_wav : (sample_rate : ℕ) → (samples : List (List ℕ)) → Result (List ℕ)
unfolding float32_header
write_float32_wav sample_rate samples =
    if ltb (38 + length samples * 4) (2 ^ 32) && ltb (sample_rate * 4) (2 ^ 32)
    then ok (float32_header sample_rate (length samples) ++ joined samples)
    else raise value_error
