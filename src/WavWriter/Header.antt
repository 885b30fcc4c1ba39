-- ===== src/WavWriter/Header.antt =====
-- The header of wspr_recorder/wav_writer.py read back, chunk by chunk.
use wspr_recorder.Common.{
  ℕ, ◌+◌, ◌*◌, ◌/◌, ◌%◌, ◌<◌, Option, none, some, List, [], ◌∷◌, ◌++◌, ◌≡◌, refl, arith, length,
  All, length-append, lt→ltb,
}
use wspr_recorder.Common.Results.{ok}
use wspr_recorder.WavWriter.{joined, float32_header, write_float32_wav}

-- Four bytes as a number, the lowest first.
abbrev pub read_u32 : (a b c d : ℕ) → ℕ
read_u32 a b c d = a + 256 * b + 65536 * c + 16777216 * d

pub read_u32-le32 :
    (n : ℕ)
    → n < 4294967296
    → read_u32 (n % 256) (n / 256 % 256) (n / 65536 % 256) (n / 16777216 % 256) ≡ n
read_u32-le32 n h = omega arith

pub data Width : Type 0 where
  two : Width
  four : Width

-- A number of that many bytes, and what follows it.
abbrev pub read_number : Width → List ℕ → Option (ℕ × List ℕ)
read_number two (a ∷ b ∷ bs) = some (a + 256 * b, bs)
read_number four (a ∷ b ∷ c ∷ d ∷ bs) = some (read_u32 a b c d, bs)
read_number w bs = none

-- The fields of a header, and what follows them.
abbrev pub read_fields : List Width → List ℕ → Option (List ℕ × List ℕ)
read_fields [] bs = some ([], bs)
read_fields (w ∷ ws) bs = elim (read_number w bs) [
  | none ↦ none
  | some (n, rest) ↦ elim (read_fields ws rest) [
    | none ↦ none
    | some (ns, end) ↦ some (n ∷ ns, end)
  ]
]

-- A RIFF header, its format chunk with an extension's size, and the head of its data chunk.
abbrev pub layout : List Width
layout =
    four ∷ four ∷ four ∷ four ∷ four ∷ two ∷ two ∷ four ∷ four ∷ two ∷ two ∷ two ∷ four ∷ four ∷ []

-- A tag of four characters, read as a number.
abbrev pub tag : (a b c d : ℕ) → ℕ
tag a b c d = read_u32 a b c d

-- RIFF, WAVE, and one channel of 32-bit floats at the rate, of so many bytes.
abbrev pub fields_of : (sample_rate data_size : ℕ) → List ℕ
fields_of sample_rate data_size =
    tag 82 73 70 70
    ∷ (38 + data_size)
    ∷ tag 87 65 86 69
    ∷ tag 102 109 116 32
    ∷ 18
    ∷ 3
    ∷ 1
    ∷ sample_rate
    ∷ (sample_rate * 4)
    ∷ 4
    ∷ 32
    ∷ 0
    ∷ tag 100 97 116 97
    ∷ data_size
    ∷ []

read_header :
    (rate n : ℕ) (rest : List ℕ)
    → 38 + n * 4 < 4294967296
    → rate * 4 < 4294967296
    → read_fields layout (float32_header rate n ++ rest) ≡ some (fields_of rate (n * 4), rest)
unfolding float32_header
read_header rate n rest h k = rw (read_u32-le32 (38 + n * 4) h) (
    rw (read_u32-le32 (n * 4) (omega arith))
      (rw (read_u32-le32 rate (omega arith)) (rw (read_u32-le32 (rate * 4) k) refl)))

length-joined :
    (samples : List (List ℕ))
    → All (λ s. length s ≡ 4) samples
    → length (joined samples) ≡ length samples * 4
length-joined [] a = refl
length-joined (s ∷ samples) a =
    omega (arith, length-append s (joined samples), length-joined samples a.1, a.0)

-- Where the sizes fit 32 bits, the bytes read back as a RIFF file of one channel of floats at the rate,
-- the sizes in its header are those of the file and of its samples, and the samples follow.
pub write_float32_wav-read :
    (rate : ℕ) (samples : List (List ℕ))
    → All (λ s. length s ≡ 4) samples
    → 38 + length samples * 4 < 4294967296
    → rate * 4 < 4294967296
    → (bytes : List ℕ) × (write_float32_wav rate samples ≡ ok bytes)
      × (read_fields layout bytes ≡ some (fields_of rate (length samples * 4), joined samples))
      × (length bytes ≡ 8 + (38 + length samples * 4))
      × (length (joined samples) ≡ length samples * 4)
unfolding write_float32_wav
write_float32_wav-read rate samples a h k =
    let whole = length-joined samples a in
    (
      float32_header rate (length samples) ++ joined samples,
      rw (lt→ltb (38 + length samples * 4) 4294967296 h) (rw (lt→ltb (rate * 4) 4294967296 k) refl),
      read_header rate (length samples) (joined samples) h k,
      omega (arith, whole),
      whole,
    )
