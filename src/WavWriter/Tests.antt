-- ===== src/WavWriter/Tests.antt =====
-- The WAV writer on small examples.
use wspr_recorder.Common.{
  ℕ, ◌+◌, ◌*◌, true, Option, none, some, List, [], ◌∷◌, ◌≡◌, refl, arith, length, ◌==◌,
  if◌then◌else◌,
}
use wspr_recorder.Common.Results.{ok}
use wspr_recorder.Common.Texts.{codes}
use wspr_recorder.WavWriter.{
  source_slug, snapshot, keep_newest, make_room_for_file, joined, write_float32_wav,
}
use wspr_recorder.WavWriter.Retention.{KeepsNewest, keep_newest-KeepsNewest}
use wspr_recorder.WavWriter.Header.{read_fields, layout, fields_of, write_float32_wav-read}

slug : source_slug (codes "usb:0bda:2832/x") ≡ codes "0bda-2832-x"
unfolding source_slug
slug = refl

-- Files named by numbers: the file 4 has gone, the others are as old as their name says.
abbrev stat : ℕ → Option ℕ
stat p = if p == 4 then none else some (100 * p)

abbrev dir : List ℕ
dir = 3 ∷ 1 ∷ 4 ∷ 5 ∷ 2 ∷ []

two_stay : make_room_for_file 3 stat (λ p. true) dir ≡ (3, 300) ∷ (5, 500) ∷ []
unfolding make_room_for_file
two_stay = refl

keep_newest-KeepsNewest_example :
    KeepsNewest 2 (snapshot stat dir) (keep_newest 2 stat (λ p. true) dir)
keep_newest-KeepsNewest_example = keep_newest-KeepsNewest 2 stat (λ p. true) dir (λ p. refl)

abbrev samples : List (List ℕ)
samples = (0 ∷ 0 ∷ 128 ∷ 63 ∷ []) ∷ (0 ∷ 0 ∷ 0 ∷ 191 ∷ []) ∷ []

write_float32_wav-read_example :
    (bytes : List ℕ) × (write_float32_wav 12000 samples ≡ ok bytes)
    × (read_fields layout bytes ≡ some (fields_of 12000 (length samples * 4), joined samples))
    × (length bytes ≡ 8 + (38 + length samples * 4))
    × (length (joined samples) ≡ length samples * 4)
write_float32_wav-read_example =
    write_float32_wav-read 12000 samples (refl, (refl, tt)) (omega arith) (omega arith)
