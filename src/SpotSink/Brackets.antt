-- ===== src/SpotSink/Brackets.antt =====
-- The callsigns of `_strip_resolved_brackets` of wspr_recorder/spot_sink.py.
use wspr_recorder.Common.{
  Bool, true, ◌||◌, some, [], ◌∷◌, ◌++◌, ◌≡◌, refl, arith, if◌then◌else◌, all, length-append,
}
use wspr_recorder.SpotSink.{Chars, without_close, is_digit, is_ellipsis, strip_resolved_brackets}

-- The bracketed form of a callsign.
abbrev pub bracketed : Chars → Chars
bracketed call = 60 ∷ call ++ (62 ∷ [])

-- A text that stands for a hash that is not resolved: empty, `...`, or digits.
abbrev pub is_unresolved : Chars → Bool
is_unresolved [] = true
is_unresolved (c ∷ cs) = is_ellipsis (c ∷ cs) || all is_digit (c ∷ cs)

without_close-append : (cs : Chars) → without_close (cs ++ (62 ∷ [])) ≡ some cs
without_close-append [] = refl
without_close-append (c ∷ []) = refl
without_close-append (c ∷ d ∷ cs) = rw (without_close-append (d ∷ cs)) refl

-- A bracketed callsign comes back without its brackets, whatever it holds, unless it stands for a
-- hash that is not resolved: then it comes back as it is.
pub strip-bracketed :
    (call : Chars)
    → strip_resolved_brackets (bracketed call)
      ≡ (if is_unresolved call then bracketed call else call)
unfolding strip_resolved_brackets
strip-bracketed [] = refl
strip-bracketed (c ∷ cs) = ground (arith, length-append cs (62 ∷ []), without_close-append (c ∷ cs))
