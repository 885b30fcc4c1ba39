-- ===== src/Common/Texts.antt =====
-- Texts as lists of code points, for code that looks into them. `strip`, `split` and `upper` are
-- Python's on ASCII.
use Prim.Native.Char.{code}
use Prim.Native.String.{String}
use Prim.Native.Nat.{ℕ, ◌-◌}
use mathlib.Core.Path.{◌≡◌, refl, ap, ◌∙◌}
use mathlib.Core.Bool.{Bool, true, false, not, ◌||◌, ◌&&◌}
use mathlib.Core.List.{List, [], ◌∷◌, ◌++◌, map}
use native.Mathlib.Omega.{arith}
use wspr_recorder.Common.Tests.{leb, ◌==◌, if◌then◌else◌}

abbrev pub Chars : Type 0
Chars = List ℕ

abbrev pub codes : String → Chars
codes String.[] = []
codes (String.◌∷◌ c s) = code c ∷ codes s

abbrev pub empty : Chars → Bool
empty [] = true
empty (c ∷ cs) = false

abbrev pub is_space : ℕ → Bool
is_space c = c == 32 || (leb 9 c && leb c 13) || (leb 28 c && leb c 31)

unfoldable pub lstrip : Chars → Chars
lstrip [] = []
lstrip (c ∷ cs) = if is_space c then lstrip cs else c ∷ cs

unfoldable pub rstrip : Chars → Chars
rstrip [] = []
rstrip (c ∷ cs) = let rest = rstrip cs in if is_space c && empty rest then [] else c ∷ rest

-- `text.strip()`
abbrev pub strip : Chars → Chars
strip cs = rstrip (lstrip cs)

unfoldable pub upper_char : ℕ → ℕ
upper_char c = if leb 97 c && leb c 122 then c - 32 else c

-- `text.upper()`
abbrev pub upper : Chars → Chars
upper cs = map upper_char cs

-- The parts of a text, with `word` what has been read of the present one.
unfoldable pub split_from : Chars → Chars → List Chars
split_from word [] = if empty word then [] else word ∷ []
split_from word (c ∷ cs) =
    let fresh = split_from [] cs in
    let longer = split_from (word ++ (c ∷ [])) cs in
    if is_space c then (if empty word then fresh else word ∷ fresh) else longer

-- `text.split()`
abbrev pub split : Chars → List Chars
split cs = split_from [] cs

is_space-upper_char : (c : ℕ) → is_space (upper_char c) ≡ is_space c
unfolding upper_char
is_space-upper_char c = ground arith

upper_char_idem : (c : ℕ) → upper_char (upper_char c) ≡ upper_char c
unfolding upper_char
upper_char_idem c = ground arith

pub upper_idem : (cs : Chars) → upper (upper cs) ≡ upper cs
upper_idem [] = refl
upper_idem (c ∷ cs) = cc (upper_char_idem c, upper_idem cs)

empty-upper : (cs : Chars) → empty (upper cs) ≡ empty cs
empty-upper [] = refl
empty-upper (c ∷ cs) = refl

lstrip-upper : (cs : Chars) → lstrip (upper cs) ≡ upper (lstrip cs)
unfolding lstrip
lstrip-upper [] = refl
lstrip-upper (c ∷ cs) = ground (arith, is_space-upper_char c, lstrip-upper cs)

rstrip-upper : (cs : Chars) → rstrip (upper cs) ≡ upper (rstrip cs)
unfolding rstrip
rstrip-upper [] = refl
rstrip-upper (c ∷ cs) =
    ground (arith, is_space-upper_char c, rstrip-upper cs, empty-upper (rstrip cs))

rstrip_idem : (cs : Chars) → rstrip (rstrip cs) ≡ rstrip cs
unfolding rstrip
rstrip_idem [] = refl
rstrip_idem (c ∷ cs) = ground (arith, rstrip_idem cs)

-- Does the text start with something else than a space?
abbrev bare : Chars → Bool
bare [] = true
bare (c ∷ cs) = not (is_space c)

bare-lstrip : (cs : Chars) → bare (lstrip cs) ≡ true
unfolding lstrip
bare-lstrip [] = refl
bare-lstrip (c ∷ cs) = ground (arith, bare-lstrip cs)

bare-rstrip : (cs : Chars) → bare cs ≡ true → bare (rstrip cs) ≡ true
unfolding rstrip
bare-rstrip [] h = refl
bare-rstrip (c ∷ cs) h = ground arith

lstrip-bare : (cs : Chars) → bare cs ≡ true → lstrip cs ≡ cs
unfolding lstrip
lstrip-bare [] h = refl
lstrip-bare (c ∷ cs) h = ground arith

pub strip_idem : (cs : Chars) → strip (strip cs) ≡ strip cs
strip_idem cs =
    ap rstrip (lstrip-bare (strip cs) (bare-rstrip (lstrip cs) (bare-lstrip cs)))
    ∙ rstrip_idem (lstrip cs)

pub strip-upper : (cs : Chars) → strip (upper cs) ≡ upper (strip cs)
strip-upper cs = ap rstrip (lstrip-upper cs) ∙ rstrip-upper (lstrip cs)

-- What `upper` and `strip` make of a text, they leave as it is.
pub upper-strip_idem : (cs : Chars) → upper (strip (upper (strip cs))) ≡ upper (strip cs)
upper-strip_idem cs =
    ap upper (strip-upper (strip cs) ∙ ap upper (strip_idem cs)) ∙ upper_idem (strip cs)
