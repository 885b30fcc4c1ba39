-- ===== src/ReceiverManager/Settle.antt =====
-- wspr_recorder/receiver_manager.py: `_wait_for_chrony_settled`, which holds the start of the
-- recording back until chrony's offset has been small three times in a row. Times are in
-- milliseconds, offsets in nanoseconds.
use wspr_recorder.Common.{
  ℕ, zero, suc, ◌+◌, Bool, true, false, Option, none, some, List, [], ◌∷◌, ltb, leb, ◌==◌,
  if◌then◌else◌,
}
use wspr_recorder.Common.Int.{ℤ, pos_part, neg_part}
use wspr_recorder.Common.Texts.{Chars, codes, strip, split, lstrip, rstrip, split_from}

-- `s.startswith(prefix)`
abbrev pub starts_with : Chars → Chars → Bool
starts_with [] cs = true
starts_with (p ∷ ps) [] = false
starts_with (p ∷ ps) (c ∷ cs) = if p == c then starts_with ps cs else false

-- The third part of `s.partition(":")`.
unfoldable pub after_colon : Chars → Chars
after_colon [] = []
after_colon (c ∷ cs) = if c == 58 then cs else after_colon cs

-- `_parse_chronyc_last_offset`, over the lines: `to_float` reads a number of seconds as nanoseconds,
-- unless that raises.
unfoldable pub parse_last_offset : (Chars → Option ℤ) → List Chars → Option ℤ
unfolding lstrip rstrip split_from after_colon
parse_last_offset to_float [] = none
parse_last_offset to_float (line ∷ lines) =
    let s = strip line in
    let rest = parse_last_offset to_float lines in
    if starts_with (codes "Last offset") s
    then (elim (split (strip (after_colon s))) [ [] ↦ none | token ∷ _ ↦ to_float token ])
    else rest

-- One run of `chronyc tracking`: it fails, in time or code, or prints some lines.
pub data Reading : Type 0 where
  failed : Reading
  printed : List Chars → Reading

abbrev pub magnitude : ℤ → ℕ
magnitude z = pos_part z + neg_part z

-- Is the reading one that counts: at most SETTLE_MAX_OFFSET_S, 100 µs?
unfoldable pub is_small : (Chars → Option ℤ) → Reading → Bool
unfolding parse_last_offset
is_small to_float failed = false
is_small to_float (printed lines) = elim (parse_last_offset to_float lines) [
  | none ↦ false
  | some offset ↦ leb (magnitude offset) 100000
]

pub data Outcome : Type 0 where
  settled : Outcome
  timed_out : Outcome
  -- a loop of the model used up its fuel
  unfinished : Outcome

module _ (small : ℕ → Bool) (clock : ℕ → ℕ) (deadline : ℕ) where
  -- The loop from its test number `i` on, which is made at `clock i` and followed by the reading
  -- number `i`, with `consecutive` small readings before it.
  unfoldable pub settle_loop : (fuel i consecutive : ℕ) → Outcome
  settle_loop zero i consecutive = unfinished
  settle_loop (suc fuel) i consecutive =
      let again = settle_loop fuel (suc i) (suc consecutive) in
      let afresh = settle_loop fuel (suc i) 0 in
      if ltb (clock i) deadline
      then (if small i then (if leb 3 (suc consecutive) then settled else again) else afresh)
      else timed_out

abbrev pub result_of : Outcome → Bool × Bool
result_of settled = (true, true)
result_of timed_out = (false, true)
result_of unfinished = (false, false)

-- `_wait_for_chrony_settled`: what it returns and whether the gate is satisfied from then on. `found`
-- says whether chronyc runs at all.
unfoldable pub wait_for_chrony_settled :
    (found : Bool) (readings : ℕ → Reading) (to_float : Chars → Option ℤ) (clock : ℕ → ℕ)
    (start : ℕ) (gate_satisfied : Bool)
    → Bool × Bool
unfolding settle_loop is_small
wait_for_chrony_settled found readings to_float clock start true = (true, true)
wait_for_chrony_settled false readings to_float clock start false = (false, false)
wait_for_chrony_settled true readings to_float clock start false =
    result_of (settle_loop (λ i. is_small to_float (readings i)) clock (start + 60000) 13 0 0)
