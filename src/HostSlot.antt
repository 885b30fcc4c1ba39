-- ===== src/HostSlot.antt =====
-- wspr_recorder/host_slot.py: the slots that bound how many long decodes run on the host. The locks
-- are the operating system's: what a try of a slot answers in each round is an argument. Times are in
-- milliseconds.
pub mod Rounds
mod Tests
use Prim.Native.String.{String}
use wspr_recorder.Common.{
  ℕ, zero, suc, ◌+◌, Bool, true, false, Option, none, some, List, [], ◌∷◌, ltb, leb, if◌then◌else◌,
}

-- `slot_for_period`, with the numbers of slots that are configured.
unfoldable pub slot_for_period : (f30_slots f15_slots period_seconds : ℕ) → Option (String × ℕ)
slot_for_period f30_slots f15_slots period_seconds =
    if leb 1800 period_seconds
    then some ("f30", f30_slots)
    else (if leb 900 period_seconds then some ("f15", f15_slots) else none)

-- The first candidate that is free, of `left` candidates from `candidate` on.
unfoldable pub first_free : (ℕ → Bool) → (left candidate : ℕ) → Option ℕ
first_free free zero candidate = none
first_free free (suc left) candidate =
    let later = first_free free left (suc candidate) in
    if free candidate then some candidate else later

pub data Acquired : Type 0 where
  got : (slot : ℕ) → Acquired
  timeout_error : Acquired
  -- the loop of the model used up its fuel
  unfinished : Acquired

module _ (free : ℕ → ℕ → Bool) (clock : ℕ → ℕ) (n_slots deadline : ℕ) where
  -- The loop from round `i` on: `free i c` says whether candidate `c` is locked in round `i`, and
  -- `clock i` is the time after a round in which none is.
  unfoldable pub acquire : (fuel i : ℕ) → Acquired
  unfolding first_free
  acquire zero i = unfinished
  acquire (suc fuel) i =
      let next = acquire fuel (suc i) in
      elim (first_free (free i) n_slots 0) [
        | some slot ↦ got slot
        | none ↦ if ltb deadline (clock i) then timeout_error else next
      ]

-- What a use of a slot does to its file.
pub data FileEvent : Type 0 where
  locked : ℕ → FileEvent
  body : FileEvent
  unlocked : ℕ → FileEvent
  closed : FileEvent

-- `host_wide_slot` around a body: whether it yields, and what happens to the file, whichever way the
-- body ends.
unfoldable pub host_wide_slot :
    (free : ℕ → ℕ → Bool) (clock : ℕ → ℕ) (n_slots start timeout fuel : ℕ)
    → Acquired × List FileEvent
unfolding acquire
host_wide_slot free clock n_slots start timeout fuel =
    let outcome = acquire free clock n_slots (start + timeout) fuel 0 in
    (
      outcome,
      elim outcome [
        | got slot ↦ locked slot ∷ body ∷ unlocked slot ∷ closed ∷ []
        | timeout_error ↦ closed ∷ []
        | unfinished ↦ []
      ],
    )
