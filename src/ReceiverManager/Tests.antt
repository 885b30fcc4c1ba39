-- ===== src/ReceiverManager/Tests.antt =====
-- The receiver manager on small examples.
use wspr_recorder.Common.{
  ℕ, suc, ◌+◌, ◌*◌, Bool, not, true, false, Option, none, some, List, [], ◌∷◌, ◌≡◌, refl, ap, subst,
  if_intro, ◌↔◌, arith, ◌==◌, ltb, if◌then◌else◌,
}
use wspr_recorder.Common.Dict.{lookup, contains, get_or, values, nat_eq, string_eq, pair_eq}
use wspr_recorder.Common.Int.{ℤ, pos}
use wspr_recorder.Common.Texts.{Chars, codes}
use wspr_recorder.ReceiverManager.Settle.{
  Reading, printed, failed, is_small, wait_for_chrony_settled,
}
use wspr_recorder.ReceiverManager.Gate.{ThreeSmall, wait_for_chrony_settled-Settles}
use wspr_recorder.ReceiverManager.{ChannelInfo, MultiStreams, Manager, Reply, new_state, provision}
use wspr_recorder.ReceiverManager.Recovery.{World, verify_and_retry, connect}
use wspr_recorder.ReceiverManager.Tracked.{IsTracked}
use wspr_recorder.ReceiverManager.Kept.{MarksAll}
use wspr_recorder.ReceiverManager.Runs.{
  Operation, connected, sampled, reprovisioned, reset, started, stopped, shut, run, run-IsTracked,
}
use wspr_recorder.ReceiverManager.Sweep.{RightWithin}
use wspr_recorder.ReceiverManager.Readback.{verify_and_retry_iff, provision-Enters}

-- `+` reads as 50 µs, anything else as 1 ms.
abbrev to_float : Chars → Option ℤ
to_float [] = none
to_float (c ∷ cs) = if c == 43 then some (pos 50000) else some (pos 1000000)

abbrev tracking : List Chars
tracking = codes "Reference ID : GPS" ∷ codes "Last offset : +0.00005 seconds" ∷ []

tracking_small : is_small to_float (printed tracking) ≡ true
unfolding is_small
tracking_small = refl

-- A failure, and then small offsets.
abbrev readings : ℕ → Reading
readings i = if ltb i 2 then failed else printed tracking

abbrev clock : ℕ → ℕ
clock i = 1000 + 5000 * i

wait_for_chrony_settled-Settles_example :
    ((wait_for_chrony_settled true readings to_float clock 1000 false).1 ≡ true)
    × (((wait_for_chrony_settled true readings to_float clock 1000 false).0 ≡ true)
        ↔ ((j : ℕ) × ThreeSmall (λ i. is_small to_float (readings i)) clock (1000 + 60000) j))
wait_for_chrony_settled-Settles_example =
    wait_for_chrony_settled-Settles readings to_float clock 1000 (omega arith) (λ i. omega arith)

-- A stream that counts its channels and drops the slot 1.
abbrev counting : MultiStreams ℕ
counting = record {
  new_multi = some 0;
  add_channel = λ freq n. (true, suc n);
  prune_frequency = λ freq keep n. (some (if keep == 1 then [] else 1 ∷ []), n);
  start = λ n. n;
  stop = λ n. n;
}

counting_keeps :
    (freq keep n : ℕ) (olds : List ℕ)
    → (counting.prune_frequency freq keep n).0 ≡ some olds
    → contains olds keep ≡ false
counting_keeps freq keep n olds p =
    subst (λ l. contains l keep ≡ false) (ap (get_or []) p)
      (if_intro (λ l. contains l keep ≡ false) (keep == 1) (λ _. refl) (λ n. ground arith))

abbrev fresh : Manager ℕ
fresh = record {
  frequencies = 7038600 ∷ 50293000 ∷ [];
  lifetime_frames = 100;
  connected = false;
  control = false;
  listener = none;
  listeners_running = 0;
  channels = [];
  multi_by_group = [];
  lifetime_entries = [];
  input_samprate_hz = none;
  notices = [];
}

-- The first channel's unregistration raises.
abbrev only_first : ℕ → Bool
only_first s = s == 1

fresh-IsTracked : IsTracked only_first fresh
fresh-IsTracked = record { nodup = tt; own = tt; lifetimes = tt; streams = tt; listened = λ _. tt }

abbrev info : ℕ → ChannelInfo
info ssrc = record { ssrc = ssrc; group = ("239.1.2.3", 5004) }

abbrev reply : ℕ → Reply
reply ssrc = record {
  info = some (info ssrc);
  filter_set = true;
  rate = some 64800000;
  registers = true;
  unregisters = λ old. not (old == 1);
  sink_made = true;
}

-- The second readback finds every channel right.
abbrev world : ℕ → World
world ssrc = record {
  now = 10000;
  band_of = λ freq. "40";
  reply = λ freq. reply ssrc;
  status_rate = λ s. some 64800000;
  readback = λ pass. some (λ s. if ltb pass 1 then none else some (7038600000, 12000));
  sample_rate = 12000;
  control_opens = true;
  listener_starts = true;
}

abbrev operations : List Operation
operations =
    connected (world 1)
    ∷ started
    ∷ sampled 11000 1 240
    ∷ reprovisioned (world 2)
    ∷ stopped
    ∷ reset (world 3)
    ∷ shut
    ∷ []

marks_first : (n : ℕ) → MarksAll only_first (world n)
marks_first n freq s = ground arith

run-IsTracked_example : IsTracked only_first (run counting operations fresh)
run-IsTracked_example =
    run-IsTracked counting only_first operations fresh
      (marks_first 1, (tt, (tt, (marks_first 2, (tt, (marks_first 3, (tt, tt))))))) fresh-IsTracked

provisioned : (provision counting 5 7038600 "40" (reply 2) fresh).0 ≡ true
unfolding provision
provisioned = refl

provision-Enters_example :
    (i : ChannelInfo) × ((reply 2).info ≡ some i)
    × (lookup i.ssrc (provision counting 5 7038600 "40" (reply 2) fresh).1.channels
        ≡ some (new_state 7038600 "40" i 5))
provision-Enters_example =
    provision-Enters counting counting_keeps 5 7038600 "40" (reply 2) fresh provisioned

abbrev connected_once : Manager ℕ
connected_once = (connect counting (world 1) fresh).1

verify_and_retry_iff_example :
    ((verify_and_retry (world 1) connected_once).0 ≡ some true)
    ↔ RightWithin (world 1).readback (world 1).sample_rate (values connected_once.channels) 3 0
verify_and_retry_iff_example = verify_and_retry_iff (world 1) connected_once
