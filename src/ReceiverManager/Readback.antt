-- ===== src/ReceiverManager/Readback.antt =====
-- wspr_recorder/receiver_manager.py: what a successful provisioning leaves, and when the channels
-- count as read back.
use Prim.Native.String.{String}
use wspr_recorder.Common.{
  ℕ, Bool, true, false, ◌||◌, Option, some, List, [], ◌∷◌, ◌≡◌, refl, ◌∙◌, ◌↔◌, arith, inl, inr,
  if_intro, option_intro, Bool-cases,
}
use wspr_recorder.Common.Dict.{
  Dict, adjust, lookup, lookup-upsert, contains, same, values, nat_eq, string_eq, pair_eq,
}
use wspr_recorder.Common.Totals.{same_self}
use wspr_recorder.ReceiverManager.{
  Group, ChannelInfo, ChannelState, MultiStreams, Manager, Reply, band_producible, new_state,
  forget, forget_all, enter_channel, register, join, attach, prune_groups, and_then, provision,
}
use wspr_recorder.ReceiverManager.Recovery.{World, verify_and_retry}
use wspr_recorder.ReceiverManager.Entries.{lookup-erase}
use wspr_recorder.ReceiverManager.Provisions.{and_then-keeps}
use wspr_recorder.ReceiverManager.Sweep.{RightWithin, verify_passes_sound, verify_passes_complete}

-- The sweep returns true exactly where one of its three readbacks finds every channel within 1 Hz of
-- its frequency and at the wanted rate, none of them up to it raising.
pub verify_and_retry_iff :
    {M : Type 0} (w : World) (m : Manager M)
    → ((verify_and_retry w m).0 ≡ some true)
      ↔ RightWithin w.readback w.sample_rate (values m.channels) 3 0
unfolding verify_and_retry
verify_and_retry_iff w m = (
  verify_passes_sound w.readback w.sample_rate (values m.channels) 3 0,
  verify_passes_complete w.readback w.sample_rate (values m.channels) 3 0,
)

module _ {M : Type 0} where
  -- The channel has the entry.
  Entered : ℕ → ChannelState → Manager M → Type 0
  Entered ssrc state m = lookup ssrc m.channels ≡ some state

  forget_all-Entered :
      (goes : ℕ → Bool) (ssrc : ℕ) (state : ChannelState) (olds : List ℕ) (m : Manager M)
      → contains olds ssrc ≡ false
      → Entered ssrc state m
      → Entered ssrc state (forget_all goes olds m)
  unfolding forget_all forget Entered
  forget_all-Entered goes ssrc state [] m n h = h
  forget_all-Entered goes ssrc state (old ∷ olds) m n h =
      forget_all-Entered goes ssrc state olds (forget goes old m) (ground arith)
        (lookup-erase ssrc old m.channels ∙ rw ((if_or (same ssrc old) (contains olds ssrc) n)) h)
    where
      if_or : (a b : Bool) → (a || b) ≡ false → a ≡ false
      if_or a b p = ground arith

  enter_channel-Entered :
      (now freq : ℕ) (band : String) (info : ChannelInfo) (rate : Option ℕ) (m : Manager M)
      → Entered info.ssrc (new_state freq band info now) (enter_channel now freq band info rate m)
  unfolding enter_channel Entered
  enter_channel-Entered now freq band info rate m =
      let state = new_state freq band info now in
      lookup-upsert info.ssrc info.ssrc state (λ _. state) m.channels
      ∙ rw (same_self info.ssrc) refl

  register-Entered :
      (goes : Bool) (ssrc : ℕ) (state : ChannelState) (m : Manager M)
      → Entered ssrc state m
      → Entered ssrc state (register goes ssrc m).1
  unfolding register Entered
  register-Entered goes ssrc state m h =
      option_intro (λ (r : Bool × Manager M). lookup ssrc r.1.channels ≡ some state) m.listener
        (λ _. h)
        (λ ss _.
          if_intro (λ (x : Manager M). lookup ssrc x.channels ≡ some state) goes (λ _. h) (λ _. h))

  module _ (streams : MultiStreams M)
      (prune_keeps : (freq keep_ssrc : ℕ) (multi : M) (olds : List ℕ)
        → (streams.prune_frequency freq keep_ssrc multi).0 ≡ some olds
        → contains olds keep_ssrc ≡ false) where
    join-Entered :
        (freq joining : ℕ) (group : Group) (multi : M) (ssrc : ℕ) (state : ChannelState)
        (m : Manager M)
        → Entered ssrc state m
        → Entered ssrc state (join streams freq joining group multi m).1
    unfolding join Entered
    join-Entered freq joining group multi ssrc state m h =
        if_intro (λ (x : Manager M). lookup ssrc x.channels ≡ some state)
          (streams.add_channel freq multi).0 (λ _. h) (λ _. h)

    attach-Entered :
        (freq : ℕ) (info : ChannelInfo) (state : ChannelState) (m : Manager M)
        → Entered info.ssrc state m
        → Entered info.ssrc state (attach streams freq info m).1
    unfolding attach Entered
    attach-Entered freq info state m h =
        let P = λ (r : Bool × Manager M). lookup info.ssrc r.1.channels ≡ some state in
        let joined =
          λ (multi : M). join-Entered freq info.ssrc info.group multi info.ssrc state m h in
        option_intro P (lookup info.group m.multi_by_group)
          (λ _. option_intro P streams.new_multi (λ _. h) (λ multi _. joined multi))
          (λ multi _. joined multi)

    prune_groups-Entered :
        (goes : ℕ → Bool) (freq ssrc : ℕ) (state : ChannelState) (groups : Dict Group M)
        (m : Manager M)
        → Entered ssrc state m
        → Entered ssrc state (prune_groups streams goes freq ssrc groups m).1
    unfolding prune_groups Entered
    prune_groups-Entered goes freq ssrc state [] m h = h
    prune_groups-Entered goes freq ssrc state ((group, multi) ∷ groups) m h =
        let r = streams.prune_frequency freq ssrc multi in
        let held = record m { multi_by_group = adjust group (λ _. r.1) m.multi_by_group } in
        option_intro (λ (x : Bool × Manager M). lookup ssrc x.1.channels ≡ some state) r.0 (λ _. h)
          (λ olds e.
            prune_groups-Entered goes freq ssrc state groups (forget_all goes olds held)
              (forget_all-Entered goes ssrc state olds held (prune_keeps freq ssrc multi olds e) h))

    -- A provisioning that returns true has entered the channel that radiod gave for the frequency, and
    -- the dropping of the frequency's other slots leaves it there.
    pub provision-Enters :
        (now freq : ℕ) (band : String) (reply : Reply) (m : Manager M)
        → (provision streams now freq band reply m).0 ≡ true
        → (info : ChannelInfo) × (reply.info ≡ some info)
          × (lookup info.ssrc (provision streams now freq band reply m).1.channels
              ≡ some (new_state freq band info now))
    unfolding provision Entered
    provision-Enters now freq band reply m =
        let P = λ (r : Bool × Manager M).
          r.0 ≡ true
          → (info : ChannelInfo) × (reply.info ≡ some info)
            × (lookup info.ssrc r.1.channels ≡ some (new_state freq band info now)) in
        if_intro P (band_producible freq m.input_samprate_hz)
          (λ _.
            option_intro P reply.info (λ _ h. absurd (no_truth h))
              (λ info e. elim (Bool-cases reply.filter_set) [
                | inr f ↦ rw f (λ h. absurd (no_truth h))
                | inl t ↦ rw t (λ _. (info, e, whole info))
              ]))
          (λ _ h. absurd (no_truth h))
      where
        no_truth : false ≡ true → ⊥
        no_truth p = ground arith

        whole :
            (info : ChannelInfo)
            → Entered info.ssrc
                (new_state freq band info now)
                (and_then
                  (and_then
                    (and_then
                      (register reply.registers info.ssrc
                        (enter_channel now freq band info reply.rate m))
                      (λ s. (reply.sink_made, s)))
                    (attach streams freq info))
                  (λ s. prune_groups streams reply.unregisters freq info.ssrc s.multi_by_group s)).1
        whole info =
            let state = new_state freq band info now in
            let E = Entered info.ssrc state in
            let entered = enter_channel now freq band info reply.rate m in
            let first = register reply.registers info.ssrc entered in
            let second = and_then first (λ s. (reply.sink_made, s)) in
            and_then-keeps E E (and_then second (attach streams freq info))
              (λ s. prune_groups streams reply.unregisters freq info.ssrc s.multi_by_group s)
              (λ _ h. h)
              (and_then-keeps E E second (attach streams freq info) (λ _ h. h)
                (and_then-keeps E E first (λ s. (reply.sink_made, s)) (λ _ h. h)
                  (register-Entered reply.registers info.ssrc state entered
                    (enter_channel-Entered now freq band info reply.rate m))
                  (λ _ h. h))
                (attach-Entered freq info state))
              (λ s. prune_groups-Entered reply.unregisters freq info.ssrc state s.multi_by_group s)
