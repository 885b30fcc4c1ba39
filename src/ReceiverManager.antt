-- ===== src/ReceiverManager.antt =====
-- wspr_recorder/receiver_manager.py: the gate before the recording, and the channels that
-- `ReceiverManager` keeps at radiod. The streams are of the package ka9q-python: their calls are the
-- fields of an interface, and what radiod answers is given with an operation.
pub mod Settle
pub mod Gate
pub mod Recovery
mod Entries
pub mod Tracked
pub mod Readback
mod Provisions
mod Sweep
mod Kept
pub mod Runs
mod Tests
use Prim.Native.String.{String}
use wspr_recorder.Common.{
  ℕ, suc, ◌+◌, ◌-◌, ◌/◌, Bool, true, false, not, ◌&&◌, Option, none, some, List, [], ◌∷◌, ◌++◌, ltb,
  leb, ◌==◌, if◌then◌else◌,
}
use wspr_recorder.Common.Dict.{
  Dict, lookup, upsert, adjust, erase, set_add, set_discard, nat_eq, string_eq, pair_eq,
}

-- The multicast address and port of a group.
abbrev pub Group : Type 0
Group = String × ℕ

-- What `ensure_channel` says of a channel.
pub record ChannelInfo : Type 0 where
  pub ssrc : ℕ
  pub group : Group

-- Times are in milliseconds.
pub record ChannelState : Type 0 where
  pub frequency_hz : ℕ
  pub band_name : String
  pub ssrc : ℕ
  pub channel_info : ChannelInfo
  pub created_at : ℕ
  pub last_sample_time : Option ℕ
  pub samples_received : ℕ
  pub drop_count : ℕ
  pub restore_count : ℕ

-- `MultiStream`: a call says whether it goes through, and `prune_frequency` which slots it drops.
pub record MultiStreams (M : Type 0) : Type 0 where
  pub new_multi : Option M
  pub add_channel : ℕ → M → Bool × M
  pub prune_frequency : (freq keep_ssrc : ℕ) → M → Option (List ℕ) × M
  pub start : M → M
  pub stop : M → M

-- A `ReceiverManager` with its `ReceiverManagerState`. `listener` holds the channels that are
-- registered with the status listener, if there is one, and `listeners_running` counts those that
-- have been started and not stopped. A lifetime entry names its stream by the group. `notices` are
-- the calls of `on_band_producible`.
pub record Manager (M : Type 0) : Type 0 where
  pub frequencies : List ℕ
  pub lifetime_frames : ℕ
  pub connected : Bool
  pub control : Bool
  pub listener : Option (List ℕ)
  pub listeners_running : ℕ
  pub channels : Dict ℕ ChannelState
  pub multi_by_group : Dict Group M
  pub lifetime_entries : List (Group × ℕ)
  pub input_samprate_hz : Option ℕ
  pub notices : List (String × Bool)

-- What comes of the calls in a provisioning: `info` is none where `ensure_channel` raises, `rate` is
-- the front end's rate in the status, and the others say whether a call goes through; `unregisters`
-- says it of the listener's `unregister_channel`, by SSRC.
pub record Reply : Type 0 where
  pub info : Option ChannelInfo
  pub filter_set : Bool
  pub rate : Option ℕ
  pub registers : Bool
  pub unregisters : ℕ → Bool
  pub sink_made : Bool

-- `_band_producible`
unfoldable pub band_producible : ℕ → Option ℕ → Bool
band_producible freq none = true
band_producible freq (some rate) = if rate == 0 then true else leb freq (rate / 2)

-- `_read_frontend_samprate`, of the rate in a channel's status.
unfoldable pub read_frontend_samprate : Option ℕ → Option ℕ
read_frontend_samprate none = none
read_frontend_samprate (some rate) = if ltb 1000000 rate then some rate else none

-- `ChannelState.is_active`
unfoldable pub is_active : ℕ → ChannelState → Bool
is_active now ch = elim ch.last_sample_time [ none ↦ false | some t ↦ ltb (now - t) 5000 ]

-- The rest of a `try` block after a call: it is skipped where the call raises.
abbrev pub and_then {ℓ} : {S : Type ℓ} → Bool × S → (S → Bool × S) → Bool × S
and_then (false, s) f = (false, s)
and_then (true, s) f = f s

abbrev pub new_state : (freq : ℕ) (band : String) (info : ChannelInfo) (now : ℕ) → ChannelState
new_state freq band info now = record {
  frequency_hz = freq;
  band_name = band;
  ssrc = info.ssrc;
  channel_info = info;
  created_at = now;
  last_sample_time = none;
  samples_received = 0;
  drop_count = 0;
  restore_count = 0;
}

abbrev pub drop_ssrc : ℕ → List (Group × ℕ) → List (Group × ℕ)
drop_ssrc old [] = []
drop_ssrc old ((g, s) ∷ entries) =
    let rest = drop_ssrc old entries in if s == old then rest else (g, s) ∷ rest

module _ {M : Type 0} where
  -- `_notify_band_producible`
  abbrev pub notify : String → Bool → Manager M → Manager M
  notify band producible m = record m { notices = m.notices ++ ((band, producible) ∷ []) }

  -- What is forgotten of a slot that a stream has dropped. An `unregister_channel` that raises is
  -- passed over, and then the registration stays.
  unfoldable pub forget : (unregisters : ℕ → Bool) (old : ℕ) → Manager M → Manager M
  unfolding erase
  forget unregisters old m = record m {
    channels = erase old m.channels;
    listener = elim m.listener [
      | none ↦ none
      | some ssrcs ↦ some (if unregisters old then set_discard old ssrcs else ssrcs)
    ];
    lifetime_entries = drop_ssrc old m.lifetime_entries;
  }

  unfoldable pub forget_all : (unregisters : ℕ → Bool) (olds : List ℕ) → Manager M → Manager M
  unfolding forget
  forget_all unregisters [] m = m
  forget_all unregisters (old ∷ olds) m = forget_all unregisters olds (forget unregisters old m)

  -- The new channel's state, and the front end's rate where it is not known yet.
  unfoldable pub enter_channel :
      (now freq : ℕ) (band : String) (info : ChannelInfo) → Option ℕ → Manager M → Manager M
  unfolding read_frontend_samprate upsert
  enter_channel now freq band info rate m =
      let entered =
        upsert info.ssrc (new_state freq band info now) (λ _. new_state freq band info now)
          m.channels in
      notify band true (record m {
        channels = entered;
        input_samprate_hz = elim m.input_samprate_hz [
          | none ↦ read_frontend_samprate rate
          | some known ↦ some known
        ];
      })

  unfoldable pub register : Bool → ℕ → Manager M → Bool × Manager M
  register goes ssrc m = elim m.listener [
    | none ↦ (true, m)
    | some ssrcs ↦ (goes, if goes then record m { listener = some (set_add ssrc ssrcs) } else m)
  ]

  module _ (streams : MultiStreams M) where
    -- The stream of the group takes the channel.
    unfoldable pub join : (freq ssrc : ℕ) (group : Group) → M → Manager M → Bool × Manager M
    unfolding upsert
    join freq ssrc group multi m =
        let r = streams.add_channel freq multi in
        let held = record m { multi_by_group = upsert group r.1 (λ _. r.1) m.multi_by_group } in
        let entries =
          if ltb 0 m.lifetime_frames
          then m.lifetime_entries ++ ((group, ssrc) ∷ [])
          else m.lifetime_entries in
        (r.0, if r.0 then record held { lifetime_entries = entries } else held)

    unfoldable pub attach : (freq : ℕ) (info : ChannelInfo) → Manager M → Bool × Manager M
    unfolding join lookup
    attach freq info m = elim (lookup info.group m.multi_by_group) [
      | some multi ↦ join freq info.ssrc info.group multi m
      | none ↦ elim streams.new_multi [
        | none ↦ (false, m)
        | some multi ↦ join freq info.ssrc info.group multi m
      ]
    ]

    -- Every stream drops its other slots on the frequency.
    unfoldable pub prune_groups :
        (unregisters : ℕ → Bool) (freq keep_ssrc : ℕ) → Dict Group M → Manager M → Bool × Manager M
    unfolding adjust forget_all
    prune_groups unregisters freq keep_ssrc [] m = (true, m)
    prune_groups unregisters freq keep_ssrc ((group, multi) ∷ groups) m =
        let r = streams.prune_frequency freq keep_ssrc multi in
        let held = record m { multi_by_group = adjust group (λ _. r.1) m.multi_by_group } in
        elim r.0 [
          | none ↦ (false, held)
          | some olds ↦
              prune_groups unregisters freq keep_ssrc groups (forget_all unregisters olds held)
        ]

    -- `_provision`
    unfoldable pub provision : (now freq : ℕ) (band : String) → Reply → Manager M → Bool × Manager M
    unfolding band_producible enter_channel register attach prune_groups
    provision now freq band reply m =
        let provisioned : Bool × Manager M = elim reply.info [
          | none ↦ (false, m)
          | some info ↦
              and_then
                (and_then
                  (and_then
                    (and_then (reply.filter_set, m)
                      (λ s.
                        register reply.registers info.ssrc
                          (enter_channel now freq band info reply.rate s)))
                    (λ s. (reply.sink_made, s)))
                  (attach freq info))
                (λ s. prune_groups reply.unregisters freq info.ssrc s.multi_by_group s)
        ] in
        if band_producible freq m.input_samprate_hz
        then provisioned
        else (false, notify band false m)
