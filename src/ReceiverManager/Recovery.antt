-- ===== src/ReceiverManager/Recovery.antt =====
-- wspr_recorder/receiver_manager.py: how `ReceiverManager` connects, reads its channels back,
-- provisions again what is missing or stale, resets and shuts down.
use Prim.Native.String.{String}
use wspr_recorder.Common.{
  ℕ, zero, suc, ◌+◌, ◌-◌, ◌*◌, Bool, true, false, ◌&&◌, ◌||◌, Option, none, some, List, [], ◌∷◌,
  ◌++◌, ltb, leb, ◌==◌, if◌then◌else◌,
}
use wspr_recorder.Common.Dict.{Dict, adjust, contains, values, get_or, nat_eq, string_eq, pair_eq}
use wspr_recorder.ReceiverManager.{
  Group, ChannelState, MultiStreams, Manager, Reply, band_producible, read_frontend_samprate,
  is_active, provision,
}

-- What a discovery tells of a channel: its frequency in millihertz and its sample rate.
abbrev pub View : Type 0
View = ℕ → Option (ℕ × ℕ)

-- Does the channel read back within 1 Hz of its frequency and at the wanted rate?
unfoldable pub reads_back : (rate : ℕ) → View → ChannelState → Bool
reads_back rate view ch = elim (view ch.ssrc) [
  | none ↦ false
  | some (frequency, sample_rate) ↦
      leb frequency (ch.frequency_hz * 1000 + 1000)
      && leb (ch.frequency_hz * 1000) (frequency + 1000)
      && sample_rate == rate
]

-- The channels that do not.
unfoldable pub bad_channels : (rate : ℕ) → View → List ChannelState → List ChannelState
unfolding reads_back
bad_channels rate view [] = []
bad_channels rate view (ch ∷ chs) =
    let rest = bad_channels rate view chs in if reads_back rate view ch then rest else ch ∷ rest

abbrev pub frequencies_of : List ChannelState → List ℕ
frequencies_of [] = []
frequencies_of (ch ∷ chs) = ch.frequency_hz ∷ frequencies_of chs

-- The passes of `_verify_and_retry_provisioned` from number `pass` on, with `passes` left, and the
-- readback after the last: whether a pass found all channels right, or none where a discovery
-- raises, and the frequencies for which a channel is asked for again, in their order.
unfoldable pub verify_passes :
    (readback : ℕ → Option View) (rate : ℕ)
    → List ChannelState
    → (passes pass : ℕ) → Option Bool × List ℕ
unfolding bad_channels
verify_passes readback rate chs zero pass = elim (readback pass) [
  | none ↦ (none, [])
  | some _ ↦ (some false, [])
]
verify_passes readback rate chs (suc passes) pass =
    let rest = verify_passes readback rate chs passes (suc pass) in
    elim (readback pass) [
      | none ↦ (none, [])
      | some view ↦ elim (bad_channels rate view chs) [
        | [] ↦ (some true, [])
        | ch ∷ bad ↦ (rest.0, frequencies_of (ch ∷ bad) ++ rest.1)
      ]
    ]

abbrev insert_sorted : ℕ → List ℕ → List ℕ
insert_sorted f [] = f ∷ []
insert_sorted f (g ∷ gs) =
    let rest = insert_sorted f gs in
    if ltb f g then f ∷ g ∷ gs else (if f == g then g ∷ gs else g ∷ rest)

-- `sorted(set(fs) - set(taken))`
unfoldable pub sorted_without : (taken : List ℕ) → List ℕ → List ℕ
sorted_without taken [] = []
sorted_without taken (f ∷ fs) =
    let rest = sorted_without taken fs in if contains taken f then rest else insert_sorted f rest

abbrev pub producible_only : Option ℕ → List ℕ → List ℕ
producible_only rate [] = []
producible_only rate (f ∷ fs) =
    let rest = producible_only rate fs in if band_producible f rate then f ∷ rest else rest

unfoldable pub stale_channels : (now : ℕ) → List ChannelState → List ChannelState
unfolding is_active
stale_channels now [] = []
stale_channels now (ch ∷ chs) =
    let rest = stale_channels now chs in if is_active now ch then rest else ch ∷ rest

-- The channel whose status is read: the first that is active, or else the first.
unfoldable pub probe_channel : (now : ℕ) → Dict ℕ ChannelState → Option ℕ
unfolding is_active
probe_channel now [] = none
probe_channel now ((ssrc, ch) ∷ d) =
    let later = active_in d in if is_active now ch then some ssrc else some (get_or ssrc later)
  where
    active_in : Dict ℕ ChannelState → Option ℕ
    active_in [] = none
    active_in ((s, c) ∷ rest) =
        let later = active_in rest in if is_active now c then some s else later

-- What an operation meets: the time, taken once, a band's name, the replies to each provisioning, the front
-- end's rate in each channel's status, the readbacks, the wanted sample rate, and whether the
-- control connection and the status listener come up.
pub record World : Type 0 where
  pub now : ℕ
  pub band_of : ℕ → String
  pub reply : ℕ → Reply
  pub status_rate : ℕ → Option ℕ
  pub readback : ℕ → Option View
  pub sample_rate : ℕ
  pub control_opens : Bool
  pub listener_starts : Bool

module _ {M : Type 0} where
  unfoldable pub verify_and_retry : World → Manager M → Option Bool × List ℕ
  unfolding verify_passes
  verify_and_retry w m = verify_passes w.readback w.sample_rate (values m.channels) 3 0

  -- `unproducible_freqs`
  unfoldable pub unproducible_freqs : Manager M → List ℕ
  unproducible_freqs m = above m.frequencies
    where
      above : List ℕ → List ℕ
      above [] = []
      above (f ∷ fs) =
          let rest = above fs in if band_producible f m.input_samprate_hz then rest else f ∷ rest

  unfoldable pub record_samples : (now ssrc count : ℕ) → Manager M → Manager M
  unfolding adjust
  record_samples now ssrc count m = record m {
    channels =
        adjust ssrc
          (λ ch. record ch {
            last_sample_time = some now;
            samples_received = ch.samples_received + count;
          })
          m.channels;
  }

  -- `check_health`
  unfoldable pub check_health : (now : ℕ) → Manager M → Bool
  unfolding is_active
  check_health now m = any_active (values m.channels)
    where
      any_active : List ChannelState → Bool
      any_active [] = false
      any_active (ch ∷ chs) = is_active now ch || any_active chs

  -- The front end's rate where it is read again in `reprovision_stale`.
  unfoldable pub refresh_rate : World → (missing : List ℕ) → Manager M → Manager M
  unfolding read_frontend_samprate probe_channel
  refresh_rate w [] m = m
  refresh_rate w (f ∷ fs) m = elim m.input_samprate_hz [
    | none ↦ m
    | some known ↦ elim (probe_channel w.now m.channels) [
      | none ↦ m
      | some ssrc ↦ elim (read_frontend_samprate (w.status_rate ssrc)) [
        | none ↦ m
        | some fresh ↦ if known == 0 then m else record m { input_samprate_hz = some fresh }
      ]
    ]
  ]

  abbrev pub map_streams : (M → M) → Dict Group M → Dict Group M
  map_streams f [] = []
  map_streams f ((group, multi) ∷ d) = (group, f multi) ∷ map_streams f d

  -- `start_streams` and `stop_streams`: an error of one stream is logged and passed over.
  unfoldable pub start_streams : MultiStreams M → Manager M → Manager M
  start_streams streams m = record m { multi_by_group = map_streams streams.start m.multi_by_group }

  unfoldable pub stop_streams : MultiStreams M → Manager M → Manager M
  stop_streams streams m = record m { multi_by_group = map_streams streams.stop m.multi_by_group }

  abbrev pub blank : Manager M → Manager M
  blank m = record m { control = false; channels = []; multi_by_group = []; lifetime_entries = [] }

  -- `shutdown`: the streams are stopped before they are dropped.
  unfoldable pub shutdown : Manager M → Manager M
  shutdown m = record (blank m) {
    listener = none;
    listeners_running = elim m.listener [
      | none ↦ m.listeners_running
      | some _ ↦ m.listeners_running - 1
    ];
    connected = false;
  }

  module _ (streams : MultiStreams M) (w : World) where
    unfoldable pub provision_all : List ℕ → Manager M → ℕ × Manager M
    unfolding provision
    provision_all [] m = (0, m)
    provision_all (f ∷ fs) m =
        let r = provision streams w.now f (w.band_of f) (w.reply f) m in
        let rest = provision_all fs r.1 in (if r.0 then suc rest.0 else rest.0, rest.1)

    -- `connect`, from where the gate has been waited for.
    unfoldable pub connect : Manager M → Bool × Manager M
    unfolding provision_all verify_and_retry
    connect m =
        let opened = record m {
          control = true;
          connected = true;
          listener = if w.listener_starts then some [] else none;
          listeners_running =
              if w.listener_starts then suc m.listeners_running else m.listeners_running;
        } in
        let r = provision_all m.frequencies opened in
        let failed : Bool × Manager M = (false, record r.1 { connected = false }) in
        if w.control_opens
        then (if r.0 == 0
            then (false, r.1)
            else elim (verify_and_retry w r.1).0 [ none ↦ failed | some _ ↦ (true, r.1) ])
        else (false, record m { connected = false })

    -- `reprovision_stale`: none where the readback raises.
    unfoldable pub reprovision_stale : Manager M → Option ℕ × Manager M
    unfolding sorted_without refresh_rate stale_channels provision_all verify_and_retry
    reprovision_stale m =
        let missing = sorted_without (frequencies_of (values m.channels)) m.frequencies in
        let refreshed = refresh_rate w missing m in
        let wanted = producible_only refreshed.input_samprate_hz missing in
        let stale = stale_channels w.now (values m.channels) in
        let r = provision_all (wanted ++ frequencies_of stale) refreshed in
        if m.control
        then (if r.0 == 0
            then (some 0, r.1)
            else (elim (verify_and_retry w r.1).0 [ none ↦ none | some _ ↦ some r.0 ], r.1))
        else (some 0, m)

    unfoldable pub full_reset : Manager M → Bool × Manager M
    unfolding connect start_streams
    full_reset m =
        let r = connect (record (blank m) { input_samprate_hz = none }) in
        (r.0, if r.0 then start_streams streams r.1 else r.1)
