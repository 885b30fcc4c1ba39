-- ===== src/ReceiverManager/Kept.antt =====
-- Each operation of `ReceiverManager` in wspr_recorder/receiver_manager.py keeps the books.
use wspr_recorder.Common.{
  ℕ, Bool, true, false, Option, none, some, List, [], ◌∷◌, ◌++◌, ◌≡◌, refl, sym, ◌∙◌, subst, arith,
  All, All-map_weaken, if_intro, option_intro, ◌==◌, if◌then◌else◌, suc, ◌+◌,
}
use mathlib.Core.Path.{subst₂}
use wspr_recorder.Common.Dict.{
  Dict, lookup, adjust, adjust-NodupKeys, NodupKeys, values, string_eq, pair_eq, nat_eq,
}
use wspr_recorder.Common.Totals.{All-adjust}
use wspr_recorder.ReceiverManager.{
  Group, ChannelState, MultiStreams, Manager, provision, read_frontend_samprate,
}
use wspr_recorder.ReceiverManager.Recovery.{
  World, provision_all, connect, reprovision_stale, refresh_rate, record_samples, map_streams,
  start_streams, stop_streams, blank, full_reset, shutdown, verify_and_retry, sorted_without,
  probe_channel, frequencies_of, producible_only, stale_channels,
}
use wspr_recorder.ReceiverManager.Entries.{has, has-adjust}
use wspr_recorder.ReceiverManager.Tracked.{
  IsTracked, Marks, known, known_weaken, ssrcs_of, registered,
}
use wspr_recorder.ReceiverManager.Provisions.{provision-IsTracked}

has-map_streams :
    {M : Type 0} (f : M → M) (g : Group) (d : Dict Group M) → has g (map_streams f d) ≡ has g d
unfolding lookup
has-map_streams f g [] = refl
has-map_streams f g ((h, x) ∷ d) = ground (arith, has-map_streams f g d)

-- What the operation meets marks the SSRCs whose unregistration raises.
abbrev pub MarksAll : (ℕ → Bool) → World → Type 0
MarksAll stuck w = (freq : ℕ) → Marks stuck (w.reply freq).unregisters

module _ {M : Type 0} (streams : MultiStreams M) (stuck : ℕ → Bool) where
  provision_all-IsTracked :
      (w : World) (fs : List ℕ) (m : Manager M)
      → MarksAll stuck w
      → IsTracked stuck m
      → IsTracked stuck (provision_all streams w fs m).1
  unfolding provision_all
  provision_all-IsTracked w [] m k v = v
  provision_all-IsTracked w (f ∷ fs) m k v =
      provision_all-IsTracked w fs (provision streams w.now f (w.band_of f) (w.reply f) m).1 k
        (provision-IsTracked stuck streams w.now f (w.band_of f) (w.reply f) m (k f) v)

  -- The books do not depend on the other fields.
  same_books :
      (m m' : Manager M)
      → m'.channels ≡ m.channels
      → m'.lifetime_entries ≡ m.lifetime_entries
      → m'.listener ≡ m.listener
      → m'.connected ≡ m.connected
      → ((g : Group) → has g m'.multi_by_group ≡ has g m.multi_by_group)
      → IsTracked stuck m
      → IsTracked stuck m'
  same_books m m' p q r c s v = record {
    nodup = subst NodupKeys (sym p) v.nodup;
    own = subst (λ d. All (λ (k, ch). ch.ssrc ≡ k) d) (sym p) v.own;
    lifetimes =
        subst₂ (λ d es. All (λ ((_, s) : Group × ℕ). has s d ≡ true) es) (sym p) (sym q)
          v.lifetimes;
    streams =
        subst (λ es. All (λ ((g, _) : Group × ℕ). has g m'.multi_by_group ≡ true) es) (sym q)
          (All-map_weaken (λ (g, _). has g m.multi_by_group ≡ true)
            (λ ((g, _) : Group × ℕ). has g m'.multi_by_group ≡ true) (λ (g, _) h. s g ∙ h)
            m.lifetime_entries v.streams);
    listened = λ on.
        subst₂ (λ d l. All (λ s. known stuck d s ≡ true) (ssrcs_of l)) (sym p) (sym r)
          (v.listened (sym c ∙ on));
  }

  refresh_rate-IsTracked :
      (w : World) (missing : List ℕ) (m : Manager M)
      → IsTracked stuck m
      → IsTracked stuck (refresh_rate w missing m)
  unfolding refresh_rate
  refresh_rate-IsTracked w [] m v = v
  refresh_rate-IsTracked w (f ∷ fs) m v =
      option_intro (IsTracked stuck) m.input_samprate_hz (λ _. v)
        (λ known _.
          option_intro (IsTracked stuck) (probe_channel w.now m.channels) (λ _. v)
            (λ ssrc _.
              option_intro (IsTracked stuck) (read_frontend_samprate (w.status_rate ssrc)) (λ _. v)
                (λ fresh _.
                  if_intro (IsTracked stuck) (known == 0) (λ _. v)
                    (λ _.
                      same_books m (record m { input_samprate_hz = some fresh }) refl refl refl refl
                        (λ _. refl) v))))

  -- With no connection, the listener's registrations may outlive their channels.
  pub disconnected :
      (m : Manager M) → IsTracked stuck m → IsTracked stuck (record m { connected = false })
  disconnected m v = record {
    nodup = v.nodup;
    own = v.own;
    lifetimes = v.lifetimes;
    streams = v.streams;
    listened = λ c. absurd (ground arith);
  }

  -- `connect` makes its registrations anew.
  pub connect-IsTracked :
      (w : World) (m : Manager M)
      → MarksAll stuck w
      → IsTracked stuck (record m { connected = false })
      → IsTracked stuck (connect streams w m).1
  unfolding connect
  connect-IsTracked w m k v =
      let P = λ (r : Bool × Manager M). IsTracked stuck r.1 in
      if_intro P w.control_opens
        (λ _.
          if_intro P ((provision_all streams w m.frequencies (opened m)).0 == 0) (λ _. provisioned)
            (λ _.
              option_intro P
                (verify_and_retry w (provision_all streams w m.frequencies (opened m)).1).0
                (λ _. disconnected _ provisioned) (λ _ _. provisioned)))
        (λ _. v)
    where
      opened : Manager M → Manager M
      opened n = record n {
        control = true;
        connected = true;
        listener = if w.listener_starts then some [] else none;
        listeners_running =
            if w.listener_starts then suc n.listeners_running else n.listeners_running;
      }

      provisioned : IsTracked stuck (provision_all streams w m.frequencies (opened m)).1
      provisioned = provision_all-IsTracked w m.frequencies (opened m) k (record {
        nodup = v.nodup;
        own = v.own;
        lifetimes = v.lifetimes;
        streams = v.streams;
        listened = λ _.
            if_intro (λ l. All (λ s. known stuck m.channels s ≡ true) (ssrcs_of l))
              w.listener_starts (λ _. tt) (λ _. tt);
      })

  pub start_streams-IsTracked :
      (m : Manager M) → IsTracked stuck m → IsTracked stuck (start_streams streams m)
  unfolding start_streams
  start_streams-IsTracked m v =
      same_books m (record m { multi_by_group = map_streams streams.start m.multi_by_group }) refl
        refl refl refl (λ g. has-map_streams streams.start g m.multi_by_group) v

  pub stop_streams-IsTracked :
      (m : Manager M) → IsTracked stuck m → IsTracked stuck (stop_streams streams m)
  unfolding stop_streams
  stop_streams-IsTracked m v =
      same_books m (record m { multi_by_group = map_streams streams.stop m.multi_by_group }) refl
        refl refl refl (λ g. has-map_streams streams.stop g m.multi_by_group) v

  pub record_samples-IsTracked :
      (now ssrc count : ℕ) (m : Manager M)
      → IsTracked stuck m
      → IsTracked stuck (record_samples now ssrc count m)
  unfolding record_samples
  record_samples-IsTracked now ssrc count m v =
      let sampled = λ (ch : ChannelState). record ch {
        last_sample_time = some now;
        samples_received = ch.samples_received + count;
      } in
      let kept =
        λ (s : ℕ) (h : has s m.channels ≡ true). has-adjust s ssrc sampled m.channels ∙ h in
      let now_has = λ (s : ℕ). has s (adjust ssrc sampled m.channels) ≡ true in
      record {
        nodup = adjust-NodupKeys ssrc sampled m.channels v.nodup;
        own = All-adjust (λ (k, ch). ch.ssrc ≡ k) ssrc sampled m.channels (λ _ _ h. h) v.own;
        lifetimes =
            All-map_weaken (λ (_, s). has s m.channels ≡ true) (λ ((_, s) : Group × ℕ). now_has s)
              (λ (_, s). kept s) m.lifetime_entries v.lifetimes;
        streams = v.streams;
        listened = λ on.
            All-map_weaken (λ s. known stuck m.channels s ≡ true)
              (λ s. known stuck (adjust ssrc sampled m.channels) s ≡ true)
              (λ s. known_weaken stuck m.channels (adjust ssrc sampled m.channels) s (kept s))
              (registered m) (v.listened on);
      }

  pub reprovision_stale-IsTracked :
      (w : World) (m : Manager M)
      → MarksAll stuck w
      → IsTracked stuck m
      → IsTracked stuck (reprovision_stale streams w m).1
  unfolding reprovision_stale
  reprovision_stale-IsTracked w m k v =
      let P = λ (r : Option ℕ × Manager M). IsTracked stuck r.1 in
      let missing = sorted_without (frequencies_of (values m.channels)) m.frequencies in
      let refreshed = refresh_rate w missing m in
      let wanted =
        producible_only refreshed.input_samprate_hz missing
        ++ frequencies_of (stale_channels w.now (values m.channels)) in
      let provisioned =
        provision_all-IsTracked w wanted refreshed k (refresh_rate-IsTracked w missing m v) in
      if_intro P m.control
        (λ _.
          if_intro P ((provision_all streams w wanted refreshed).0 == 0) (λ _. provisioned)
            (λ _. provisioned))
        (λ _. v)

  pub full_reset-IsTracked :
      (w : World) (m : Manager M)
      → MarksAll stuck w
      → IsTracked stuck m
      → IsTracked stuck (full_reset streams w m).1
  unfolding full_reset
  full_reset-IsTracked w m k v =
      let r = connect streams w (record (blank m) { input_samprate_hz = none }) in
      let connected_again =
        connect-IsTracked w (record (blank m) { input_samprate_hz = none }) k
          (record {
            nodup = tt;
            own = tt;
            lifetimes = tt;
            streams = tt;
            listened = λ on. absurd (ground arith);
          }) in
      if_intro (IsTracked stuck) r.0 (λ _. start_streams-IsTracked r.1 connected_again)
        (λ _. connected_again)

  pub shutdown-IsTracked : (m : Manager M) → IsTracked stuck m → IsTracked stuck (shutdown m)
  unfolding shutdown
  shutdown-IsTracked m v = record {
    nodup = tt;
    own = tt;
    lifetimes = tt;
    streams = tt;
    listened = λ _. tt;
  }
