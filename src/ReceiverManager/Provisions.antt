-- ===== src/ReceiverManager/Provisions.antt =====
-- A provisioning of `ReceiverManager` in wspr_recorder/receiver_manager.py keeps the books.
use Prim.Native.String.{String}
use wspr_recorder.Common.{
  ℕ, Bool, true, false, Option, [], ◌∷◌, ◌≡◌, refl, ◌∙◌, subst, All, All-append, All-map_weaken,
  inl, inr, ltb, if_intro, Bool-cases, option_intro,
}
use wspr_recorder.Common.Dict.{
  Dict, lookup, upsert, adjust, upsert-NodupKeys, nat_eq, string_eq, pair_eq,
}
use wspr_recorder.Common.Totals.{same→eq, same_self}
use wspr_recorder.ReceiverManager.{
  Group, ChannelInfo, MultiStreams, Manager, Reply, band_producible, provision, new_state,
  forget_all, enter_channel, register, join, attach, prune_groups, and_then,
}
use wspr_recorder.ReceiverManager.Tracked.{
  ssrcs_of, registered, known, Marks, known_weaken, IsTracked, forget_all-IsTracked,
}
use wspr_recorder.ReceiverManager.Entries.{
  has, has-upsert, has-upsert_other, has-adjust, All-put, set_add-All, has-upsert_self,
}

module _ {M : Type 0} where
  -- A `try` block whose calls each keep what the next relies on.
  pub and_then-keeps :
      (P Q : Manager M → Type 0) (r : Bool × Manager M) (f : Manager M → Bool × Manager M)
      → ((m : Manager M) → P m → Q m)
      → P r.1
      → ((m : Manager M) → P m → Q (f m).1)
      → Q (and_then r f).1
  and_then-keeps P Q (false, m) f w p g = w m p
  and_then-keeps P Q (true, m) f w p g = g m p

module _ {M : Type 0} (stuck : ℕ → Bool) where
  -- The books are right and the channel has an entry.
  record Holds (ssrc : ℕ) (m : Manager M) : Type 0 where
    tracked : IsTracked stuck m
    held : has ssrc m.channels ≡ true

  enter_channel-Holds :
      (now freq : ℕ) (band : String) (info : ChannelInfo) (rate : Option ℕ) (m : Manager M)
      → IsTracked stuck m
      → Holds info.ssrc (enter_channel now freq band info rate m)
  unfolding enter_channel
  enter_channel-Holds now freq band info rate m v =
      let state = new_state freq band info now in
      let kept = λ (s : ℕ) (h : has s m.channels ≡ true).
        has-upsert_other s info.ssrc state (λ _. state) m.channels h in
      record {
        tracked = record {
          nodup = upsert-NodupKeys info.ssrc state (λ _. state) m.channels v.nodup;
          own =
              All-put (λ (k, ch). ch.ssrc ≡ k) info.ssrc state m.channels (same→eq info.ssrc) v.own;
          lifetimes = All-map_weaken _ _ (λ (_, s). kept s) m.lifetime_entries v.lifetimes;
          streams = v.streams;
          listened = λ c.
              All-map_weaken (λ s. known stuck m.channels s ≡ true)
                (λ s. known stuck (upsert info.ssrc state (λ _. state) m.channels) s ≡ true)
                (λ s.
                  known_weaken stuck m.channels (upsert info.ssrc state (λ _. state) m.channels) s
                    (kept s))
                (registered m) (v.listened c);
        };
        held =
            has-upsert info.ssrc info.ssrc state (λ _. state) m.channels
            ∙ rw (same_self info.ssrc) refl;
      }

  register-Holds :
      (goes : Bool) (ssrc : ℕ) (m : Manager M) → Holds ssrc m → Holds ssrc (register goes ssrc m).1
  unfolding register
  register-Holds goes ssrc m v =
      option_intro (λ (r : Bool × Manager M). Holds ssrc r.1) m.listener (λ _. v)
        (λ ss e.
          if_intro (Holds ssrc) goes
            (λ _. record {
              tracked = record {
                nodup = v.tracked.nodup;
                own = v.tracked.own;
                lifetimes = v.tracked.lifetimes;
                streams = v.tracked.streams;
                listened = λ c.
                    set_add-All (λ s. known stuck m.channels s ≡ true) ssrc ss (rw v.held refl)
                      (subst (λ l. All (λ s. known stuck m.channels s ≡ true) (ssrcs_of l)) e
                        (v.tracked.listened c));
              };
              held = v.held;
            })
            (λ _. v))

  module _ (streams : MultiStreams M) where
    join-Holds :
        (freq ssrc : ℕ) (group : Group) (multi : M) (m : Manager M)
        → Holds ssrc m
        → Holds ssrc (join streams freq ssrc group multi m).1
    unfolding join
    join-Holds freq ssrc group multi m v =
        let r = streams.add_channel freq multi in
        let groups = upsert group r.1 (λ _. r.1) m.multi_by_group in
        let kept =
          All-map_weaken (λ (g, _). has g m.multi_by_group ≡ true)
            (λ ((g, _) : Group × ℕ). has g groups ≡ true)
            (λ (g, _). has-upsert_other g group r.1 (λ _. r.1) m.multi_by_group) m.lifetime_entries
            v.tracked.streams in
        if_intro (Holds ssrc) r.0
          (λ _. record {
            tracked = record {
              nodup = v.tracked.nodup;
              own = v.tracked.own;
              lifetimes =
                  if_intro (All (λ (_, s). has s m.channels ≡ true)) (ltb 0 m.lifetime_frames)
                    (λ _.
                      All-append _ m.lifetime_entries ((group, ssrc) ∷ []) v.tracked.lifetimes
                        (v.held, tt))
                    (λ _. v.tracked.lifetimes);
              streams =
                  if_intro (All (λ (g, _). has g groups ≡ true)) (ltb 0 m.lifetime_frames)
                    (λ _.
                      All-append _ m.lifetime_entries ((group, ssrc) ∷ []) kept
                        (has-upsert_self group r.1 (λ _. r.1) m.multi_by_group, tt))
                    (λ _. kept);
              listened = v.tracked.listened;
            };
            held = v.held;
          })
          (λ _. record {
            tracked = record {
              nodup = v.tracked.nodup;
              own = v.tracked.own;
              lifetimes = v.tracked.lifetimes;
              streams = kept;
              listened = v.tracked.listened;
            };
            held = v.held;
          })

    attach-Holds :
        (freq : ℕ) (info : ChannelInfo) (m : Manager M)
        → Holds info.ssrc m
        → Holds info.ssrc (attach streams freq info m).1
    unfolding attach
    attach-Holds freq info m v =
        let P = λ (r : Bool × Manager M). Holds info.ssrc r.1 in
        option_intro P (lookup info.group m.multi_by_group)
          (λ _.
            option_intro P streams.new_multi (λ _. v)
              (λ multi _. join-Holds freq info.ssrc info.group multi m v))
          (λ multi _. join-Holds freq info.ssrc info.group multi m v)

    prune_groups-IsTracked :
        (goes : ℕ → Bool) (freq keep_ssrc : ℕ) (groups : Dict Group M) (m : Manager M)
        → Marks stuck goes
        → IsTracked stuck m
        → IsTracked stuck (prune_groups streams goes freq keep_ssrc groups m).1
    unfolding prune_groups
    prune_groups-IsTracked goes freq keep_ssrc [] m k v = v
    prune_groups-IsTracked goes freq keep_ssrc ((group, multi) ∷ groups) m k v =
        let r = streams.prune_frequency freq keep_ssrc multi in
        let held = record m { multi_by_group = adjust group (λ _. r.1) m.multi_by_group } in
        let tracked : IsTracked stuck held = record {
          nodup = v.nodup;
          own = v.own;
          lifetimes = v.lifetimes;
          streams =
              All-map_weaken (λ (g, _). has g m.multi_by_group ≡ true)
                (λ ((g, _) : Group × ℕ). has g held.multi_by_group ≡ true)
                (λ (g, _) h. has-adjust g group (λ _. r.1) m.multi_by_group ∙ h) m.lifetime_entries
                v.streams;
          listened = v.listened;
        } in
        option_intro (λ (x : Bool × Manager M). IsTracked stuck x.1) r.0 (λ _. tracked)
          (λ olds _.
            prune_groups-IsTracked goes freq keep_ssrc groups (forget_all goes olds held) k
              (forget_all-IsTracked stuck goes olds held k tracked))

    pub provision-IsTracked :
        (now freq : ℕ) (band : String) (reply : Reply) (m : Manager M)
        → Marks stuck reply.unregisters
        → IsTracked stuck m
        → IsTracked stuck (provision streams now freq band reply m).1
    unfolding provision
    provision-IsTracked now freq band reply m k v =
        if_intro (λ (r : Bool × Manager M). IsTracked stuck r.1)
          (band_producible freq m.input_samprate_hz)
          (λ _.
            option_intro (λ (r : Bool × Manager M). IsTracked stuck r.1) reply.info (λ _. v)
              (λ info _. elim (Bool-cases reply.filter_set) [
                | inl t ↦ rw t (
                    let H = Holds info.ssrc in
                    let entered = enter_channel now freq band info reply.rate m in
                    let first = register reply.registers info.ssrc entered in
                    let second = and_then first (λ s. (reply.sink_made, s)) in
                    and_then-keeps H (IsTracked stuck) (and_then second (attach streams freq info))
                      (λ s.
                        prune_groups streams reply.unregisters freq info.ssrc s.multi_by_group s)
                      (λ _ h. h.tracked)
                      (and_then-keeps H H second (attach streams freq info) (λ _ h. h)
                        (and_then-keeps H H first (λ s. (reply.sink_made, s)) (λ _ h. h)
                          (register-Holds reply.registers info.ssrc entered
                            (enter_channel-Holds now freq band info reply.rate m v))
                          (λ _ h. h))
                        (attach-Holds freq info))
                      (λ s h.
                        prune_groups-IsTracked reply.unregisters freq info.ssrc s.multi_by_group s k
                          h.tracked))
                | inr t ↦ rw t v
              ]))
          (λ _. record {
            nodup = v.nodup;
            own = v.own;
            lifetimes = v.lifetimes;
            streams = v.streams;
            listened = v.listened;
          })
