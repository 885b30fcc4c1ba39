-- ===== src/ReceiverManager/Tracked.antt =====
-- The books of `ReceiverManager` in wspr_recorder/receiver_manager.py: what is registered or kept
-- alive has a channel.
use wspr_recorder.Common.{
  ℕ, Bool, arith, ◌||◌, if◌then◌else◌, true, Option, none, some, List, [], ◌∷◌, ◌≡◌, All, if_intro,
}
use wspr_recorder.Common.Dict.{Dict, erase, set_discard, NodupKeys, nat_eq, string_eq, pair_eq}
use wspr_recorder.ReceiverManager.{ChannelState, Manager, forget, forget_all}
use wspr_recorder.ReceiverManager.Entries.{
  has, erase-NodupKeys, All-erase, drop_ssrc-lifetimes, drop_ssrc-All, set_discard-listened,
  erase-listened,
}

abbrev pub ssrcs_of : Option (List ℕ) → List ℕ
ssrcs_of none = []
ssrcs_of (some ssrcs) = ssrcs

abbrev pub registered : {M : Type 0} → Manager M → List ℕ
registered m = ssrcs_of m.listener

-- `stuck` marks the SSRCs whose unregistration raises.
module _ (stuck : ℕ → Bool) where
  -- The channel is there, or it could not be taken from the listener.
  abbrev pub known : Dict ℕ ChannelState → ℕ → Bool
  known d s = has s d || stuck s

  -- An SSRC whose unregistration raises is marked.
  abbrev pub Marks : (ℕ → Bool) → Type 0
  Marks unregisters = (s : ℕ) → (unregisters s || stuck s) ≡ true

  pub known_weaken :
      (d e : Dict ℕ ChannelState) (s : ℕ)
      → (has s d ≡ true → has s e ≡ true)
      → known d s ≡ true
      → known e s ≡ true
  known_weaken d e s f h = ground (arith, f)

module _ {M : Type 0} (stuck : ℕ → Bool) where
  pub record IsTracked (m : Manager M) : Type 0 where
    pub nodup : NodupKeys m.channels
    pub own : All (λ (k, ch). ch.ssrc ≡ k) m.channels
    pub lifetimes : All (λ (_, s). has s m.channels ≡ true) m.lifetime_entries
    pub streams : All (λ (g, _). has g m.multi_by_group ≡ true) m.lifetime_entries
    pub listened : m.connected ≡ true → All (λ s. known stuck m.channels s ≡ true) (registered m)

  forget-IsTracked :
      (goes : ℕ → Bool) (old : ℕ) (m : Manager M)
      → Marks stuck goes
      → IsTracked m
      → IsTracked (forget goes old m)
  unfolding forget
  forget-IsTracked goes old m k v = record {
    nodup = erase-NodupKeys old m.channels v.nodup;
    own = All-erase (λ (k, ch). ch.ssrc ≡ k) old m.channels v.own;
    lifetimes = drop_ssrc-lifetimes old m.channels m.lifetime_entries v.lifetimes;
    streams =
        drop_ssrc-All (λ (g, _). has g m.multi_by_group ≡ true) old m.lifetime_entries v.streams;
    listened = λ c. discarded m.listener (v.listened c);
  }
    where
      discarded :
          (l : Option (List ℕ))
          → All (λ s. known stuck m.channels s ≡ true) (ssrcs_of l)
          → All
              (λ s. known stuck (erase old m.channels) s ≡ true)
              (ssrcs_of (elim l [
                | none ↦ none
                | some ssrcs ↦ some (if goes old then set_discard old ssrcs else ssrcs)
              ]))
      discarded none a = tt
      discarded (some ss) a =
          if_intro (All (λ s. known stuck (erase old m.channels) s ≡ true)) (goes old)
            (λ _. set_discard-listened stuck old m.channels ss a)
            (λ f. erase-listened stuck old m.channels ss (let g = k old in ground arith) a)

  pub forget_all-IsTracked :
      (goes : ℕ → Bool) (olds : List ℕ) (m : Manager M)
      → Marks stuck goes
      → IsTracked m
      → IsTracked (forget_all goes olds m)
  unfolding forget_all
  forget_all-IsTracked goes [] m k v = v
  forget_all-IsTracked goes (old ∷ olds) m k v =
      forget_all-IsTracked goes olds (forget goes old m) k (forget-IsTracked goes old m k v)
