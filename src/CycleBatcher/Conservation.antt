-- ===== src/CycleBatcher/Conservation.antt =====
-- What becomes of the spots that `CycleBatcher` of wspr_recorder/spot_sink.py is given.
use Prim.Native.String.{String}
use wspr_recorder.Common.{
  ℕ, List, [], ◌∷◌, ◌++◌, ◌≡◌, refl, sym, ap, ◌∙◌, All, inl, inr, ◌⊎◌, if◌then◌else◌, if_intro, leb,
  ◌&&◌,
}
use wspr_recorder.Common.Dict.{Dict, lookup, get_or, same, values, string_eq, pair_eq}
use wspr_recorder.Common.Totals.{
  total, HeldBy, total-missing, ++_nil, ++_assoc, ++_middle, ++_nil_left, same-cases,
}
use wspr_recorder.CycleBatcher.{CycleKey, Key, Batch, Batcher}
use wspr_recorder.CycleBatcher.Writer.{
  Task, flush, cross, collect, is_complete, cross_scan, cross_turn, cross_verdict, skip, fire, hold,
  Verdict, cross_one, Crossed, Collected, take_turn, null,
}
use wspr_recorder.CycleBatcher.Inputs.{
  Input, callback_set, bands_set, producible_set, receivers_set, band_expected, band_done,
  spots_added, noise_added, turn, work, stop_set, drained, leftovers,
}
use wspr_recorder.CycleBatcher.Keyed.{key_of, IsKeyed, take_turn-batches}

module _ {S N : Type 0} where
  -- The spots that a batch holds for a key and a band.
  abbrev pub spots_of : Key → String → Batch S N → List S
  spots_of k band b = if same k (key_of b) then get_or [] (lookup band b.bands) else []

  abbrev pub spots_in_task : Key → String → Task S N → List S
  spots_in_task k band (flush b is_backstop) = spots_of k band b
  spots_in_task k band (cross c missing) = []

  -- The spots of the batches that are set aside for the writer.
  abbrev pub spots_in_tasks : Key → String → List (Task S N) → List S
  spots_in_tasks k band [] = []
  spots_in_tasks k band (t ∷ ts) = spots_in_task k band t ++ spots_in_tasks k band ts

  -- What the calls of `add` bring for a key and a band.
  abbrev pub brought : Key → String → Input S N → List S
  brought k band (spots_added now c b spots radiod rx) =
      if same k (c, rx) && same band b then spots else []
  brought k band (callback_set given) = []
  brought k band (bands_set bands) = []
  brought k band (producible_set rx b can) = []
  brought k band (receivers_set sources) = []
  brought k band (band_expected now c b radiod rx) = []
  brought k band (band_done c b rx) = []
  brought k band (noise_added now c b noise radiod rx) = []
  brought k band (turn now) = []
  brought k band (work now wall) = []
  brought k band stop_set = []
  brought k band drained = []

  abbrev pub received : Key → String → List (Input S N) → List S
  received k band [] = []
  received k band (i ∷ is) = brought k band i ++ received k band is

  spots_in_tasks-append :
      (k : Key) (band : String) (ts us : List (Task S N))
      → spots_in_tasks k band (ts ++ us) ≡ spots_in_tasks k band ts ++ spots_in_tasks k band us
  spots_in_tasks-append k band [] us = refl
  spots_in_tasks-append k band (t ∷ ts) us =
      ap (λ z. spots_in_task k band t ++ z) (spots_in_tasks-append k band ts us)
      ∙ sym (++_assoc (spots_in_task k band t) _ _)

  pub IsKeyed-HeldBy :
      (k : Key) (band : String) (d : Dict Key (Batch S N))
      → All (λ (j, b). key_of b ≡ j) d
      → HeldBy (spots_of k band) k d
  IsKeyed-HeldBy k band [] h = tt
  IsKeyed-HeldBy k band ((j, b) ∷ d) h = (λ f. rw h.0 (rw f refl), IsKeyed-HeldBy k band d h.1)

  -- The batches that a turn takes and those that it keeps hold what there was.
  collect-Splits :
      (now : ℕ) (k : Key) (band : String) (d : Dict Key (Batch S N))
      → IsKeyed d
      → spots_in_tasks k band (collect now d).ready ++ total (spots_of k band) (collect now d).kept
        ≡ total (spots_of k band) d
  unfolding collect
  collect-Splits now k band [] v = refl
  collect-Splits now k band ((j, b) ∷ d) v =
      let split = collect-Splits now k band d (record { own = v.own.1; nodup = v.nodup.1 }) in
      if_intro Splits (is_complete b) (λ _. taken split)
        (λ _. if_intro Splits (leb b.deadline now) (λ _. taken split) (λ _. kept split))
    where
      g : Batch S N → List S
      g = spots_of k band

      c : Collected S N
      c = collect now d

      Splits : Collected S N → Type 0
      Splits x = spots_in_tasks k band x.ready ++ total g x.kept ≡ g b ++ total g d

      SplitsRest : Type 0
      SplitsRest = spots_in_tasks k band c.ready ++ total g c.kept ≡ total g d

      taken :
          SplitsRest → (g b ++ spots_in_tasks k band c.ready) ++ total g c.kept ≡ g b ++ total g d
      taken h = ++_assoc (g b) _ _ ∙ ap (λ z. g b ++ z) h

      apart : SplitsRest → (spots_in_tasks k band c.ready ≡ []) ⊎ (g b ≡ [])
      apart h = elim (same-cases k j) [
        | inl (p, _) ↦ inl (
            ++_nil_left _ (total g c.kept) (
              h
              ∙ total-missing g k d (ap (λ i. lookup i d) p ∙ v.nodup.0)
                  (IsKeyed-HeldBy k band d v.own.1)))
        | inr f ↦ inr (rw v.own.0 (rw f refl))
      ]

      kept :
          SplitsRest → spots_in_tasks k band c.ready ++ (g b ++ total g c.kept) ≡ g b ++ total g d
      kept h = ++_middle _ (g b) _ (apart h) ∙ ap (λ z. g b ++ z) h

  pub spots_in_tasks-leftovers :
      (k : Key) (band : String) (d : Dict Key (Batch S N))
      → spots_in_tasks k band (leftovers (values d)) ≡ total (spots_of k band) d
  spots_in_tasks-leftovers k band [] = refl
  spots_in_tasks-leftovers k band ((j, b) ∷ d) =
      ap (λ z. spots_of k band b ++ z) (spots_in_tasks-leftovers k band d)

  cross_one-Empty :
      (v : Verdict) (k : Key) (band : String) (c : CycleKey) (missing : List String)
      (r : Crossed S N)
      → spots_in_tasks k band r.fires ≡ []
      → spots_in_tasks k band (cross_one v c missing r).fires ≡ []
  cross_one-Empty skip k band c missing r h = h
  cross_one-Empty fire k band c missing r h = h
  cross_one-Empty (hold t) k band c missing r h = h

  cross_scan-Empty :
      (now : ℕ) (k : Key) (band : String) (d : Dict CycleKey ℕ) (s : Batcher S N)
      → spots_in_tasks k band (cross_scan now d s).fires ≡ []
  unfolding cross_scan
  cross_scan-Empty now k band [] s = refl
  cross_scan-Empty now k band ((c, first) ∷ d) s =
      cross_one-Empty (cross_verdict now c first s) k band c _ _ (cross_scan-Empty now k band d _)

  take_turn-tasks :
      (now : ℕ) (k : Key) (band : String) (s : Batcher S N)
      → spots_in_tasks k band (take_turn now s).tasks
        ≡ spots_in_tasks k band (collect now s.batches).ready
  unfolding take_turn cross_turn
  take_turn-tasks now k band s =
      spots_in_tasks-append k band (collect now s.batches).ready _
      ∙ ap (λ z. spots_in_tasks k band (collect now s.batches).ready ++ z)
          (if_intro (λ (x : Crossed S N). spots_in_tasks k band x.fires ≡ [])
            (null s.expected_rx_sources) (λ _. refl)
            (λ _. cross_scan-Empty now k band s.cycle_first_commit_at _))
      ∙ ++_nil _

  -- A turn splits what the batches hold between its tasks and the batches it leaves.
  pub take_turn-Splits :
      (now : ℕ) (k : Key) (band : String) (s : Batcher S N)
      → IsKeyed s.batches
      → spots_in_tasks k band (take_turn now s).tasks
          ++ total (spots_of k band) (take_turn now s).after.batches
        ≡ total (spots_of k band) s.batches
  take_turn-Splits now k band s v = rw (take_turn-batches now s) (
      ap (λ z. z ++ total (spots_of k band) (collect now s.batches).kept)
        (take_turn-tasks now k band s)
      ∙ collect-Splits now k band s.batches v)
