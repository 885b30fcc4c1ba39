-- ===== src/CycleBatcher/Balance.antt =====
-- Every step of `CycleBatcher` of wspr_recorder/spot_sink.py keeps the account.
use Prim.Native.String.{String}
use wspr_recorder.Common.{
  ℕ, ap₂, Bool, true, Option, List, [], ◌∷◌, ◌++◌, ◌≡◌, refl, sym, ap, ◌∙◌, All, arith, inl, inr,
  ◌⊎◌, if◌then◌else◌, if_intro, if_same, ◌&&◌, not, List-cases, Bool-cases, All-intro,
  All-map_weaken,
}
use wspr_recorder.Common.Dict.{
  Dict, lookup, get_or, same, upsert, lookup-upsert, string_eq, pair_eq,
}
use wspr_recorder.Common.Totals.{
  total, HeldBy, total-upsert, total-adjust, ++_nil, ++_assoc, same-cases, same→eq,
}
use wspr_recorder.CycleBatcher.{
  CycleKey, Key, Batch, expect_band, mark_done, add, add_noise, set_wake_callback,
  set_bands_by_source, set_band_producible, set_expected_rx_sources, batch_add, batch_add_noise,
  expect_in, complete_in, expecting_batch, legacy_batch,
}
use wspr_recorder.CycleBatcher.Writer.{Sink, Task, null}
use wspr_recorder.CycleBatcher.Inputs.{
  Input, callback_set, bands_set, producible_set, receivers_set, band_expected, band_done,
  spots_added, noise_added, turn, work, stop_set, drained, World, work_task, step, run,
}
use wspr_recorder.CycleBatcher.Keyed.{key_of, IsKeyed, work_task-batches, step-IsKeyed}
use wspr_recorder.CycleBatcher.Accounts.{shipped, account, work_task-Ships, work_task-tasks}
use wspr_recorder.CycleBatcher.Conservation.{
  spots_of, spots_in_task, spots_in_tasks, brought, received, IsKeyed-HeldBy, take_turn-Splits,
  spots_in_tasks-leftovers,
}

-- Adding to the last of three lists adds to the three together.
grown {ℓ} :
    {A : Type ℓ} (xs ys zs us vs : List A)
    → us ≡ zs ++ vs
    → xs ++ (ys ++ us) ≡ (xs ++ (ys ++ zs)) ++ vs
grown xs ys zs us vs h =
    ap (λ z. xs ++ (ys ++ z)) h
    ∙ ap (λ z. xs ++ z) (sym (++_assoc ys zs vs))
    ∙ sym (++_assoc xs (ys ++ zs) vs)

-- What an addition under the key `j` and the band `b` brings.
abbrev added {ℓ} : {S : Type ℓ} → Key → String → Key → String → List S → List S
added k band j b xs = if same k j && same band b then xs else []

extended :
    {S : Type 0} (band b : String) (xs : List S) (d : Dict String (List S))
    → get_or [] (lookup band (upsert b [] (λ o. o ++ xs) d))
      ≡ get_or [] (lookup band d) ++ (if same band b then xs else [])
extended band b xs d = rw (lookup-upsert band b [] (λ o. o ++ xs) d) (elim (same-cases band b) [
  | inl (p, t) ↦ rw t (ap (λ i. get_or [] (lookup i d) ++ xs) (sym p))
  | inr t ↦ rw t (sym (++_nil _))
])

module _ {S N : Type 0} (k : Key) (band : String) where
  -- A batch's update that leaves its key and its bands alone.
  unchanged-All :
      (f : Batch S N → Batch S N) (j : Key) (d : Dict Key (Batch S N))
      → ((b : Batch S N) → spots_of k band (f b) ≡ spots_of k band b)
      → All (λ (i, b). same j i ≡ true → spots_of k band (f b) ≡ spots_of k band b ++ []) d
  unchanged-All f j d h = All-intro _ (λ (i, b) _. h b ∙ sym (++_nil _)) d

  upsert-Keeps :
      (j : Key) (new : Batch S N) (f : Batch S N → Batch S N) (d : Dict Key (Batch S N))
      → spots_of k band (f new) ≡ []
      → ((b : Batch S N) → spots_of k band (f b) ≡ spots_of k band b)
      → IsKeyed d
      → total (spots_of k band) (upsert j new f d) ≡ total (spots_of k band) d ++ []
  upsert-Keeps j new f d n h v =
      total-upsert (spots_of k band) j new f [] d n (unchanged-All f j d h) (inl refl) v.nodup

  batch_add-spots :
      (b : String) (xs : List S) (old : Batch S N)
      → spots_of k band (batch_add b xs old) ≡ spots_of k band old ++ added k band (key_of old) b xs
  unfolding batch_add
  batch_add-spots b xs old = elim (Bool-cases (same k (key_of old))) [
    | inl t ↦ rw t (extended band b xs old.bands)
    | inr f ↦ rw f refl
  ]

  add-HeldBy :
      (j : Key) (b : String) (xs : List S) (d : Dict Key (Batch S N))
      → All (λ (i, o). key_of o ≡ i) d
      → (added k band j b xs ≡ []) ⊎ HeldBy (spots_of k band) j d
  add-HeldBy j b xs d h = elim (same-cases k j) [
    | inl (p, _) ↦ inr (rw (sym p) (IsKeyed-HeldBy k band d h))
    | inr f ↦ inl (rw f refl)
  ]

  add-Grows :
      (j : Key) (new : Batch S N) (b : String) (xs : List S) (d : Dict Key (Batch S N))
      → key_of new ≡ j
      → spots_of k band new ≡ []
      → IsKeyed d
      → total (spots_of k band) (upsert j new (batch_add b xs) d)
        ≡ total (spots_of k band) d ++ added k band j b xs
  add-Grows j new b xs d p n v =
      total-upsert (spots_of k band) j new (batch_add b xs) (added k band j b xs) d
        (batch_add-spots b xs new ∙ ap₂ ◌++◌ n (ap (λ i. added k band i b xs) p))
        (All-map_weaken (λ (i, o). key_of o ≡ i)
          (λ (i, o).
            same j i ≡ true
            → spots_of k band (batch_add b xs o) ≡ spots_of k band o ++ added k band j b xs)
          (λ (i, o) own t.
            batch_add-spots b xs o
            ∙ ap (λ z. spots_of k band o ++ added k band z b xs) (own ∙ sym (same→eq j i t)))
          d v.own)
        (add-HeldBy j b xs d v.own) v.nodup

null→nil {ℓ} : {A : Type ℓ} (xs : List A) (b : Bool) → (null xs && b) ≡ true → xs ≡ []
null→nil [] b h = refl
null→nil (x ∷ xs) b h = absurd (ground arith)

module _ {T S N D : Type 0} (api : Sink T S N) (average : Dict String (List S) → Option D) where
  -- The work on a task only moves what it holds.
  work_task-account :
      (k : Key) (band : String) (now wall : ℕ) (t : Task S N) (w : World T S N D)
      → account api average k band (work_task api average now wall t w)
        ≡ shipped k band w.log
          ++ ((spots_in_task k band t ++ spots_in_tasks k band w.tasks)
              ++ total (spots_of k band) w.batcher.batches)
  work_task-account k band now wall t w = rw (work_task-Ships api average k band now wall t w) (
      rw (work_task-tasks api average now wall t w) (
        rw (work_task-batches api average now wall t w) (
          ++_assoc (shipped k band w.log) (spots_in_task k band t) _
          ∙ ap (λ z. shipped k band w.log ++ z) (sym (++_assoc (spots_in_task k band t) _ _)))))

  -- A step adds to the account what it brings.
  step-account :
      (epoch : CycleKey → Option ℕ) (k : Key) (band : String) (i : Input S N) (w : World T S N D)
      → IsKeyed w.batcher.batches
      → account api average k band (step api average epoch i w)
        ≡ account api average k band w ++ brought k band i
  unfolding step expect_band mark_done add add_noise set_wake_callback set_bands_by_source
      set_band_producible set_expected_rx_sources batch_add_noise
  step-account epoch k band (callback_set given) w v = sym (++_nil _)
  step-account epoch k band (bands_set bands) w v = sym (++_nil _)
  step-account epoch k band (producible_set rx b can) w v = sym (++_nil _)
  step-account epoch k band (receivers_set sources) w v = sym (++_nil _)
  step-account epoch k band (band_expected now c b radiod rx) w v =
      grown (shipped k band w.log) _ _ _ [] (
        upsert-Keeps k band (c, rx) (expecting_batch epoch now c radiod rx w.batcher) (expect_in b)
          w.batcher.batches (ground arith) (λ o. refl) v)
  step-account epoch k band (band_done c b rx) w v = grown (shipped k band w.log) _ _ _ [] (
      total-adjust (spots_of k band) (c, rx) (complete_in b) w.batcher.batches (λ o. refl)
      ∙ sym (++_nil _))
  step-account epoch k band (spots_added now c b [] radiod rx) w v = sym (
      ap (λ z. account api average k band w ++ z) (if_same (same k (c, rx) && same band b) [])
      ∙ ++_nil _)
  step-account epoch k band (spots_added now c b (x ∷ xs) radiod rx) w v =
      grown (shipped k band w.log) _ _ _ _ (
        add-Grows k band (c, rx) (legacy_batch now c radiod rx w.batcher) b (x ∷ xs)
          w.batcher.batches refl (ground arith) v)
  step-account epoch k band (noise_added now c b noise radiod rx) w v =
      grown (shipped k band w.log) _ _ _ [] (
        upsert-Keeps k band (c, rx) (legacy_batch now c radiod rx w.batcher)
          (batch_add_noise b noise) w.batcher.batches (ground arith) (λ o. refl) v)
  step-account epoch k band (turn now) w v =
      if_intro Adds (null w.tasks && not w.batcher.is_stopped)
        (λ t.
          ap (λ z. shipped k band w.log ++ z)
            (take_turn-Splits now k band w.batcher v
              ∙ ap (λ ts. spots_in_tasks k band ts ++ total (spots_of k band) w.batcher.batches)
                  (sym (null→nil w.tasks _ t)))
          ∙ sym (++_nil _))
        (λ _. sym (++_nil _))
    where
      Adds : World T S N D → Type 0
      Adds x = account api average k band x ≡ account api average k band w ++ []
  step-account epoch k band (work now wall) w v = elim (List-cases w.tasks) [
    | inl h ↦ rw h (sym (++_nil _))
    | inr (t, ts, h) ↦
        rw h (work_task-account k band now wall t (record w { tasks = ts }) ∙ sym (++_nil _))
  ]
  step-account epoch k band stop_set w v = sym (++_nil _)
  step-account epoch k band drained w v =
      if_intro Adds (null w.tasks && w.batcher.is_stopped)
        (λ t.
          ap (λ z. shipped k band w.log ++ z)
            (++_nil _
              ∙ spots_in_tasks-leftovers k band w.batcher.batches
              ∙ ap (λ ts. spots_in_tasks k band ts ++ total (spots_of k band) w.batcher.batches)
                  (sym (null→nil w.tasks _ t)))
          ∙ sym (++_nil _))
        (λ _. sym (++_nil _))
    where
      Adds : World T S N D → Type 0
      Adds x = account api average k band x ≡ account api average k band w ++ []

  -- From batches kept under their own keys, in any interleaving of calls, turns of the writer, work on
  -- its tasks and a stop, the spots of a cycle, receiver and band that were handed to the sink, are
  -- set aside or still wait are, in this order, those that were there before and those that the
  -- run's calls of `add` bring: none is lost, doubled or moved.
  pub run-account :
      (epoch : CycleKey → Option ℕ) (k : Key) (band : String) (is : List (Input S N))
      (w : World T S N D)
      → IsKeyed w.batcher.batches
      → account api average k band (run api average epoch is w)
        ≡ account api average k band w ++ received k band is
  unfolding run
  run-account epoch k band [] w v = sym (++_nil _)
  run-account epoch k band (i ∷ is) w v =
      run-account epoch k band is (step api average epoch i w)
        (step-IsKeyed api average epoch i w v)
      ∙ ap (λ z. z ++ received k band is) (step-account epoch k band i w v)
      ∙ ++_assoc _ (brought k band i) _
