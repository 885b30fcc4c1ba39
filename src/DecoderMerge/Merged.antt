-- ===== src/DecoderMerge/Merged.antt =====
-- Which spot of a call the merge of wspr_recorder/decoder.py keeps.
use wspr_recorder.Common.{
  true, false, Option, none, some, List, [], ◌∷◌, ◌≡◌, refl, sym, ap, ◌∙◌, arith, inl, inr,
  if◌then◌else◌, if_intro, option_intro, Option-cases,
}
use wspr_recorder.Common.Dict.{
  Dict, same, lookup, upsert, lookup-upsert, NodupKeys, upsert-NodupKeys, chars_eq,
}
use wspr_recorder.Common.Totals.{same-cases}
use wspr_recorder.Common.Int.{ltb_ℤ}
use wspr_recorder.Common.Texts.{Chars}
use wspr_recorder.DecoderMerge.{
  PassSpot, promote, index_one, preferred, add_missing, index_from, merge_standard, merge_spreading,
  merge_by_call,
}

module _ {F R : Type 0} where
  -- The better of two spots, the first where they are as good.
  abbrev pub better : Option (PassSpot F R) → Option (PassSpot F R) → Option (PassSpot F R)
  better none b = b
  better (some o) none = some o
  better (some o) (some b) = if ltb_ℤ o.snr b.snr then some b else some o

  -- The first spot of the call with the best SNR.
  abbrev pub best : Chars → List (PassSpot F R) → Option (PassSpot F R)
  best c [] = none
  best c (s ∷ ss) = let later = best c ss in if same c s.call then better (some s) later else later

  -- The last spot of the call.
  abbrev pub latest : Chars → List (PassSpot F R) → Option (PassSpot F R)
  latest c [] = none
  latest c (s ∷ ss) =
      let later = latest c ss in
      elim later [ some t ↦ some t | none ↦ if same c s.call then some s else none ]

  better_assoc : (a b d : Option (PassSpot F R)) → better (better a b) d ≡ better a (better b d)
  better_assoc none b d = refl
  better_assoc (some a) none d = refl
  better_assoc (some a) (some b) none = ground arith
  better_assoc (some a) (some b) (some d) = ground arith

  better-none : (a : Option (PassSpot F R)) → better a none ≡ a
  better-none none = refl
  better-none (some a) = refl

  lookup-put :
      (c k : Chars) (x : PassSpot F R) (d : Dict Chars (PassSpot F R))
      → lookup c (upsert k x (λ _. x) d) ≡ (if same c k then some x else lookup c d)
  lookup-put c k x d = lookup-upsert c k x (λ _. x) d

  index_one-own :
      (c : Chars) (d : Dict Chars (PassSpot F R)) (s : PassSpot F R)
      → c ≡ s.call
      → same c s.call ≡ true
      → lookup c (index_one d s) ≡ better (lookup s.call d) (some s)
  index_one-own c d s p t =
      option_intro (λ x. lookup c x ≡ better (lookup s.call d) (some s)) (lookup s.call d)
        (λ n. lookup-put c s.call s d ∙ rw t (rw n refl))
        (λ o m.
          if_intro (λ x. lookup c x ≡ better (lookup s.call d) (some s)) (ltb_ℤ o.snr s.snr)
            (λ b. lookup-put c s.call s d ∙ rw t (rw m (rw b refl)))
            (λ b. ap (λ i. lookup i d) p ∙ rw m (rw b refl)))

  index_one-other :
      (c : Chars) (d : Dict Chars (PassSpot F R)) (s : PassSpot F R)
      → same c s.call ≡ false
      → lookup c (index_one d s) ≡ lookup c d
  index_one-other c d s f =
      option_intro (λ x. lookup c x ≡ lookup c d) (lookup s.call d)
        (λ _. lookup-put c s.call s d ∙ rw f refl)
        (λ o _.
          if_intro (λ x. lookup c x ≡ lookup c d) (ltb_ℤ o.snr s.snr)
            (λ _. lookup-put c s.call s d ∙ rw f refl) (λ _. refl))

  lookup-index_one :
      (c : Chars) (d : Dict Chars (PassSpot F R)) (s : PassSpot F R)
      → lookup c (index_one d s)
        ≡ (if same c s.call then better (lookup c d) (some s) else lookup c d)
  lookup-index_one c d s = elim (same-cases c s.call) [
    | inl (p, t) ↦ rw t (rw (ap (λ i. lookup i d) p) (index_one-own c d s p t))
    | inr f ↦ rw f (index_one-other c d s f)
  ]

  lookup-index_from :
      (c : Chars) (d : Dict Chars (PassSpot F R)) (ss : List (PassSpot F R))
      → lookup c (index_from d ss) ≡ better (lookup c d) (best c ss)
  unfolding index_from
  lookup-index_from c d [] = sym (better-none (lookup c d))
  lookup-index_from c d (s ∷ ss) =
      lookup-index_from c (index_one d s) ss
      ∙ ap (λ x. better x (best c ss)) (lookup-index_one c d s)
      ∙ elim (same-cases c s.call) [
        | inl (p, t) ↦ rw t (better_assoc (lookup c d) (some s) (best c ss))
        | inr f ↦ rw f refl
      ]

  lookup-merge_standard :
      (c : Chars) (spread : Dict Chars (PassSpot F R)) (ss : List (PassSpot F R))
      (merged : Dict Chars (PassSpot F R))
      → lookup c (merge_standard spread ss merged)
        ≡ elim (latest c ss) [ none ↦ lookup c merged | some t ↦ some (preferred spread t) ]
  unfolding merge_standard
  lookup-merge_standard c spread [] merged = refl
  lookup-merge_standard c spread (s ∷ ss) merged =
      lookup-merge_standard c spread ss
        (upsert s.call (preferred spread s) (λ _. preferred spread s) merged)
      ∙ elim (Option-cases (latest c ss)) [
        | inl n ↦ rw n (
            lookup-put c s.call (preferred spread s) merged
            ∙ elim (same-cases c s.call) [ inl (_, t) ↦ rw t refl | inr f ↦ rw f refl ])
        | inr (t, m) ↦ rw m refl
      ]

  abbrev pub fall_back : Option (PassSpot F R) → Option (PassSpot F R) → Option (PassSpot F R)
  fall_back none b = b
  fall_back (some a) _ = some a

  abbrev pub promoted : Option (PassSpot F R) → Option (PassSpot F R)
  promoted none = none
  promoted (some s) = some (promote s)

  lookup-add_missing :
      (c call : Chars) (s : PassSpot F R) (merged : Dict Chars (PassSpot F R))
      → lookup c (add_missing call s merged)
        ≡ (if same c call then fall_back (lookup c merged) (some (promote s)) else lookup c merged)
  lookup-add_missing c call s merged = elim (same-cases c call) [
    | inl (p, t) ↦ rw t (
        option_intro (λ x. lookup c x ≡ fall_back (lookup c merged) (some (promote s)))
          (lookup call merged)
          (λ n.
            lookup-put c call (promote s) merged ∙ rw t (rw (ap (λ i. lookup i merged) p ∙ n) refl))
          (λ o m. rw (ap (λ i. lookup i merged) p ∙ m) refl))
    | inr f ↦ rw f (
        option_intro (λ x. lookup c x ≡ lookup c merged) (lookup call merged)
          (λ _. lookup-put c call (promote s) merged ∙ rw f refl) (λ _ _. refl))
  ]

  fall_back_assoc :
      (a b d : Option (PassSpot F R)) → fall_back (fall_back a b) d ≡ fall_back a (fall_back b d)
  fall_back_assoc none b d = refl
  fall_back_assoc (some a) b d = refl

  fall_back-none : (a : Option (PassSpot F R)) → fall_back a none ≡ a
  fall_back-none none = refl
  fall_back-none (some a) = refl

  lookup-merge_spreading :
      (c : Chars) (d merged : Dict Chars (PassSpot F R))
      → lookup c (merge_spreading d merged) ≡ fall_back (lookup c merged) (promoted (lookup c d))
  unfolding merge_spreading lookup
  lookup-merge_spreading c [] merged = sym (fall_back-none (lookup c merged))
  lookup-merge_spreading c ((call, s) ∷ d) merged =
      lookup-merge_spreading c d (add_missing call s merged)
      ∙ ap (λ x. fall_back x (promoted (lookup c d))) (lookup-add_missing c call s merged)
      ∙ elim (same-cases c call) [
        | inl (_, t) ↦
            rw t (fall_back_assoc (lookup c merged) (some (promote s)) (promoted (lookup c d)))
        | inr f ↦ rw f refl
      ]

  latest-call :
      (c : Chars) (ss : List (PassSpot F R)) (t : PassSpot F R) → latest c ss ≡ some t → t.call ≡ c
  latest-call c [] t h = absurd (ground arith)
  latest-call c (s ∷ ss) t h = ground (arith, latest-call c ss t)

  -- The standard pass's spot gives way to the spreading pass's.
  fall_back-preferred :
      (c : Chars) (spread : Dict Chars (PassSpot F R)) (l : Option (PassSpot F R))
      → ((t : PassSpot F R) → l ≡ some t → t.call ≡ c)
      → fall_back
          (elim l [ none ↦ none | some t ↦ some (preferred spread t) ])
          (promoted (lookup c spread))
        ≡ elim (lookup c spread) [ none ↦ l | some sp ↦ some (promote sp) ]
  fall_back-preferred c spread none h = elim (Option-cases (lookup c spread)) [
    | inl n ↦ rw n refl
    | inr (_, m) ↦ rw m refl
  ]
  fall_back-preferred c spread (some t) h =
      ap (λ i. some (elim (lookup i spread) [ none ↦ t | some sp ↦ promote sp ])) (h t refl)
      ∙ elim (Option-cases (lookup c spread)) [ inl n ↦ rw n refl | inr (_, m) ↦ rw m refl ]

  merge_standard-NodupKeys :
      (spread : Dict Chars (PassSpot F R)) (ss : List (PassSpot F R))
      (merged : Dict Chars (PassSpot F R))
      → NodupKeys merged
      → NodupKeys (merge_standard spread ss merged)
  unfolding merge_standard
  merge_standard-NodupKeys spread [] merged u = u
  merge_standard-NodupKeys spread (s ∷ ss) merged u =
      merge_standard-NodupKeys spread ss _
        (upsert-NodupKeys s.call (preferred spread s) (λ _. preferred spread s) merged u)

  merge_spreading-NodupKeys :
      (d merged : Dict Chars (PassSpot F R))
      → NodupKeys merged
      → NodupKeys (merge_spreading d merged)
  unfolding merge_spreading
  merge_spreading-NodupKeys [] merged u = u
  merge_spreading-NodupKeys ((call, s) ∷ d) merged u =
      merge_spreading-NodupKeys d (add_missing call s merged) (
        option_intro NodupKeys (lookup call merged)
          (λ _. upsert-NodupKeys call (promote s) (λ _. promote s) merged u) (λ _ _. u))

  lookup-merge_by_call :
      (c : Chars) (standard spreading : List (PassSpot F R))
      → lookup c (merge_by_call standard spreading)
        ≡ elim (best c spreading) [ none ↦ latest c standard | some sp ↦ some (promote sp) ]
  unfolding merge_by_call lookup
  lookup-merge_by_call c standard spreading =
      let spread = index_from [] spreading in
      lookup-merge_spreading c spread (merge_standard spread standard [])
      ∙ ap (λ x. fall_back x (promoted (lookup c spread)))
          (lookup-merge_standard c spread standard [])
      ∙ fall_back-preferred c spread (latest c standard) (latest-call c standard)
      ∙ ap (λ x. elim x [ none ↦ latest c standard | some sp ↦ some (promote sp) ])
          (lookup-index_from c [] spreading)

  -- The merge holds no call twice. What it has of a call is the spreading pass's spot of it with the
  -- best SNR, the first of those that are as good, with its spreading, where it has one, for a metric;
  -- it is the standard pass's last spot of the call where the spreading pass has none, and nothing
  -- where neither pass has the call.
  pub merge_by_call-Prefers :
      (c : Chars) (standard spreading : List (PassSpot F R))
      → NodupKeys (merge_by_call standard spreading)
        × (lookup c (merge_by_call standard spreading)
            ≡ elim (best c spreading) [ none ↦ latest c standard | some sp ↦ some (promote sp) ])
  unfolding merge_by_call
  merge_by_call-Prefers c standard spreading = (
    merge_spreading-NodupKeys (index_from [] spreading) _
        (merge_standard-NodupKeys (index_from [] spreading) standard [] tt),
    lookup-merge_by_call c standard spreading,
  )
