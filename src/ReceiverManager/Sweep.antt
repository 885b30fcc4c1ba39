-- ===== src/ReceiverManager/Sweep.antt =====
-- The readback of the channels in wspr_recorder/receiver_manager.py: which of its passes end it.
use wspr_recorder.Common.{
  ℕ, zero, suc, Bool, true, false, Option, none, some, List, [], ◌∷◌, ◌≡◌, refl, sym, ◌∙◌, ◌↔◌, all,
  arith, inl, inr, Option-cases, List-cases,
}
use wspr_recorder.Common.Dict.{nat_eq, string_eq, pair_eq}
use wspr_recorder.ReceiverManager.{ChannelState}
use wspr_recorder.ReceiverManager.Recovery.{View, reads_back, bad_channels, verify_passes}

none-some : (b : Bool) → none ≡ some b → ⊥
none-some b p = ground arith

false-true : some false ≡ some true → ⊥
false-true p = ground arith

module _ (readback : ℕ → Option View) (rate : ℕ) (chs : List ChannelState) where
  bad_channels-all :
      (view : View) (cs : List ChannelState)
      → (bad_channels rate view cs ≡ []) ↔ (all (reads_back rate view) cs ≡ true)
  unfolding bad_channels
  bad_channels-all view [] = ground arith
  bad_channels-all view (c ∷ cs) = ground (arith, bad_channels-all view cs)

  -- One of the next `passes` readbacks, from number `pass` on, finds every channel right, and none up
  -- to it raises.
  pub data RightWithin : (passes pass : ℕ) → Type 0 where
    right_now :
        {passes pass : ℕ} (view : View)
        → readback pass ≡ some view
        → all (reads_back rate view) chs ≡ true
        → RightWithin (suc passes) pass
    right_later :
        {passes pass : ℕ} (view : View)
        → readback pass ≡ some view
        → RightWithin passes (suc pass)
        → RightWithin (suc passes) pass

  verify_raises :
      (passes pass : ℕ)
      → readback pass ≡ none
      → (verify_passes readback rate chs passes pass).0 ≡ none
  unfolding verify_passes
  verify_raises zero pass e = rw (e, verify_passes) refl
  verify_raises (suc passes) pass e = rw (e, verify_passes) refl

  verify_gives_up :
      (pass : ℕ) (view : View)
      → readback pass ≡ some view
      → (verify_passes readback rate chs zero pass).0 ≡ some false
  unfolding verify_passes
  verify_gives_up pass view e = rw (e, verify_passes) refl

  verify_goes_on :
      (passes pass : ℕ) (view : View) (c : ChannelState) (cs : List ChannelState)
      → readback pass ≡ some view
      → bad_channels rate view chs ≡ c ∷ cs
      → (verify_passes readback rate chs (suc passes) pass).0
        ≡ (verify_passes readback rate chs passes (suc pass)).0
  unfolding verify_passes
  verify_goes_on passes pass view c cs e b = rw (e, verify_passes) (rw b refl)

  verify_succeeds :
      (passes pass : ℕ) (view : View)
      → readback pass ≡ some view
      → bad_channels rate view chs ≡ []
      → (verify_passes readback rate chs (suc passes) pass).0 ≡ some true
  unfolding verify_passes
  verify_succeeds passes pass view e b = rw (e, verify_passes) (rw b refl)

  pub verify_passes_sound :
      (passes pass : ℕ)
      → (verify_passes readback rate chs passes pass).0 ≡ some true
      → RightWithin passes pass
  verify_passes_sound zero pass h = elim (Option-cases (readback pass)) [
    | inl e ↦ absurd (none-some true (sym (verify_raises zero pass e) ∙ h))
    | inr (view, e) ↦ absurd (false-true (sym (verify_gives_up pass view e) ∙ h))
  ]
  verify_passes_sound (suc passes) pass h = elim (Option-cases (readback pass)) [
    | inl e ↦ absurd (none-some true (sym (verify_raises (suc passes) pass e) ∙ h))
    | inr (view, e) ↦ elim (List-cases (bad_channels rate view chs)) [
      | inl b ↦ right_now view e ((bad_channels-all view chs).0 b)
      | inr (c, cs, b) ↦ right_later view e (
          verify_passes_sound passes (suc pass)
            (sym (verify_goes_on passes pass view c cs e b) ∙ h))
    ]
  ]

  pub verify_passes_complete :
      (passes pass : ℕ)
      → RightWithin passes pass
      → (verify_passes readback rate chs passes pass).0 ≡ some true
  verify_passes_complete zero pass r = elim r [ ]
  verify_passes_complete (suc passes) pass (right_now view e a) =
      verify_succeeds passes pass view e ((bad_channels-all view chs).1 a)
  verify_passes_complete (suc passes) pass (right_later view e r) =
      elim (List-cases (bad_channels rate view chs)) [
        | inl b ↦ verify_succeeds passes pass view e b
        | inr (c, cs, b) ↦
            verify_goes_on passes pass view c cs e b ∙ verify_passes_complete passes (suc pass) r
      ]
