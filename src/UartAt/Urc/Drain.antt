-- ===== src/UartAt/Urc/Drain.antt =====
-- The loop over the reports ends, and leaves no complete report in the buffer.
use iot_sms.Base.{
  ℕ, zero, suc, ◌+◌, ◌<◌, false, [], ◌∷◌, none, Bytes, length, drop, length-drop, ◌≡◌, refl, sym,
  ap, ◌∙◌, arith, Option-cases, inl, inr, ◌⊎◌,
}
use iot_sms.Rtos.{Rtos}
use iot_sms.UartAt.Fragments.{State}
use iot_sms.UartAt.Urc.{
  AtState, Moment, find_sms_urc, has_complete_sms_urc, handle_urcs, process_pending_sms_urcs,
}
use iot_sms.UartAt.Urc.Steps.{
  find_empty, find-Positive, take_report, handle_urcs_last, handle_urcs_more, handle_urcs_final,
}

pub none-has_complete : (rx : Bytes) → find_sms_urc rx ≡ none → has_complete_sms_urc rx ≡ false
unfolding has_complete_sms_urc
none-has_complete rx e = rw (e, has_complete_sms_urc) refl

pub empty_or_longer : (s : Bytes) → (s ≡ []) ⊎ (0 < length s)
empty_or_longer [] = inl refl
empty_or_longer (c ∷ s) = inr (omega arith)

module _ (R : Rtos) where
  -- Two amounts of fuel above the buffer's length give the same result, with no report left.
  abbrev Ends : ℕ → ℕ → (ℕ → Moment) → ℕ → State R → Bytes → Type 0
  Ends f g at i s rx =
      (handle_urcs R f at i s rx ≡ handle_urcs R g at i s rx)
      × (find_sms_urc (handle_urcs R f at i s rx).1 ≡ none)

  handle_urcs-Ends :
      (f g : ℕ) (at : ℕ → Moment) (i : ℕ) (s : State R) (rx : Bytes)
      → length rx < f
      → length rx < g
      → Ends f g at i s rx
  handle_urcs-Ends zero g at i s rx hf hg = absurd (omega arith)
  handle_urcs-Ends (suc f) zero at i s rx hf hg = absurd (omega arith)
  handle_urcs-Ends (suc f) (suc g) at i s rx hf hg = elim (Option-cases (find_sms_urc rx)) [
    | inl e ↦
        let left = handle_urcs_last R f at i s rx e in
        (
          left ∙ sym (handle_urcs_last R g at i s rx e),
          ap (λ (r : State R × Bytes). find_sms_urc r.1) left ∙ e,
        )
    | inr ((start, urc_len), e) ↦ elim (empty_or_longer (drop (start + urc_len) rx)) [
      | inl gone ↦
          let left = handle_urcs_final R f at i s rx start urc_len e gone in
          (
            left ∙ sym (handle_urcs_final R g at i s rx start urc_len e gone),
            ap (λ (r : State R × Bytes). find_sms_urc r.1) left ∙ find_empty,
          )
      | inr rest ↦
          let shorter : length (drop (start + urc_len) rx) < length rx =
            omega (arith, length-drop (start + urc_len) rx, find-Positive rx start urc_len e) in
          let (same, none_left) =
            handle_urcs-Ends f g at (suc i) (take_report R s _ (at i)) (drop (start + urc_len) rx)
              (omega arith) (omega arith) in
          let left = handle_urcs_more R f at i s rx start urc_len e rest in
          (
            left ∙ same ∙ sym (handle_urcs_more R g at i s rx start urc_len e rest),
            ap (λ (r : State R × Bytes). find_sms_urc r.1) left ∙ none_left,
          )
    ]
  ]

  -- The loop over the reports needs no more fuel than one unit above the length of the buffer: with
  -- any fuel above it the result is the same, no complete report is left, and the bit is clear.
  pub process_pending-drains :
      (s : AtState R.Queue) (at : ℕ → Moment) (fuel : ℕ)
      → length s.rx_buffer < fuel
      → let t = process_pending_sms_urcs R s at in
        ((t.fragments, t.rx_buffer) ≡ handle_urcs R fuel at 0 s.fragments s.rx_buffer)
        × (has_complete_sms_urc t.rx_buffer ≡ false)
        × (t.urc_bit ≡ false)
  unfolding process_pending_sms_urcs
  process_pending-drains s at fuel h =
      let (same, none_left) =
        handle_urcs-Ends (suc (length s.rx_buffer)) fuel at 0 s.fragments s.rx_buffer (omega arith)
          h in
      let nothing = none-has_complete _ none_left in (same, nothing, nothing)
