-- ===== src/UartAt/Urc/Steps.antt =====
-- One round of the loop over the reports, on each of its branches.
use iot_sms.Base.{
  ℕ, suc, ◌+◌, ◌<◌, ◌&&◌, [], ◌++◌, Option, none, some, Bytes, length, take, drop, ltb, lt→ltb, ◌≡◌,
  refl, ap, ◌∙◌, arith, if◌then◌else◌, Option-cases, inl, inr, some-injective, none-some,
}
use iot_sms.CString.Search.{split_at_text}
use iot_sms.Rtos.{Rtos}
use iot_sms.UartAt.Fragments.{State}
use iot_sms.UartAt.Urc.{
  Moment, cmt_prefix, find_two_lines, find_sms_urc, send_complete, parse_cmt_text_mode_response,
  handle_urc, handle_urcs,
}

pub find_empty : find_sms_urc [] ≡ none
unfolding find_sms_urc split_at_text
find_empty = refl

abbrev Positive : Option (ℕ × ℕ) → Type 0
Positive o = (start urc_len : ℕ) → o ≡ some (start, urc_len) → 0 < urc_len

-- A report is not empty.
pub find-Positive : (rx : Bytes) → Positive (find_sms_urc rx)
unfolding find_sms_urc
find-Positive rx = elim (Option-cases (split_at_text cmt_prefix rx)) [
  | inl away ↦ rw (away, find_sms_urc) (λ start n e. absurd (none-some e))
  | inr ((noise, behind), e) ↦ elim (Option-cases (find_two_lines (cmt_prefix ++ behind))) [
    | inl open_end ↦ rw (e, open_end, find_sms_urc) (λ start n e'. absurd (none-some e'))
    | inr ((header, content, remainder), e') ↦
        rw (e, e', find_sms_urc)
          (λ start n e''.
            let same : (length header + 2) + (length content + 2) ≡ n =
              ap (λ (p : ℕ × ℕ). p.1) (some-injective e'') in
            omega arith)
  ]
]

module _ (R : Rtos) where
  -- The state after a report has been parsed and a complete message sent.
  abbrev pub take_report : State R → Bytes → Moment → State R
  take_report s report m = send_complete R (parse_cmt_text_mode_response R s report m)

  handle_urc-none :
      (s : State R) (rx : Bytes) (m : Moment)
      → find_sms_urc rx ≡ none
      → handle_urc R s rx m ≡ (s, 0)
  unfolding handle_urc
  handle_urc-none s rx m e = rw (e, handle_urc) refl

  handle_urc-some :
      (s : State R) (rx : Bytes) (m : Moment) (start urc_len : ℕ)
      → find_sms_urc rx ≡ some (start, urc_len)
      → handle_urc R s rx m ≡ (take_report s (take urc_len (drop start rx)) m, start + urc_len)
  unfolding handle_urc
  handle_urc-some s rx m start urc_len e = rw (e, handle_urc) refl

  abbrev pub next_round : ℕ → (ℕ → Moment) → ℕ → Bytes → State R × ℕ → State R × Bytes
  next_round fuel at i rx (s', n) =
      if ltb 0 n && ltb 0 (length (drop n rx))
      then handle_urcs R fuel at (suc i) s' (drop n rx)
      else (s', drop n rx)

  pub handle_urcs_step :
      (fuel : ℕ) (at : ℕ → Moment) (i : ℕ) (s : State R) (rx : Bytes)
      → handle_urcs R (suc fuel) at i s rx ≡ next_round fuel at i rx (handle_urc R s rx (at i))
  unfolding handle_urcs
  handle_urcs_step fuel at i s rx = refl

  pub handle_urcs_last :
      (fuel : ℕ) (at : ℕ → Moment) (i : ℕ) (s : State R) (rx : Bytes)
      → find_sms_urc rx ≡ none
      → handle_urcs R (suc fuel) at i s rx ≡ (s, rx)
  handle_urcs_last fuel at i s rx e =
      handle_urcs_step fuel at i s rx ∙ ap (next_round fuel at i rx) (handle_urc-none s rx (at i) e)

  pub handle_urcs_more :
      (fuel : ℕ) (at : ℕ → Moment) (i : ℕ) (s : State R) (rx : Bytes) (start urc_len : ℕ)
      → find_sms_urc rx ≡ some (start, urc_len)
      → 0 < length (drop (start + urc_len) rx)
      → handle_urcs R (suc fuel) at i s rx
        ≡ handle_urcs R fuel at
            (suc i)
            (take_report s (take urc_len (drop start rx)) (at i))
            (drop (start + urc_len) rx)
  handle_urcs_more fuel at i s rx start urc_len e rest =
      let one : 0 < start + urc_len = omega (arith, find-Positive rx start urc_len e) in
      handle_urcs_step fuel at i s rx
      ∙ ap (next_round fuel at i rx) (handle_urc-some s rx (at i) start urc_len e)
      ∙ rw (lt→ltb _ _ one, lt→ltb _ _ rest) refl

  pub handle_urcs_final :
      (fuel : ℕ) (at : ℕ → Moment) (i : ℕ) (s : State R) (rx : Bytes) (start urc_len : ℕ)
      → find_sms_urc rx ≡ some (start, urc_len)
      → drop (start + urc_len) rx ≡ []
      → handle_urcs R (suc fuel) at i s rx
        ≡ (take_report s (take urc_len (drop start rx)) (at i), [])
  handle_urcs_final fuel at i s rx start urc_len e rest =
      let one : 0 < start + urc_len = omega (arith, find-Positive rx start urc_len e) in
      handle_urcs_step fuel at i s rx
      ∙ ap (next_round fuel at i rx) (handle_urc-some s rx (at i) start urc_len e)
      ∙ rw (lt→ltb _ _ one, rest) refl
