-- ===== src/UartAt/Receive/Signals.antt =====
-- A complete report in the buffer is always announced by the bit, and the buffer fits its array.
use iot_sms.Base.{
  ℕ, zero, suc, Bool, true, false, ◌&&◌, ◌||◌, [], ◌∷◌, ◌++◌, none, Bytes, All-drop, length-drop,
  length, drop, ltb, ◌≡◌, ◌≢◌, refl, sym, subst, ◌∙◌, arith, Bool-cases, Option-cases, inl, inr,
  none-some,
}
use iot_sms.CString.{NoNul}
use iot_sms.CString.Search.{split_at_text, split_at_text-here}
use iot_sms.Rtos.{Rtos}
use iot_sms.UartAt.Fragments.{State}
use iot_sms.UartAt.Urc.{
  AtState, Moment, cmt_prefix, find_two_lines, find_sms_urc, has_complete_sms_urc, handle_urc,
  handle_urcs, process_pending_sms_urcs, clear_command_data_preserving_sms,
}
use iot_sms.UartAt.Urc.Steps.{find_empty}
use iot_sms.UartAt.Urc.Drain.{none-has_complete, process_pending-drains}
use iot_sms.UartAt.Receive.{from_cmt, signal, receive_data}
use iot_sms.UartAt.Receive.Bounds.{
  Fits, Within, Within-same, Within-Fits, from_cmt-Within, receive_data-Fits,
}

abbrev pub Announced : {Queue : Type 0} → AtState Queue → Type 0
Announced s = has_complete_sms_urc s.rx_buffer ≡ true → s.urc_bit ≡ true

abbrev pub IsSound : {Queue : Type 0} → AtState Queue → Type 0
IsSound s = Fits s.rx_buffer × Announced s

or_right : (a b : Bool) → b ≡ true → (a || b) ≡ true
or_right true b h = refl
or_right false b h = h

signal-Announced : {Queue : Type 0} (s : AtState Queue) → Announced (signal s)
unfolding signal
signal-Announced s h = or_right s.urc_bit (has_complete_sms_urc s.rx_buffer) h

pub receive_data-Announced :
    {Queue : Type 0} (s : AtState Queue) (dtmp : Bytes)
    → Announced s
    → Announced (receive_data s dtmp)
unfolding receive_data
receive_data-Announced s dtmp h = elim (Bool-cases (ltb 0 (length dtmp))) [
  | inl e ↦ rw e (signal-Announced _)
  | inr e ↦ rw e h
]

pub receive_data-IsSound :
    {Queue : Type 0} (s : AtState Queue) (dtmp : Bytes)
    → IsSound s
    → NoNul dtmp
    → IsSound (receive_data s dtmp)
receive_data-IsSound s dtmp (fits, announced) text =
    (receive_data-Fits s dtmp fits text, receive_data-Announced s dtmp announced)

drop-Within : (n : ℕ) (s : Bytes) → Within (drop n s) s
drop-Within n s = record {
  shorter = omega (arith, length-drop n s);
  made_of = λ h. All-drop (λ (c : ℕ). c ≢ 0) n s h;
}

Within-trans : {s t u : Bytes} → Within s t → Within t u → Within s u
Within-trans w v = record {
  shorter = omega (arith, w.shorter, v.shorter);
  made_of = λ h. w.made_of (v.made_of h);
}

module _ (R : Rtos) where
  handle_urcs-Within :
      (fuel : ℕ) (at : ℕ → Moment) (i : ℕ) (s : State R) (rx : Bytes)
      → Within (handle_urcs R fuel at i s rx).1 rx
  unfolding handle_urcs
  handle_urcs-Within zero at i s rx = Within-same rx
  handle_urcs-Within (suc fuel) at i s rx =
      let n = (handle_urc R s rx (at i)).1 in
      let rest = drop n rx in
      let further = handle_urcs-Within fuel at (suc i) (handle_urc R s rx (at i)).0 rest in
      elim (Bool-cases (ltb 0 n && ltb 0 (length rest))) [
        | inl e ↦ rw e (Within-trans further (drop-Within n rx))
        | inr e ↦ rw e (drop-Within n rx)
      ]

  rx-pending :
      (s : AtState R.Queue) (at : ℕ → Moment)
      → Within (process_pending_sms_urcs R s at).rx_buffer s.rx_buffer
  unfolding process_pending_sms_urcs
  rx-pending s at = handle_urcs-Within (suc (length s.rx_buffer)) at 0 s.fragments s.rx_buffer

  nothing_complete : (s : AtState R.Queue) → has_complete_sms_urc s.rx_buffer ≡ false → Announced s
  nothing_complete s e h = ground (arith, e ∙ sym e, sym e ∙ h)

  pub pending-IsSound :
      (s : AtState R.Queue) (at : ℕ → Moment)
      → Fits s.rx_buffer
      → IsSound (process_pending_sms_urcs R s at)
  pending-IsSound s at fits = (
    Within-Fits (rx-pending s at) fits,
    nothing_complete (process_pending_sms_urcs R s at)
        (process_pending-drains R s at (suc (length s.rx_buffer)) (omega arith)).1,
  )

  -- What is kept in front of a command has no complete report either.
  from_cmt-incomplete : (rx : Bytes) → find_sms_urc rx ≡ none → find_sms_urc (from_cmt rx) ≡ none
  unfolding find_sms_urc from_cmt
  from_cmt-incomplete rx = elim (Option-cases (split_at_text cmt_prefix rx)) [
    | inl away ↦ rw (away, from_cmt) (λ e. find_empty)
    | inr ((before, behind), found) ↦
        let here = split_at_text-here b'+' (b'C' ∷ b'M' ∷ b'T' ∷ b':' ∷ []) behind in
        elim (Option-cases (find_two_lines (cmt_prefix ++ behind))) [
          | inl open_end ↦
              rw (found, from_cmt, find_sms_urc, here, find_sms_urc, open_end, find_sms_urc)
                (λ e. refl)
          | inr (lines, closed) ↦
              rw (found, find_sms_urc, closed, find_sms_urc) (λ e. absurd (none-some (sym e)))
        ]
  ]

  pub incomplete_none : (rx : Bytes) → has_complete_sms_urc rx ≡ false → find_sms_urc rx ≡ none
  unfolding has_complete_sms_urc
  incomplete_none rx = elim (Option-cases (find_sms_urc rx)) [
    | inl e ↦ λ h. e
    | inr (report, e) ↦ rw (e, has_complete_sms_urc) (λ h. ground (arith, h))
  ]

  clear-from_cmt :
      (s : AtState R.Queue)
      → clear_command_data_preserving_sms R s ≡ record s { rx_buffer = from_cmt s.rx_buffer }
  unfolding clear_command_data_preserving_sms from_cmt
  clear-from_cmt s = elim (Option-cases (split_at_text cmt_prefix s.rx_buffer)) [
    | inl e ↦ rw (e, clear_command_data_preserving_sms, from_cmt) refl
    | inr (_, e) ↦ rw (e, clear_command_data_preserving_sms, from_cmt) refl
  ]

  -- The state in front of a command, and behind it.
  abbrev pub cleared : AtState R.Queue → (ℕ → Moment) → AtState R.Queue
  cleared s at = clear_command_data_preserving_sms R (process_pending_sms_urcs R s at)

  pub cleared-IsSound :
      (s : AtState R.Queue) (at : ℕ → Moment) → Fits s.rx_buffer → IsSound (cleared s at)
  cleared-IsSound s at fits =
      let t = process_pending_sms_urcs R s at in
      let gone =
        incomplete_none t.rx_buffer
          (process_pending-drains R s at (suc (length s.rx_buffer)) (omega arith)).1 in
      let kept : AtState R.Queue = record t { rx_buffer = from_cmt t.rx_buffer } in
      subst IsSound (sym (clear-from_cmt t)) (
        Within-Fits (from_cmt-Within t.rx_buffer) (pending-IsSound s at fits).0,
        nothing_complete kept
            (none-has_complete (from_cmt t.rx_buffer) (from_cmt-incomplete t.rx_buffer gone)),
      )
