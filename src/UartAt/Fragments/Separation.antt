-- ===== src/UartAt/Fragments/Separation.antt =====
-- A pending message is never mixed with a fragment of another sender, or with one that is late.
use iot_sms.Base.{ℕ, ◌-◌, true, false, ◌≡◌, ◌≢◌, ◌⊎◌, inl, inr, ap, ◌∙◌, arith, Bytes, Bool-cases}
use iot_sms.CString.{strncpy, str_eq, str_eq_iff}
use iot_sms.Message.{SmsMessage, sender_size}
use iot_sms.Rtos.{Rtos}
use iot_sms.UartAt.Fragments.{
  FragmentBuffer, FragmentResult, complete, message_of, State, is_fragment_timeout,
  flush_fragment_buffer_to_queue, start_message, continue_message, process_body,
  process_sms_fragment,
}
use iot_sms.UartAt.Fragments.Invariant.{buffer-flush}

module _ (R : Rtos) where
  timeout_idle :
      (b : FragmentBuffer) (now : ℕ) → b.is_active ≡ false → is_fragment_timeout R b now ≡ false
  unfolding is_fragment_timeout
  timeout_idle b now e = ground arith

  pub process_body_idle :
      (again : State R → State R × FragmentResult) (s : State R) (sender hex : Bytes)
      (len checked stored : ℕ)
      → s.buffer.is_active ≡ false
      → process_body R again s sender hex len checked stored
        ≡ start_message R s sender hex len stored
  unfolding process_body
  process_body_idle again s sender hex len checked stored e =
      simp (timeout_idle s.buffer checked e, e)

  pub process_idle :
      (s : State R) (sender hex : Bytes) (len checked stored : ℕ)
      → s.buffer.is_active ≡ false
      → process_sms_fragment R s sender hex len checked stored
        ≡ start_message R s sender hex len stored
  unfolding process_sms_fragment
  process_idle s sender hex len checked stored = process_body_idle _ s sender hex len checked stored

  pub process_same :
      (s : State R) (sender hex : Bytes) (len checked stored : ℕ)
      → s.buffer.is_active ≡ true
      → is_fragment_timeout R s.buffer checked ≡ false
      → s.buffer.sender ≡ sender
      → process_sms_fragment R s sender hex len checked stored ≡ continue_message R s hex len stored
  unfolding process_sms_fragment process_body
  process_same s sender hex len checked stored on timely same =
      simp (timely, on, (str_eq_iff s.buffer.sender sender).1 same)

  flush_goes_idle :
      (s : State R)
      → s.buffer.is_active ≡ true
      → (flush_fragment_buffer_to_queue R s).buffer.is_active ≡ false
  flush_goes_idle s on = ap (λ b. b.is_active) (buffer-flush R s on)

  flush_late :
      (s : State R) (sender hex : Bytes) (len checked stored : ℕ)
      → s.buffer.is_active ≡ true
      → is_fragment_timeout R s.buffer checked ≡ true
      → process_sms_fragment R s sender hex len checked stored
        ≡ start_message R (flush_fragment_buffer_to_queue R s) sender hex len stored
  unfolding process_sms_fragment process_body
  flush_late s sender hex len checked stored on late = simp (late, flush_goes_idle s on)

  process_body_other :
      (again : State R → State R × FragmentResult) (s : State R) (sender hex : Bytes)
      (len checked stored : ℕ)
      → s.buffer.is_active ≡ true
      → is_fragment_timeout R s.buffer checked ≡ false
      → str_eq s.buffer.sender sender ≡ false
      → process_body R again s sender hex len checked stored
        ≡ again (flush_fragment_buffer_to_queue R s)
  unfolding process_body
  process_body_other again s sender hex len checked stored on timely differ =
      simp (timely, on, differ)

  flush_other :
      (s : State R) (sender hex : Bytes) (len checked stored : ℕ)
      → s.buffer.is_active ≡ true
      → is_fragment_timeout R s.buffer checked ≡ false
      → s.buffer.sender ≢ sender
      → process_sms_fragment R s sender hex len checked stored
        ≡ start_message R (flush_fragment_buffer_to_queue R s) sender hex len stored
  flush_other s sender hex len checked stored on timely other =
      elim (Bool-cases (str_eq s.buffer.sender sender)) [
        | inl same ↦ absurd (other ((str_eq_iff s.buffer.sender sender).0 same))
        | inr differ ↦
            unfold process_sms_fragment in
            process_body_other _ s sender hex len checked stored on timely differ
            ∙ process_body_idle _ (flush_fragment_buffer_to_queue R s) sender hex len stored stored
                (flush_goes_idle s on)
      ]

  -- For an active buffer that is late or belongs to another sender, process_sms_fragment equals a
  -- flush of the buffer followed by process_sms_fragment on the result.
  pub process-flush :
      (s : State R) (sender hex : Bytes) (len checked stored : ℕ)
      → s.buffer.is_active ≡ true
      → (is_fragment_timeout R s.buffer checked ≡ true) ⊎ (s.buffer.sender ≢ sender)
      → process_sms_fragment R s sender hex len checked stored
        ≡ process_sms_fragment R (flush_fragment_buffer_to_queue R s) sender hex len checked stored
  process-flush s sender hex len checked stored on why =
      rw (process_idle (flush_fragment_buffer_to_queue R s) sender hex len checked stored idle)
        (to_start (Bool-cases (is_fragment_timeout R s.buffer checked)) why)
    where
      idle : (flush_fragment_buffer_to_queue R s).buffer.is_active ≡ false
      idle = flush_goes_idle s on

      to_start :
          (is_fragment_timeout R s.buffer checked ≡ true)
            ⊎ (is_fragment_timeout R s.buffer checked ≡ false)
          → (is_fragment_timeout R s.buffer checked ≡ true) ⊎ (s.buffer.sender ≢ sender)
          → process_sms_fragment R s sender hex len checked stored
            ≡ start_message R (flush_fragment_buffer_to_queue R s) sender hex len stored
      to_start (inl late) _ = flush_late s sender hex len checked stored on late
      to_start (inr timely) (inl late) = cc
      to_start (inr timely) (inr other) =
          flush_other s sender hex len checked stored on timely other

  sender-continue_message :
      (s : State R) (hex : Bytes) (len now : ℕ) {m : SmsMessage}
      → (continue_message R s hex len now).1 ≡ complete m
      → m.sender ≡ strncpy (sender_size - 1) s.buffer.sender
  unfolding continue_message message_of
  sender-continue_message s hex len now e = ground arith

  sender-start_message :
      (s : State R) (sender hex : Bytes) (len now : ℕ) {m : SmsMessage}
      → (start_message R s sender hex len now).1 ≡ complete m
      → m.sender ≡ strncpy (sender_size - 1) sender
  unfolding start_message message_of
  sender-start_message s sender hex len now e = ground arith

  -- A message that process_sms_fragment completes has the sender of the fragment that was passed
  -- in, cut to 31 bytes.
  pub sender-process_sms_fragment :
      (s : State R) (sender hex : Bytes) (len checked stored : ℕ) {m : SmsMessage}
      → (process_sms_fragment R s sender hex len checked stored).1 ≡ complete m
      → m.sender ≡ strncpy (sender_size - 1) sender
  sender-process_sms_fragment s sender hex len checked stored e =
      elim (Bool-cases s.buffer.is_active) [
        | inr idle ↦
            sender-start_message s sender hex len stored
              (rw (process_idle s sender hex len checked stored idle) at e)
        | inl on ↦ elim (Bool-cases (is_fragment_timeout R s.buffer checked)) [
          | inl late ↦
              sender-start_message _ sender hex len stored
                (rw (flush_late s sender hex len checked stored on late) at e)
          | inr timely ↦ elim (Bool-cases (str_eq s.buffer.sender sender)) [
            | inl same ↦
                let is : s.buffer.sender ≡ sender = (str_eq_iff s.buffer.sender sender).0 same in
                sender-continue_message s hex len stored
                  (rw (process_same s sender hex len checked stored on timely is) at e)
                ∙ ap (strncpy (sender_size - 1)) is
            | inr differ ↦
                let other : s.buffer.sender ≢ sender =
                  λ is. cc ((str_eq_iff s.buffer.sender sender).1 is) in
                sender-start_message _ sender hex len stored
                  (rw (flush_other s sender hex len checked stored on timely other) at e)
          ]
        ]
      ]
