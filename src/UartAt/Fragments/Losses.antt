-- ===== src/UartAt/Fragments/Losses.antt =====
-- Where text of a message is lost: a fragment that does not fit, and a flush into a full queue.
use iot_sms.Base.{
  true, false, [], ◌∷◌, ◌++◌, none, some, ◌≡◌, inl, inr, ap, ◌⊎◌, List, Bool-cases, arith,
}
use iot_sms.Message.{SmsMessage}
use iot_sms.Rtos.{Rtos}
use iot_sms.UartAt.Fragments.{
  empty_buffer, message_of, State, reset_fragment_buffer, post, flush_fragment_buffer_to_queue,
}

module _ (R : Rtos) where
  -- The messages that the queue of the state has accepted.
  abbrev pub accepted_of : State R → List SmsMessage
  accepted_of s = elim s.sms_queue [ none ↦ [] | some q ↦ R.accepted q ]

  accepted_of-some :
      (s : State R) (q : R.Queue) → s.sms_queue ≡ some q → accepted_of s ≡ R.accepted q
  accepted_of-some s q e = rw (e, accepted_of)

  flush_lem :
      (s : State R) (q : R.Queue)
      → s.sms_queue ≡ some q
      → s.buffer.is_active ≡ true
      → flush_fragment_buffer_to_queue R s ≡ record s {
        buffer = empty_buffer;
        sms_queue = some (R.send q (message_of s.buffer.sender s.buffer.accumulated_content) 0).0;
      }
  unfolding flush_fragment_buffer_to_queue reset_fragment_buffer post
  flush_lem s q e on = ground arith

  -- A flush of an active buffer empties it; the message stands behind those that the queue accepted
  -- before if the queue takes it, and the accepted messages are unchanged, so that it is lost, if
  -- the queue refuses.
  pub flush-accepted :
      (s : State R) (q : R.Queue)
      → s.sms_queue ≡ some q
      → s.buffer.is_active ≡ true
      → ((flush_fragment_buffer_to_queue R s).buffer ≡ empty_buffer)
        × (((R.send q (message_of s.buffer.sender s.buffer.accumulated_content) 0).1 ≡ true)
              × (accepted_of (flush_fragment_buffer_to_queue R s)
                  ≡ accepted_of s ++ message_of s.buffer.sender s.buffer.accumulated_content ∷ [])
            ⊎ ((R.send q (message_of s.buffer.sender s.buffer.accumulated_content) 0).1 ≡ false)
              × (accepted_of (flush_fragment_buffer_to_queue R s) ≡ accepted_of s))
  flush-accepted s q e on = (
    ap (λ t. t.buffer) (flush_lem s q e on),
    elim (Bool-cases (R.send q (message_of s.buffer.sender s.buffer.accumulated_content) 0).1) [
      | inl pass ↦
          inl
            (pass, simp (flush_lem s q e on) (rw (accepted_of-some s q e) (R.send_pass q _ 0 pass)))
      | inr fail ↦
          inr
            (fail, simp (flush_lem s q e on) (rw (accepted_of-some s q e) (R.send_fail q _ 0 fail)))
    ],
  )
