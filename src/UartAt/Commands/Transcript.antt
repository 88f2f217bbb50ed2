-- ===== src/UartAt/Commands/Transcript.antt =====
-- What each function adds to the transcript of the commands.
use iot_sms.Base.{
  ℕ, Bool, List, [], ◌∷◌, ◌++◌, append_assoc, Bytes, length, ltb, ◌≡◌, refl, ap, ◌∙◌, Bool-cases,
  Option-cases, inl, inr, ◌||◌,
}
use iot_sms.CString.Search.{split_at_text}
use iot_sms.Rtos.{Rtos}
use iot_sms.UartAt.Urc.{
  AtState, Moment, cmt_prefix, process_pending_sms_urcs, clear_command_data_preserving_sms,
}
use iot_sms.UartAt.Receive.{receive_data, signal}
use iot_sms.UartAt.Commands.{
  Exchange, receive_all, clear_bits, wait_response, at_send_command, command, at_response_max_len,
}

abbrev pub Transcript : Type 0
Transcript = List (Bytes × Bool)

-- The later state has sent these commands since the earlier one.
abbrev pub Sent : {Queue : Type 0} → AtState Queue → Transcript → AtState Queue → Type 0
Sent s t u = u.commands ≡ s.commands ++ t

pub Sent-then :
    {Queue : Type 0} (s u v : AtState Queue) (t t' : Transcript)
    → Sent s t u
    → Sent u t' v
    → Sent s (t ++ t') v
Sent-then s u v t t' h k = k ∙ ap (λ x. x ++ t') h ∙ append_assoc s.commands t t'

commands-receive_data :
    {Queue : Type 0} (s : AtState Queue) (dtmp : Bytes)
    → (receive_data s dtmp).commands ≡ s.commands
unfolding receive_data signal
commands-receive_data s dtmp = elim (Bool-cases (ltb 0 (length dtmp))) [
  | inl e ↦ rw e refl
  | inr e ↦ rw e refl
]

commands-receive_all :
    {Queue : Type 0} (s : AtState Queue) (chunks : List Bytes)
    → (receive_all s chunks).commands ≡ s.commands
unfolding receive_all
commands-receive_all s [] = refl
commands-receive_all s (chunk ∷ chunks) =
    commands-receive_all (receive_data s chunk) chunks ∙ commands-receive_data s chunk

commands-wait_response :
    {Queue : Type 0} (s : AtState Queue) (chunks : List Bytes)
    → (wait_response s chunks).0.commands ≡ s.commands
unfolding wait_response
commands-wait_response s [] = refl
commands-wait_response s (chunk ∷ chunks) = elim (Bool-cases (s.ok_bit || s.error_bit)) [
  | inl e ↦ rw e (commands-receive_all (clear_bits s) (chunk ∷ chunks))
  | inr e ↦
      rw e (commands-wait_response (receive_data s chunk) chunks ∙ commands-receive_data s chunk)
]

module _ (R : Rtos) where
  commands-clear :
      (s : AtState R.Queue) → (clear_command_data_preserving_sms R s).commands ≡ s.commands
  unfolding clear_command_data_preserving_sms
  commands-clear s = elim (Option-cases (split_at_text cmt_prefix s.rx_buffer)) [
    | inl e ↦ rw (e, clear_command_data_preserving_sms) refl
    | inr (_, e) ↦ rw (e, clear_command_data_preserving_sms) refl
  ]

  commands-pending :
      (s : AtState R.Queue) (at : ℕ → Moment)
      → (process_pending_sms_urcs R s at).commands ≡ s.commands
  unfolding process_pending_sms_urcs
  commands-pending s at = refl

  commands_cleared :
      (s : AtState R.Queue) (at : ℕ → Moment)
      → (clear_command_data_preserving_sms R (process_pending_sms_urcs R s at)).commands
        ≡ s.commands
  commands_cleared s at = commands-clear (process_pending_sms_urcs R s at) ∙ commands-pending s at

  module _ (at : ℕ → Exchange) where
    pub at_send_command-Sent :
        (s : AtState R.Queue) (cmd : Bytes) (n : ℕ)
        → let (u, response, ok) = at_send_command R at s cmd n in Sent s ((cmd, ok) ∷ []) u
    unfolding at_send_command
    at_send_command-Sent s cmd n =
        let x = at (length s.commands) in
        let clean_buffer =
          clear_command_data_preserving_sms R (process_pending_sms_urcs R s x.before) in
        let ready = clear_bits (receive_all clean_buffer x.early) in
        let waited = (wait_response ready x.during).0 in
        let woken = receive_all waited x.late in
        let same : woken.commands ≡ s.commands =
          commands-receive_all waited x.late
          ∙ commands-wait_response ready x.during
          ∙ commands-receive_all clean_buffer x.early
          ∙ commands_cleared s x.before in
        ap (λ c. c ++ (cmd, (wait_response ready x.during).1) ∷ [])
          (commands_cleared woken x.behind ∙ same)

    pub command-Sent :
        (s : AtState R.Queue) (cmd : Bytes)
        → Sent s ((cmd, (command R at s cmd).1) ∷ []) (command R at s cmd).0
    unfolding command
    command-Sent s cmd = at_send_command-Sent s cmd at_response_max_len
