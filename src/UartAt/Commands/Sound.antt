-- ===== src/UartAt/Commands/Sound.antt =====
-- The configuration of the modem keeps the receive buffer sound.
use iot_sms.Base.{
  ℕ, zero, suc, codes, List, [], ◌∷◌, Bytes, All, length, ◌||◌, Bool-cases, inl, inr,
}
use iot_sms.CString.{NoNul}
use iot_sms.Rtos.{Rtos}
use iot_sms.UartAt.Urc.{AtState}
use iot_sms.UartAt.Receive.{receive_data}
use iot_sms.UartAt.Receive.Bounds.{Fits, receive_data-Fits}
use iot_sms.UartAt.Receive.Signals.{IsSound, receive_data-IsSound, cleared, cleared-IsSound}
use iot_sms.UartAt.Commands.{
  Exchange, receive_all, clear_bits, wait_response, at_send_command, command, probe, get_sim_imsi,
  get_sim_operator_name, name_operator, set_indications, set_text_mode, configure_modem_for_sms,
  at_probe_max_retries, at_response_max_len,
}

-- The chunks are text.
abbrev pub AllText : List Bytes → Type 0
AllText = All NoNul

receive_all-IsSound :
    {Queue : Type 0} (s : AtState Queue) (chunks : List Bytes)
    → IsSound s
    → AllText chunks
    → IsSound (receive_all s chunks)
unfolding receive_all
receive_all-IsSound s [] h text = h
receive_all-IsSound s (chunk ∷ chunks) h (t, ts) =
    receive_all-IsSound (receive_data s chunk) chunks (receive_data-IsSound s chunk h t) ts

pub receive_all-Fits :
    {Queue : Type 0} (s : AtState Queue) (chunks : List Bytes)
    → Fits s.rx_buffer
    → AllText chunks
    → Fits (receive_all s chunks).rx_buffer
unfolding receive_all
receive_all-Fits s [] h text = h
receive_all-Fits s (chunk ∷ chunks) h (t, ts) =
    receive_all-Fits (receive_data s chunk) chunks (receive_data-Fits s chunk h t) ts

wait_response-IsSound :
    {Queue : Type 0} (s : AtState Queue) (chunks : List Bytes)
    → IsSound s
    → AllText chunks
    → IsSound (wait_response s chunks).0
unfolding wait_response
wait_response-IsSound s [] h text = h
wait_response-IsSound s (chunk ∷ chunks) h text = elim (Bool-cases (s.ok_bit || s.error_bit)) [
  | inl e ↦ rw e (receive_all-IsSound (clear_bits s) (chunk ∷ chunks) h text)
  | inr e ↦ rw e (
      wait_response-IsSound (receive_data s chunk) chunks (receive_data-IsSound s chunk h text.0)
        text.1)
]

-- All that the modem sends around the commands is text.
abbrev pub TextExchange : (ℕ → Exchange) → Type 0
TextExchange at = (n : ℕ) → AllText (at n).early × AllText (at n).during × AllText (at n).late

module _ (R : Rtos) (at : ℕ → Exchange) (text : TextExchange at) where
  at_send_command-IsSound :
      (s : AtState R.Queue) (cmd : Bytes) (n : ℕ)
      → IsSound s
      → IsSound (at_send_command R at s cmd n).0
  unfolding at_send_command
  at_send_command-IsSound s cmd n h =
      let x = at (length s.commands) in
      let (early, during, late) = text (length s.commands) in
      let ready = clear_bits (receive_all (cleared R s x.before) x.early) in
      let first =
        receive_all-IsSound (cleared R s x.before) x.early (cleared-IsSound R s x.before h.0)
          early in
      let waited = wait_response-IsSound ready x.during first during in
      let woken = receive_all (wait_response ready x.during).0 x.late in
      cleared-IsSound R woken x.behind
        (receive_all-IsSound (wait_response ready x.during).0 x.late waited late).0

  command-IsSound : (s : AtState R.Queue) (cmd : Bytes) → IsSound s → IsSound (command R at s cmd).0
  unfolding command
  command-IsSound s cmd h = at_send_command-IsSound s cmd at_response_max_len h

  probe-IsSound : (left : ℕ) (s : AtState R.Queue) → IsSound s → IsSound (probe R at left s).0
  unfolding probe
  probe-IsSound zero s h = h
  probe-IsSound (suc left) s h =
      let u = (command R at s (codes "AT")).0 in
      let sound = command-IsSound s (codes "AT") h in
      elim (Bool-cases (command R at s (codes "AT")).1) [
        | inl e ↦ rw e sound
        | inr e ↦ rw e (probe-IsSound left u sound)
      ]

  name_operator-IsSound : (s : AtState R.Queue) → IsSound s → IsSound (name_operator R at s).state
  unfolding name_operator get_sim_operator_name get_sim_imsi
  name_operator-IsSound s h = at_send_command-IsSound s (codes "AT+CIMI") at_response_max_len h

  set_indications-IsSound :
      (s : AtState R.Queue) → IsSound s → IsSound (set_indications R at s).state
  unfolding set_indications
  set_indications-IsSound s h =
      let c = codes "AT+CNMI=2,2,0,0,0" in
      let sound = command-IsSound s c h in
      elim (Bool-cases (command R at s c).1) [
        | inl e ↦ rw e (name_operator-IsSound (command R at s c).0 sound)
        | inr e ↦ rw e sound
      ]

  set_text_mode-IsSound : (s : AtState R.Queue) → IsSound s → IsSound (set_text_mode R at s).state
  unfolding set_text_mode
  set_text_mode-IsSound s h =
      let c = codes "AT+CMGF=1" in
      let u = (command R at s c).0 in
      let sound = command-IsSound s c h in
      elim (Bool-cases (command R at s c).1) [
        | inr e ↦ rw e sound
        | inl e ↦ rw e (
            set_indications-IsSound (command R at u (codes "AT+CSCS=\"UCS2\"")).0
              (command-IsSound u (codes "AT+CSCS=\"UCS2\"") sound))
      ]

  pub configure-IsSound :
      (s : AtState R.Queue) → IsSound s → IsSound (configure_modem_for_sms R at s).state
  unfolding configure_modem_for_sms
  configure-IsSound s h =
      let u = (probe R at at_probe_max_retries s).0 in
      let sound = probe-IsSound at_probe_max_retries s h in
      let v = (command R at u (codes "ATE0")).0 in
      elim (Bool-cases (probe R at at_probe_max_retries s).1) [
        | inr e ↦ rw e sound
        | inl e ↦ rw e (
            set_text_mode-IsSound (command R at v (codes "AT+CMEE=2")).0
              (command-IsSound v (codes "AT+CMEE=2") (command-IsSound u (codes "ATE0") sound)))
      ]
