-- ===== src/UartAt/Commands.antt =====
-- The AT commands of main/uart_at_manager.c, and the configuration of the modem by them. What the
-- modem sends meanwhile is received by the event task, chunk by chunk.
pub mod Transcript
pub mod Script
pub mod Sound
use iot_sms.Base.{
  ℕ, zero, suc, ◌+◌, ◌-◌, Bool, true, false, ◌&&◌, ◌||◌, List, [], ◌∷◌, ◌++◌, Option, none, some,
  Bytes, codes, length, take, ltb, ◌==◌, if◌then◌else◌,
}
use iot_sms.CString.{strncpy, str_eq}
use iot_sms.CString.Search.{split_at_text}
use iot_sms.Rtos.{Rtos}
use iot_sms.UartAt.Urc.{
  AtState, Moment, crlf, process_pending_sms_urcs, clear_command_data_preserving_sms,
}
use iot_sms.UartAt.Receive.{receive_data}

-- What happens during one command: the chunks that arrive before the bits are cleared, those that
-- arrive until the wait ends or times out, those that arrive before the buffer is read, and the
-- moments of the reports that are handled before and after the command.
pub record Exchange : Type 0 where
  pub early : List Bytes
  pub during : List Bytes
  pub late : List Bytes
  pub before : ℕ → Moment
  pub behind : ℕ → Moment

-- `AT_RESPONSE_MAX_LEN`
abbrev pub at_response_max_len : ℕ
at_response_max_len = 1024

unfoldable pub receive_all : {Queue : Type 0} → AtState Queue → List Bytes → AtState Queue
receive_all s [] = s
receive_all s (chunk ∷ chunks) = receive_all (receive_data s chunk) chunks

-- `xEventGroupClearBits` for the two bits of a command.
abbrev pub clear_bits : {Queue : Type 0} → AtState Queue → AtState Queue
clear_bits s = record s { ok_bit = false; error_bit = false }

-- `xEventGroupWaitBits` for these bits, with clear on exit: it returns the bits at the moment when
-- one of them is set, or none when the time is over.
unfoldable pub wait_response :
    {Queue : Type 0} → AtState Queue → List Bytes → AtState Queue × Bool × Bool
wait_response s [] = (clear_bits s, s.ok_bit, s.error_bit)
wait_response s (chunk ∷ chunks) =
    let later = wait_response (receive_data s chunk) chunks in
    if s.ok_bit || s.error_bit
    then (receive_all (clear_bits s) (chunk ∷ chunks), s.ok_bit, s.error_bit)
    else later

-- What stands between the first end of line and the next `OK`.
unfoldable pub imsi_of_response : Bytes → ℕ → Option Bytes
imsi_of_response response buffer_size = elim (split_at_text crlf response) [
  | none ↦ none
  | some (_, start) ↦ elim (split_at_text (codes "\r\nOK") start) [
    | none ↦ none
    | some (imsi, _) ↦
        if ltb 0 (length imsi) && ltb (length imsi) buffer_size then some imsi else none
  ]
]

-- The Chinese names of the four operators, in UTF-8.
abbrev pub china_mobile : Bytes
china_mobile =
    0xE4 ∷ 0xB8 ∷ 0xAD ∷ 0xE5 ∷ 0x9B ∷ 0xBD ∷ 0xE7 ∷ 0xA7 ∷ 0xBB ∷ 0xE5 ∷ 0x8A ∷ 0xA8 ∷ []

abbrev pub china_unicom : Bytes
china_unicom =
    0xE4 ∷ 0xB8 ∷ 0xAD ∷ 0xE5 ∷ 0x9B ∷ 0xBD ∷ 0xE8 ∷ 0x81 ∷ 0x94 ∷ 0xE9 ∷ 0x80 ∷ 0x9A ∷ []

abbrev pub china_telecom : Bytes
china_telecom =
    0xE4 ∷ 0xB8 ∷ 0xAD ∷ 0xE5 ∷ 0x9B ∷ 0xBD ∷ 0xE7 ∷ 0x94 ∷ 0xB5 ∷ 0xE4 ∷ 0xBF ∷ 0xA1 ∷ []

abbrev pub china_broadnet : Bytes
china_broadnet =
    0xE4 ∷ 0xB8 ∷ 0xAD ∷ 0xE5 ∷ 0x9B ∷ 0xBD ∷ 0xE5 ∷ 0xB9 ∷ 0xBF ∷ 0xE7 ∷ 0x94 ∷ 0xB5 ∷ []

-- `s_operator_map`
unfoldable pub operator_map : List (Bytes × Bytes)
operator_map =
    (codes "46000", china_mobile)
    ∷ (codes "46002", china_mobile)
    ∷ (codes "46007", china_mobile)
    ∷ (codes "46008", china_mobile)
    ∷ (codes "46001", china_unicom)
    ∷ (codes "46006", china_unicom)
    ∷ (codes "46009", china_unicom)
    ∷ (codes "46010", china_unicom)
    ∷ (codes "46003", china_telecom)
    ∷ (codes "46005", china_telecom)
    ∷ (codes "46011", china_telecom)
    ∷ (codes "46012", china_telecom)
    ∷ (codes "46015", china_broadnet)
    ∷ (codes "23410", codes "Giffgaff")
    ∷ (codes "53005", codes "Skinny")
    ∷ (codes "45403", codes "Haha")
    ∷ []

unfoldable pub find_operator : List (Bytes × Bytes) → Bytes → Option Bytes
find_operator [] mcc_mnc_prefix = none
find_operator ((code, name) ∷ rest) mcc_mnc_prefix =
    let later = find_operator rest mcc_mnc_prefix in
    if str_eq mcc_mnc_prefix code then some name else later

-- The name for an IMSI; `none` where it is too short or its operator unknown.
unfoldable pub operator_of_imsi : Bytes → Option Bytes
operator_of_imsi imsi =
    if ltb (length imsi) 5 then none else find_operator operator_map (strncpy 5 imsi)

-- What `get_sim_operator_name` writes, and whether it returns `ESP_OK`.
unfoldable pub operator_name : Option Bytes → ℕ → Bytes × Bool
operator_name none buffer_size = (codes "UNKNOWN", false)
operator_name (some imsi) buffer_size = elim (operator_of_imsi imsi) [
  | none ↦ (codes "UNKNOWN", false)
  | some name ↦ (strncpy (buffer_size - 1) name, true)
]

-- What `configure_modem_for_sms` leaves: the state, `*modem_responding`, and whether it returns
-- `ESP_OK`.
pub record Configured (Queue : Type 0) : Type 0 where
  pub state : AtState Queue
  pub modem_responding : Bool
  pub is_ready : Bool

-- `AT_PROBE_MAX_RETRIES`
abbrev pub at_probe_max_retries : ℕ
at_probe_max_retries = 3

module _ (R : Rtos) (at : ℕ → Exchange) where
  -- The state, the response, and whether the result is `ESP_OK`.
  unfoldable pub at_send_command : AtState R.Queue → Bytes → ℕ → AtState R.Queue × Bytes × Bool
  at_send_command s cmd buffer_size =
      let x = at (length s.commands) in
      let clean_buffer =
        clear_command_data_preserving_sms R (process_pending_sms_urcs R s x.before) in
      let ready = clear_bits (receive_all clean_buffer x.early) in
      let (waited, ok, error) = wait_response ready x.during in
      let woken = receive_all waited x.late in
      let response = strncpy (buffer_size - 1) woken.rx_buffer in
      let done = clear_command_data_preserving_sms R (process_pending_sms_urcs R woken x.behind) in
      (record done { commands = done.commands ++ (cmd, ok) ∷ [] }, response, ok)

  unfoldable pub get_sim_imsi : AtState R.Queue → ℕ → AtState R.Queue × Option Bytes
  get_sim_imsi s buffer_size =
      let (s', response, ok) = at_send_command s (codes "AT+CIMI") at_response_max_len in
      (s', if ok then imsi_of_response response buffer_size else none)

  unfoldable pub get_sim_operator_name : AtState R.Queue → ℕ → AtState R.Queue × Bytes × Bool
  get_sim_operator_name s buffer_size =
      let (s', imsi) = get_sim_imsi s 20 in
      let (name, ok) = operator_name imsi buffer_size in (s', name, ok)

  -- A command of the set-up, with what its result is only logged for.
  unfoldable pub command : AtState R.Queue → Bytes → AtState R.Queue × Bool
  command s cmd = let (s', response, ok) = at_send_command s cmd at_response_max_len in (s', ok)

  -- The loop of `retry_count`, with the number of attempts that are left.
  unfoldable pub probe : ℕ → AtState R.Queue → AtState R.Queue × Bool
  probe zero s = (s, false)
  probe (suc left) s =
      let (s', ok) = command s (codes "AT") in
      let again = probe left s' in if ok then (s', true) else again

  -- The step for the operator's name, whose result is only logged.
  unfoldable pub name_operator : AtState R.Queue → Configured R.Queue
  name_operator s =
      let (s', name, ok) = get_sim_operator_name s 32 in
      record { state = record s' { sim_operator = name }; modem_responding = true; is_ready = true }

  -- The indications of new messages are required.
  unfoldable pub set_indications : AtState R.Queue → Configured R.Queue
  set_indications s =
      let (s', ok) = command s (codes "AT+CNMI=2,2,0,0,0") in
      if ok
      then name_operator s'
      else record { state = s'; modem_responding = true; is_ready = false }

  -- Text mode is required, the character set is not.
  unfoldable pub set_text_mode : AtState R.Queue → Configured R.Queue
  set_text_mode s =
      let (s', ok) = command s (codes "AT+CMGF=1") in
      if ok
      then set_indications (command s' (codes "AT+CSCS=\"UCS2\"")).0
      else record { state = s'; modem_responding = true; is_ready = false }

  unfoldable pub configure_modem_for_sms : AtState R.Queue → Configured R.Queue
  configure_modem_for_sms s =
      let (s', responding) = probe at_probe_max_retries s in
      if responding
      then set_text_mode (command (command s' (codes "ATE0")).0 (codes "AT+CMEE=2")).0
      else record { state = s'; modem_responding = false; is_ready = false }
