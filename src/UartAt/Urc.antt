-- ===== src/UartAt/Urc.antt =====
-- The notifications of short messages in main/uart_at_manager.c: the search for complete `+CMT:`
-- reports in the receive buffer, their parsing, and the loop that handles all of them. The buffer
-- is the list of the bytes in front of its terminator: the modem sends text, so no NUL stands in
-- it, and `s_uart_rx_buffer_idx` is the list's length.
pub mod Steps
pub mod Drain
pub mod Reports
pub mod Stream
use iot_sms.Base.{
  ℕ, zero, suc, ◌+◌, ◌*◌, Bool, true, false, ◌&&◌, ◌||◌, List, [], ◌∷◌, ◌++◌, Option, none, some,
  Bytes, codes, length, take, drop, ltb, ◌==◌, if◌then◌else◌,
}
use iot_sms.CString.{split_at_char}
use iot_sms.CString.Search.{split_at_text}
use iot_sms.Message.{SmsMessage, sender_size}
use iot_sms.Rtos.{Rtos, max_delay}
use iot_sms.UartAt.Ucs2.{decode_ucs2_hex_to_utf8}
use iot_sms.UartAt.Fragments.{
  FragmentState, FragmentResult, complete, waiting, failed, State, post, process_sms_fragment,
}

-- The receive buffer, the bits of the event group, the state of the reassembly with the queue, and
-- `g_sim_operator`. `commands` is the transcript of the commands that were sent, each with whether
-- it got `ESP_OK`; the code does not keep it.
pub record AtState (Queue : Type 0) : Type 0 where
  pub rx_buffer : Bytes
  pub ok_bit : Bool
  pub error_bit : Bool
  pub urc_bit : Bool
  pub fragments : FragmentState Queue
  pub sim_operator : Bytes
  pub commands : List (Bytes × Bool)

-- What the environment decides in one call of `handle_urc`: the counter's two readings in
-- `process_sms_fragment`, and whether `malloc` returns memory.
pub record Moment : Type 0 where
  pub checked : ℕ
  pub stored : ℕ
  pub allocated : Bool

abbrev pub cmt_prefix : Bytes
cmt_prefix = codes "+CMT:"

abbrev pub crlf : Bytes
crlf = 0x0D ∷ 0x0A ∷ []

-- The two ends of line behind `+CMT:`, with what stands in front of each and behind the second.
unfoldable pub find_two_lines : Bytes → Option (Bytes × Bytes × Bytes)
find_two_lines line = elim (split_at_text crlf line) [
  | none ↦ none
  | some (header, behind) ↦ elim (split_at_text crlf behind) [
    | none ↦ none
    | some (content, remainder) ↦ some (header, content, remainder)
  ]
]

-- The length of what stands in front of the first complete report, and that of the report.
unfoldable pub find_sms_urc : Bytes → Option (ℕ × ℕ)
find_sms_urc rx = elim (split_at_text cmt_prefix rx) [
  | none ↦ none
  | some (noise, behind) ↦ elim (find_two_lines (cmt_prefix ++ behind)) [
    | none ↦ none
    | some (header, content, remainder) ↦
        some (length noise, (length header + 2) + (length content + 2))
  ]
]

unfoldable pub has_complete_sms_urc : Bytes → Bool
has_complete_sms_urc rx = elim (find_sms_urc rx) [ none ↦ false | some _ ↦ true ]

-- `decoded_sender`, from the hex text between the quotes.
unfoldable pub decode_sender : Bytes → Bytes
decode_sender hex =
    if ltb 0 (length hex) && ltb (length hex) (sender_size * 2 + 1)
    then decode_ucs2_hex_to_utf8 hex sender_size
    else codes "UNKNOWN"

-- The text between the first two quotes of the report.
unfoldable pub quoted : Bytes → Option Bytes
quoted line = elim (split_at_char b'"' line) [
  | none ↦ none
  | some (_, behind) ↦ elim (split_at_char b'"' behind) [ none ↦ none | some (hex, _) ↦ some hex ]
]

unfoldable pub parse_sender : Bytes → Bytes
parse_sender line = elim (quoted line) [ none ↦ [] | some hex ↦ decode_sender hex ]

-- The loop that shortens `content_hex_len`.
unfoldable pub trim_content : Bytes → Bytes
trim_content [] = []
trim_content (c ∷ s) =
    let rest = trim_content s in
    if (c == 0x0D || c == 0x0A) && length rest == 0 then [] else c ∷ rest

-- What stands behind the header's end of line, up to the next one if there is one.
unfoldable pub parse_content : Bytes → Option Bytes
parse_content line = elim (split_at_text crlf line) [
  | none ↦ none
  | some (_, behind) ↦ elim (split_at_text crlf behind) [
    | none ↦ some (trim_content behind)
    | some (content, _) ↦ some (trim_content content)
  ]
]

module _ (R : Rtos) where
  -- An empty content, and a failed allocation, give `ESP_FAIL`.
  unfoldable pub process_content :
      State R → Bytes → Option Bytes → Moment → State R × FragmentResult
  process_content s sender none m = (s, failed)
  process_content s sender (some content) m =
      if ltb 0 (length content) && m.allocated
      then process_sms_fragment R s sender content (length content) m.checked m.stored
      else (s, failed)

  unfoldable pub parse_cmt_text_mode_response : State R → Bytes → Moment → State R × FragmentResult
  parse_cmt_text_mode_response s response m = elim (split_at_text cmt_prefix response) [
    | none ↦ (s, failed)
    | some (_, behind) ↦
        process_content s (parse_sender (cmt_prefix ++ behind))
          (parse_content (cmt_prefix ++ behind)) m
  ]

  -- A complete message goes to the queue, with a wait without a time-out.
  unfoldable pub send_complete : State R × FragmentResult → State R
  send_complete (s, complete message) = post R s message max_delay
  send_complete (s, _) = s

  -- The number is the length that was processed.
  unfoldable pub handle_urc : State R → Bytes → Moment → State R × ℕ
  handle_urc s rx m = elim (find_sms_urc rx) [
    | none ↦ (s, 0)
    | some (start, urc_len) ↦ (
      send_complete (parse_cmt_text_mode_response s (take urc_len (drop start rx)) m),
      start + urc_len,
    )
  ]

  -- The loop, whose rounds get the moments `at i`, `at (suc i)`, …; the fuel bounds its rounds.
  unfoldable pub handle_urcs : ℕ → (ℕ → Moment) → ℕ → State R → Bytes → State R × Bytes
  handle_urcs zero at i s rx = (s, rx)
  handle_urcs (suc fuel) at i s rx =
      let (s', processed_len) = handle_urc s rx (at i) in
      let rx' = drop processed_len rx in
      let further = handle_urcs fuel at (suc i) s' rx' in
      if ltb 0 processed_len && ltb 0 (length rx') then further else (s', rx')

  -- The loop, then the bit. Each round but the last takes bytes from the buffer.
  unfoldable pub process_pending_sms_urcs : AtState R.Queue → (ℕ → Moment) → AtState R.Queue
  process_pending_sms_urcs s at =
      let (fragments', rx') = handle_urcs (suc (length s.rx_buffer)) at 0 s.fragments s.rx_buffer in
      record s { rx_buffer = rx'; fragments = fragments'; urc_bit = has_complete_sms_urc rx' }

  unfoldable pub clear_command_data_preserving_sms : AtState R.Queue → AtState R.Queue
  clear_command_data_preserving_sms s = elim (split_at_text cmt_prefix s.rx_buffer) [
    | none ↦ record s { rx_buffer = [] }
    | some (_, behind) ↦ record s { rx_buffer = cmt_prefix ++ behind }
  ]
