-- ===== src/UartAt/Fragments.antt =====
-- The reassembly of long messages in main/uart_at_manager.c: `s_fragment_buffer` and the functions
-- that work on it. The counter's readings are arguments, in the order in which they are taken.
pub mod Invariant
pub mod Reassembly
pub mod Separation
pub mod Losses
pub mod Tests
use iot_sms.Base.{
  ℕ, ◌+◌, ◌-◌, ◌*◌, ◌%◌, ◌^◌, Bool, true, false, not, ◌||◌, [], ◌++◌, Option, none, some, Bytes,
  length, take, ltb, ◌==◌, if◌then◌else◌,
}
use iot_sms.CString.{c_str, strncpy, str_eq}
use iot_sms.Message.{SmsMessage, sender_size, content_size}
use iot_sms.Rtos.{Rtos, max_delay, tick_sub, tick_period_ms}
use iot_sms.UartAt.Ucs2.{decode_ucs2_hex_to_utf8}

-- `sms_fragment_buffer_t`
pub record FragmentBuffer : Type 0 where
  pub sender : Bytes
  pub accumulated_content : Bytes
  pub last_fragment_time : ℕ
  pub fragment_count : ℕ
  pub is_active : Bool

-- The static state of the file that these functions read and write; the queue is NULL before
-- `uart_at_init`.
pub record FragmentState (Queue : Type 0) : Type 0 where
  pub buffer : FragmentBuffer
  pub sms_queue : Option Queue

abbrev pub sms_fragment_timeout_ms : ℕ
sms_fragment_timeout_ms = 30000

-- `SMS_PART_HEX_LEN_GSM7_8BIT_REF` and the three beside it.
unfoldable pub is_multipart_part_hex_len : ℕ → Bool
is_multipart_part_hex_len hex_len =
    hex_len == 612 || hex_len == 608 || hex_len == 268 || hex_len == 264

-- The zeroed buffer.
abbrev pub empty_buffer : FragmentBuffer
empty_buffer = record {
  sender = [];
  accumulated_content = [];
  last_fragment_time = 0;
  fragment_count = 0;
  is_active = false;
}

-- What `process_sms_fragment` returns: `ESP_OK` with `*complete_sms` filled in,
-- `ESP_ERR_INVALID_STATE`, `ESP_FAIL`.
pub data FragmentResult : Type 0 where
  complete : SmsMessage → FragmentResult
  waiting : FragmentResult
  failed : FragmentResult

-- A message from a buffer's content, by `strncpy` into the sender and the decoder into the content.
unfoldable pub message_of : Bytes → Bytes → SmsMessage
message_of sender hex = record {
  sender = strncpy (sender_size - 1) sender;
  content = decode_ucs2_hex_to_utf8 hex content_size;
}

module _ (R : Rtos) where
  abbrev pub State : Type 0
  State = FragmentState R.Queue

  unfoldable pub is_fragment_timeout : FragmentBuffer → ℕ → Bool
  is_fragment_timeout b current_time =
      if not b.is_active
      then false
      else ltb sms_fragment_timeout_ms
          (tick_sub current_time b.last_fragment_time * tick_period_ms R % 2 ^ 32)

  unfoldable pub reset_fragment_buffer : State → State
  reset_fragment_buffer s = record s { buffer = empty_buffer }

  -- `if (s_sms_queue != NULL) xQueueSend (…)`, whose result is only logged.
  unfoldable pub post : State → SmsMessage → ℕ → State
  post s m ticks = elim s.sms_queue [
    | none ↦ s
    | some q ↦ record s { sms_queue = some (R.send q m ticks).0 }
  ]

  unfoldable pub flush_fragment_buffer_to_queue : State → State
  flush_fragment_buffer_to_queue s =
      if not s.buffer.is_active
      then s
      else post (reset_fragment_buffer s) (message_of s.buffer.sender s.buffer.accumulated_content)
          0

  -- Case 1: the buffer is empty.
  unfoldable pub start_message : State → Bytes → Bytes → ℕ → ℕ → State × FragmentResult
  start_message s sender content_hex content_hex_len now =
      if is_multipart_part_hex_len content_hex_len
      then (
        record s {
          buffer = record {
            sender = strncpy (sender_size - 1) sender;
            accumulated_content = strncpy (content_size - 1) content_hex;
            last_fragment_time = now;
            fragment_count = 1;
            is_active = true;
          };
        },
        waiting,
      )
      else (s, complete (message_of sender content_hex))

  -- Case 2, the same sender: the fragment is appended, if it fits.
  unfoldable pub continue_message : State → Bytes → ℕ → ℕ → State × FragmentResult
  continue_message s content_hex content_hex_len now =
      let b = s.buffer in
      let remaining_space = content_size - length b.accumulated_content - 1 in
      if ltb content_hex_len remaining_space
      then (let grown = record b {
        accumulated_content = b.accumulated_content ++ take remaining_space (c_str content_hex);
        fragment_count = b.fragment_count + 1;
        last_fragment_time = now;
      } in
          if not (is_multipart_part_hex_len content_hex_len)
          then (
            reset_fragment_buffer s,
            complete (message_of grown.sender grown.accumulated_content),
          )
          else (record s { buffer = grown }, waiting))
      else (reset_fragment_buffer s, complete (message_of b.sender b.accumulated_content))

  -- The body of `process_sms_fragment`, with the function that it calls at the end; `checked` is
  -- the counter in `is_fragment_timeout`, and `stored` where the fragment is stored.
  unfoldable pub process_body :
      (State → State × FragmentResult) → State → Bytes → Bytes → ℕ → ℕ → ℕ → State × FragmentResult
  process_body again s sender content_hex content_hex_len checked stored =
      let s' =
        if is_fragment_timeout s.buffer checked then flush_fragment_buffer_to_queue s else s in
      if not s'.buffer.is_active
      then start_message s' sender content_hex content_hex_len stored
      else if str_eq s'.buffer.sender sender
      then continue_message s' content_hex content_hex_len stored
      else again (flush_fragment_buffer_to_queue s')

  -- The recursion is at most one deep, as the comment in the source says: the inner call finds an
  -- empty buffer and does not call again, whatever would be called.
  unfoldable pub process_sms_fragment : State → Bytes → Bytes → ℕ → ℕ → ℕ → State × FragmentResult
  process_sms_fragment s sender content_hex content_hex_len checked stored =
      process_body
        (λ s'.
          process_body (λ s''. (s'', failed)) s' sender content_hex content_hex_len stored stored)
        s sender content_hex content_hex_len checked stored
