-- ===== src/UartAt/Receive.antt =====
-- `uart_event_task` of main/uart_at_manager.c, which collects what the modem sends. The buffer is
-- the list of the bytes in front of its terminator, as in UartAt.Urc.
pub mod Clean
pub mod Bounds
pub mod Chunks
pub mod Signals
use iot_sms.Base.{
  ℕ, zero, suc, ◌+◌, ◌-◌, Bool, true, false, not, ◌&&◌, ◌||◌, List, [], ◌∷◌, ◌++◌, Option, none,
  some, Bytes, codes, length, take, ltb, leb, ◌==◌, if◌then◌else◌,
}
use iot_sms.CString.Search.{split_at_text, starts_with, contains}
use iot_sms.UartAt.Urc.{AtState, cmt_prefix, crlf, has_complete_sms_urc}

-- `BUF_SIZE`
abbrev pub buf_size : ℕ
buf_size = 4096

-- From the first `+CMT:` on, or nothing.
unfoldable pub from_cmt : Bytes → Bytes
from_cmt rx = elim (split_at_text cmt_prefix rx) [
  | none ↦ []
  | some (_, behind) ↦ cmt_prefix ++ behind
]

unfoldable pub make_room : Bytes → ℕ → Bytes
make_room rx read_len = if leb buf_size (length rx + read_len) then from_cmt rx else rx

-- A chunk that still does not fit is cut; a negative `can_copy` copies nothing.
unfoldable pub append_data : Bytes → Bytes → Bytes
append_data rx dtmp =
    if ltb (length rx + length dtmp) buf_size
    then rx ++ dtmp
    else rx ++ take (buf_size - length rx - 1) dtmp

-- A line that begins with `+` or `^` and is none of the three that are kept.
unfoldable pub is_other_urc : Bytes → Bool
is_other_urc s =
    (starts_with (codes "+") s || starts_with (codes "^") s)
    && not (
        starts_with (codes "+CMT:") s
        || starts_with (codes "+CME ERROR:") s
        || starts_with (codes "+CMS ERROR:") s)

-- The loop of `buffer_ptr`, which goes from line to line: its argument is what the pointer still
-- has in front of it, and the fuel bounds the number of lines.
unfoldable pub remove_other_urcs : ℕ → Bytes → Bytes
remove_other_urcs zero s = s
remove_other_urcs (suc fuel) s = elim (split_at_text crlf s) [
  | none ↦ s
  | some (line, behind) ↦
      let rest = remove_other_urcs fuel behind in
      if is_other_urc s then rest else line ++ (crlf ++ rest)
]

unfoldable pub clean : Bytes → Bytes
clean rx = remove_other_urcs (suc (length rx)) rx

-- The bits that are set for what stands in the buffer; a bit that is set stays set.
unfoldable pub signal : {Queue : Type 0} → AtState Queue → AtState Queue
signal s =
    let rx = s.rx_buffer in
    let ok = contains (codes "OK\r\n") rx in
    let error =
      contains (codes "ERROR\r\n") rx
      || contains (codes "+CME ERROR:") rx
      || contains (codes "+CMS ERROR:") rx
      || contains (codes "> ") rx in
    record s {
      ok_bit = s.ok_bit || ok;
      error_bit = s.error_bit || (not ok && error);
      urc_bit = s.urc_bit || has_complete_sms_urc rx;
    }

-- The handling of `UART_DATA`, for the bytes that `uart_read_bytes` returned.
unfoldable pub receive_data : {Queue : Type 0} → AtState Queue → Bytes → AtState Queue
receive_data s dtmp =
    if ltb 0 (length dtmp)
    then signal
        (record s { rx_buffer = clean (append_data (make_room s.rx_buffer (length dtmp)) dtmp) })
    else s

-- The events that the driver queues.
pub data UartEvent : Type 0 where
  uart_data : Bytes → UartEvent
  uart_fifo_ovf : UartEvent
  uart_buffer_full : UartEvent
  other_event : UartEvent

-- One event, with the events that wait behind it: an overflow discards them.
unfoldable pub handle_event :
    {Queue : Type 0} → AtState Queue → UartEvent → List UartEvent → AtState Queue × List UartEvent
handle_event s (uart_data dtmp) pending = (receive_data s dtmp, pending)
handle_event s uart_fifo_ovf pending = (s, [])
handle_event s uart_buffer_full pending = (s, [])
handle_event s other_event pending = (s, pending)
