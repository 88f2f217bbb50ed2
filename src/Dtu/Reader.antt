-- ===== src/Dtu/Reader.antt =====
-- `dtu_read_line` of main/uart_dtu_manager.c, which takes lines out of what the UART delivers.
pub mod Intact
pub mod Lines
pub mod Tests
use iot_sms.Base.{
  ℕ, ◌-◌, Bool, [], ◌∷◌, ◌++◌, List, Option, none, some, Bytes, length, take, drop, min, leb, ◌==◌,
  if◌then◌else◌,
}
use iot_sms.CString.{split_at_char}
use iot_sms.Rtos.{tick_sub}

-- `DTU_LINE_BUF_SIZE`
abbrev pub dtu_line_buf_size : ℕ
dtu_line_buf_size = 4608

-- `s_rx_acc` with its `s_rx_acc_len` bytes, and the bytes that the driver has still to deliver.
pub record RxState : Type 0 where
  pub s_rx_acc : Bytes
  pub incoming : Bytes

-- The counter in front of one `uart_read_bytes`, and how many bytes the driver has ready for it.
pub record UartRead : Type 0 where
  pub now : ℕ
  pub ready : ℕ

-- A return at the end of the line goes with the newline.
unfoldable pub drop_return : Bytes → Bytes
drop_return [] = []
drop_return (c ∷ []) = if c == 0x0D then [] else c ∷ []
drop_return (c ∷ d ∷ s) = c ∷ drop_return (d ∷ s)

-- The bytes that are copied to `line`.
unfoldable pub copy_line : Bytes → ℕ → Bytes
copy_line raw line_size =
    let line = drop_return raw in
    if leb line_size (length line) then take (line_size - 1) line else line

-- A full buffer is dropped, then the read appends what is ready and fits.
unfoldable pub read_more : RxState → ℕ → RxState
read_more rx ready =
    let acc = if leb dtu_line_buf_size (length rx.s_rx_acc) then [] else rx.s_rx_acc in
    let len = min ready (dtu_line_buf_size - length acc) in
    record { s_rx_acc = acc ++ take len rx.incoming; incoming = drop len rx.incoming }

-- `none` is the end of the time. The reads are those that the driver answers; the wait ends with
-- the last of them.
unfoldable pub dtu_read_line : ℕ → ℕ → ℕ → RxState → List UartRead → Option Bytes × RxState
dtu_read_line start timeout_ticks line_size rx [] = elim (split_at_char 0x0A rx.s_rx_acc) [
  | some (raw, rest) ↦ (some (copy_line raw line_size), record rx { s_rx_acc = rest })
  | none ↦ (none, rx)
]
dtu_read_line start timeout_ticks line_size rx (r ∷ rs) =
    let later = dtu_read_line start timeout_ticks line_size (read_more rx r.ready) rs in
    elim (split_at_char 0x0A rx.s_rx_acc) [
      | some (raw, rest) ↦ (some (copy_line raw line_size), record rx { s_rx_acc = rest })
      | none ↦ if leb timeout_ticks (tick_sub r.now start) then (none, rx) else later
    ]
