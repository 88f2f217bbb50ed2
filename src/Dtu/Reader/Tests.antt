-- ===== src/Dtu/Reader/Tests.antt =====
-- Lines that the UART delivers in pieces.
use iot_sms.Base.{[], ◌∷◌, List, some, codes, ◌≡◌, refl}
use iot_sms.CString.{split_at_char}
use iot_sms.Dtu.Reader.{RxState, UartRead, drop_return, copy_line, read_more, dtu_read_line}
use iot_sms.Rtos.{tick_sub}

-- Part of a line is in the buffer, its end and a second line are to come.
abbrev arriving : RxState
arriving = record { s_rx_acc = codes "co"; incoming = codes "nfig\r\nok\nrest" }

abbrev reads_of : List UartRead
reads_of = record { now = 1; ready = 3 } ∷ record { now = 2; ready = 100 } ∷ []

first_line_read :
    dtu_read_line 0 10 128 arriving reads_of
    ≡ (some (codes "config"), record { s_rx_acc = codes "ok\nrest"; incoming = [] })
unfolding dtu_read_line split_at_char read_more tick_sub copy_line drop_return
first_line_read = refl
