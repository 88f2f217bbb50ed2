-- ===== src/Dtu/Task.antt =====
-- The commands and the task of main/uart_dtu_manager.c.
pub mod Answers
pub mod Asking
pub mod Passing
pub mod Whole
pub mod Draining
mod Tests
use iot_sms.Base.{
  ℕ, zero, suc, ◌+◌, ◌-◌, Bool, true, false, [], ◌∷◌, ◌++◌, List, Option, none, some, Bytes, codes,
  length, take, drop, ltb, leb, if◌then◌else◌,
}
use iot_sms.CString.{c_str, strncpy, strip_prefix}
use iot_sms.Rtos.{Rtos, tick_sub, ms_to_ticks}
use iot_sms.Dtu.Dedup.{DtuState, dtu_handle_line}
use iot_sms.Dtu.Reader.{dtu_line_buf_size, RxState, UartRead, dtu_read_line}
use iot_sms.UartAt.Commands.{china_mobile, china_unicom, china_telecom, china_broadnet}

-- `DTU_CMD_RESPONSE_TIMEOUT_MS` and `DTU_SMS_POLL_INTERVAL_MS`
abbrev pub dtu_cmd_response_timeout_ms : ℕ
dtu_cmd_response_timeout_ms = 5000

abbrev pub dtu_sms_poll_interval_ms : ℕ
dtu_sms_poll_interval_ms = 10000

-- The state of the file, `g_sim_operator`, and the commands that were sent.
pub record DtuTask (R : Rtos) : Type 0 where
  pub rx : RxState
  pub dtu : DtuState R
  pub sim_operator : Bytes
  pub sent : List Bytes

-- One round of the loop in `dtu_query`: the counter in its test, that at the start of
-- `dtu_read_line`, the reads, and the times of the cache.
pub record QueryRound : Type 0 where
  pub tested : ℕ
  pub called : ℕ
  pub reads : List UartRead
  pub checked : ℕ
  pub stored : ℕ

-- The counter at the start of a query, and its rounds.
pub record Query : Type 0 where
  pub start : ℕ
  pub query_rounds : List QueryRound

-- One round of the main loop: as above, with the counter in the test of the poll and behind it.
pub record PollRound : Type 0 where
  pub called : ℕ
  pub reads : List UartRead
  pub checked : ℕ
  pub stored : ℕ
  pub polled : ℕ
  pub noted : ℕ

-- `s_iccid_operator_map`
unfoldable pub iccid_operator_map : List (Bytes × Bytes)
iccid_operator_map =
    (codes "898600", china_mobile)
    ∷ (codes "898602", china_mobile)
    ∷ (codes "898604", china_mobile)
    ∷ (codes "898607", china_mobile)
    ∷ (codes "898608", china_mobile)
    ∷ (codes "898601", china_unicom)
    ∷ (codes "898606", china_unicom)
    ∷ (codes "898609", china_unicom)
    ∷ (codes "898603", china_telecom)
    ∷ (codes "898611", china_telecom)
    ∷ (codes "898615", china_broadnet)
    ∷ (codes "896405", codes "Skinny")
    ∷ []

unfoldable pub find_iccid : List (Bytes × Bytes) → Bytes → Option Bytes
find_iccid [] iccid = none
find_iccid ((iccid_prefix, name) ∷ rest) iccid =
    let later = find_iccid rest iccid in
    elim (strip_prefix iccid_prefix iccid) [ some _ ↦ some name | none ↦ later ]

abbrev pub iccid_answer : Bytes
iccid_answer = codes "config,iccid,ok,"

module _ (R : Rtos) where
  -- The command goes out with an end of line.
  unfoldable pub dtu_send_command : DtuTask R → Bytes → DtuTask R
  dtu_send_command s cmd = record s { sent = s.sent ++ (cmd ++ 0x0D ∷ 0x0A ∷ []) ∷ [] }

  -- The loop of `dtu_query`; `resp` has 128 bytes.
  unfoldable pub query_loop : DtuTask R → Bytes → ℕ → List QueryRound → DtuTask R × Option Bytes
  query_loop s resp_prefix start [] = (s, none)
  query_loop s resp_prefix start (x ∷ xs) =
      let timeout = ms_to_ticks R dtu_cmd_response_timeout_ms in
      let elapsed = tick_sub x.tested start in
      let (line, rx') = dtu_read_line x.called (timeout - elapsed) dtu_line_buf_size s.rx x.reads in
      let s' = record s { rx = rx' } in
      let text : Bytes = elim line [ none ↦ [] | some l ↦ c_str l ] in
      let handled = record s' { dtu = dtu_handle_line R s.dtu text x.checked x.stored } in
      let further = query_loop handled resp_prefix start xs in
      if ltb elapsed timeout
      then (elim line [
        | none ↦ (s', none)
        | some _ ↦ elim (strip_prefix resp_prefix text) [
          | some _ ↦ (s', some (take (128 - 1) text))
          | none ↦ further
        ]
      ])
      else (s, none)

  module _ (at : ℕ → Query) where
    -- The environment's part is that of the number of commands sent so far.
    unfoldable pub dtu_query : DtuTask R → Bytes → Bytes → DtuTask R × Option Bytes
    dtu_query s cmd resp_prefix =
        let q = at (length s.sent) in
        query_loop (dtu_send_command s cmd) resp_prefix q.start q.query_rounds

    unfoldable pub detect_operator_from_iccid : DtuTask R → DtuTask R
    detect_operator_from_iccid s =
        let (s', answer) = dtu_query s (codes "config,get,iccid") iccid_answer in
        elim answer [
          | none ↦ s'
          | some resp ↦ elim (find_iccid iccid_operator_map (drop (length iccid_answer) resp)) [
            | none ↦ s'
            | some name ↦ record s' { sim_operator = strncpy (32 - 1) name }
          ]
        ]

    -- The loop that asks for the firmware's version, with the number of attempts left.
    unfoldable pub probe_firmware : ℕ → DtuTask R → DtuTask R × Bool
    probe_firmware zero s = (s, false)
    probe_firmware (suc left) s =
        let (s', answer) =
          dtu_query s (codes "config,get,firmwarever") (codes "config,firmwarever,") in
        let again = probe_firmware left s' in elim answer [ none ↦ again | some _ ↦ (s', true) ]

    -- The task in front of its main loop: a module that does not answer is listened to all the same.
    unfoldable pub set_up : DtuTask R → DtuTask R
    set_up s =
        let (probed, dtu_ready) = probe_firmware 3 s in
        (dtu_query (detect_operator_from_iccid probed) (codes "config,set,smson,1,0,0,1,0,1,1")
          (codes "config,smson,")).0

  -- One round of the main loop, with `last_poll`.
  unfoldable pub poll_round : DtuTask R × ℕ → PollRound → DtuTask R × ℕ
  poll_round (s, last_poll) x =
      let (line, rx') =
        dtu_read_line x.called (ms_to_ticks R 1000) dtu_line_buf_size s.rx x.reads in
      let read = record s { rx = rx' } in
      let handled : DtuTask R = elim line [
        | none ↦ read
        | some l ↦ record read { dtu = dtu_handle_line R s.dtu (c_str l) x.checked x.stored }
      ] in
      if leb (ms_to_ticks R dtu_sms_poll_interval_ms) (tick_sub x.polled last_poll)
      then (dtu_send_command handled (codes "config,get,sms"), x.noted)
      else (handled, last_poll)

  -- The main loop, for the given rounds.
  unfoldable pub poll_loop : DtuTask R × ℕ → List PollRound → DtuTask R × ℕ
  poll_loop p [] = p
  poll_loop p (x ∷ xs) = poll_loop (poll_round p x) xs

  -- What the driver holds, the first of the bytes to come, is dropped at the start.
  unfoldable pub uart_flush_input : ℕ → DtuTask R → DtuTask R
  uart_flush_input buffered s = record s {
    rx = record s.rx { incoming = drop buffered s.rx.incoming };
  }

  -- The whole task; `last_poll` starts with the counter in front of the main loop.
  unfoldable pub uart_dtu_task : (ℕ → Query) → ℕ → ℕ → List PollRound → DtuTask R → DtuTask R × ℕ
  uart_dtu_task at buffered last_poll rounds s =
      poll_loop (set_up at (uart_flush_input buffered s), last_poll) rounds

  -- `uart_dtu_init`, for a driver that installs: the queue is kept and the buffer is empty. The
  -- number is that of the drivers that are installed.
  unfoldable pub uart_dtu_init : R.Queue → DtuTask R × ℕ → DtuTask R × ℕ
  uart_dtu_init sms_queue (s, drivers) =
      let left = if ltb 0 drivers then drivers - 1 else drivers in
      (
        record s {
          rx = record s.rx { s_rx_acc = [] };
          dtu = record s.dtu { sms_queue = sms_queue };
        },
        left + 1,
      )
