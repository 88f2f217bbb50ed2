-- ===== src/Dtu/Task/Tests.antt =====
-- The commands of the DTU manager over given answers.
use iot_sms.Base.{ℕ, [], none, ◌∷◌, codes, ◌≡◌, refl, arith}
use iot_sms.CString.{split_at_char, strip_prefix, c_str, strncpy}
use iot_sms.Rtos.{tick_sub}
use iot_sms.Testbed.{board, queue_with}
use iot_sms.Dtu.Dedup.{dtu_handle_line}
use iot_sms.Dtu.Parse.{parse_sms_line}
use iot_sms.Dtu.Reader.{copy_line, drop_return, dtu_read_line}
use iot_sms.Dtu.Task.{
  DtuTask, Query, iccid_operator_map, find_iccid, dtu_send_command, query_loop, dtu_query,
  detect_operator_from_iccid, poll_round, PollRound, poll_loop,
}
use iot_sms.Dtu.Task.Answers.{handle_lines}
use iot_sms.Dtu.Task.Draining.{buffered, in_rounds, poll_loop-drains}
use iot_sms.UartAt.Commands.{china_telecom}

-- The answer with the card's number stands behind another line.
abbrev answered : DtuTask board
answered = record {
  rx = record {
    s_rx_acc = codes "boot\r\nconfig,iccid,ok,89860312345678901234\r\n";
    incoming = [];
  };
  dtu = record { sms_queue = queue_with 1; cache = record { entries = []; next = 0 } };
  sim_operator = [];
  sent = [];
}

abbrev two_rounds : ℕ → Query
two_rounds n = record {
  start = 0;
  query_rounds =
      record { tested = 1; called = 1; reads = []; checked = 0; stored = 0 }
      ∷ record { tested = 2; called = 2; reads = []; checked = 0; stored = 0 }
      ∷ [];
}

operator_detected :
    (detect_operator_from_iccid board two_rounds answered).sim_operator ≡ china_telecom
unfolding detect_operator_from_iccid dtu_query query_loop dtu_send_command dtu_read_line copy_line
    drop_return split_at_char strip_prefix c_str strncpy tick_sub find_iccid iccid_operator_map
    dtu_handle_line parse_sms_line
operator_detected = refl

-- The poll is due, and the command goes out.
polled :
    (poll_round board
      (record answered { rx = record { s_rx_acc = []; incoming = [] } }, 0)
      (record { called = 0; reads = []; checked = 0; stored = 0; polled = 1000; noted = 1001 })).1
    ≡ 1001
unfolding poll_round dtu_read_line split_at_char tick_sub dtu_send_command
polled = refl

abbrev delivering : DtuTask board
delivering = record answered {
  rx = record {
    s_rx_acc = codes "stale";
    incoming = codes "bootconfig,iccid,ok,89860312345678901234\r\nhello\r\nconfig,s";
  };
}

abbrev holding_lines : DtuTask board
holding_lines = record answered {
  rx = record { s_rx_acc = codes "boot\r\nhello\r\nconfig,s"; incoming = [] };
}

abbrev poll_at : ℕ → PollRound
poll_at n = record {
  called = n;
  reads = record { now = n; ready = 100 } ∷ [];
  checked = n;
  stored = n;
  polled = n;
  noted = n;
}

tail_has_no_line : split_at_char 0x0A (codes "config,s") ≡ none
unfolding split_at_char
tail_has_no_line = refl

poll_loop-drains_example :
    ((poll_loop board (holding_lines, 0) (poll_at 1 ∷ poll_at 2 ∷ poll_at 3 ∷ [])).0.rx
      ≡ buffered (codes "config,s"))
    × ((poll_loop board (holding_lines, 0) (poll_at 1 ∷ poll_at 2 ∷ poll_at 3 ∷ [])).0.dtu
        ≡ handle_lines board holding_lines.dtu (
            in_rounds
              (codes "boot\r" ∷ codes "hello\r" ∷ [])
              (poll_at 1 ∷ poll_at 2 ∷ poll_at 3 ∷ [])))
poll_loop-drains_example =
    poll_loop-drains board (codes "config,s") (poll_at 1 ∷ poll_at 2 ∷ poll_at 3 ∷ []) holding_lines
      0 (codes "boot\r" ∷ codes "hello\r" ∷ []) tail_has_no_line (ground arith) (omega arith) refl
