-- ===== src/UartAt/Tests.antt =====
-- Runs of the modem's manager, and its theorems at these inputs.
use iot_sms.Base.{ℕ, true, false, [], ◌∷◌, some, ◌≡◌, refl, arith, Bytes, codes}
use iot_sms.CString.{strip_prefix, c_str, strncpy, str_eq}
use iot_sms.CString.Search.{split_at_text, starts_with, search_on, contains}
use iot_sms.Testbed.{board, queue_with, BoardQueue}
use iot_sms.UartAt.Fragments.{empty_buffer}
use iot_sms.UartAt.Urc.{
  AtState, Moment, find_two_lines, find_sms_urc, has_complete_sms_urc, handle_urcs,
  process_pending_sms_urcs,
}
use iot_sms.UartAt.Urc.Drain.{process_pending-drains}
use iot_sms.UartAt.Urc.Reports.{Report, stream}
use iot_sms.UartAt.Receive.{
  is_other_urc, remove_other_urcs, clean, receive_data, signal, append_data, make_room,
}
use iot_sms.UartAt.Receive.Chunks.{receive_data-append}
use iot_sms.UartAt.Receive.Signals.{IsSound}
use iot_sms.UartAt.Commands.{
  Exchange, configure_modem_for_sms, imsi_of_response, operator_of_imsi, operator_map,
  find_operator, operator_name, china_telecom,
}
use iot_sms.UartAt.Commands.Transcript.{Transcript, Sent}
use iot_sms.UartAt.Commands.Script.{Outcome, configure-Outcome}
use iot_sms.UartAt.Task.{LoopRound, delay_index, next_index}

-- The manager after `uart_at_init`, with these bytes in its buffer.
abbrev holding : Bytes → AtState BoardQueue
holding rx = record {
  rx_buffer = rx;
  ok_bit = false;
  error_bit = false;
  urc_bit = false;
  fragments = record { buffer = empty_buffer; sms_queue = some (queue_with 10) };
  sim_operator = [];
  commands = [];
}

abbrev at_ticks : ℕ → Moment
at_ticks i = record { checked = i; stored = i; allocated = true }

-- A report behind an empty line.
abbrev first_report : Report
first_report = record {
  noise = codes "\r\n";
  gap = codes " ";
  sender_hex = codes "0031";
  dates = codes ",,\"t\"";
  content = codes "0048";
}

abbrev second_report : Report
second_report = record first_report { noise = []; content = codes "00480049" }

-- The first report is complete, and part of a second one has arrived.
abbrev arriving : Bytes
arriving = stream (first_report ∷ second_report ∷ []) (codes "+CMT: \"00")

report_found : has_complete_sms_urc arriving ≡ true
unfolding has_complete_sms_urc find_sms_urc find_two_lines split_at_text search_on strip_prefix
report_found = refl

process_pending-drains_example :
    ((
      (process_pending_sms_urcs board (holding arriving) at_ticks).fragments,
      (process_pending_sms_urcs board (holding arriving) at_ticks).rx_buffer,
    )
      ≡ handle_urcs board 200 at_ticks 0 (holding arriving).fragments arriving)
    × (has_complete_sms_urc (process_pending_sms_urcs board (holding arriving) at_ticks).rx_buffer
        ≡ false)
    × ((process_pending_sms_urcs board (holding arriving) at_ticks).urc_bit ≡ false)
process_pending-drains_example =
    process_pending-drains board (holding arriving) at_ticks 200 (omega arith)

other_lines_removed :
    clean (codes "\r\n+CGEV: ME\r\n+CMT: \"1\"\r\n0048\r\n^MODE: 1\r\n+CSQ")
    ≡ codes "\r\n+CMT: \"1\"\r\n0048\r\n+CSQ"
unfolding clean remove_other_urcs is_other_urc starts_with split_at_text search_on strip_prefix
other_lines_removed = refl

receive_data-append_example :
    (receive_data (receive_data (holding []) (codes "+CGE")) (codes "V: ME\r\nOK\r\n")).rx_buffer
    ≡ (receive_data (holding []) (codes "+CGEV: ME\r\nOK\r\n")).rx_buffer
receive_data-append_example =
    receive_data-append (holding []) (codes "+CGE") (codes "V: ME\r\nOK\r\n") (omega arith)
      (omega arith) (omega arith)

prompt_is_error : (receive_data (holding []) (codes "> ")).error_bit ≡ true
unfolding receive_data signal contains clean remove_other_urcs append_data make_room split_at_text
    search_on strip_prefix
prompt_is_error = refl

-- A modem that does not answer.
abbrev silence : ℕ → Exchange
silence n = record { early = []; during = []; late = []; before = at_ticks; behind = at_ticks }

configure-Outcome_example :
    (t : Transcript) × Sent
      (holding [])
      t
      (configure_modem_for_sms board silence (holding [])).state
    × Outcome t
        (configure_modem_for_sms board silence (holding [])).modem_responding
        (configure_modem_for_sms board silence (holding [])).is_ready
configure-Outcome_example = configure-Outcome board silence (holding [])

-- The end of the IMSI's line is taken for part of the IMSI.
imsi_keeps_line_end :
    imsi_of_response (codes "\r\n460031234567890\r\n\r\nOK\r\n") 20
    ≡ some (codes "460031234567890\r\n")
unfolding imsi_of_response split_at_text search_on strip_prefix
imsi_keeps_line_end = refl

telecom_found : operator_name (some (codes "460031234567890\r\n")) 32 ≡ (china_telecom, true)
unfolding operator_name operator_of_imsi find_operator operator_map c_str strncpy str_eq
telecom_found = refl

last_delay_stays : next_index false 3 ≡ 3
unfolding next_index delay_index
last_delay_stays = refl

start-IsSound : IsSound (holding [])
unfolding has_complete_sms_urc find_sms_urc split_at_text
start-IsSound = (record { room = omega arith; text = tt }, λ e. ground (arith, e))

abbrev quiet_round : LoopRound
quiet_round = record { during = []; moments = at_ticks; checked = 7 }

-- A report that is cut twice, with an empty line and the start of another one behind it.
abbrev started : AtState BoardQueue
started = holding (codes "+CMT: \"00")

abbrev in_pieces : LoopRound
in_pieces = record {
  during = codes "31\",,\"t\"\r\n00" ∷ [] ∷ codes "48\r\n\r\n+CM" ∷ [];
  moments = at_ticks;
  checked = 9;
}

abbrev cut_report : Report
cut_report = record first_report { noise = [] }
