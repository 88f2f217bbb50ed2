-- ===== src/UartAt/Task/Tests.antt =====
-- A long message whose bytes are cut within its first report and between two rounds.
use iot_sms.Base.{
  ℕ, zero, suc, true, false, [], ◌∷◌, ◌++◌, some, ◌≡◌, refl, arith, Bytes, codes, take, drop,
  length, subst, sym, ◌<◌,
}
use iot_sms.CString.{strip_prefix, c_str, strncpy, str_eq, NoNul}
use iot_sms.CString.Search.{split_at_text, starts_with, search_on}
use iot_sms.Message.{sender_size}
use iot_sms.Rtos.{tick_sub}
use iot_sms.Testbed.{board, queue_with, BoardQueue}
use iot_sms.UartAt.Fragments.{
  empty_buffer, is_multipart_part_hex_len, is_fragment_timeout, process_sms_fragment, process_body,
  start_message, continue_message, reset_fragment_buffer, post, message_of,
}
use iot_sms.UartAt.Ucs2.{
  decode_ucs2_hex_to_utf8, decode_from, decode_step, put_char, code_unit, hex_char_to_int,
  join_nibbles, size_sub,
}
use iot_sms.UartAt.Urc.{
  AtState, Moment, find_sms_urc, has_complete_sms_urc, decode_sender, send_complete,
}
use iot_sms.UartAt.Urc.Reports.{Report, IsReport, stream}
use iot_sms.UartAt.Urc.Stream.{deliver}
use iot_sms.UartAt.Receive.{is_other_urc, remove_other_urcs, clean}
use iot_sms.UartAt.Receive.Signals.{Announced}
use iot_sms.UartAt.Commands.{Exchange}
use iot_sms.UartAt.Task.{uart_at_main_loop, recover}
use iot_sms.UartAt.Task.Backoff.{doubled, backoff, answered_in, recover-backoff}
use iot_sms.UartAt.Task.Arrivals.{IsCalm}
use iot_sms.UartAt.Task.Messages.{Parts, deliver_each, IsMessage}
use iot_sms.UartAt.Task.Rounds.{
  Step, rounds_of, Arrives, Punctual, Queues, uart_at_main_loop-Queues,
}

abbrev hex_text : ℕ → Bytes
hex_text zero = []
hex_text (suc n) = codes "4E2D" ++ hex_text n

abbrev at_tick : ℕ → Moment
at_tick i = record { checked = 100; stored = 100; allocated = true }

abbrev at_later_tick : ℕ → Moment
at_later_tick i = record { checked = 200; stored = 200; allocated = true }

abbrev ready : AtState BoardQueue
ready = record {
  rx_buffer = [];
  ok_bit = false;
  error_bit = false;
  urc_bit = false;
  fragments = record { buffer = empty_buffer; sms_queue = some (queue_with 10) };
  sim_operator = [];
  commands = [];
}

abbrev first_part : Report
first_part = record {
  noise = [];
  gap = codes " ";
  sender_hex = codes "0031";
  dates = codes ",,\"t\"";
  content = hex_text 67;
}

abbrev last_part : Report
last_part = record first_part { noise = codes "\r\n"; content = codes "0048" }

first-IsReport : IsReport first_part
first-IsReport = ground arith

last-IsReport : IsReport last_part
last-IsReport = ground arith

first-IsCalm : IsCalm first_part
unfolding is_other_urc starts_with strip_prefix
first-IsCalm = record { blank = (0, refl); hex = refl }

last-IsCalm : IsCalm last_part
unfolding is_other_urc starts_with strip_prefix
last-IsCalm = record { blank = (1, refl); hex = refl }

abbrev first_bytes : Bytes
first_bytes = stream (first_part ∷ []) (codes "\r\n+CM")

abbrev first_step : Step
first_step = record {
  round = record {
    during = take 100 first_bytes ∷ drop 100 first_bytes ∷ [];
    moments = at_tick;
    checked = 150;
  };
  reports = first_part ∷ [];
  rest = codes "\r\n+CM";
}

abbrev last_step : Step
last_step = record {
  round = record {
    during = drop 5 (stream (last_part ∷ []) []) ∷ [];
    moments = at_later_tick;
    checked = 250;
  };
  reports = last_part ∷ [];
  rest = [];
}

abbrev long_message : Parts
long_message = record { firsts = (first_part, at_tick 0) ∷ []; last = (last_part, at_later_tick 0) }

first-Arrives : Arrives [] first_step
unfolding find_sms_urc split_at_text search_on strip_prefix clean remove_other_urcs is_other_urc
    starts_with
first-Arrives = record {
  reports = (first-IsReport, tt);
  calm = (first-IsCalm, tt);
  incomplete = refl;
  quiet = refl;
  bytes = refl;
  room = omega arith;
}

last-Arrives : Arrives (codes "\r\n+CM") last_step
unfolding find_sms_urc split_at_text search_on strip_prefix clean remove_other_urcs is_other_urc
    starts_with
last-Arrives = record {
  reports = (last-IsReport, tt);
  calm = (last-IsCalm, tt);
  incomplete = refl;
  quiet = refl;
  bytes = refl;
  room = omega arith;
}

name_decoded : decode_sender (codes "0031") ≡ codes "1"
unfolding decode_sender decode_ucs2_hex_to_utf8 decode_from decode_step put_char code_unit
    hex_char_to_int join_nibbles size_sub c_str
name_decoded = refl

long-IsMessage : IsMessage board long_message
unfolding is_multipart_part_hex_len tick_sub
long-IsMessage = record {
  name_text = subst NoNul (sym name_decoded) (ground arith);
  name_fits = subst (λ s. length s < sender_size) (sym name_decoded) (omega arith);
  one_sender = (refl, (refl, tt));
  allocated = (refl, (refl, tt));
  parts = ((omega arith, refl), tt);
  last_text = ground arith;
  last_short = refl;
  fits = omega arith;
  timely = omega arith;
}

ready_kept : clean ready.rx_buffer ≡ ready.rx_buffer
unfolding clean remove_other_urcs split_at_text
ready_kept = refl

ready-Announced : Announced ready
unfolding has_complete_sms_urc find_sms_urc split_at_text
ready-Announced e = ground (arith, e)

steps-Punctual : Punctual board ready.fragments (first_step ∷ last_step ∷ [])
unfolding deliver_each deliver send_complete process_sms_fragment process_body start_message
    continue_message is_fragment_timeout reset_fragment_buffer post message_of decode_sender
    decode_ucs2_hex_to_utf8 decode_from decode_step put_char code_unit hex_char_to_int join_nibbles
    size_sub is_multipart_part_hex_len tick_sub strncpy str_eq c_str
steps-Punctual = (refl, (refl, tt))

uart_at_main_loop-Queues_example :
    Queues board ready
      (queue_with 10)
      (first_step ∷ last_step ∷ [])
      (long_message ∷ [])
      (uart_at_main_loop board ready (rounds_of (first_step ∷ last_step ∷ [])))
uart_at_main_loop-Queues_example =
    uart_at_main_loop-Queues board ready (queue_with 10) (first_step ∷ last_step ∷ [])
      (long_message ∷ []) (first-Arrives, (last-Arrives, tt)) ready_kept ready-Announced
      steps-Punctual refl refl refl (long-IsMessage, tt)

-- An answer in the fifth attempt starts the delays anew.
some_delays :
    backoff 0 (false ∷ false ∷ false ∷ false ∷ true ∷ false ∷ false ∷ [])
    ≡ 5000 ∷ 10000 ∷ 20000 ∷ 30000 ∷ 5000 ∷ 5000 ∷ 10000 ∷ []
unfolding backoff doubled
some_delays = refl

-- A modem that does not answer.
abbrev silence : ℕ → Exchange
silence n = record { early = []; during = []; late = []; before = at_tick; behind = at_tick }

recover-backoff_example :
    (recover board silence ready 0 ((1, []) ∷ (600, []) ∷ [])).1
    ≡ backoff 0 (answered_in board silence ready 0 ((1, []) ∷ (600, []) ∷ []))
recover-backoff_example = recover-backoff board silence ready ((1, []) ∷ (600, []) ∷ [])
