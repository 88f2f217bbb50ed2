-- ===== src/UartAt/Init/Tests.antt =====
-- A start of the manager, a report that arrives, and a restart.
use iot_sms.Base.{true, false, [], none, some, refl, arith, codes}
use iot_sms.CString.Search.{split_at_text}
use iot_sms.Testbed.{queue_with, board, BoardQueue}
use iot_sms.UartAt.Fragments.{empty_buffer}
use iot_sms.UartAt.Init.{Manager, InitResults, create_at_task}
use iot_sms.UartAt.Init.Fresh.{IsMatched, uart_at_init-IsFresh}
use iot_sms.UartAt.Init.Restarts.{Lives, born, starts, runs, IsOrderly, Lives-IsOrderly}
use iot_sms.UartAt.Receive.{uart_data, handle_event}
use iot_sms.UartAt.Receive.Signals.{IsSound}
use iot_sms.UartAt.Task.Sound.{at_start, turn, event}
use iot_sms.UartAt.Urc.{has_complete_sms_urc, find_sms_urc}

abbrev powered : Manager BoardQueue
powered = record {
  at = record {
    rx_buffer = [];
    ok_bit = false;
    error_bit = false;
    urc_bit = false;
    fragments = record { buffer = empty_buffer; sms_queue = none };
    sim_operator = [];
    commands = [];
  };
  s_uart_at_task_handle = false;
  s_uart_event_task_handle = false;
  s_uart_rx_mutex = false;
  s_at_response_event_group = false;
  at_tasks = 0;
  event_tasks = 0;
  drivers = 0;
  mutexes = 0;
  event_groups = 0;
}

abbrev no_errors : InitResults
no_errors = record {
  mutex_made = true;
  group_made = true;
  driver_installed = true;
  params_set = true;
  pins_set = true;
  task_made = true;
}

powered-IsMatched : IsMatched powered
powered-IsMatched = record {
  at_task = refl;
  event_task = refl;
  mutex = refl;
  event_group = refl;
  one_driver = omega arith;
}

powered-IsSound : IsSound powered.at
unfolding has_complete_sms_urc find_sms_urc split_at_text
powered-IsSound = (record { room = omega arith; text = tt }, λ e. ground (arith, e))

abbrev first_start : Manager BoardQueue
first_start =
    (uart_at_init-IsFresh no_errors (some (queue_with 10)) powered powered-IsMatched refl).0

life : Lives board powered (record (create_at_task first_start) {
  at = (handle_event (create_at_task first_start).at (uart_data (codes "+CMT: \"00")) []).0;
})
life =
    runs
      (starts no_errors (some (queue_with 10)) born refl
        (uart_at_init-IsFresh no_errors (some (queue_with 10)) powered powered-IsMatched refl).1)
      (turn (at_start (create_at_task first_start).at)
        (event (create_at_task first_start).at (uart_data (codes "+CMT: \"00")) [] (ground arith)))

Lives-IsOrderly_example : IsOrderly board (record (create_at_task first_start) {
  at = (handle_event (create_at_task first_start).at (uart_data (codes "+CMT: \"00")) []).0;
})
Lives-IsOrderly_example = Lives-IsOrderly board life powered-IsMatched powered-IsSound
