-- ===== src/Processor/Tests.antt =====
-- The theorems on main/sms_processor.c at concrete states.
use iot_sms.Base.{
  ℕ, ◌-◌, ◌==◌, true, false, List, [], ◌∷◌, ◌++◌, none, some, ◌≡◌, ◌≢◌, refl, arith, if◌then◌else◌,
}
use iot_sms.Decimal.{decimal, digits_of}
use iot_sms.CString.{str_eq}
use iot_sms.Message.{SmsMessage}
use iot_sms.Processor.{
  SmsRetryState, Tasks, send_stored, retry, round, rounds, drain, receive, handle_received,
  start_retry,
}
use iot_sms.Processor.Drain.{SentFrom, send_stored_total, send_stored_never}
use iot_sms.Processor.Run.{stored_fuel, Kept, rounds-Kept}
use iot_sms.Publisher.{Publisher}
use iot_sms.Rtos.{tick_add}
use iot_sms.Storage.{
  EspErr, esp_ok, esp_fail, next_message, sms_storage_get_next, sms_storage_delete_oldest,
  nothing_stored, delete_first, shift_down, read_oldest,
}
use iot_sms.Storage.FlashModel.{FlashModel, flash_model, flash_model-IsWorking}
use iot_sms.Storage.Keys.{sms_key}
use iot_sms.Storage.Tests.{first_sms, second_sms, third_sms, stored, old_flash, old_flash-Holds}
use iot_sms.Testbed.{BoardQueue, board, board_receive}

-- A connection that accepts a number of messages.
record Line : Type 0 where
  accepts : ℕ
  sent : List SmsMessage

abbrev line_publish : Line → SmsMessage → Line × EspErr
line_publish q m =
    if q.accepts == 0
    then (q, esp_fail)
    else (record { accepts = q.accepts - 1; sent = q.sent ++ m ∷ [] }, esp_ok)

line_ok :
    (q : Line) (m : SmsMessage)
    → (line_publish q m).1 ≡ esp_ok
    → (line_publish q m).0.sent ≡ q.sent ++ m ∷ []
line_ok q m e = ground arith

line_fail :
    (q : Line) (m : SmsMessage)
    → (line_publish q m).1 ≡ esp_fail
    → (line_publish q m).0.sent ≡ q.sent
line_fail q m e = ground arith

abbrev line : Publisher
line = record {
  Mqtt = Line;
  is_connected = λ q. (q, true);
  publish_sms = line_publish;
  published = λ q. q.sent;
  is_connected_published = λ q. refl;
  publish_ok = line_ok;
  publish_fail = line_fail;
}

ok-fail : esp_ok ≢ esp_fail
ok-fail e = ground (arith, e)

-- A connection that accepts whatever it is given.
abbrev open_line : Publisher
open_line = record {
  Mqtt = List SmsMessage;
  is_connected = λ q. (q, true);
  publish_sms = λ q m. (q ++ m ∷ [], esp_ok);
  published = λ q. q;
  is_connected_published = λ q. refl;
  publish_ok = λ q m e. refl;
  publish_fail = λ q m e. absurd (ok-fail e);
}

abbrev busy : SmsRetryState
busy = record { sms = third_sms; retry_count = 1; next_retry_time = 500; is_active = true }

abbrev one_line : Line
one_line = record { accepts = 1; sent = [] }

abbrev waiting : BoardQueue
waiting = record { room = 3; waiting_messages = second_sms ∷ []; all_accepted = second_sms ∷ [] }

abbrev tasks : Tasks board (flash_model false) line
tasks = record { mqtt = one_line; flash = old_flash; sms_queue = waiting; s_retry_state = busy }

rounds-Kept_example :
    (s' : Tasks board (flash_model false) line) × (rounds board
        (flash_model false)
        line
        stored_fuel
        ((600, 601) ∷ (1700, 1701) ∷ [])
        tasks
      ≡ some s')
    × Kept board (flash_model false) line ((600, 601) ∷ (1700, 1701) ∷ []) tasks stored s'
rounds-Kept_example =
    rounds-Kept board (flash_model false) line flash_model-IsWorking
      ((600, 601) ∷ (1700, 1701) ∷ []) tasks stored (old_flash-Holds false)

send_stored_total_example :
    (q' : Line) × (f' : FlashModel) × (send_stored board
        (flash_model false)
        line
        3
        one_line
        old_flash
      ≡ some (q', f'))
    × SentFrom board (flash_model false) line one_line stored q' f'
send_stored_total_example =
    send_stored_total board (flash_model false) line flash_model-IsWorking 3 one_line old_flash
      stored (old_flash-Holds false) (omega arith)

abbrev idle : SmsRetryState
idle = record { sms = third_sms; retry_count = 0; next_retry_time = 0; is_active = false }

-- Nothing is stored, a message waits, and the connection accepts none.
abbrev quiet : Tasks board (flash_model false) line
quiet = record {
  mqtt = record { accepts = 0; sent = [] };
  flash = record old_flash { numbers = λ k. none };
  sms_queue = waiting;
  s_retry_state = idle;
}

abbrev started : Tasks board (flash_model false) line
started = record quiet {
  sms_queue = record waiting { waiting_messages = [] };
  s_retry_state = record {
    sms = second_sms;
    retry_count = 1;
    next_retry_time = 1601;
    is_active = true;
  };
}

quiet-round : round board (flash_model false) line 1 quiet 600 601 ≡ some started
unfolding round drain send_stored sms_storage_get_next nothing_stored retry receive str_eq
    handle_received start_retry tick_add board_receive
quiet-round = refl

worn_flash : FlashModel
worn_flash = record old_flash { writes_left = 0 }

worn_next : sms_storage_get_next (flash_model true) worn_flash true ≡ next_message first_sms
unfolding worn_flash sms_storage_get_next nothing_stored read_oldest str_eq sms_key decimal
    digits_of
worn_next = refl

worn_stays : (sms_storage_delete_oldest (flash_model true) worn_flash).0 ≡ worn_flash
unfolding worn_flash sms_storage_delete_oldest nothing_stored delete_first shift_down str_eq sms_key
    decimal digits_of
worn_stays = refl

send_stored_never_example : send_stored board (flash_model true) open_line 1000 [] worn_flash ≡ none
send_stored_never_example =
    send_stored_never board (flash_model true) open_line worn_flash first_sms worn_next worn_stays
      (λ q. refl) 1000 []
