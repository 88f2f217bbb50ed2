-- ===== src/Dtu/Dedup/Tests.antt =====
-- The cache of main/uart_dtu_manager.c at concrete messages.
use iot_sms.Base.{◌<◌, true, false, [], ◌∷◌, none, some, ◌≡◌, ◌≢◌, ◌^◌, ◌-◌, ◌⊎◌, arith}
use iot_sms.Dtu.Dedup.{SmsDedupEntry, DedupCache, DtuState, dtu_handle_line}
use iot_sms.Dtu.Dedup.Known.{Known, IsBacked, Handled, dtu_handle_line-Handled}
use iot_sms.Dtu.Parse.{parse_sms_line}
use iot_sms.Dtu.Parse.Tests.{sample_line}
use iot_sms.Message.{SmsMessage}
use iot_sms.Rtos.{tick_sub}
use iot_sms.Testbed.{board, queue_with}

abbrev no_entry : SmsDedupEntry
no_entry = record { hash = 0; tick = 0; valid = false }

abbrev empty_cache : DedupCache
empty_cache = record {
  entries =
      no_entry ∷ no_entry ∷ no_entry ∷ no_entry ∷ no_entry ∷ no_entry ∷ no_entry ∷ no_entry ∷ [];
  next = 0;
}

abbrev other : SmsMessage
other = record { sender = 0x31 ∷ []; content = 0x42 ∷ [] }

within_window : tick_sub 50 (2 ^ 32 - 100) < 60000
unfolding tick_sub
within_window = omega arith

abbrev state : DtuState board
state = record { sms_queue = queue_with 1; cache = empty_cache }

false-true : false ≢ true
false-true e = ground (arith, e)

state-IsBacked : IsBacked board state
state-IsBacked = (unused, (unused, (unused, (unused, (unused, (unused, (unused, (unused, tt))))))))
  where
    unused : false ≡ true → Known [] 0
    unused e = absurd (false-true e)

dtu_handle_line-Handled_example :
    IsBacked board (dtu_handle_line board state sample_line 10 11)
    × (((parse_sms_line sample_line ≡ none)
          × (dtu_handle_line board state sample_line 10 11 ≡ state))
        ⊎ ((m : SmsMessage) × (parse_sms_line sample_line ≡ some m)
            × Handled board state m (dtu_handle_line board state sample_line 10 11)))
dtu_handle_line-Handled_example =
    dtu_handle_line-Handled board state sample_line 10 11 state-IsBacked
