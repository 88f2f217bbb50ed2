-- ===== src/Rtos.antt =====
-- What the firmware takes from FreeRTOS: queues of messages and the tick counter. FreeRTOS is not
-- part of the repository, so it is a record of operations with their documented behaviour.
use iot_sms.Base.{
  ℕ, ◌+◌, ◌-◌, ◌*◌, ◌/◌, ◌%◌, ◌^◌, Bool, true, false, List, [], ◌∷◌, ◌++◌, Option, ◌≡◌,
}
use iot_sms.Message.{SmsMessage}

-- `portMAX_DELAY`
abbrev pub max_delay : ℕ
max_delay = 2 ^ 32 - 1

pub record Rtos : Type 1 where
  pub Queue : Type 0
  -- `xQueueSend (queue, &message, ticks)`; `true` is `pdPASS`. The state that is returned is that
  -- at the call's return, so other tasks may have taken messages while it waited.
  pub send : Queue → SmsMessage → ℕ → Queue × Bool
  -- `xQueueReceive (queue, &message, ticks)`
  pub receive : Queue → ℕ → Queue × Option SmsMessage
  -- All messages that the queue has accepted since it was created, oldest first.
  pub accepted : Queue → List SmsMessage
  pub send_pass :
      (q : Queue) (m : SmsMessage) (t : ℕ)
      → (send q m t).1 ≡ true
      → accepted (send q m t).0 ≡ accepted q ++ m ∷ []
  pub send_fail :
      (q : Queue) (m : SmsMessage) (t : ℕ)
      → (send q m t).1 ≡ false
      → accepted (send q m t).0 ≡ accepted q
  -- A wait for `portMAX_DELAY` has no time-out.
  pub send_forever : (q : Queue) (m : SmsMessage) → (send q m max_delay).1 ≡ true
  -- `configTICK_RATE_HZ`
  pub tick_rate_hz : ℕ

-- `TickType_t` is an unsigned word of 32 bits.
unfoldable pub tick_sub : ℕ → ℕ → ℕ
tick_sub a b = (a + 2 ^ 32 - b) % 2 ^ 32

unfoldable pub tick_add : ℕ → ℕ → ℕ
tick_add a b = (a + b) % 2 ^ 32

module _ (R : Rtos) where
  -- `portTICK_PERIOD_MS`
  abbrev pub tick_period_ms : ℕ
  tick_period_ms = 1000 / R.tick_rate_hz

  -- `pdMS_TO_TICKS`
  abbrev pub ms_to_ticks : ℕ → ℕ
  ms_to_ticks ms = ms * R.tick_rate_hz / 1000
