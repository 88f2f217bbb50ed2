-- ===== src/Processor.antt =====
-- main/sms_processor.c: the task that publishes the received messages, tries again, and keeps in
-- flash what could not be published.
pub mod Steps
pub mod Retry
pub mod Drain
pub mod Balance
pub mod Parts
pub mod Accounting
pub mod Run
pub mod Tests
use iot_sms.Base.{
  ℕ, zero, suc, ◌+◌, Bool, true, false, List, [], ◌∷◌, Option, none, some, leb, if◌then◌else◌,
}
use iot_sms.Message.{SmsMessage}
use iot_sms.Publisher.{Publisher}
use iot_sms.Rtos.{Rtos, tick_add, ms_to_ticks}
use iot_sms.Storage.{
  EspErr, esp_ok, esp_fail, NextResult, next_message, no_message, next_failed, sms_storage_save,
  sms_storage_get_next, sms_storage_delete_oldest,
}
use iot_sms.Storage.Nvs.{NvsStore}

-- `sms_retry_state_t`
pub record SmsRetryState : Type 0 where
  pub sms : SmsMessage
  pub retry_count : ℕ
  pub next_retry_time : ℕ
  pub is_active : Bool

abbrev pub max_retry_attempts : ℕ
max_retry_attempts = 3

abbrev pub retry_delay_ms : ℕ
retry_delay_ms = 10000

abbrev pub queue_timeout_ms : ℕ
queue_timeout_ms = 1000

-- What the task reads and writes: the connection, the flash, its queue and `s_retry_state`.
pub record Tasks (R : Rtos) (N : NvsStore) (P : Publisher) : Type 0 where
  pub mqtt : P.Mqtt
  pub flash : N.Flash
  pub sms_queue : R.Queue
  pub s_retry_state : SmsRetryState

module _ (R : Rtos) (N : NvsStore) (P : Publisher) where
  -- The loop over the stored messages; `none` means that the fuel is used up, one unit a round.
  -- What the deletion returns is not looked at.
  unfoldable pub send_stored : ℕ → P.Mqtt → N.Flash → Option (P.Mqtt × N.Flash)
  send_stored zero q f = none
  send_stored (suc fuel) q f = elim (sms_storage_get_next N f true) [
    | no_message ↦ some (q, f)
    | next_failed ↦ some (q, f)
    | next_message m ↦ elim (P.publish_sms q m).1 [
      | esp_fail ↦ some ((P.publish_sms q m).0, f)
      | esp_ok ↦ send_stored fuel (P.publish_sms q m).0 (sms_storage_delete_oldest N f).0
    ]
  ]

  -- The first part of a round of the task.
  unfoldable pub drain : ℕ → Tasks R N P → Option (Tasks R N P)
  drain fuel s =
      let (q, connected) = P.is_connected s.mqtt in
      if connected
      then (elim (send_stored fuel q s.flash) [
        | none ↦ none
        | some (q', f) ↦ some (record s { mqtt = q'; flash = f })
      ])
      else some (record s { mqtt = q })

  -- A failed attempt: the count grows, and the message is saved to flash or kept for later. What
  -- the save returns is only logged.
  unfoldable pub attempt_failed : Tasks R N P → ℕ → Tasks R N P
  attempt_failed s current_time =
      let r = s.s_retry_state in
      if leb max_retry_attempts (r.retry_count + 1)
      then (record s {
        flash = (sms_storage_save N s.flash (some r.sms)).0;
        s_retry_state = record r { retry_count = r.retry_count + 1; is_active = false };
      })
      else (record s {
        s_retry_state = record r {
          retry_count = r.retry_count + 1;
          next_retry_time = tick_add current_time (ms_to_ticks R retry_delay_ms);
        };
      })

  -- A retry whose time has come.
  unfoldable pub retry_now : Tasks R N P → ℕ → Tasks R N P
  retry_now s current_time =
      let (q, connected) = P.is_connected s.mqtt in
      if connected
      then (elim (P.publish_sms q s.s_retry_state.sms).1 [
        | esp_ok ↦ record s {
          mqtt = (P.publish_sms q s.s_retry_state.sms).0;
          s_retry_state = record s.s_retry_state { is_active = false };
        }
        | esp_fail ↦
            attempt_failed (record s { mqtt = (P.publish_sms q s.s_retry_state.sms).0 })
              current_time
      ])
      else attempt_failed (record s { mqtt = q }) current_time

  -- The second part of a round.
  unfoldable pub retry : Tasks R N P → ℕ → Tasks R N P
  retry s current_time =
      if s.s_retry_state.is_active
      then (if leb s.s_retry_state.next_retry_time current_time
          then retry_now s current_time
          else s)
      else s

  unfoldable pub start_retry : Tasks R N P → SmsMessage → ℕ → Tasks R N P
  start_retry s m now = record s {
    s_retry_state = record {
      sms = m;
      retry_count = 1;
      next_retry_time = tick_add now (ms_to_ticks R retry_delay_ms);
      is_active = true;
    };
  }

  -- A message from the queue.
  unfoldable pub handle_received : Tasks R N P → SmsMessage → ℕ → Tasks R N P
  handle_received s m now =
      if s.s_retry_state.is_active
      then record s { flash = (sms_storage_save N s.flash (some m)).0 }
      else (let (q, connected) = P.is_connected s.mqtt in
          if connected
          then (elim (P.publish_sms q m).1 [
            | esp_ok ↦ record s { mqtt = (P.publish_sms q m).0 }
            | esp_fail ↦ start_retry (record s { mqtt = (P.publish_sms q m).0 }) m now
          ])
          else start_retry (record s { mqtt = q }) m now)

  -- The third part of a round.
  unfoldable pub receive : Tasks R N P → ℕ → Tasks R N P
  receive s now =
      let (queue, received) = R.receive s.sms_queue (ms_to_ticks R queue_timeout_ms) in
      elim received [
        | none ↦ record s { sms_queue = queue }
        | some m ↦ handle_received (record s { sms_queue = queue }) m now
      ]

  -- One round of the task's loop. The times are what `xTaskGetTickCount` returns where a retry is
  -- considered and where one is started.
  unfoldable pub round : ℕ → Tasks R N P → ℕ → ℕ → Option (Tasks R N P)
  round fuel s current_time now = elim (drain fuel s) [
    | none ↦ none
    | some s' ↦ some (receive (retry s' current_time) now)
  ]

  -- The task's loop, for the given times.
  unfoldable pub rounds : ℕ → List (ℕ × ℕ) → Tasks R N P → Option (Tasks R N P)
  rounds fuel [] s = some s
  rounds fuel ((current_time, now) ∷ times) s = elim (round fuel s current_time now) [
    | none ↦ none
    | some s' ↦ rounds fuel times s'
  ]
