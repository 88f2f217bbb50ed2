-- ===== src/Gateway/Delivery.antt =====
-- The loop of main/sms_processor.c loses no message on its way to the MQTT client of
-- main/mqtt_manager.c, while other tasks publish too and the events of the client arrive.
use iot_sms.Base.{ℕ, ◌+◌, Bool, List, [], ◌++◌, some, ◌≡◌, ◌⊎◌, arith, Bytes}
use iot_sms.Gateway.{messages, payloads, Move}
use iot_sms.Gateway.Link.{gateway}
use iot_sms.Message.{SmsMessage}
use iot_sms.Mqtt.{MqttClient, Settings}
use iot_sms.Mqtt.Connection.{taken_of}
use iot_sms.Processor.{Tasks, rounds}
use iot_sms.Processor.Balance.{count, in_retry}
use iot_sms.Processor.Run.{stored_fuel, received, Filled, rounds-Kept}
use iot_sms.Rtos.{Rtos}
use iot_sms.Storage.Nvs.{NvsStore}
use iot_sms.Storage.Contents.{Holds}
use iot_sms.Storage.Working.{IsWorking}

module _ (R : Rtos) (N : NvsStore) (C : MqttClient) (moves : ℕ → List Move)
    (settings : ℕ → Settings) (base : List (Bytes × Bytes)) where
  -- The payloads that the client has taken after the rounds are those it had taken at first and
  -- then those that publications passed, and the messages among these, with the ones that are
  -- stored, retried or lost, are those of before and those received.
  pub record Delivered (times : List (ℕ × ℕ)) (before : Tasks R N (gateway C moves settings base))
      (ms : List SmsMessage) (after : Tasks R N (gateway C moves settings base)) : Type 0 where
    pub stored : List SmsMessage
    pub lost : List SmsMessage
    pub held : Holds N after.flash stored
    pub all_taken : taken_of C after.mqtt.0.state ≡ base ++ payloads after.mqtt.0.log
    pub none_vanish :
        (p : SmsMessage → Bool)
        → count p (messages after.mqtt.0.log)
            + (count p stored + (count p (in_retry after.s_retry_state) + count p lost))
          ≡ count p (messages before.mqtt.0.log)
            + (count p ms
                + (count p (in_retry before.s_retry_state)
                    + count p (received R N (gateway C moves settings base) times before)))
    pub reason : (lost ≡ []) ⊎ Filled R N (gateway C moves settings base) times before

  -- For the processor on the MQTT manager, while the operations of the storage succeed, whatever
  -- events of the client arrive and whatever other tasks publish in front of each of its calls:
  -- from flash that holds a list, and a state in which the client has taken some first payloads and
  -- then those of the logged publications, any number of rounds of the task ends, with fuel 21 for
  -- the stored messages of each; afterwards the client has again taken exactly the same first
  -- payloads and then those of the logged publications, in order; and for every test on messages
  -- the logged, stored and retried ones that satisfy it, with the lost ones, are as many as the
  -- logged, stored and retried ones were before with those that the queue gave; a message is lost
  -- only if the storage held 20 after one of the rounds.
  pub rounds-Delivered :
      (w : IsWorking N) (times : List (ℕ × ℕ)) (s : Tasks R N (gateway C moves settings base))
      (ms : List SmsMessage)
      → Holds N s.flash ms
      → (s' : Tasks R N (gateway C moves settings base)) × (rounds R N
            (gateway C moves settings base)
            stored_fuel
            times
            s
          ≡ some s')
        × Delivered times s ms s'
  rounds-Delivered w times s ms h =
      let (s', e, k) = rounds-Kept R N (gateway C moves settings base) w times s ms h in
      (
        s',
        e,
        record {
          stored = k.stored;
          lost = k.lost;
          held = k.held;
          all_taken = s'.mqtt.1;
          none_vanish = λ p. omega (arith, k.kept p);
          reason = k.reason;
        },
      )
