-- ===== src/Gateway.antt =====
-- main/sms_processor.c on main/mqtt_manager.c: what the processor takes as a publisher is the MQTT
-- manager, while other tasks publish too and the events of the client arrive.
pub mod Publications
pub mod Link
pub mod Delivery
pub mod Tests
use iot_sms.Base.{ℕ, suc, Bool, true, false, List, [], ◌∷◌, ◌++◌, Bytes, if◌then◌else◌}
use iot_sms.Message.{SmsMessage}
use iot_sms.Mqtt.{
  MqttClient, MqttEvent, MqttState, Settings, sms_payload, mqtt_event_handler,
  mqtt_manager_is_connected, mqtt_manager_publish, mqtt_manager_publish_sms,
}
use iot_sms.Storage.{EspErr, esp_ok, esp_fail}

-- What a task was told is published: a message, with the settings of its payload, or a text of
-- another task.
pub data Entry : Type 0 where
  sms_entry : Settings → SmsMessage → Entry
  other_entry : Bytes → Bytes → Entry

abbrev pub messages : List Entry → List SmsMessage
messages [] = []
messages (sms_entry g m ∷ es) = m ∷ messages es
messages (other_entry topic payload ∷ es) = messages es

abbrev pub payload_of : Entry → Bytes × Bytes
payload_of (sms_entry g m) = (g.topic_sms, sms_payload g m)
payload_of (other_entry topic payload) = (topic, payload)

abbrev pub payloads : List Entry → List (Bytes × Bytes)
payloads [] = []
payloads (e ∷ es) = payload_of e ∷ payloads es

abbrev pub sms_log : List Entry → Settings → SmsMessage → EspErr → List Entry
sms_log log g m esp_ok = log ++ sms_entry g m ∷ []
sms_log log g m esp_fail = log

-- What happens between two calls of the processor: an event of the client, or a publication of
-- another task.
pub data Move : Type 0 where
  client_event : MqttEvent → Move
  other_publish : Bytes → Bytes → ℕ → Move

module _ (C : MqttClient) where
  -- The state of the manager, what its callers were told, and the number of the processor's calls.
  pub record World : Type 0 where
    pub state : MqttState C
    pub log : List Entry
    pub calls : ℕ

  unfoldable pub make_move : World → Move → World
  make_move w (client_event e) = record w { state = mqtt_event_handler C w.state e }
  make_move w (other_publish topic payload qos) = record w {
    state = (mqtt_manager_publish C w.state topic payload qos).0;
    log =
        if (mqtt_manager_publish C w.state topic payload qos).1
        then w.log ++ other_entry topic payload ∷ []
        else w.log;
  }

  unfoldable pub make_moves : World → List Move → World
  make_moves w [] = w
  make_moves w (m ∷ ms) = make_moves (make_move w m) ms

  -- The publication of a message, whose result the processor is told.
  unfoldable pub tell : World → Settings → SmsMessage → World × EspErr
  tell w g m = (
    record w {
      state = (mqtt_manager_publish_sms C w.state g m).0;
      log = sms_log w.log g m (mqtt_manager_publish_sms C w.state g m).1;
    },
    (mqtt_manager_publish_sms C w.state g m).1,
  )

  module _ (moves : ℕ → List Move) (settings : ℕ → Settings) where
    -- What happens before the next call of the processor.
    unfoldable pub others : World → World
    others w = make_moves (record w { calls = suc w.calls }) (moves w.calls)

    unfoldable pub ask_connected : World → World × Bool
    ask_connected w = (others w, mqtt_manager_is_connected C (others w).state)

    unfoldable pub publish_message : World → SmsMessage → World × EspErr
    publish_message w m = tell (others w) (settings w.calls) m
