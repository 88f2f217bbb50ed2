-- ===== src/Mqtt.antt =====
-- main/mqtt_manager.c: the state of the connection and the publication of messages.
pub mod Payload
pub mod Connection
pub mod Report
pub mod Tests
use iot_sms.Base.{
  ℕ, ◌-◌, Bool, true, false, not, ◌||◌, List, [], ◌∷◌, ◌++◌, Option, none, some, ◌≡◌, Bytes, codes,
  length, take, ◌==◌, if◌then◌else◌,
}
use iot_sms.Message.{SmsMessage}
use iot_sms.Storage.{EspErr, esp_ok, esp_fail}

-- The MQTT client of ESP-IDF, which is not part of the repository.
pub record MqttClient : Type 1 where
  pub Client : Type 0
  -- `esp_mqtt_client_publish (client, topic, data, len, qos, 0)`; `true` unless it returns -1.
  pub publish : Client → Bytes → Bytes → ℕ → Client × Bool
  -- The payloads that the client has taken, with their topics, the oldest first.
  pub taken : Client → List (Bytes × Bytes)
  pub publish_taken :
      (c : Client) (topic payload : Bytes) (qos : ℕ)
      → (publish c topic payload qos).1 ≡ true
      → taken (publish c topic payload qos).0 ≡ taken c ++ (topic, payload) ∷ []
  pub publish_refused :
      (c : Client) (topic payload : Bytes) (qos : ℕ)
      → (publish c topic payload qos).1 ≡ false
      → taken (publish c topic payload qos).0 ≡ taken c

-- `esp_mqtt_event_id_t`
pub data MqttEvent : Type 0 where
  mqtt_connected mqtt_disconnected mqtt_subscribed mqtt_unsubscribed mqtt_published : MqttEvent
  mqtt_data mqtt_error mqtt_other : MqttEvent

-- `s_mqtt_client` and `s_mqtt_connected`
pub record MqttState (C : MqttClient) : Type 0 where
  pub s_mqtt_client : Option C.Client
  pub s_mqtt_connected : Bool

-- `MQTT_TOPIC_SMS`, `SIM_PHONE_NUMBER`, `g_sim_operator` and the formatted time
pub record Settings : Type 0 where
  pub topic_sms : Bytes
  pub sim_phone_number : Bytes
  pub sim_operator : Bytes
  pub timestamp : Bytes

abbrev pub or_unknown : Bytes → Bytes
or_unknown s = if length s == 0 then codes "UNKNOWN" else s

-- The text that `snprintf` is to write.
abbrev pub sms_json : Settings → SmsMessage → Bytes
sms_json g sms =
    codes "{\"sender\":\""
    ++ (sms.sender
        ++ (codes "\",\"content\":\""
            ++ (sms.content
                ++ (codes "\",\"local_number\":\""
                    ++ (or_unknown g.sim_phone_number
                        ++ (codes "\",\"operator\":\""
                            ++ (or_unknown g.sim_operator
                                ++ (codes "\",\"timestamp\":\""
                                    ++ (g.timestamp ++ codes "\"}")))))))))

-- `payload`, of 2560 bytes
unfoldable pub sms_payload : Settings → SmsMessage → Bytes
sms_payload g sms = take (2560 - 1) (sms_json g sms)

module _ (C : MqttClient) where
  unfoldable pub mqtt_event_handler : MqttState C → MqttEvent → MqttState C
  mqtt_event_handler s mqtt_connected = record s { s_mqtt_connected = true }
  mqtt_event_handler s mqtt_disconnected = record s { s_mqtt_connected = false }
  mqtt_event_handler s mqtt_error = record s { s_mqtt_connected = false }
  mqtt_event_handler s _ = s

  unfoldable pub mqtt_manager_is_connected : MqttState C → Bool
  mqtt_manager_is_connected s = s.s_mqtt_connected

  unfoldable pub client_publish : MqttState C → C.Client → Bytes → Bytes → ℕ → MqttState C × Bool
  client_publish s c topic payload qos =
      let (c', passed) = C.publish c topic payload qos in
      (record s { s_mqtt_client = some c' }, passed)

  unfoldable pub mqtt_manager_publish_sms :
      MqttState C → Settings → SmsMessage → MqttState C × EspErr
  mqtt_manager_publish_sms s g sms =
      if not s.s_mqtt_connected then (s, esp_fail) else elim s.s_mqtt_client [
        | none ↦ (s, esp_fail)
        | some c ↦
            let (s', passed) = client_publish s c g.topic_sms (sms_payload g sms) 1 in
            (s', if passed then esp_ok else esp_fail)
      ]

  -- `false` is any error.
  unfoldable pub mqtt_manager_publish : MqttState C → Bytes → Bytes → ℕ → MqttState C × Bool
  mqtt_manager_publish s topic payload qos =
      if not s.s_mqtt_connected then (s, false) else elim s.s_mqtt_client [
        | none ↦ (s, false)
        | some c ↦ client_publish s c topic payload qos
      ]
