-- ===== src/Mqtt/Report.antt =====
-- The start of the client in main/mqtt_manager.c, and `mqtt_manager_publish_device_ready`.
pub mod Wait
use iot_sms.Base.{
  ℕ, zero, suc, ◌+◌, ◌-◌, ◌*◌, Bool, true, false, not, ◌&&◌, List, [], ◌∷◌, ◌++◌, Option, none,
  some, Bytes, codes, length, take, ltb, ◌==◌, if◌then◌else◌,
}
use iot_sms.Mqtt.{MqttClient, MqttState, MqttEvent, mqtt_event_handler, client_publish}
use iot_sms.Storage.{EspErr, esp_ok, esp_fail}

-- `esp_mqtt_client_config_t`, of which the source sets these fields.
pub record MqttConfig : Type 0 where
  pub uri : Bytes
  pub timeout_ms : ℕ
  pub reconnect_timeout_ms : ℕ
  pub disable_auto_reconnect : Bool
  pub keepalive : ℕ
  pub disable_keepalive : Bool

abbrev pub mqtt_cfg : Bytes → MqttConfig
mqtt_cfg broker_uri = record {
  uri = broker_uri;
  timeout_ms = 10000;
  reconnect_timeout_ms = 5000;
  disable_auto_reconnect = false;
  keepalive = 30;
  disable_keepalive = false;
}

abbrev pub max_wait_ms : ℕ
max_wait_ms = 30000

abbrev pub wait_interval_ms : ℕ
wait_interval_ms = 1000

-- The texts for an unknown operator and an unknown number, in UTF-8.
abbrev pub unknown_operator : Bytes
unknown_operator =
    0xE6 ∷ 0x9C ∷ 0xAA ∷ 0xE7 ∷ 0x9F ∷ 0xA5 ∷ 0xE8 ∷ 0xBF ∷ 0x90 ∷ 0xE8 ∷ 0x90 ∷ 0xA5 ∷ 0xE5 ∷ 0x95
    ∷ 0x86 ∷ []

abbrev pub unknown_number : Bytes
unknown_number =
    0xE6 ∷ 0x9C ∷ 0xAA ∷ 0xE7 ∷ 0x9F ∷ 0xA5 ∷ 0xE5 ∷ 0x8F ∷ 0xB7 ∷ 0xE7 ∷ 0xA0 ∷ 0x81 ∷ []

abbrev pub device_ready_topic : Bytes
device_ready_topic = codes "esp32/device"

-- `operator_str` for a name that may be NULL, and `local_number`.
unfoldable pub operator_str : Option Bytes → Bytes
operator_str none = unknown_operator
operator_str (some name) = if ltb 0 (length name) then name else unknown_operator

unfoldable pub local_number : Bytes → Bytes
local_number number = if ltb 0 (length number) then number else unknown_number

-- The text that `snprintf` is to write, and what fits into `payload`.
abbrev pub device_json : Bytes → Bytes → Bytes → Bytes
device_json operator number timestamp =
    codes "{\"status\":\"ready\",\"operator\":\""
    ++ (operator
        ++ (codes "\",\"local_number\":\""
            ++ (number ++ (codes "\",\"timestamp\":\"" ++ (timestamp ++ codes "\"}")))))

unfoldable pub device_payload : Option Bytes → Bytes → Bytes → Bytes
device_payload name number timestamp =
    take (256 - 1) (device_json (operator_str name) (local_number number) timestamp)

module _ (C : MqttClient) where
  -- `mqtt_manager_start`, with the library's `esp_mqtt_client_init` and `esp_mqtt_client_start`.
  unfoldable pub mqtt_manager_start :
      (MqttConfig → Option C.Client) → (C.Client → C.Client) → MqttState C → Bytes → MqttState C
  mqtt_manager_start init start s broker_uri = elim (init (mqtt_cfg broker_uri)) [
    | none ↦ record s { s_mqtt_client = none }
    | some c ↦ record s { s_mqtt_client = some (start c) }
  ]

  unfoldable pub handle_events : MqttState C → List MqttEvent → MqttState C
  handle_events s [] = s
  handle_events s (e ∷ es) = handle_events (mqtt_event_handler C s e) es

  -- The loop, with the events that arrive during the delay at each value of `waited_ms`; the fuel
  -- bounds the number of delays.
  unfoldable pub wait_connected : ℕ → (ℕ → List MqttEvent) → MqttState C → ℕ → MqttState C × ℕ
  wait_connected zero during s waited_ms = (s, waited_ms)
  wait_connected (suc fuel) during s waited_ms =
      let further =
        wait_connected fuel during (handle_events s (during waited_ms))
          (waited_ms + wait_interval_ms) in
      if not s.s_mqtt_connected && ltb waited_ms max_wait_ms then further else (s, waited_ms)

  -- What follows the wait.
  unfoldable pub publish_ready : MqttState C → Bytes → MqttState C × EspErr
  publish_ready s payload = if not s.s_mqtt_connected then (s, esp_fail) else elim s.s_mqtt_client [
    | none ↦ (s, esp_fail)
    | some c ↦
        let (s', passed) = client_publish C s c device_ready_topic payload 1 in
        (s', if passed then esp_ok else esp_fail)
  ]

  -- Thirty delays are the longest wait.
  unfoldable pub mqtt_manager_publish_device_ready :
      (ℕ → List MqttEvent) → MqttState C → Option Bytes → Bytes → Bytes → MqttState C × EspErr
  mqtt_manager_publish_device_ready during s name number timestamp = elim s.s_mqtt_client [
    | none ↦ (s, esp_fail)
    | some _ ↦ publish_ready (wait_connected 31 during s 0).0 (device_payload name number timestamp)
  ]
