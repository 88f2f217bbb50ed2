-- ===== src/Mqtt/Report/Wait.antt =====
-- The device report waits for at most thirty intervals, and its result tells what was taken.
use iot_sms.Base.{ℕ, ◌≤◌, true, List, [], ◌∷◌, ◌++◌, Option, Bytes, ◌≡◌, ◌⊎◌}
use iot_sms.Mqtt.{MqttClient, MqttState, MqttEvent}
use iot_sms.Mqtt.Connection.{taken_of}
use iot_sms.Mqtt.Report.{
  max_wait_ms, device_ready_topic, device_payload, wait_connected,
  mqtt_manager_publish_device_ready,
}
use iot_sms.Storage.{EspErr, esp_ok, esp_fail}

module _ (C : MqttClient) where
  -- The client is the same behind the wait, the wait is at most as long as it is to be, and it ends
  -- before that only when the connection is there.
  abbrev Waited : MqttState C → MqttState C × ℕ → Type 0
  Waited s (t, waited_ms) =
      (t.s_mqtt_client ≡ s.s_mqtt_client)
      × (waited_ms ≤ max_wait_ms)
      × ((t.s_mqtt_connected ≡ true) ⊎ (waited_ms ≡ max_wait_ms))

  -- `ESP_OK`: the connection is there, and the client has taken the report behind what it had taken
  -- before. `ESP_FAIL`: nothing has been taken.
  abbrev pub Reported : MqttState C → Bytes → MqttState C × EspErr → Type 0
  Reported s payload r =
      ((r.1 ≡ esp_ok)
        × (r.0.s_mqtt_connected ≡ true)
        × (taken_of C r.0 ≡ taken_of C s ++ (device_ready_topic, payload) ∷ []))
      ⊎ ((r.1 ≡ esp_fail) × (taken_of C r.0 ≡ taken_of C s))

  -- The wait and the report.
  abbrev pub WaitsAndReports :
      (ℕ → List MqttEvent) → MqttState C → Option Bytes → Bytes → Bytes → Type 0
  WaitsAndReports during s name number timestamp =
      let (t, waited_ms) = wait_connected C 31 during s 0 in
      ((t.s_mqtt_connected ≡ true) ⊎ (waited_ms ≡ max_wait_ms))
      × Reported s (device_payload name number timestamp)
          (mqtt_manager_publish_device_ready C during s name number timestamp)
