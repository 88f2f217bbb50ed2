-- ===== src/Mqtt/Tests.antt =====
-- The publications of main/mqtt_manager.c at concrete messages.
use iot_sms.Base.{
  ℕ, ◌≤◌, ◌<◌, ◌≢◌, true, false, List, [], ◌∷◌, ◌++◌, some, none, ◌≡◌, refl, arith, Bytes, codes,
  if◌then◌else◌, ◌==◌,
}
use iot_sms.Message.{SmsMessage}
use iot_sms.Mqtt.{
  MqttClient, MqttState, MqttEvent, Settings, sms_payload, mqtt_connected, mqtt_error,
  client_publish, mqtt_event_handler, mqtt_manager_publish_sms,
}
use iot_sms.Mqtt.Report.{
  device_payload, handle_events, wait_connected, publish_ready, mqtt_manager_start,
  mqtt_manager_publish_device_ready,
}
use iot_sms.Mqtt.Connection.{Published, mqtt_manager_publish_sms-Published}
use iot_sms.Mqtt.Payload.{Plain, IsSized, read_fields, sms_names, read_fields-sms_payload}

abbrev pub quiet_settings : Settings
quiet_settings = record {
  topic_sms = codes "sms";
  sim_phone_number = [];
  sim_operator = codes "op";
  timestamp = codes "t";
}

abbrev short_sms : SmsMessage
short_sms = record { sender = codes "1"; content = codes "hi" }

abbrev PlainByte : ℕ → Type 0
PlainByte c = (c ≢ 0x22) × (c ≢ 0x5C) × (0x20 ≤ c)

plain_byte : (c : ℕ) → 0x5C < c → PlainByte c
plain_byte c h = ((λ e. absurd (omega (arith, e))), (λ e. absurd (omega (arith, e))), omega arith)

plain_capital : (c : ℕ) → 0x22 < c → c < 0x5C → PlainByte c
plain_capital c h h' =
    ((λ e. absurd (omega (arith, e))), (λ e. absurd (omega (arith, e))), omega arith)

short_sms-IsSized : IsSized quiet_settings short_sms
short_sms-IsSized = record {
  sender_fits = omega arith;
  content_fits = omega arith;
  number_fits = omega arith;
  operator_fits = omega arith;
  timestamp_fits = omega arith;
}

unknown-Plain : Plain (codes "UNKNOWN")
unknown-Plain = (
  plain_capital b'U' (omega arith) (omega arith),
  (
    plain_capital b'N' (omega arith) (omega arith),
    (
      plain_capital b'K' (omega arith) (omega arith),
      (
        plain_capital b'N' (omega arith) (omega arith),
        (
          plain_capital b'O' (omega arith) (omega arith),
          (
            plain_capital b'W' (omega arith) (omega arith),
            (plain_capital b'N' (omega arith) (omega arith), tt),
          ),
        ),
      ),
    ),
  ),
)

read_fields-sms_payload_example :
    read_fields sms_names (sms_payload quiet_settings short_sms)
    ≡ some (codes "1" ∷ codes "hi" ∷ codes "UNKNOWN" ∷ codes "op" ∷ codes "t" ∷ [], codes "}")
read_fields-sms_payload_example =
    read_fields-sms_payload quiet_settings short_sms short_sms-IsSized (
      (plain_capital b'1' (omega arith) (omega arith), tt),
      (
        (plain_byte b'h' (omega arith), (plain_byte b'i' (omega arith), tt)),
        (
          unknown-Plain,
          (
            (plain_byte b'o' (omega arith), (plain_byte b'p' (omega arith), tt)),
            ((plain_byte b't' (omega arith), tt), tt),
          ),
        ),
      ),
    )

pub true-false : true ≢ false
true-false e = ground (arith, e)

-- A client that takes every payload.
abbrev pub broker : MqttClient
broker = record {
  Client = List (Bytes × Bytes);
  publish = λ c topic payload qos. (c ++ (topic, payload) ∷ [], true);
  taken = λ c. c;
  publish_taken = λ c topic payload qos e. refl;
  publish_refused = λ c topic payload qos e. absurd (true-false e);
}

abbrev online : MqttState broker
online = record { s_mqtt_client = some []; s_mqtt_connected = true }

mqtt_manager_publish_sms-Published_example :
    Published broker online quiet_settings short_sms
      (mqtt_manager_publish_sms broker online quiet_settings short_sms)
mqtt_manager_publish_sms-Published_example =
    mqtt_manager_publish_sms-Published broker online quiet_settings short_sms

error_disconnects : (mqtt_event_handler broker online mqtt_error).s_mqtt_connected ≡ false
unfolding mqtt_event_handler
error_disconnects = refl

-- The connection comes in the delay after two seconds.
abbrev comes_late : ℕ → List MqttEvent
comes_late waited_ms = if waited_ms == 2000 then mqtt_connected ∷ [] else []

abbrev pub offline : MqttState broker
offline = record online { s_mqtt_connected = false }

reported_late :
    (mqtt_manager_publish_device_ready broker comes_late offline
      (some (codes "op"))
      []
      (codes "t")).0.s_mqtt_client
    ≡ some ((codes "esp32/device", device_payload (some (codes "op")) [] (codes "t")) ∷ [])
unfolding mqtt_manager_publish_device_ready wait_connected handle_events mqtt_event_handler
    publish_ready client_publish
reported_late = refl

no_client :
    (mqtt_manager_start broker (λ cfg. none) (λ c. c) online (codes "uri")).s_mqtt_client ≡ none
unfolding mqtt_manager_start
no_client = refl
