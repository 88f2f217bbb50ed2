-- ===== src/Publisher.antt =====
-- What the SMS processor uses of main/mqtt_manager.c.
use iot_sms.Base.{Bool, List, [], ◌∷◌, ◌++◌, ◌≡◌}
use iot_sms.Message.{SmsMessage}
use iot_sms.Storage.{EspErr, esp_ok, esp_fail}

pub record Publisher : Type 1 where
  pub Mqtt : Type 0
  -- `mqtt_manager_is_connected`; the flag is set by another task, so the state may have moved on.
  pub is_connected : Mqtt → Mqtt × Bool
  -- `mqtt_manager_publish_sms`
  pub publish_sms : Mqtt → SmsMessage → Mqtt × EspErr
  -- The messages that have been published, the oldest first.
  pub published : Mqtt → List SmsMessage
  pub is_connected_published : (q : Mqtt) → published (is_connected q).0 ≡ published q
  pub publish_ok :
      (q : Mqtt) (m : SmsMessage)
      → (publish_sms q m).1 ≡ esp_ok
      → published (publish_sms q m).0 ≡ published q ++ m ∷ []
  pub publish_fail :
      (q : Mqtt) (m : SmsMessage)
      → (publish_sms q m).1 ≡ esp_fail
      → published (publish_sms q m).0 ≡ published q
