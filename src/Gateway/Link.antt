-- ===== src/Gateway/Link.antt =====
-- main/mqtt_manager.c is a publisher as main/sms_processor.c uses one.
use iot_sms.Base.{ℕ, suc, List, [], ◌∷◌, ◌++◌, ◌≡◌, ap, ◌∙◌, Bytes}
use iot_sms.Gateway.{messages, Move, World, others, ask_connected, publish_message}
use iot_sms.Gateway.Publications.{
  Agrees, make_moves-Agrees, make_moves-messages, tell-Agrees, tell_ok, tell_fail,
}
use iot_sms.Message.{SmsMessage}
use iot_sms.Mqtt.{MqttClient, Settings}
use iot_sms.Publisher.{Publisher}
use iot_sms.Storage.{esp_ok, esp_fail}

module _ (C : MqttClient) where
  module _ (moves : ℕ → List Move) (settings : ℕ → Settings) where
    others-messages : (w : World C) → messages (others C moves settings w).log ≡ messages w.log
    unfolding others
    others-messages w = make_moves-messages C (record w { calls = suc w.calls }) (moves w.calls)

    -- The manager as the publisher of the processor.
    module _ (base : List (Bytes × Bytes)) where
      others-Agrees : (w : World C) → Agrees C base w → Agrees C base (others C moves settings w)
      unfolding others
      others-Agrees w h =
          make_moves-Agrees C base (record w { calls = suc w.calls }) (moves w.calls) h

      pub publish-Agrees :
          (w : World C) (m : SmsMessage)
          → Agrees C base w
          → Agrees C base (publish_message C moves settings w m).0
      unfolding publish_message
      publish-Agrees w m h =
          tell-Agrees C base (others C moves settings w) (settings w.calls) m (others-Agrees w h)

      pub ask-Agrees :
          (w : World C) → Agrees C base w → Agrees C base (ask_connected C moves settings w).0
      unfolding ask_connected
      ask-Agrees w h = others-Agrees w h

      pub ask-messages :
          (w : World C) → messages (ask_connected C moves settings w).0.log ≡ messages w.log
      unfolding ask_connected
      ask-messages w = others-messages w

      pub publish_ok_messages :
          (w : World C) (m : SmsMessage)
          → (publish_message C moves settings w m).1 ≡ esp_ok
          → messages (publish_message C moves settings w m).0.log ≡ messages w.log ++ m ∷ []
      unfolding publish_message
      publish_ok_messages w m ok =
          tell_ok C (others C moves settings w) (settings w.calls) m ok
          ∙ ap (λ l. l ++ m ∷ []) (others-messages w)

      pub publish_fail_messages :
          (w : World C) (m : SmsMessage)
          → (publish_message C moves settings w m).1 ≡ esp_fail
          → messages (publish_message C moves settings w m).0.log ≡ messages w.log
      unfolding publish_message
      publish_fail_messages w m bad =
          tell_fail C (others C moves settings w) (settings w.calls) m bad ∙ others-messages w

      -- A state of the manager that agrees.
      abbrev pub Agreed : Type 0
      Agreed = (w : World C) × Agrees C base w

      abbrev pub gateway : Publisher
      gateway = record {
        Mqtt = Agreed;
        is_connected = λ (w, h). (
          ((ask_connected C moves settings w).0, ask-Agrees w h),
          (ask_connected C moves settings w).1,
        );
        publish_sms = λ (w, h) m. (
          ((publish_message C moves settings w m).0, publish-Agrees w m h),
          (publish_message C moves settings w m).1,
        );
        published = λ q. messages q.0.log;
        is_connected_published = λ q. ask-messages q.0;
        publish_ok = λ q m ok. publish_ok_messages q.0 m ok;
        publish_fail = λ q m bad. publish_fail_messages q.0 m bad;
      }
