-- ===== src/Gateway/Tests.antt =====
-- The processor of main/sms_processor.c on the manager of main/mqtt_manager.c at concrete states.
use iot_sms.Base.{ℕ, ◌==◌, false, List, [], ◌∷◌, some, ◌≡◌, refl, codes, if◌then◌else◌}
use iot_sms.Gateway.{
  Move, client_event, other_publish, World, make_move, make_moves, others, publish_message,
  ask_connected, tell,
}
use iot_sms.Gateway.Link.{Agreed, gateway}
use iot_sms.Gateway.Delivery.{Delivered, rounds-Delivered}
use iot_sms.Mqtt.{
  mqtt_connected, mqtt_disconnected, sms_payload, mqtt_event_handler, client_publish,
  mqtt_manager_publish_sms, mqtt_manager_publish,
}
use iot_sms.Mqtt.Tests.{quiet_settings, broker, offline}
use iot_sms.Processor.{Tasks, rounds}
use iot_sms.Processor.Run.{stored_fuel}
use iot_sms.Storage.FlashModel.{flash_model, flash_model-IsWorking}
use iot_sms.Storage.Tests.{first_sms, third_sms, stored, old_flash, old_flash-Holds}
use iot_sms.Testbed.{board}

-- The connection comes before the first call, another task publishes before the second, and the
-- connection goes before the third.
abbrev busy_line : ℕ → List Move
busy_line n =
    if n == 0
    then client_event mqtt_connected ∷ []
    else if n == 1
    then other_publish (codes "esp32/logs") (codes "x") 0 ∷ []
    else if n == 2
    then client_event mqtt_disconnected ∷ []
    else []

abbrev at_start : World broker
at_start = record { state = offline; log = []; calls = 0 }

abbrev linked : Agreed broker busy_line (λ n. quiet_settings) []
linked = (at_start, refl)

abbrev tasks : Tasks board (flash_model false) (gateway broker busy_line (λ n. quiet_settings) [])
tasks = record {
  mqtt = linked;
  flash = old_flash;
  sms_queue = record { room = 3; waiting_messages = third_sms ∷ []; all_accepted = third_sms ∷ [] };
  s_retry_state = record {
    sms = third_sms;
    retry_count = 0;
    next_retry_time = 0;
    is_active = false;
  };
}

rounds-Delivered_example :
    (s' : Tasks board (flash_model false) (gateway broker busy_line (λ n. quiet_settings) []))
    × (rounds board
          (flash_model false)
          (gateway broker busy_line (λ n. quiet_settings) [])
          stored_fuel
          ((600, 601) ∷ [])
          tasks
        ≡ some s')
    × Delivered board
        (flash_model false)
        broker
        busy_line
        (λ n. quiet_settings)
        []
        ((600, 601) ∷ [])
        tasks
        stored
        s'
rounds-Delivered_example =
    rounds-Delivered board (flash_model false) broker busy_line (λ n. quiet_settings) []
      flash_model-IsWorking ((600, 601) ∷ []) tasks stored (old_flash-Holds false)

-- The first stored message goes behind the text of the other task.
first_goes :
    (publish_message broker busy_line
      (λ n. quiet_settings)
      (ask_connected broker busy_line (λ n. quiet_settings) at_start).0
      first_sms).0.state.s_mqtt_client
    ≡ some
        ((codes "esp32/logs", codes "x") ∷ (codes "sms", sms_payload quiet_settings first_sms) ∷ [])
unfolding publish_message ask_connected tell others make_moves make_move mqtt_event_handler
    mqtt_manager_publish mqtt_manager_publish_sms client_publish
first_goes = refl
