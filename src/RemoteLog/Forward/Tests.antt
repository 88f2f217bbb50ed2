-- ===== src/RemoteLog/Forward/Tests.antt =====
-- The hook and the task of main/remote_log.c at concrete lines.
use iot_sms.Base.{
  true, false, List, [], ◌∷◌, ◌++◌, Option, none, some, ◌≡◌, ◌≢◌, refl, sym, ap, arith, Bytes,
  codes, some-injective, none-some,
}
use iot_sms.Mqtt.{MqttClient}
use iot_sms.RemoteLog.Batch.{no_lines}
use iot_sms.RemoteLog.Hook.{
  RingBuffer, LogState, enqueue_line, remote_log_vprintf, remote_log_early_init, remote_log_start,
  device_id_of,
}
use iot_sms.RemoteLog.Forward.{LogSettings, ForwardRound, Running}
use iot_sms.RemoteLog.Forward.Fresh.{Fresh}
use iot_sms.RemoteLog.Line.{
  drop_colours, drop_line_ends, rl_strip_line, rl_parse_prefix, rl_level_num, is_forwarded,
}

-- A ring with room for every line.
abbrev first_of : List Bytes → List Bytes × Option Bytes
first_of [] = ([], none)
first_of (item ∷ items) = (items, some item)

true-false : true ≢ false
true-false e = ground (arith, e)

first_of_item :
    (r : List Bytes) (item : Bytes) → (first_of r).1 ≡ some item → r ≡ item ∷ (first_of r).0
first_of_item [] item e = absurd (none-some e)
first_of_item (x ∷ xs) item e = ap (λ (y : Bytes). y ∷ xs) (some-injective e)

first_of-none : (r : List Bytes) → (first_of r).1 ≡ none → (first_of r).0 ≡ r
first_of-none [] e = refl
first_of-none (x ∷ xs) e = absurd (none-some (sym e))

abbrev big_ring : RingBuffer
big_ring = record {
  Ring = List Bytes;
  send = λ r item. (r ++ item ∷ [], true);
  receive = first_of;
  held = λ r. r;
  send_pass = λ r item e. refl;
  send_full = λ r item e. absurd (true-false e);
  receive_item = first_of_item;
  receive_none = first_of-none;
}

abbrev client : MqttClient
client = record {
  Client = List (Bytes × Bytes);
  publish = λ c topic payload qos. (c ++ (topic, payload) ∷ [], true);
  taken = λ c. c;
  publish_taken = λ c topic payload qos e. refl;
  publish_refused = λ c topic payload qos e. absurd (true-false e);
}

abbrev empty_log : LogState big_ring
empty_log = record {
  s_log_rb = some [];
  hooked = true;
  source = record { device_id = codes "gate"; phone = []; seq = 0; dropped = 0 };
}

line_enqueued :
    remote_log_vprintf big_ring empty_log 3 false (codes "up\r\n")
    ≡ record empty_log { s_log_rb = some (codes "up" ∷ []) }
unfolding remote_log_vprintf enqueue_line rl_strip_line drop_colours drop_line_ends rl_parse_prefix
    is_forwarded rl_level_num
line_enqueued = refl

inside_ignored : remote_log_vprintf big_ring empty_log 3 true (codes "up\r\n") ≡ empty_log
unfolding remote_log_vprintf
inside_ignored = refl

name_from_address : device_id_of [] 0xA0 0x0F 0x12 ≡ codes "esp32c3-a00f12"
unfolding device_id_of
name_from_address = refl

no_memory : (remote_log_early_init big_ring (codes "gate") 0 0 0 [] none).1 ≡ false
unfolding remote_log_early_init
no_memory = refl

no_ring : remote_log_start big_ring (record empty_log { s_log_rb = none }) true ≡ false
unfolding remote_log_start
no_ring = refl

abbrev settings : LogSettings
settings = record { topic_log = codes "log"; topic_metrics = codes "m"; metrics_interval_s = 60 }

abbrev running : Running client big_ring settings
running = record {
  forwarder = record { batch = no_lines; first_line_us = 0; next_metrics_us = 5000000 };
  log = record empty_log { s_log_rb = some (codes "up" ∷ []) };
  mqtt = record { s_mqtt_client = some []; s_mqtt_connected = true };
}

abbrev quiet : ForwardRound
quiet = record {
  now = 10;
  readings = record {
    uptime_s = 0;
    free_heap = 0;
    min_free_heap = 0;
    is_negative = true;
    rssi_dbm = 60;
    queue_depth = none;
  };
  meanwhile = [];
  noted = 20;
  looked = 30;
}
