-- ===== src/RemoteLog/Forward.antt =====
-- The task of main/remote_log.c: metrics, the lines of the ring buffer, and the time-out of a batch.
pub mod Fresh
pub mod Tests
use iot_sms.Base.{
  ℕ, ◌+◌, ◌-◌, ◌*◌, Bool, true, false, not, ◌&&◌, ◌||◌, List, [], ◌∷◌, ◌++◌, Option, none, some,
  Bytes, codes, length, ltb, leb, ◌==◌, if◌then◌else◌,
}
use iot_sms.Decimal.{decimal}
use iot_sms.Mqtt.{MqttClient, MqttState, MqttEvent, mqtt_manager_publish}
use iot_sms.Mqtt.Report.{handle_events}
use iot_sms.RemoteLog.Batch.{Source, LogBatch, forward_line, rl_batch_flush}
use iot_sms.RemoteLog.Hook.{RingBuffer, LogState}

abbrev pub rl_batch_max_lines : ℕ
rl_batch_max_lines = 40

abbrev pub rl_batch_max_bytes : ℕ
rl_batch_max_bytes = 3800

abbrev pub rl_flush_ms : ℕ
rl_flush_ms = 2000

-- What `rl_publish_metrics` reads of the system; the signal's strength is negative if the flag says
-- so, and without the queue its depth is `none`.
pub record Readings : Type 0 where
  pub uptime_s : ℕ
  pub free_heap : ℕ
  pub min_free_heap : ℕ
  pub is_negative : Bool
  pub rssi_dbm : ℕ
  pub queue_depth : Option ℕ

-- The topics and the interval of the configuration.
pub record LogSettings : Type 0 where
  pub topic_log : Bytes
  pub topic_metrics : Bytes
  pub metrics_interval_s : ℕ

-- The variables of the task.
pub record Forwarder : Type 0 where
  pub batch : LogBatch
  pub first_line_us : ℕ
  pub next_metrics_us : ℕ

-- One round: the time in it, the readings, what the MQTT task does before the second test of the
-- connection, and the times when a first line is noted and when the batch is looked at.
pub record ForwardRound : Type 0 where
  pub now : ℕ
  pub readings : Readings
  pub meanwhile : List MqttEvent
  pub noted : ℕ
  pub looked : ℕ

unfoldable pub metrics_json : Source → Readings → Bytes
metrics_json s r =
    codes "{\"device\":\""
    ++ (s.device_id
        ++ (codes "\",\"phone\":\""
            ++ (s.phone
                ++ (codes "\",\"uptime_s\":"
                    ++ (decimal r.uptime_s
                        ++ (codes ",\"free_heap\":"
                            ++ (decimal r.free_heap
                                ++ (codes ",\"min_free_heap\":"
                                    ++ (decimal r.min_free_heap
                                        ++ (codes ",\"rssi_dbm\":"
                                            ++ (rssi r
                                                ++ (codes ",\"sms_queue_depth\":"
                                                    ++ (decimal (depth r)
                                                        ++ (codes ",\"log_dropped_total\":"
                                                            ++ (decimal s.dropped
                                                            ++ (codes ",\"log_seq\":"
                                                            ++ (decimal s.seq
                                                            ++ codes "}")))))))))))))))))
  where
    rssi : Readings → Bytes
    rssi r = if r.is_negative then b'-' ∷ decimal r.rssi_dbm else decimal r.rssi_dbm

    depth : Readings → ℕ
    depth r = elim r.queue_depth [ none ↦ 0 | some n ↦ n ]

-- The test of the task: the batch is full, large or old.
abbrev pub is_due : Forwarder → ℕ → Bool
is_due f looked =
    ltb 0 f.batch.lines
    && (leb rl_batch_max_lines f.batch.lines
        || leb rl_batch_max_bytes (length f.batch.bytes)
        || leb (rl_flush_ms * 1000) (looked - f.first_line_us))

module _ (C : MqttClient) (B : RingBuffer) (g : LogSettings) where
  -- The task's variables with the state of the log and of the MQTT manager.
  pub record Running : Type 0 where
    pub forwarder : Forwarder
    pub log : LogState B
    pub mqtt : MqttState C

  -- A payload that would be cut is not published.
  unfoldable pub rl_publish_metrics : Running → Readings → Running
  rl_publish_metrics s r =
      let payload = metrics_json s.log.source r in
      if ltb (length payload) 320
      then record s { mqtt = (mqtt_manager_publish C s.mqtt g.topic_metrics payload 0).0 }
      else s

  unfoldable pub metrics_due : Running → ForwardRound → Running
  metrics_due s x =
      if leb s.forwarder.next_metrics_us x.now && s.mqtt.s_mqtt_connected
      then (let s' = rl_publish_metrics s x.readings in
          record s' {
            forwarder = record s'.forwarder {
              next_metrics_us = x.now + g.metrics_interval_s * 1000000;
            };
          })
      else s

  -- The payloads of a batch; what the publication returns is not looked at.
  unfoldable pub publish_all : MqttState C → List Bytes → MqttState C
  publish_all m [] = m
  publish_all m (payload ∷ payloads) =
      publish_all (mqtt_manager_publish C m g.topic_log payload 0).0 payloads

  -- The line of the ring buffer, if there is one.
  unfoldable pub take_line : Running → ℕ → Running
  take_line s noted = elim s.log.s_log_rb [
    | none ↦ s
    | some ring ↦
        let (ring', received) = B.receive ring in
        let log' = record s.log { s_log_rb = some ring' } in
        elim received [
          | none ↦ record s { log = log' }
          | some item ↦
              let (source', (batch', payloads)) =
                forward_line s.log.source s.forwarder.batch item in
              record {
                forwarder = record s.forwarder {
                  batch = batch';
                  first_line_us = if batch'.lines == 1 then noted else s.forwarder.first_line_us;
                };
                log = record log' { source = source' };
                mqtt = publish_all s.mqtt payloads;
              }
        ]
  ]

  -- The batch goes out when it is full, large or old.
  unfoldable pub flush_due : Running → ℕ → Running
  flush_due s looked =
      let (source', (batch', payloads)) = rl_batch_flush s.log.source s.forwarder.batch in
      if is_due s.forwarder looked
      then record {
        forwarder = record s.forwarder { batch = batch' };
        log = record s.log { source = source' };
        mqtt = publish_all s.mqtt payloads;
      }
      else s

  -- One round of the loop; without a connection the ring buffer is left alone.
  unfoldable pub forward_round : Running → ForwardRound → Running
  forward_round s x =
      let measured = metrics_due s x in
      let s' = record measured { mqtt = handle_events C measured.mqtt x.meanwhile } in
      if not s'.mqtt.s_mqtt_connected then s' else flush_due (take_line s' x.noted) x.looked
