-- ===== src/RemoteLog/Forward/Fresh.antt =====
-- No batch is older, longer or larger than it may be after a round with a connection, and without
-- one nothing is taken.
use iot_sms.Base.{ℕ, ◌-◌, ◌*◌, ◌<◌, Bool, length, ◌≡◌, ◌⊎◌}
use iot_sms.Mqtt.{MqttClient}
use iot_sms.Mqtt.Report.{handle_events}
use iot_sms.RemoteLog.Hook.{RingBuffer}
use iot_sms.RemoteLog.Forward.{
  rl_batch_max_lines, rl_batch_max_bytes, rl_flush_ms, LogSettings, Forwarder, ForwardRound,
  Running, metrics_due,
}

-- The batch is empty; or it has fewer lines and bytes than are sent at once, and its first line was
-- taken less than two seconds before.
abbrev pub Fresh : Forwarder → ℕ → Type 0
Fresh f looked =
    (f.batch.lines ≡ 0)
    ⊎ ((f.batch.lines < rl_batch_max_lines)
        × (length f.batch.bytes < rl_batch_max_bytes)
        × (looked - f.first_line_us < rl_flush_ms * 1000))

module _ (C : MqttClient) (B : RingBuffer) (g : LogSettings) where
  -- The connection when the round looks for lines.
  abbrev pub connected_then : Running C B g → ForwardRound → Bool
  connected_then s x = (handle_events C (metrics_due C B g s x).mqtt x.meanwhile).s_mqtt_connected
