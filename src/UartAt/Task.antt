-- ===== src/UartAt/Task.antt =====
-- `uart_at_task` of main/uart_at_manager.c: the configuration with its retries, and the loop that
-- handles reports and flushes a message whose last part does not come.
pub mod Sound
pub mod Arrivals
pub mod Delivery
pub mod Messages
pub mod Queued
pub mod Rounds
pub mod Backoff
mod Tests
use iot_sms.Base.{
  ℕ, zero, suc, ◌+◌, ◌-◌, ◌*◌, Bool, true, false, not, ◌&&◌, ◌||◌, List, [], ◌∷◌, ◌++◌, Option,
  none, some, Bytes, length, get_elem?, ltb, if◌then◌else◌,
}
use iot_sms.Rtos.{Rtos, tick_sub, ms_to_ticks}
use iot_sms.Mqtt.{MqttClient, MqttState, MqttEvent}
use iot_sms.Mqtt.Report.{mqtt_manager_publish_device_ready}
use iot_sms.UartAt.Fragments.{is_fragment_timeout, flush_fragment_buffer_to_queue}
use iot_sms.UartAt.Urc.{AtState, Moment, process_pending_sms_urcs}
use iot_sms.UartAt.Receive.{receive_data}
use iot_sms.UartAt.Commands.{Exchange, Configured, receive_all, configure_modem_for_sms}

-- `xEventGroupWaitBits` for the bit of a report, with clear on exit: the chunks are those that
-- arrive before the time is over.
unfoldable pub wait_urc : {Queue : Type 0} → AtState Queue → List Bytes → AtState Queue × Bool
wait_urc s [] = (record s { urc_bit = false }, s.urc_bit)
wait_urc s (chunk ∷ chunks) =
    let later = wait_urc (receive_data s chunk) chunks in
    if s.urc_bit then (receive_all (record s { urc_bit = false }) (chunk ∷ chunks), true) else later

-- One round of `wait_for_recovery_retry`: the counter in the test and in `elapsed`, what arrives
-- within the remaining time, and the moments of the reports.
pub record RetryRound : Type 0 where
  pub tested : ℕ
  pub measured : ℕ
  pub during : ℕ → List Bytes
  pub moments : ℕ → Moment

-- One round of the main loop: what arrives within its wait, the moments, and the counter in
-- `is_fragment_timeout`.
pub record LoopRound : Type 0 where
  pub during : List Bytes
  pub moments : ℕ → Moment
  pub checked : ℕ

-- `recovery_delays_ms`
abbrev pub recovery_delays_ms : List ℕ
recovery_delays_ms = 5000 ∷ 10000 ∷ 20000 ∷ 30000 ∷ []

-- The index of the delay in a round whose configuration failed, and the index for the next one.
unfoldable pub delay_index : Bool → ℕ → ℕ
delay_index modem_responding index = if modem_responding then 0 else index

unfoldable pub next_index : Bool → ℕ → ℕ
unfolding delay_index
next_index modem_responding index =
    let i = delay_index modem_responding index in
    if not modem_responding && ltb i (length recovery_delays_ms - 1) then i + 1 else i

-- The delay at an index of the table.
abbrev pub delay_at : ℕ → ℕ
delay_at i = elim (get_elem? recovery_delays_ms i) [ none ↦ 0 | some delay ↦ delay ]

module _ (R : Rtos) where
  -- The rounds are those that the environment gives; the wait ends with the last of them.
  unfoldable pub wait_for_recovery_retry :
      AtState R.Queue → ℕ → ℕ → List RetryRound → AtState R.Queue
  wait_for_recovery_retry s start delay_ticks [] = s
  wait_for_recovery_retry s start delay_ticks (x ∷ xs) =
      let remaining = tick_sub delay_ticks (tick_sub x.measured start) in
      let (s', urc) = wait_urc s (x.during remaining) in
      let again =
        wait_for_recovery_retry (process_pending_sms_urcs R s' x.moments) start delay_ticks xs in
      if ltb (tick_sub x.tested start) delay_ticks then (if urc then again else s') else s

  -- The loop around the configuration. For each round that fails, the list has the counter at the
  -- start of the wait, and the wait's rounds; the delays are returned in their order, with whether
  -- the loop has ended.
  unfoldable pub recover :
      (ℕ → Exchange)
      → AtState R.Queue
      → ℕ
      → List (ℕ × List RetryRound)
      → AtState R.Queue × List ℕ × Bool
  recover at s index [] = let c = configure_modem_for_sms R at s in (c.state, [], c.is_ready)
  recover at s index ((start, waits) ∷ rounds) =
      let c = configure_modem_for_sms R at s in
      let delay = delay_at (delay_index c.modem_responding index) in
      let waited = wait_for_recovery_retry c.state start (ms_to_ticks R delay) waits in
      let (s', delays, ended) = recover at waited (next_index c.modem_responding index) rounds in
      if c.is_ready then (c.state, [], true) else (s', delay ∷ delays, ended)

  -- The body of the main loop.
  unfoldable pub main_loop_round : AtState R.Queue → LoopRound → AtState R.Queue
  main_loop_round s x =
      let (s', urc) = wait_urc s x.during in
      let s'' = if urc then process_pending_sms_urcs R s' x.moments else s' in
      if is_fragment_timeout R s''.fragments.buffer x.checked
      then record s'' { fragments = flush_fragment_buffer_to_queue R s''.fragments }
      else s''

  -- The main loop, for the given rounds.
  unfoldable pub uart_at_main_loop : AtState R.Queue → List LoopRound → AtState R.Queue
  uart_at_main_loop s [] = s
  uart_at_main_loop s (x ∷ xs) = uart_at_main_loop (main_loop_round s x) xs

-- What happens around the start of the task: what arrives while the modem boots and while it is
-- woken, and the moments of the reports that are handled behind each of these and in the end.
pub record Boot : Type 0 where
  pub booting : List Bytes
  pub at_boot : ℕ → Moment
  pub waking : List Bytes
  pub at_wake : ℕ → Moment
  pub at_ready : ℕ → Moment

module _ (R : Rtos) (C : MqttClient) where
  -- The task in front of its main loop: reports that are already there come first, then the
  -- configuration, and last the report of the device. The flag tells whether the configuration has
  -- ended within the given rounds.
  unfoldable pub uart_at_task_start :
      (ℕ → Exchange)
      → AtState R.Queue
      → Boot
      → List (ℕ × List RetryRound)
      → (ℕ → List MqttEvent)
      → MqttState C
      → Bytes
      → Bytes
      → AtState R.Queue × MqttState C × Bool
  uart_at_task_start at s b rounds during m number timestamp =
      let booted = process_pending_sms_urcs R (receive_all s b.booting) b.at_boot in
      let woken = process_pending_sms_urcs R (receive_all booted b.waking) b.at_wake in
      let (configured, delays, ended) = recover R at woken 0 rounds in
      let ready = process_pending_sms_urcs R configured b.at_ready in
      let m' =
        (mqtt_manager_publish_device_ready C during m (some ready.sim_operator) number
          timestamp).0 in
      if ended then (ready, m', true) else (configured, m, false)
