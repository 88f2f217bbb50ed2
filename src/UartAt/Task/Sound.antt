-- ===== src/UartAt/Task/Sound.antt =====
-- What holds of the receive buffer whenever the two tasks of the manager have it.
use iot_sms.Base.{
  ℕ, Bool, true, false, List, [], ◌∷◌, Bytes, All, ltb, ◌≡◌, refl, sym, ap, ◌∙◌, subst, arith,
  if◌then◌else◌, Bool-cases, inl, inr,
}
use iot_sms.CString.{NoNul}
use iot_sms.Rtos.{Rtos, tick_sub, ms_to_ticks}
use iot_sms.Mqtt.{MqttClient, MqttState, MqttEvent}
use iot_sms.UartAt.Fragments.{is_fragment_timeout}
use iot_sms.UartAt.Urc.{AtState, Moment, process_pending_sms_urcs}
use iot_sms.UartAt.Receive.{
  UartEvent, uart_data, uart_fifo_ovf, uart_buffer_full, other_event, handle_event, receive_data,
}
use iot_sms.UartAt.Receive.Bounds.{Fits}
use iot_sms.UartAt.Receive.Signals.{IsSound, receive_data-IsSound, pending-IsSound}
use iot_sms.UartAt.Commands.{Exchange, receive_all, configure_modem_for_sms}
use iot_sms.UartAt.Commands.Sound.{AllText, TextExchange, receive_all-Fits, configure-IsSound}
use iot_sms.UartAt.Task.{
  RetryRound, LoopRound, Boot, delay_at, delay_index, next_index, recover, uart_at_task_start,
  wait_urc, wait_for_recovery_retry, main_loop_round,
}

-- The bytes of an event are text.
abbrev pub EventText : UartEvent → Type 0
EventText (uart_data dtmp) = NoNul dtmp
EventText uart_fifo_ovf = Unit
EventText uart_buffer_full = Unit
EventText other_event = Unit

event-IsSound :
    {Queue : Type 0} (s : AtState Queue) (e : UartEvent) (pending : List UartEvent)
    → IsSound s
    → EventText e
    → IsSound (handle_event s e pending).0
unfolding handle_event
event-IsSound s (uart_data dtmp) pending h text = receive_data-IsSound s dtmp h text
event-IsSound s uart_fifo_ovf pending h text = h
event-IsSound s uart_buffer_full pending h text = h
event-IsSound s other_event pending h text = h

-- The wait ends with the bit set, which is then to be followed by the handling of the reports, or
-- with a sound state.
abbrev Woken : {Queue : Type 0} → AtState Queue × Bool → Type 0
Woken (s, urc) = Fits s.rx_buffer × (urc ≡ false → IsSound s)

pub wait_urc_step :
    {Queue : Type 0} (s : AtState Queue) (chunk : Bytes) (chunks : List Bytes) (b : Bool)
    → s.urc_bit ≡ b
    → wait_urc s (chunk ∷ chunks) ≡ (
        if b
        then (receive_all (record s { urc_bit = false }) (chunk ∷ chunks), true)
        else wait_urc (receive_data s chunk) chunks)
unfolding wait_urc
wait_urc_step s chunk chunks b e =
    ap
      (λ x.
        if x
        then (receive_all (record s { urc_bit = false }) (chunk ∷ chunks), true)
        else wait_urc (receive_data s chunk) chunks)
      e

wait_urc-Woken :
    {Queue : Type 0} (s : AtState Queue) (chunks : List Bytes)
    → IsSound s
    → AllText chunks
    → Woken (wait_urc s chunks)
unfolding wait_urc
wait_urc-Woken s [] (fits, announced) text = (fits, λ e. (fits, λ h. sym e ∙ announced h))
wait_urc-Woken s (chunk ∷ chunks) h text = elim (Bool-cases s.urc_bit) [
  | inl e ↦ subst Woken (sym (wait_urc_step s chunk chunks true e)) (
    receive_all-Fits (record s { urc_bit = false }) (chunk ∷ chunks) h.0 text,
    λ x. absurd (ground (arith, x)),
  )
  | inr e ↦
      subst Woken (sym (wait_urc_step s chunk chunks false e)) (
        wait_urc-Woken (receive_data s chunk) chunks (receive_data-IsSound s chunk h text.0) text.1)
]

module _ (R : Rtos) where
  Woken-IsSound :
      (r : AtState R.Queue × Bool) (at : ℕ → Moment)
      → Woken r
      → IsSound (if r.1 then process_pending_sms_urcs R r.0 at else r.0)
  Woken-IsSound (s, true) at h = pending-IsSound R s at h.0
  Woken-IsSound (s, false) at h = h.1 refl

  pub main_loop_round-IsSound :
      (s : AtState R.Queue) (x : LoopRound)
      → IsSound s
      → AllText x.during
      → IsSound (main_loop_round R s x)
  unfolding main_loop_round
  main_loop_round-IsSound s x h text =
      let r = wait_urc s x.during in
      let next : AtState R.Queue = if r.1 then process_pending_sms_urcs R r.0 x.moments else r.0 in
      let sound = Woken-IsSound r x.moments (wait_urc-Woken s x.during h text) in
      elim (Bool-cases (is_fragment_timeout R next.fragments.buffer x.checked)) [
        | inl e ↦ rw e sound
        | inr e ↦ rw e sound
      ]

  wait_round-IsSound :
      (s : AtState R.Queue) (start delay : ℕ) (xs : List RetryRound)
      → IsSound s
      → All (λ x. (n : ℕ) → AllText (x.during n)) xs
      → IsSound (wait_for_recovery_retry R s start delay xs)
  unfolding wait_for_recovery_retry
  wait_round-IsSound s start delay [] h text = h
  wait_round-IsSound s start delay (x ∷ xs) h (t, ts) =
      let n = tick_sub delay (tick_sub x.measured start) in
      let r = wait_urc s (x.during n) in
      let woken = wait_urc-Woken s (x.during n) h (t n) in
      elim (Bool-cases (ltb (tick_sub x.tested start) delay)) [
        | inr e ↦ rw e h
        | inl e ↦ elim (Bool-cases r.1) [
          | inl urc ↦
              rw (e, urc)
                (wait_round-IsSound (process_pending_sms_urcs R r.0 x.moments) start delay xs
                  (pending-IsSound R r.0 x.moments woken.0) ts)
          | inr timed_out ↦ rw (e, timed_out) (woken.1 timed_out)
        ]
      ]

  -- One turn of either task: an event of the driver, a configuration of the modem, the wait before
  -- the next one, or a round of the main loop.
  pub data Turn : AtState R.Queue → AtState R.Queue → Type 0 where
    event :
        (s : AtState R.Queue) (e : UartEvent) (pending : List UartEvent)
        → EventText e
        → Turn s (handle_event s e pending).0
    configure :
        (s : AtState R.Queue) (at : ℕ → Exchange)
        → TextExchange at
        → Turn s (configure_modem_for_sms R at s).state
    await_retry :
        (s : AtState R.Queue) (start delay : ℕ) (xs : List RetryRound)
        → All (λ x. (n : ℕ) → AllText (x.during n)) xs
        → Turn s (wait_for_recovery_retry R s start delay xs)
    pending_reports :
        (s : AtState R.Queue) (at : ℕ → Moment) → Turn s (process_pending_sms_urcs R s at)
    main_loop :
        (s : AtState R.Queue) (x : LoopRound) → AllText x.during → Turn s (main_loop_round R s x)

  Turn-IsSound : {s t : AtState R.Queue} → Turn s t → IsSound s → IsSound t
  Turn-IsSound (event s e pending text) h = event-IsSound s e pending h text
  Turn-IsSound (configure s at text) h = configure-IsSound R at text s h
  Turn-IsSound (await_retry s start delay xs text) h = wait_round-IsSound s start delay xs h text
  Turn-IsSound (pending_reports s at) h = pending-IsSound R s at h.0
  Turn-IsSound (main_loop s x text) h = main_loop_round-IsSound s x h text

  -- The states that any turns lead to.
  pub data Reaches : AtState R.Queue → AtState R.Queue → Type 0 where
    at_start : (s : AtState R.Queue) → Reaches s s
    turn : {s t u : AtState R.Queue} → Reaches s t → Turn t u → Reaches s u

  -- Over any interleaving of driver events, configurations of the modem, waits for a retry and
  -- rounds of the main loop, if the modem sends text without NULs: the receive buffer stays shorter
  -- than its array and without NULs, and a complete report that stands in it is announced by the
  -- bit.
  pub Reaches-IsSound : {s t : AtState R.Queue} → Reaches s t → IsSound s → IsSound t
  Reaches-IsSound (at_start s) h = h
  Reaches-IsSound (turn run last) h = Turn-IsSound last (Reaches-IsSound run h)

  Reaches-then : {s t u : AtState R.Queue} → Reaches s t → Reaches t u → Reaches s u
  Reaches-then run (at_start t) = run
  Reaches-then run (turn more last) = turn (Reaches-then run more) last

  chunks-Reaches :
      (s : AtState R.Queue) (chunks : List Bytes)
      → AllText chunks
      → Reaches s (receive_all s chunks)
  unfolding receive_all handle_event
  chunks-Reaches s [] text = at_start s
  chunks-Reaches s (chunk ∷ chunks) (t, ts) =
      Reaches-then (turn (at_start s) (event s (uart_data chunk) [] t))
        (chunks-Reaches (receive_data s chunk) chunks ts)

  -- The rounds of the recovery are given text.
  abbrev pub TextRounds : List (ℕ × List RetryRound) → Type 0
  TextRounds = All (λ p. All (λ x. (n : ℕ) → AllText (x.during n)) p.1)

  recover-Reaches :
      (at : ℕ → Exchange) (s : AtState R.Queue) (index : ℕ) (rounds : List (ℕ × List RetryRound))
      → TextExchange at
      → TextRounds rounds
      → Reaches s (recover R at s index rounds).0
  unfolding recover
  recover-Reaches at s index [] text ts = turn (at_start s) (configure s at text)
  recover-Reaches at s index ((start, waits) ∷ rounds) text (t, ts) =
      let c = configure_modem_for_sms R at s in
      let delay = ms_to_ticks R (delay_at (delay_index c.modem_responding index)) in
      let waited = wait_for_recovery_retry R c.state start delay waits in
      let first = turn (at_start s) (configure s at text) in
      elim (Bool-cases c.is_ready) [
        | inl e ↦ rw e first
        | inr e ↦ rw e (
            Reaches-then (turn first (await_retry c.state start delay waits t))
              (recover-Reaches at waited (next_index c.modem_responding index) rounds text ts))
      ]

  pub start-Reaches :
      (C : MqttClient) (at : ℕ → Exchange) (s : AtState R.Queue) (b : Boot)
      (rounds : List (ℕ × List RetryRound)) (during : ℕ → List MqttEvent) (m : MqttState C)
      (number timestamp : Bytes)
      → TextExchange at
      → AllText b.booting
      → AllText b.waking
      → TextRounds rounds
      → Reaches s (uart_at_task_start R C at s b rounds during m number timestamp).0
  unfolding uart_at_task_start
  start-Reaches C at s b rounds during m number timestamp text boot wake ts =
      let arrived = receive_all s b.booting in
      let booted = process_pending_sms_urcs R arrived b.at_boot in
      let up = turn (chunks-Reaches s b.booting boot) (pending_reports arrived b.at_boot) in
      let called = receive_all booted b.waking in
      let woken = process_pending_sms_urcs R called b.at_wake in
      let awake =
        turn (Reaches-then up (chunks-Reaches booted b.waking wake))
          (pending_reports called b.at_wake) in
      let configured = (recover R at woken 0 rounds).0 in
      let run = Reaches-then awake (recover-Reaches at woken 0 rounds text ts) in
      elim (Bool-cases (recover R at woken 0 rounds).2) [
        | inl e ↦ rw e (turn run (pending_reports configured b.at_ready))
        | inr e ↦ rw e run
      ]
