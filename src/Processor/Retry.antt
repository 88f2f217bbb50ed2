-- ===== src/Processor/Retry.antt =====
-- The retries of main/sms_processor.c: a message in the retry state has had one or two failed
-- attempts, and is given up to the flash at the third.
use iot_sms.Base.{ℕ, ◌+◌, ◌≤◌, ◌<◌, true, false, some, ◌≡◌, ◌⊎◌, inl, inr, sym, ap, subst, arith}
use iot_sms.Message.{SmsMessage}
use iot_sms.Processor.{
  SmsRetryState, max_retry_attempts, retry_delay_ms, Tasks, drain, attempt_failed, retry_now, retry,
  start_retry, handle_received, receive, round,
}
use iot_sms.Publisher.{Publisher}
use iot_sms.Rtos.{Rtos, tick_add, ms_to_ticks}
use iot_sms.Storage.Nvs.{NvsStore}
use iot_sms.Processor.Steps.{
  counted, attempt_failed-cases, retry_now-cases, retry-cases, handle_received-cases, receive-cases,
  drain-cases, round-cases,
}

-- An active retry has had at least one failed attempt and has one left.
abbrev pub IsCounted : SmsRetryState → Type 0
IsCounted r = r.is_active ≡ true → (1 ≤ r.retry_count) × (r.retry_count < max_retry_attempts)

-- After an attempt the retry is over, or counted once more and put off by the delay.
abbrev Tried : (R : Rtos) → SmsRetryState → ℕ → SmsRetryState → Type 0
Tried R r now r' =
    (r'.is_active ≡ false)
    ⊎ ((r' ≡ record (counted r) { next_retry_time = tick_add now (ms_to_ticks R retry_delay_ms) })
        × (r.retry_count + 1 < max_retry_attempts))

module _ (R : Rtos) (N : NvsStore) (P : Publisher) where
  attempt_failed-Tried :
      (s : Tasks R N P) (now : ℕ)
      → Tried R s.s_retry_state now (attempt_failed R N P s now).s_retry_state
  attempt_failed-Tried s now = elim (attempt_failed-cases R N P s now) [
    | inl (last, e) ↦ inl (ap (λ t. t.s_retry_state.is_active) e)
    | inr (more, e) ↦ inr (ap (λ t. t.s_retry_state) e, more)
  ]

  retry_now-Tried :
      (s : Tasks R N P) (now : ℕ)
      → Tried R s.s_retry_state now (retry_now R N P s now).s_retry_state
  retry_now-Tried s now = elim (retry_now-cases R N P s now) [
    | inl (q, _, e) ↦ inl (ap (λ t. t.s_retry_state.is_active) e)
    | inr (q, _, e) ↦
        subst (λ t. Tried R s.s_retry_state now t.s_retry_state) (sym e)
          (attempt_failed-Tried (record s { mqtt = q }) now)
  ]

  Tried-IsCounted :
      (r r' : SmsRetryState) (now : ℕ)
      → IsCounted r
      → r.is_active ≡ true
      → Tried R r now r'
      → IsCounted r'
  Tried-IsCounted r r' now low on (inl over) on' = absurd (ground (arith, over, on'))
  Tried-IsCounted r r' now low on (inr (e, few)) on' =
      (omega (arith, ap (λ r. r.retry_count) e), omega (arith, ap (λ r. r.retry_count) e, few))

  retry-IsCounted :
      (s : Tasks R N P) (now : ℕ)
      → IsCounted s.s_retry_state
      → IsCounted (retry R N P s now).s_retry_state
  retry-IsCounted s now low = elim (retry-cases R N P s now) [
    | inl e ↦ subst (λ t. IsCounted t.s_retry_state) (sym e) low
    | inr ((on, _), e) ↦
        subst (λ t. IsCounted t.s_retry_state) (sym e)
          (Tried-IsCounted s.s_retry_state _ now low on (retry_now-Tried s now))
  ]

  start_retry-IsCounted :
      (s : Tasks R N P) (m : SmsMessage) (now : ℕ)
      → IsCounted (start_retry R N P s m now).s_retry_state
  unfolding start_retry
  start_retry-IsCounted s m now _ = (omega arith, omega arith)

  handle_received-IsCounted :
      (s : Tasks R N P) (m : SmsMessage) (now : ℕ)
      → IsCounted s.s_retry_state
      → IsCounted (handle_received R N P s m now).s_retry_state
  handle_received-IsCounted s m now low = elim (handle_received-cases R N P s m now) [
    | inl (_, e) ↦ subst (λ t. IsCounted t.s_retry_state) (sym e) low
    | inr (_, inl (q, _, e)) ↦ subst (λ t. IsCounted t.s_retry_state) (sym e) low
    | inr (_, inr (q, _, e)) ↦
        subst (λ t. IsCounted t.s_retry_state) (sym e) (start_retry-IsCounted _ m now)
  ]

  receive-IsCounted :
      (s : Tasks R N P) (now : ℕ)
      → IsCounted s.s_retry_state
      → IsCounted (receive R N P s now).s_retry_state
  receive-IsCounted s now low = elim (receive-cases R N P s now) [
    | inl (_, e) ↦ subst (λ t. IsCounted t.s_retry_state) (sym e) low
    | inr (m, _, e) ↦
        subst (λ t. IsCounted t.s_retry_state) (sym e) (handle_received-IsCounted _ m now low)
  ]

  drain-IsCounted :
      (fuel : ℕ) (s t : Tasks R N P)
      → IsCounted s.s_retry_state
      → drain R N P fuel s ≡ some t
      → IsCounted t.s_retry_state
  drain-IsCounted fuel s t low e = elim (drain-cases R N P fuel s t e) [
    | inl d ↦ subst (λ t. IsCounted t.s_retry_state) (sym d) low
    | inr (_, _, _, d) ↦ subst (λ t. IsCounted t.s_retry_state) (sym d) low
  ]

  -- A round that ends keeps the invariant that an active retry has one or two failed attempts
  -- counted, whatever the connection and the storage do.
  pub round-IsCounted :
      (fuel : ℕ) (s s' : Tasks R N P) (current_time now : ℕ)
      → IsCounted s.s_retry_state
      → round R N P fuel s current_time now ≡ some s'
      → IsCounted s'.s_retry_state
  round-IsCounted fuel s s' current_time now low e =
      let (t, d, is) = round-cases R N P fuel s s' current_time now e in
      subst (λ t. IsCounted t.s_retry_state) (sym is)
        (receive-IsCounted _ now (retry-IsCounted t current_time (drain-IsCounted fuel s t low d)))
