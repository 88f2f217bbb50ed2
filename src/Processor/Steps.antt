-- ===== src/Processor/Steps.antt =====
-- What each part of a round of main/sms_processor.c can do to the task's state.
use iot_sms.Base.{
  ℕ, ◌+◌, ◌≤◌, ◌<◌, true, false, List, [], ◌∷◌, ◌++◌, none, some, ◌≡◌, ◌⊎◌, inl, inr, refl, sym, ap,
  ◌∙◌, arith, leb, Bool-cases, some-injective, none-some, Option-cases,
}
use iot_sms.Message.{SmsMessage}
use iot_sms.Processor.{
  SmsRetryState, max_retry_attempts, retry_delay_ms, queue_timeout_ms, Tasks, send_stored, drain,
  attempt_failed, retry_now, retry, start_retry, handle_received, receive, round,
}
use iot_sms.Publisher.{Publisher}
use iot_sms.Rtos.{Rtos, tick_add, ms_to_ticks}
use iot_sms.Storage.{EspErr-cases, esp_ok, esp_fail, sms_storage_save}
use iot_sms.Storage.Nvs.{NvsStore}

abbrev pub ended : SmsRetryState → SmsRetryState
ended r = record r { is_active = false }

abbrev pub counted : SmsRetryState → SmsRetryState
counted r = record r { retry_count = r.retry_count + 1 }

abbrev pub IsDue : SmsRetryState → ℕ → Type 0
IsDue r now = (r.is_active ≡ true) × (leb r.next_retry_time now ≡ true)

module _ (R : Rtos) (N : NvsStore) (P : Publisher) where
  -- The states that differ from one in the connection alone, with what has been published since.
  abbrev pub Sent : Tasks R N P → List SmsMessage → P.Mqtt → Type 0
  Sent s ms q = P.published q ≡ P.published s.mqtt ++ ms

  abbrev pub Unsent : Tasks R N P → P.Mqtt → Type 0
  Unsent s q = P.published q ≡ P.published s.mqtt

  publish-cases :
      (s : Tasks R N P) (m : SmsMessage)
      → (((P.publish_sms (P.is_connected s.mqtt).0 m).1 ≡ esp_ok)
          × Sent s (m ∷ []) (P.publish_sms (P.is_connected s.mqtt).0 m).0)
        ⊎ (((P.publish_sms (P.is_connected s.mqtt).0 m).1 ≡ esp_fail)
            × Unsent s (P.publish_sms (P.is_connected s.mqtt).0 m).0)
  publish-cases s m = elim (EspErr-cases (P.publish_sms (P.is_connected s.mqtt).0 m).1) [
    | inl e ↦ inl (e, P.publish_ok _ m e ∙ ap (λ l. l ++ m ∷ []) (P.is_connected_published s.mqtt))
    | inr e ↦ inr (e, P.publish_fail _ m e ∙ P.is_connected_published s.mqtt)
  ]

  pub attempt_failed-cases :
      (s : Tasks R N P) (now : ℕ)
      → ((max_retry_attempts ≤ s.s_retry_state.retry_count + 1)
          × (attempt_failed R N P s now ≡ record s {
            flash = (sms_storage_save N s.flash (some s.s_retry_state.sms)).0;
            s_retry_state = ended (counted s.s_retry_state);
          }))
        ⊎ ((s.s_retry_state.retry_count + 1 < max_retry_attempts)
            × (attempt_failed R N P s now ≡ record s {
              s_retry_state = record (counted s.s_retry_state) {
                next_retry_time = tick_add now (ms_to_ticks R retry_delay_ms);
              };
            }))
  unfolding attempt_failed
  attempt_failed-cases s now =
      elim (Bool-cases (leb max_retry_attempts (s.s_retry_state.retry_count + 1))) [
        | inl last ↦ inl (ground arith, simp last)
        | inr more ↦ inr (ground arith, simp more)
      ]

  pub retry_now-cases :
      (s : Tasks R N P) (now : ℕ)
      → ((q : P.Mqtt) × Sent s (s.s_retry_state.sms ∷ []) q
          × (retry_now R N P s now ≡ record s { mqtt = q; s_retry_state = ended s.s_retry_state }))
        ⊎ ((q : P.Mqtt) × Unsent s q
            × (retry_now R N P s now ≡ attempt_failed R N P (record s { mqtt = q }) now))
  unfolding retry_now
  retry_now-cases s now = elim (Bool-cases (P.is_connected s.mqtt).1) [
    | inr off ↦ inr (_, P.is_connected_published s.mqtt, simp off)
    | inl on ↦ elim (publish-cases s s.s_retry_state.sms) [
      | inl (ok, sent) ↦ inl (_, sent, simp (on, ok))
      | inr (bad, same) ↦ inr (_, same, simp (on, bad))
    ]
  ]

  pub retry-due :
      (s : Tasks R N P) (now : ℕ)
      → IsDue s.s_retry_state now
      → retry R N P s now ≡ retry_now R N P s now
  unfolding retry
  retry-due s now (on, due) = simp (on, due)

  pub retry-over :
      (s : Tasks R N P) (now : ℕ) → s.s_retry_state.is_active ≡ false → retry R N P s now ≡ s
  unfolding retry
  retry-over s now off = simp off

  pub retry-cases :
      (s : Tasks R N P) (now : ℕ)
      → (retry R N P s now ≡ s)
        ⊎ (IsDue s.s_retry_state now × (retry R N P s now ≡ retry_now R N P s now))
  unfolding retry
  retry-cases s now = elim (Bool-cases s.s_retry_state.is_active) [
    | inr off ↦ inl (simp off)
    | inl on ↦ elim (Bool-cases (leb s.s_retry_state.next_retry_time now)) [
      | inr early ↦ inl (simp (on, early))
      | inl due ↦ inr ((on, due), simp (on, due))
    ]
  ]

  attempt_failed-sms_queue :
      (s : Tasks R N P) (now : ℕ) → (attempt_failed R N P s now).sms_queue ≡ s.sms_queue
  attempt_failed-sms_queue s now = elim (attempt_failed-cases s now) [
    | inl (_, e) ↦ ap (λ t. t.sms_queue) e
    | inr (_, e) ↦ ap (λ t. t.sms_queue) e
  ]

  pub retry-sms_queue : (s : Tasks R N P) (now : ℕ) → (retry R N P s now).sms_queue ≡ s.sms_queue
  retry-sms_queue s now = elim (retry-cases s now) [
    | inl e ↦ ap (λ t. t.sms_queue) e
    | inr (_, due) ↦ elim (retry_now-cases s now) [
      | inl (q, _, e) ↦ ap (λ t. t.sms_queue) (due ∙ e)
      | inr (q, _, e) ↦
          ap (λ t. t.sms_queue) (due ∙ e) ∙ attempt_failed-sms_queue (record s { mqtt = q }) now
    ]
  ]

  pub handle_received-cases :
      (s : Tasks R N P) (m : SmsMessage) (now : ℕ)
      → ((s.s_retry_state.is_active ≡ true)
          × (handle_received R N P s m now
              ≡ record s { flash = (sms_storage_save N s.flash (some m)).0 }))
        ⊎ ((s.s_retry_state.is_active ≡ false)
            × (((q : P.Mqtt) × Sent s (m ∷ []) q
                  × (handle_received R N P s m now ≡ record s { mqtt = q }))
                ⊎ ((q : P.Mqtt) × Unsent s q
                    × (handle_received R N P s m now
                        ≡ start_retry R N P (record s { mqtt = q }) m now))))
  unfolding handle_received
  handle_received-cases s m now = elim (Bool-cases s.s_retry_state.is_active) [
    | inl on ↦ inl (on, simp on)
    | inr off ↦ inr (
      off,
      elim (Bool-cases (P.is_connected s.mqtt).1) [
        | inr gone ↦ inr (_, P.is_connected_published s.mqtt, simp (off, gone))
        | inl there ↦ elim (publish-cases s m) [
          | inl (ok, sent) ↦ inl (_, sent, simp (off, there, ok))
          | inr (bad, same) ↦ inr (_, same, simp (off, there, bad))
        ]
      ],
    )
  ]

  pub receive-cases :
      (s : Tasks R N P) (now : ℕ)
      → (((R.receive s.sms_queue (ms_to_ticks R queue_timeout_ms)).1 ≡ none)
          × (receive R N P s now ≡ record s {
            sms_queue = (R.receive s.sms_queue (ms_to_ticks R queue_timeout_ms)).0;
          }))
        ⊎ ((m : SmsMessage) × ((R.receive s.sms_queue (ms_to_ticks R queue_timeout_ms)).1 ≡ some m)
            × (receive R N P s now
                ≡ handle_received R N P
                    (record s {
                      sms_queue = (R.receive s.sms_queue (ms_to_ticks R queue_timeout_ms)).0;
                    })
                    m
                    now))
  unfolding receive
  receive-cases s now =
      elim (Option-cases (R.receive s.sms_queue (ms_to_ticks R queue_timeout_ms)).1) [
        | inl e ↦ inl (e, rw (e, receive) refl)
        | inr (m, e) ↦ inr (m, e, rw (e, receive) refl)
      ]

  -- What the first part can do: with no connection nothing, else the loop over the stored messages.
  abbrev pub Drained : ℕ → Tasks R N P → Tasks R N P → P.Mqtt → Type 0
  Drained fuel s s' q =
      (s' ≡ record s { mqtt = q })
      ⊎ ((q' : P.Mqtt) × (f : N.Flash) × (send_stored R N P fuel q s.flash ≡ some (q', f))
          × (s' ≡ record s { mqtt = q'; flash = f }))

  pub drain_off :
      (fuel : ℕ) (s : Tasks R N P)
      → (P.is_connected s.mqtt).1 ≡ false
      → drain R N P fuel s ≡ some (record s { mqtt = (P.is_connected s.mqtt).0 })
  unfolding drain
  drain_off fuel s off = simp off

  drain_on_none :
      (fuel : ℕ) (s : Tasks R N P)
      → (P.is_connected s.mqtt).1 ≡ true
      → send_stored R N P fuel (P.is_connected s.mqtt).0 s.flash ≡ none
      → drain R N P fuel s ≡ none
  unfolding drain
  drain_on_none fuel s on e = rw (on, e, drain) refl

  pub drain_on_some :
      (fuel : ℕ) (s : Tasks R N P) (q : P.Mqtt) (f : N.Flash)
      → (P.is_connected s.mqtt).1 ≡ true
      → send_stored R N P fuel (P.is_connected s.mqtt).0 s.flash ≡ some (q, f)
      → drain R N P fuel s ≡ some (record s { mqtt = q; flash = f })
  unfolding drain
  drain_on_some fuel s q f on e = rw (on, e, drain) refl

  pub drain-cases :
      (fuel : ℕ) (s s' : Tasks R N P)
      → drain R N P fuel s ≡ some s'
      → Drained fuel s s' (P.is_connected s.mqtt).0
  drain-cases fuel s s' e = elim (Bool-cases (P.is_connected s.mqtt).1) [
    | inr off ↦ inl (some-injective (sym e ∙ drain_off fuel s off))
    | inl on ↦ elim (Option-cases (send_stored R N P fuel (P.is_connected s.mqtt).0 s.flash)) [
      | inl stuck ↦ absurd (none-some (sym (drain_on_none fuel s on stuck) ∙ e))
      | inr ((q, f), sent) ↦
          inr (q, f, sent, some-injective (sym e ∙ drain_on_some fuel s q f on sent))
    ]
  ]

  round-none :
      (fuel : ℕ) (s : Tasks R N P) (current_time now : ℕ)
      → drain R N P fuel s ≡ none
      → round R N P fuel s current_time now ≡ none
  unfolding round
  round-none fuel s current_time now d = rw (d, round) refl

  pub round-some :
      (fuel : ℕ) (s t : Tasks R N P) (current_time now : ℕ)
      → drain R N P fuel s ≡ some t
      → round R N P fuel s current_time now ≡ some (receive R N P (retry R N P t current_time) now)
  unfolding round
  round-some fuel s t current_time now d = rw (d, round) refl

  pub round-cases :
      (fuel : ℕ) (s s' : Tasks R N P) (current_time now : ℕ)
      → round R N P fuel s current_time now ≡ some s'
      → (t : Tasks R N P) × (drain R N P fuel s ≡ some t)
        × (s' ≡ receive R N P (retry R N P t current_time) now)
  round-cases fuel s s' current_time now e = elim (Option-cases (drain R N P fuel s)) [
    | inl stuck ↦ absurd (none-some (sym (round-none fuel s current_time now stuck) ∙ e))
    | inr (t, d) ↦ (t, d, some-injective (sym e ∙ round-some fuel s t current_time now d))
  ]
