-- ===== src/Processor/Parts.antt =====
-- The second and the third part of a round of main/sms_processor.c lose no message while the
-- storage works and has room.
use iot_sms.Base.{
  ℕ, ◌+◌, Bool, true, false, List, [], ◌∷◌, ◌++◌, some, ◌≡◌, inl, inr, refl, sym, ap, subst, arith,
  length, length-append, leb, Bool-cases,
}
use iot_sms.Message.{SmsMessage}
use iot_sms.Processor.{Tasks, attempt_failed, retry, start_retry, handle_received, receive}
use iot_sms.Publisher.{Publisher}
use iot_sms.Rtos.{Rtos}
use iot_sms.Storage.{sms_storage_save, max_stored_sms}
use iot_sms.Storage.Nvs.{NvsStore}
use iot_sms.Storage.Contents.{Holds}
use iot_sms.Storage.Working.{IsWorking}
use iot_sms.Storage.Refinement.{save-refines, save, queue_step}
use iot_sms.Processor.Steps.{
  ended, counted, attempt_failed-cases, retry_now-cases, retry-cases, handle_received-cases,
  receive-cases,
}
use iot_sms.Processor.Balance.{
  count, count-append, in_retry, in_retry-active, in_retry-over, tally, taken, taken-none,
  taken-some, Part, kept_Part, same_before,
}

module _ (R : Rtos) (N : NvsStore) (P : Publisher) where
  module _ (w : IsWorking N) where
    -- One message is saved.
    saved_Part :
        (s : Tasks R N P) (ms : List SmsMessage) (before : (SmsMessage → Bool) → ℕ) (m : SmsMessage)
        → Holds N s.flash ms
        → ((p : SmsMessage → Bool) → tally R N P p s ms + count p (m ∷ []) ≡ before p)
        → Part R N P ms before (record s { flash = (sms_storage_save N s.flash (some m)).0 })
    saved_Part s ms before m h e = elim (Bool-cases (leb max_stored_sms (length ms))) [
      | inl full ↦ (
        record {
          stored = ms;
          lost = m ∷ [];
          held =
              subst (λ l. Holds N (sms_storage_save N s.flash (some m)).0 l) (when_full full) done;
          balance = λ p. e p;
          reason = inr (at_max full);
        },
        omega arith,
      )
      | inr room ↦ (
        record {
          stored = ms ++ m ∷ [];
          lost = [];
          held =
              subst (λ l. Holds N (sms_storage_save N s.flash (some m)).0 l) (when_room room) done;
          balance = λ p. omega (arith, e p, count-append p ms (m ∷ []));
          reason = inl refl;
        },
        omega (arith, length-append ms (m ∷ [])),
      )
    ]
      where
        done : Holds N (sms_storage_save N s.flash (some m)).0 (queue_step ms (save m)).0
        done = (save-refines N w s.flash ms m h).0

        when_full : leb max_stored_sms (length ms) ≡ true → (queue_step ms (save m)).0 ≡ ms
        when_full full = rw full refl

        when_room :
            leb max_stored_sms (length ms) ≡ false → (queue_step ms (save m)).0 ≡ ms ++ m ∷ []
        when_room room = rw room refl

        at_max : leb max_stored_sms (length ms) ≡ true → length ms ≡ max_stored_sms
        at_max full = ground (arith, h.fits)

    attempt_failed-Part :
        (s : Tasks R N P) (ms : List SmsMessage) (now : ℕ)
        → Holds N s.flash ms
        → s.s_retry_state.is_active ≡ true
        → Part R N P ms (λ p. tally R N P p s ms) (attempt_failed R N P s now)
    attempt_failed-Part s ms now h on = elim (attempt_failed-cases R N P s now) [
      | inl (_, e) ↦ subst (Part R N P ms (λ p. tally R N P p s ms)) (sym e) (
          saved_Part (record s { s_retry_state = ended (counted s.s_retry_state) }) ms _
            s.s_retry_state.sms h
            (λ p. omega (arith, ap (count p) (in_retry-active s.s_retry_state on))))
      | inr (_, e) ↦
          subst (Part R N P ms (λ p. tally R N P p s ms)) (sym e)
            (kept_Part R N P _ ms _ h (λ p. refl))
    ]

    pub retry-Part :
        (s : Tasks R N P) (ms : List SmsMessage) (now : ℕ)
        → Holds N s.flash ms
        → Part R N P ms (λ p. tally R N P p s ms) (retry R N P s now)
    retry-Part s ms now h = elim (retry-cases R N P s now) [
      | inl e ↦
          subst (Part R N P ms (λ p. tally R N P p s ms)) (sym e)
            (kept_Part R N P s ms _ h (λ p. refl))
      | inr ((on, _), due) ↦
          subst (Part R N P ms (λ p. tally R N P p s ms)) (sym due)
            (elim (retry_now-cases R N P s now) [
              | inl (q, sent, e) ↦ subst (Part R N P ms (λ p. tally R N P p s ms)) (sym e) (
                  kept_Part R N P _ ms _ h (λ p. omega (
                    arith,
                    ap (count p) (in_retry-active s.s_retry_state on),
                    ap (count p) sent,
                    count-append p (P.published s.mqtt) (s.s_retry_state.sms ∷ []),
                  )))
              | inr (q, unsent, e) ↦ subst (Part R N P ms (λ p. tally R N P p s ms)) (sym e) (
                  same_before R N P ms
                    (λ p.
                      ap (λ l. count p l + (count p ms + count p (in_retry s.s_retry_state)))
                        unsent)
                    (attempt_failed-Part (record s { mqtt = q }) ms now h on))
            ])
    ]

    start_retry-Part :
        (s : Tasks R N P) (ms : List SmsMessage) (m : SmsMessage) (now : ℕ) (q : P.Mqtt)
        → Holds N s.flash ms
        → s.s_retry_state.is_active ≡ false
        → P.published q ≡ P.published s.mqtt
        → Part R N P ms
            (λ p. tally R N P p s ms + count p (m ∷ []))
            (start_retry R N P (record s { mqtt = q }) m now)
    unfolding start_retry
    start_retry-Part s ms m now q h off unsent =
        kept_Part R N P _ ms _ h (λ p.
          omega (arith, ap (count p) (in_retry-over s.s_retry_state off), ap (count p) unsent))

    handle_received-Part :
        (s : Tasks R N P) (ms : List SmsMessage) (m : SmsMessage) (now : ℕ)
        → Holds N s.flash ms
        → Part R N P ms (λ p. tally R N P p s ms + count p (m ∷ [])) (handle_received R N P s m now)
    handle_received-Part s ms m now h =
        let before = λ (p : SmsMessage → Bool). tally R N P p s ms + count p (m ∷ []) in
        elim (handle_received-cases R N P s m now) [
          | inl (_, e) ↦
              subst (Part R N P ms before) (sym e) (saved_Part s ms before m h (λ p. refl))
          | inr (off, inl (q, sent, e)) ↦ subst (Part R N P ms before) (sym e) (
              kept_Part R N P _ ms before h (λ p.
                omega (arith, ap (count p) sent, count-append p (P.published s.mqtt) (m ∷ []))))
          | inr (off, inr (q, unsent, e)) ↦
              subst (Part R N P ms before) (sym e) (start_retry-Part s ms m now q h off unsent)
        ]

    pub receive-Part :
        (s : Tasks R N P) (ms : List SmsMessage) (now : ℕ)
        → Holds N s.flash ms
        → Part R N P ms (λ p. tally R N P p s ms + count p (taken R N P s)) (receive R N P s now)
    receive-Part s ms now h = elim (receive-cases R N P s now) [
      | inl (nothing, e) ↦
          subst (Part R N P ms (λ p. tally R N P p s ms + count p (taken R N P s))) (sym e) (
            kept_Part R N P _ ms _ h
              (λ p. omega (arith, ap (count p) (taken-none R N P s nothing))))
      | inr (m, some_m, e) ↦
          subst (Part R N P ms (λ p. tally R N P p s ms + count p (taken R N P s))) (sym e) (
            same_before R N P ms
              (λ p. ap (λ l. tally R N P p s ms + count p l) (sym (taken-some R N P s m some_m)))
              (handle_received-Part _ ms m now h))
    ]
