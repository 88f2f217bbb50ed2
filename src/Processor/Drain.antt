-- ===== src/Processor/Drain.antt =====
-- The loop of main/sms_processor.c over the stored messages.
use iot_sms.Base.{
  ℕ, zero, suc, ◌<◌, true, List, [], ◌∷◌, ◌++◌, none, some, ◌≡◌, ◌⊎◌, inl, inr, refl, sym, ap, ◌∙◌,
  arith, length, take, drop, get_elem?, append-nil, append_assoc,
}
use iot_sms.Message.{SmsMessage}
use iot_sms.Processor.{send_stored}
use iot_sms.Publisher.{Publisher}
use iot_sms.Rtos.{Rtos}
use iot_sms.Storage.{
  EspErr-cases, esp_ok, esp_fail, next_message, no_message, sms_storage_get_next,
  sms_storage_delete_oldest,
}
use iot_sms.Storage.Nvs.{NvsStore}
use iot_sms.Storage.Contents.{Holds}
use iot_sms.Storage.Working.{IsWorking, sms_storage_get_next-oldest}
use iot_sms.Storage.Refinement.{step-refines, delete_oldest}

module _ (R : Rtos) (N : NvsStore) (P : Publisher) where
  send_stored_end :
      (fuel : ℕ) (q : P.Mqtt) (f : N.Flash)
      → sms_storage_get_next N f true ≡ no_message
      → send_stored R N P (suc fuel) q f ≡ some (q, f)
  unfolding send_stored
  send_stored_end fuel q f e = rw (e, send_stored) refl

  send_stored_fail :
      (fuel : ℕ) (q : P.Mqtt) (f : N.Flash) (m : SmsMessage)
      → sms_storage_get_next N f true ≡ next_message m
      → (P.publish_sms q m).1 ≡ esp_fail
      → send_stored R N P (suc fuel) q f ≡ some ((P.publish_sms q m).0, f)
  unfolding send_stored
  send_stored_fail fuel q f m e bad = rw (e, send_stored, bad) refl

  send_stored_ok :
      (fuel : ℕ) (q : P.Mqtt) (f : N.Flash) (m : SmsMessage)
      → sms_storage_get_next N f true ≡ next_message m
      → (P.publish_sms q m).1 ≡ esp_ok
      → send_stored R N P (suc fuel) q f
        ≡ send_stored R N P fuel (P.publish_sms q m).0 (sms_storage_delete_oldest N f).0
  unfolding send_stored
  send_stored_ok fuel q f m e ok = rw (e, send_stored, ok) refl

  -- If the next message can be read, the deletion leaves the flash as it is and every publication
  -- succeeds, the loop over the stored messages has not ended with any fuel: the same message is
  -- published over and over.
  pub send_stored_never :
      (f : N.Flash) (m : SmsMessage)
      → sms_storage_get_next N f true ≡ next_message m
      → (sms_storage_delete_oldest N f).0 ≡ f
      → ((q : P.Mqtt) → (P.publish_sms q m).1 ≡ esp_ok)
      → (fuel : ℕ) (q : P.Mqtt) → send_stored R N P fuel q f ≡ none
  unfolding send_stored
  send_stored_never f m e stays works zero q = refl
  send_stored_never f m e stays works (suc fuel) q =
      send_stored_ok fuel q f m e (works q)
      ∙ ap (send_stored R N P fuel (P.publish_sms q m).0) stays
      ∙ send_stored_never f m e stays works fuel (P.publish_sms q m).0

  -- The state after the loop: the first messages have been published and removed, in their order.
  -- Some are left only if a publication has failed.
  pub record SentFrom (q : P.Mqtt) (ms : List SmsMessage) (q' : P.Mqtt) (f' : N.Flash)
      : Type 0 where
    pub sent : ℕ
    pub sent_published : P.published q' ≡ P.published q ++ take sent ms
    pub rest_stored : Holds N f' (drop sent ms)
    pub stopped :
        (sent ≡ length ms)
        ⊎ ((last : P.Mqtt) × (m : SmsMessage) × (get_elem? ms sent ≡ some m)
            × ((P.publish_sms last m).1 ≡ esp_fail)
            × (q' ≡ (P.publish_sms last m).0))

  module _ (w : IsWorking N) where
    -- While the operations of the storage succeed, the loop over the stored messages ends with any
    -- fuel above their number: the first of them have been published in their order and removed,
    -- the others are still stored, and some are left only if the publication of the first of these
    -- failed last.
    pub send_stored_total :
        (fuel : ℕ) (q : P.Mqtt) (f : N.Flash) (ms : List SmsMessage)
        → Holds N f ms
        → length ms < fuel
        → (q' : P.Mqtt) × (f' : N.Flash) × (send_stored R N P fuel q f ≡ some (q', f'))
          × SentFrom q ms q' f'
    send_stored_total zero q f ms h lt = absurd (omega arith)
    send_stored_total (suc fuel) q f [] h lt = (
      q,
      f,
      send_stored_end fuel q f (sms_storage_get_next-oldest N w f [] h),
      record { sent = 0; sent_published = sym (append-nil _); rest_stored = h; stopped = inl refl },
    )
    send_stored_total (suc fuel) q f (m ∷ ms) h lt = elim (EspErr-cases (P.publish_sms q m).1) [
      | inr bad ↦ (
        _,
        f,
        send_stored_fail fuel q f m next bad,
        record {
          sent = 0;
          sent_published = P.publish_fail q m bad ∙ sym (append-nil _);
          rest_stored = h;
          stopped = inr (q, m, refl, bad, refl);
        },
      )
      | inl ok ↦
          let (q', f', e, s) =
            send_stored_total fuel (P.publish_sms q m).0 (sms_storage_delete_oldest N f).0 ms
              removed (omega arith) in
          (
            q',
            f',
            send_stored_ok fuel q f m next ok ∙ e,
            record {
              sent = suc s.sent;
              sent_published =
                  s.sent_published
                  ∙ ap (λ l. l ++ take s.sent ms) (P.publish_ok q m ok)
                  ∙ append_assoc (P.published q) (m ∷ []) (take s.sent ms);
              rest_stored = s.rest_stored;
              stopped = elim s.stopped [
                | inl all ↦ inl (ap suc all)
                | inr some_left ↦ inr some_left
              ];
            },
          )
    ]
      where
        next : sms_storage_get_next N f true ≡ next_message m
        next = sms_storage_get_next-oldest N w f (m ∷ ms) h

        removed : Holds N (sms_storage_delete_oldest N f).0 ms
        removed = (step-refines N w f (m ∷ ms) delete_oldest h).0
