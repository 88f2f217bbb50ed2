-- ===== src/Processor/Accounting.antt =====
-- No round of main/sms_processor.c loses a message while the storage works and has room.
use iot_sms.Base.{
  ℕ, ◌+◌, ◌<◌, Bool, List, [], ◌∷◌, ◌++◌, none, some, ◌≡◌, inl, inr, refl, ap, ◌∙◌, arith, length,
  take, drop, Bool-cases,
}
use iot_sms.Message.{SmsMessage}
use iot_sms.Processor.{queue_timeout_ms, Tasks, drain, retry, receive, round}
use iot_sms.Publisher.{Publisher}
use iot_sms.Rtos.{Rtos, ms_to_ticks}
use iot_sms.Storage.Nvs.{NvsStore}
use iot_sms.Storage.Contents.{Holds}
use iot_sms.Storage.Working.{IsWorking}
use iot_sms.Processor.Drain.{send_stored_total}
use iot_sms.Processor.Steps.{drain_on_some, drain_off, retry-sms_queue, round-some}
use iot_sms.Processor.Balance.{
  count, count-append, count-take-drop, in_retry, tally, taken, Balance, Part, rebalance,
}
use iot_sms.Processor.Parts.{retry-Part, receive-Part}

module _ (R : Rtos) (N : NvsStore) (P : Publisher) where
  module _ (w : IsWorking N) where
    -- The second and the third part, on what the first has left.
    rest_Part :
        (s t : Tasks R N P) (ms : List SmsMessage) (current_time now : ℕ)
        → Holds N t.flash ms
        → t.sms_queue ≡ s.sms_queue
        → Balance R N P
            (λ p. tally R N P p t ms + count p (taken R N P s))
            (receive R N P (retry R N P t current_time) now)
    rest_Part s t ms current_time now h same = both (retry-Part R N P w t ms current_time h)
      where
        queue_stays : taken R N P (retry R N P t current_time) ≡ taken R N P s
        queue_stays =
            ap
              (λ q. elim (R.receive q (ms_to_ticks R queue_timeout_ms)).1 [
                | none ↦ []
                | some m ↦ m ∷ []
              ])
              (retry-sms_queue R N P t current_time ∙ same)

        both :
            Part R N P ms (λ p. tally R N P p t ms) (retry R N P t current_time)
            → Balance R N P
                (λ p. tally R N P p t ms + count p (taken R N P s))
                (receive R N P (retry R N P t current_time) now)
        both (b, grows) =
            let (c, grows') =
              receive-Part R N P w (retry R N P t current_time) b.stored now b.held in
            record {
              stored = c.stored;
              lost = b.lost ++ c.lost;
              held = c.held;
              balance = λ p. omega (
                arith,
                b.balance p,
                c.balance p,
                count-append p b.lost c.lost,
                ap (count p) queue_stays,
              );
              reason = elim b.reason [
                | inr full ↦ inr (omega (arith, c.held.fits))
                | inl none_lost ↦ elim c.reason [
                  | inr full ↦ inr full
                  | inl nothing ↦ inl (ap (λ l. l ++ c.lost) none_lost ∙ nothing)
                ]
              ];
            }

    -- The first part, with enough fuel.
    record AfterDrain (fuel : ℕ) (s : Tasks R N P) (ms : List SmsMessage) : Type 0 where
      after : Tasks R N P
      drained : drain R N P fuel s ≡ some after
      left : List SmsMessage
      left_held : Holds N after.flash left
      same_tally : (p : SmsMessage → Bool) → tally R N P p after left ≡ tally R N P p s ms
      same_queue : after.sms_queue ≡ s.sms_queue

    drain_total :
        (fuel : ℕ) (s : Tasks R N P) (ms : List SmsMessage)
        → Holds N s.flash ms
        → length ms < fuel
        → AfterDrain fuel s ms
    drain_total fuel s ms h lt = elim (Bool-cases (P.is_connected s.mqtt).1) [
      | inr off ↦ record {
        after = record s { mqtt = (P.is_connected s.mqtt).0 };
        drained = drain_off R N P fuel s off;
        left = ms;
        left_held = h;
        same_tally = λ p.
            ap (λ l. count p l + (count p ms + count p (in_retry s.s_retry_state)))
              (P.is_connected_published s.mqtt);
        same_queue = refl;
      }
      | inl on ↦
          let (q, f, e, sent) =
            send_stored_total R N P w fuel (P.is_connected s.mqtt).0 s.flash ms h lt in
          record {
            after = record s { mqtt = q; flash = f };
            drained = drain_on_some R N P fuel s q f on e;
            left = drop sent.sent ms;
            left_held = sent.rest_stored;
            same_tally = λ p. omega (
              arith,
              ap (count p) sent.sent_published,
              ap (count p) (P.is_connected_published s.mqtt),
              count-append p (P.published (P.is_connected s.mqtt).0) (take sent.sent ms),
              count-take-drop p sent.sent ms,
            );
            same_queue = refl;
          }
    ]

    -- While the operations of the storage succeed and the flash holds a list shorter than the fuel,
    -- a round of the task ends, and for every test on messages the published, stored and retried
    -- ones that satisfy it, with the lost ones, are after the round as many as before it with the
    -- message that the queue gives; a message is lost only if the storage then holds 20.
    pub round-Balance :
        (fuel : ℕ) (s : Tasks R N P) (ms : List SmsMessage) (current_time now : ℕ)
        → Holds N s.flash ms
        → length ms < fuel
        → (s' : Tasks R N P) × (round R N P fuel s current_time now ≡ some s')
          × Balance R N P (λ p. tally R N P p s ms + count p (taken R N P s)) s'
    round-Balance fuel s ms current_time now h lt =
        let d : AfterDrain fuel s ms = drain_total fuel s ms h lt in
        (
          receive R N P (retry R N P d.after current_time) now,
          round-some R N P fuel s d.after current_time now d.drained,
          rebalance R N P (λ p. ap (λ (n : ℕ). n + count p (taken R N P s)) (d.same_tally p))
              (rest_Part s d.after d.left current_time now d.left_held d.same_queue),
        )
