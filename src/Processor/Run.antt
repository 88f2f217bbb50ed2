-- ===== src/Processor/Run.antt =====
-- No number of rounds of main/sms_processor.c loses a message while the storage works and has room.
use iot_sms.Base.{
  ℕ, ◌+◌, Bool, List, [], ◌∷◌, ◌++◌, none, some, ◌≡◌, ◌⊎◌, inl, inr, refl, ap, ◌∙◌, arith, length,
}
use iot_sms.Message.{SmsMessage}
use iot_sms.Processor.{Tasks, round, rounds}
use iot_sms.Processor.Accounting.{round-Balance}
use iot_sms.Processor.Balance.{count, count-append, tally, taken, Balance}
use iot_sms.Publisher.{Publisher}
use iot_sms.Rtos.{Rtos}
use iot_sms.Storage.{max_stored_sms}
use iot_sms.Storage.Nvs.{NvsStore}
use iot_sms.Storage.Contents.{Holds}
use iot_sms.Storage.Working.{IsWorking}

-- One above the number of messages that the flash holds at most.
abbrev pub stored_fuel : ℕ
stored_fuel = 21

module _ (R : Rtos) (N : NvsStore) (P : Publisher) where
  -- The messages that the queue gives in the rounds.
  unfoldable pub received : List (ℕ × ℕ) → Tasks R N P → List SmsMessage
  received [] s = []
  received ((current_time, now) ∷ times) s =
      taken R N P s ++ (elim (round R N P stored_fuel s current_time now) [
        | none ↦ []
        | some s' ↦ received times s'
      ])

  -- After some of the rounds the storage holds as many messages as it has room for.
  pub record Filled (times : List (ℕ × ℕ)) (s : Tasks R N P) : Type 0 where
    pub first : List (ℕ × ℕ)
    pub rest : List (ℕ × ℕ)
    pub split : times ≡ first ++ rest
    pub reached : Tasks R N P
    pub reaches : rounds R N P stored_fuel first s ≡ some reached
    pub full : List SmsMessage
    pub full_held : Holds N reached.flash full
    pub is_full : length full ≡ max_stored_sms

  -- The messages in the state, with the lost ones, are those of before and those received.
  pub record Kept (times : List (ℕ × ℕ)) (s : Tasks R N P) (ms : List SmsMessage) (s' : Tasks R N P)
      : Type 0 where
    pub stored : List SmsMessage
    pub lost : List SmsMessage
    pub held : Holds N s'.flash stored
    pub kept :
        (p : SmsMessage → Bool)
        → tally R N P p s' stored + count p lost ≡ tally R N P p s ms + count p (received times s)
    pub reason : (lost ≡ []) ⊎ Filled times s

  rounds-next :
      (s s' : Tasks R N P) (current_time now : ℕ) (times : List (ℕ × ℕ))
      → round R N P stored_fuel s current_time now ≡ some s'
      → rounds R N P stored_fuel ((current_time, now) ∷ times) s ≡ rounds R N P stored_fuel times s'
  unfolding rounds
  rounds-next s s' current_time now times e = rw (e, rounds) refl

  rounds-end : (s : Tasks R N P) → rounds R N P stored_fuel [] s ≡ some s
  unfolding rounds
  rounds-end s = refl

  received-next :
      (s s' : Tasks R N P) (current_time now : ℕ) (times : List (ℕ × ℕ))
      → round R N P stored_fuel s current_time now ≡ some s'
      → received ((current_time, now) ∷ times) s ≡ taken R N P s ++ received times s'
  unfolding received
  received-next s s' current_time now times e = rw e refl

  Filled-next :
      (s s' : Tasks R N P) (current_time now : ℕ) (times : List (ℕ × ℕ))
      → round R N P stored_fuel s current_time now ≡ some s'
      → Filled times s'
      → Filled ((current_time, now) ∷ times) s
  Filled-next s s' current_time now times e f = record {
    first = (current_time, now) ∷ f.first;
    rest = f.rest;
    split = ap ((current_time, now) ∷◌) f.split;
    reached = f.reached;
    reaches = rounds-next s s' current_time now f.first e ∙ f.reaches;
    full = f.full;
    full_held = f.full_held;
    is_full = f.is_full;
  }

  module _ (w : IsWorking N) where
    Kept-next :
        (s s' last : Tasks R N P) (ms : List SmsMessage) (current_time now : ℕ)
        (times : List (ℕ × ℕ))
        → round R N P stored_fuel s current_time now ≡ some s'
        → (b : Balance R N P (λ p. tally R N P p s ms + count p (taken R N P s)) s')
        → Kept times s' b.stored last
        → Kept ((current_time, now) ∷ times) s ms last
    Kept-next s s' last ms current_time now times e b k = record {
      stored = k.stored;
      lost = b.lost ++ k.lost;
      held = k.held;
      kept = λ p. omega (
        arith,
        b.balance p,
        k.kept p,
        count-append p b.lost k.lost,
        count-append p (taken R N P s) (received times s'),
        ap (count p) (received-next s s' current_time now times e),
      );
      reason = elim k.reason [
        | inr f ↦ inr (Filled-next s s' current_time now times e f)
        | inl none_lost ↦ elim b.reason [
          | inl nothing ↦ inl (ap (λ l. l ++ k.lost) nothing ∙ none_lost)
          | inr is_full ↦ inr (record {
            first = (current_time, now) ∷ [];
            rest = times;
            split = refl;
            reached = s';
            reaches = rounds-next s s' current_time now [] e ∙ rounds-end s';
            full = b.stored;
            full_held = b.held;
            is_full = is_full;
          })
        ]
      ];
    }

    -- While the operations of the storage succeed, from flash that holds a list, any number of
    -- rounds of the task ends, with fuel 21 for the stored messages of each, and for every test on
    -- messages the published, stored and retried ones that satisfy it, with the lost ones, are
    -- afterwards as many as the published, stored and retried ones were before with those that the
    -- queue gave; a message is lost only if the storage held 20 after one of the rounds.
    pub rounds-Kept :
        (times : List (ℕ × ℕ)) (s : Tasks R N P) (ms : List SmsMessage)
        → Holds N s.flash ms
        → (s' : Tasks R N P) × (rounds R N P stored_fuel times s ≡ some s') × Kept times s ms s'
    unfolding rounds received
    rounds-Kept [] s ms h =
        (s, refl, record { stored = ms; lost = []; held = h; kept = λ p. refl; reason = inl refl })
    rounds-Kept ((current_time, now) ∷ times) s ms h =
        let (s', e, b) =
          round-Balance R N P w stored_fuel s ms current_time now h (omega (arith, h.fits)) in
        let (last, e', k) = rounds-Kept times s' b.stored b.held in
        (
          last,
          rounds-next s s' current_time now times e ∙ e',
          Kept-next s s' last ms current_time now times e b k,
        )
