-- ===== src/Processor/Balance.antt =====
-- The messages that the state of main/sms_processor.c accounts for.
use iot_sms.Base.{
  ℕ, zero, suc, ◌+◌, ◌≤◌, Bool, true, false, List, [], ◌∷◌, ◌++◌, none, some, ◌≡◌, ◌⊎◌, inl, refl,
  ◌∙◌, arith, length, take, drop, if◌then◌else◌,
}
use iot_sms.Message.{SmsMessage}
use iot_sms.Processor.{SmsRetryState, queue_timeout_ms, Tasks}
use iot_sms.Publisher.{Publisher}
use iot_sms.Rtos.{Rtos, ms_to_ticks}
use iot_sms.Storage.{max_stored_sms}
use iot_sms.Storage.Nvs.{NvsStore}
use iot_sms.Storage.Contents.{Holds}

-- How many messages of a list satisfy a test.
abbrev pub count : (SmsMessage → Bool) → List SmsMessage → ℕ
count p [] = 0
count p (m ∷ ms) = (if p m then 1 else 0) + count p ms

pub count-append :
    (p : SmsMessage → Bool) (a b : List SmsMessage) → count p (a ++ b) ≡ count p a + count p b
count-append p [] b = omega arith
count-append p (m ∷ a) b = omega (arith, count-append p a b)

pub count-take-drop :
    (p : SmsMessage → Bool) (n : ℕ) (a : List SmsMessage)
    → count p (take n a) + count p (drop n a) ≡ count p a
count-take-drop p zero a = omega arith
count-take-drop p (suc n) [] = refl
count-take-drop p (suc n) (m ∷ a) = omega (arith, count-take-drop p n a)

abbrev pub in_retry : SmsRetryState → List SmsMessage
in_retry r = if r.is_active then r.sms ∷ [] else []

pub in_retry-active : (r : SmsRetryState) → r.is_active ≡ true → in_retry r ≡ r.sms ∷ []
in_retry-active r on = rw on refl

pub in_retry-over : (r : SmsRetryState) → r.is_active ≡ false → in_retry r ≡ []
in_retry-over r off = rw off refl

module _ (R : Rtos) (N : NvsStore) (P : Publisher) where
  -- How many of the messages that have been published, are stored, or are being retried satisfy
  -- a test.
  abbrev pub tally : (SmsMessage → Bool) → Tasks R N P → List SmsMessage → ℕ
  tally p s ms = count p (P.published s.mqtt) + (count p ms + count p (in_retry s.s_retry_state))

  -- The message that the queue gives, if it gives one.
  abbrev pub taken : Tasks R N P → List SmsMessage
  taken s = elim (R.receive s.sms_queue (ms_to_ticks R queue_timeout_ms)).1 [
    | none ↦ []
    | some m ↦ m ∷ []
  ]

  pub taken-none :
      (s : Tasks R N P)
      → (R.receive s.sms_queue (ms_to_ticks R queue_timeout_ms)).1 ≡ none
      → taken s ≡ []
  taken-none s e = rw (e, taken) refl

  pub taken-some :
      (s : Tasks R N P) (m : SmsMessage)
      → (R.receive s.sms_queue (ms_to_ticks R queue_timeout_ms)).1 ≡ some m
      → taken s ≡ m ∷ []
  taken-some s m e = rw (e, taken) refl

  -- As many messages as before are accounted for in a state, whatever the test, but for lost ones;
  -- a message is lost only if the storage is full.
  pub record Balance (before : (SmsMessage → Bool) → ℕ) (s : Tasks R N P) : Type 0 where
    pub stored : List SmsMessage
    pub lost : List SmsMessage
    pub held : Holds N s.flash stored
    pub balance : (p : SmsMessage → Bool) → tally p s stored + count p lost ≡ before p
    pub reason : (lost ≡ []) ⊎ (length stored ≡ max_stored_sms)

  -- A part of a round, from flash that holds a list, which does not shrink.
  abbrev pub Part : List SmsMessage → ((SmsMessage → Bool) → ℕ) → Tasks R N P → Type 0
  Part ms before s = (b : Balance before s) × (length ms ≤ length b.stored)

  -- The flash stays as it is.
  pub kept_Part :
      (s : Tasks R N P) (ms : List SmsMessage) (before : (SmsMessage → Bool) → ℕ)
      → Holds N s.flash ms
      → ((p : SmsMessage → Bool) → tally p s ms ≡ before p)
      → Part ms before s
  kept_Part s ms before h e = (
    record {
      stored = ms;
      lost = [];
      held = h;
      balance = λ p. omega (arith, e p);
      reason = inl refl;
    },
    omega arith,
  )

  abbrev pub rebalance :
      {before before' : (SmsMessage → Bool) → ℕ} {s : Tasks R N P}
      → ((p : SmsMessage → Bool) → before p ≡ before' p)
      → Balance before s
      → Balance before' s
  rebalance e b = record {
    stored = b.stored;
    lost = b.lost;
    held = b.held;
    balance = λ p. b.balance p ∙ e p;
    reason = b.reason;
  }

  pub same_before :
      (ms : List SmsMessage) {before before' : (SmsMessage → Bool) → ℕ} {s : Tasks R N P}
      → ((p : SmsMessage → Bool) → before p ≡ before' p)
      → Part ms before s
      → Part ms before' s
  same_before ms e (b, grows) = (rebalance e b, grows)
