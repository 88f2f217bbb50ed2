-- ===== src/Storage/Refinement.antt =====
-- main/sms_storage.c on a working storage against a queue of at most 20 messages.
use iot_sms.Base.{
  true, List, [], ◌∷◌, ◌++◌, some, ◌≡◌, inl, inr, refl, ap, ◌∙◌, arith, length, drop, leb,
  Bool-cases, if◌then◌else◌,
}
use iot_sms.Message.{SmsMessage}
use iot_sms.Storage.{
  EspErr, esp_ok, esp_fail, NextResult, max_stored_sms, sms_storage_save, sms_storage_get_next,
  sms_storage_delete_oldest,
}
use iot_sms.Storage.Contents.{Holds, open-Holds}
use iot_sms.Storage.Delete.{sms_storage_delete_oldest-Removes}
use iot_sms.Storage.Nvs.{NvsStore}
use iot_sms.Storage.Save.{sms_storage_save-Changes}
use iot_sms.Storage.Working.{
  IsWorking, no-failed, oldest, sms_storage_save_ok, sms_storage_save_full,
  sms_storage_delete_oldest_ok, sms_storage_get_next-oldest,
}

-- What the processor asks of the storage.
pub data Command : Type 0 where
  save : SmsMessage → Command
  get_next delete_oldest : Command

pub data Answer : Type 0 where
  status : EspErr → Answer
  next : NextResult → Answer

-- The queue that the storage implements.
abbrev pub queue_step : List SmsMessage → Command → List SmsMessage × Answer
queue_step ms (save m) =
    if leb max_stored_sms (length ms) then (ms, status esp_fail) else (ms ++ m ∷ [], status esp_ok)
queue_step ms get_next = (ms, next (oldest ms))
queue_step ms delete_oldest = (drop 1 ms, status esp_ok)

abbrev pub queue_run : List SmsMessage → List Command → List SmsMessage × List Answer
queue_run ms [] = (ms, [])
queue_run ms (c ∷ cs) =
    let rest = queue_run (queue_step ms c).0 cs in (rest.0, (queue_step ms c).1 ∷ rest.1)

module _ (N : NvsStore) where
  open N use {Flash}

  abbrev pub flash_step : Flash → Command → Flash × Answer
  flash_step f (save m) =
      ((sms_storage_save N f (some m)).0, status (sms_storage_save N f (some m)).1)
  flash_step f get_next = (f, next (sms_storage_get_next N f true))
  flash_step f delete_oldest =
      ((sms_storage_delete_oldest N f).0, status (sms_storage_delete_oldest N f).1)

  abbrev pub flash_run : Flash → List Command → Flash × List Answer
  flash_run f [] = (f, [])
  flash_run f (c ∷ cs) =
      let rest = flash_run (flash_step f c).0 cs in (rest.0, (flash_step f c).1 ∷ rest.1)

  module _ (w : IsWorking N) where
    pub save-refines :
        (f : Flash) (ms : List SmsMessage) (m : SmsMessage)
        → Holds N f ms
        → Holds N (flash_step f (save m)).0 (queue_step ms (save m)).0
          × ((flash_step f (save m)).1 ≡ (queue_step ms (save m)).1)
    save-refines f ms m h = elim (Bool-cases (leb max_stored_sms (length ms))) [
      | inl full ↦
          let same = sms_storage_save_full N w f ms m h (ground arith) in
          rw (same, full) (open-Holds N f ms h, refl)
      | inr room ↦
          let done = sms_storage_save_ok N w f ms m h (ground arith) in
          elim (sms_storage_save-Changes N f ms m h) [
            | inl (e, held) ↦ rw (room, e) (held, refl)
            | inr (e, _) ↦ absurd (no-failed done e)
          ]
    ]

    -- One command is answered as by the queue, and the flash then holds the queue's messages.
    pub step-refines :
        (f : Flash) (ms : List SmsMessage) (c : Command)
        → Holds N f ms
        → Holds N (flash_step f c).0 (queue_step ms c).0
          × ((flash_step f c).1 ≡ (queue_step ms c).1)
    step-refines f ms (save m) h = save-refines f ms m h
    step-refines f ms get_next h = (h, ap next (sms_storage_get_next-oldest N w f ms h))
    step-refines f ms delete_oldest h =
        let done = sms_storage_delete_oldest_ok N w f ms h in
        elim (sms_storage_delete_oldest-Removes N f ms h) [
          | inl (inl (e, held)) ↦ (held, ap status e)
          | inl (inr (e, _)) ↦ absurd (no-failed done e)
          | inr (r, _, _) ↦ absurd (w.get_u32_works _ _ r)
        ]

    -- On a storage whose operations succeed, and flash that holds a list of messages, any sequence
    -- of saves, reads of the next message and deletions of the oldest is answered as by a first-in
    -- first-out queue of at most 20 messages that starts with that list, and the flash ends holding
    -- the messages of the queue.
    pub flash_run-queue_run :
        (cs : List Command) (f : Flash) (ms : List SmsMessage)
        → Holds N f ms
        → Holds N (flash_run f cs).0 (queue_run ms cs).0
          × ((flash_run f cs).1 ≡ (queue_run ms cs).1)
    flash_run-queue_run [] f ms h = (h, refl)
    flash_run-queue_run (c ∷ cs) f ms h =
        let (held, same) = step-refines f ms c h in
        let (end, answers) = flash_run-queue_run cs _ _ held in
        (
          end,
          ap (◌∷◌ (flash_step f c).1) answers
              ∙ ap (λ a. a ∷ (queue_run (queue_step ms c).0 cs).1) same,
        )
