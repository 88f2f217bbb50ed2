-- ===== src/Storage/Tests.antt =====
-- The theorems on main/sms_storage.c at concrete flash.
use iot_sms.Base.{
  Bool, zero, suc, true, false, [], ◌∷◌, none, some, ◌≡◌, ◌⊎◌, inl, inr, refl, arith, codes, List,
  if◌then◌else◌,
}
use iot_sms.CString.{str_eq}
use iot_sms.Decimal.{decimal, digits_of}
use iot_sms.Message.{SmsMessage}
use iot_sms.Storage.{
  esp_ok, sms_storage_save, sms_storage_get_next, sms_storage_delete_oldest, sms_storage_get_count,
  sms_storage_clear_all, next_message, commit_changes,
}
use iot_sms.Storage.Contents.{Holds, Blobs}
use iot_sms.Storage.Delete.{Removes, sms_storage_delete_oldest-Removes}
use iot_sms.Storage.FlashModel.{FlashModel, flash_model, flash_model-IsWorking}
use iot_sms.Storage.Keys.{count_key, sms_key}
use iot_sms.Storage.Nvs.{unreadable}
use iot_sms.Storage.Read.{Peeks, sms_storage_get_next-Peeks}
use iot_sms.Storage.Refinement.{
  Command, save, get_next, delete_oldest, status, next, flash_run, flash_run-queue_run,
}
use iot_sms.Storage.Save.{Changes, sms_storage_save-Changes}

abbrev pub first_sms : SmsMessage
first_sms = record { sender = codes "+4915200000001"; content = codes "one" }

abbrev pub second_sms : SmsMessage
second_sms = record { sender = codes "+4915200000002"; content = codes "two" }

abbrev pub third_sms : SmsMessage
third_sms = record { sender = codes "10010"; content = codes "three" }

abbrev pub stored : List SmsMessage
stored = first_sms ∷ second_sms ∷ []

abbrev pub new_flash : FlashModel
new_flash = record { numbers = λ k. none; blobs = λ k. none; writes_left = 0 }

-- Two messages and one write before the flash is worn out.
abbrev pub old_flash : FlashModel
old_flash = record {
  numbers = λ k. if str_eq k count_key then some 2 else none;
  blobs = λ k.
      if str_eq k (codes "sms_0")
      then some first_sms
      else if str_eq k (codes "sms_1")
      then some second_sms
      else none;
  writes_left = 1;
}

pub new_flash-Holds : Holds (flash_model false) new_flash []
new_flash-Holds = record {
  counts = inr (refl, refl);
  blobs = λ i lt. absurd (omega arith);
  fits = omega arith;
}

old_flash-Blobs : (worn : Bool) → Blobs (flash_model worn) old_flash stored
unfolding sms_key str_eq decimal digits_of
old_flash-Blobs worn zero lt = refl
old_flash-Blobs worn (suc zero) lt = refl
old_flash-Blobs worn (suc (suc i)) lt = absurd (omega arith)

pub old_flash-Holds : (worn : Bool) → Holds (flash_model worn) old_flash stored
unfolding str_eq
old_flash-Holds worn = record {
  counts = inl refl;
  blobs = old_flash-Blobs worn;
  fits = omega arith;
}

abbrev session : List Command
session = save first_sms ∷ save second_sms ∷ get_next ∷ delete_oldest ∷ get_next ∷ []

flash_run-queue_run_example :
    Holds (flash_model false) (flash_run (flash_model false) new_flash session).0 (second_sms ∷ [])
    × ((flash_run (flash_model false) new_flash session).1
        ≡ status esp_ok
          ∷ status esp_ok
          ∷ next (next_message first_sms)
          ∷ status esp_ok
          ∷ next (next_message second_sms)
          ∷ [])
flash_run-queue_run_example =
    flash_run-queue_run (flash_model false) flash_model-IsWorking session new_flash []
      new_flash-Holds

sms_storage_save-Changes_example :
    Changes
      (flash_model true)
      (sms_storage_save (flash_model true) old_flash (some third_sms))
      stored
      (first_sms ∷ second_sms ∷ third_sms ∷ [])
sms_storage_save-Changes_example =
    sms_storage_save-Changes (flash_model true) old_flash stored third_sms (old_flash-Holds true)

sms_storage_delete_oldest-Removes_example :
    Removes (flash_model true) (sms_storage_delete_oldest (flash_model true) old_flash) stored
    ⊎ (((flash_model true).get_u32 ((flash_model true).open_rw old_flash).0 count_key ≡ unreadable)
        × ((sms_storage_delete_oldest (flash_model true) old_flash).1 ≡ esp_ok)
        × Holds
            (flash_model true)
            (sms_storage_delete_oldest (flash_model true) old_flash).0
            stored)
sms_storage_delete_oldest-Removes_example =
    sms_storage_delete_oldest-Removes (flash_model true) old_flash stored (old_flash-Holds true)

sms_storage_get_next-Peeks_example :
    Peeks
      (flash_model true)
      old_flash
      stored
      (sms_storage_get_next (flash_model true) old_flash true)
sms_storage_get_next-Peeks_example =
    sms_storage_get_next-Peeks (flash_model true) old_flash stored (old_flash-Holds true)

old_count : sms_storage_get_count (flash_model true) old_flash ≡ some 2
unfolding sms_storage_get_count str_eq
old_count = refl

old_cleared : (sms_storage_clear_all (flash_model true) old_flash).1 ≡ esp_ok
unfolding sms_storage_clear_all commit_changes
old_cleared = refl
