-- ===== src/Storage.antt =====
-- main/sms_storage.c: the failed messages in flash, `sms_0` the oldest.
pub mod Nvs
pub mod Keys
pub mod Contents
pub mod Save
pub mod Read
pub mod Shift
pub mod Delete
pub mod Working
pub mod Refinement
pub mod FlashModel
pub mod Tests
use iot_sms.Base.{
  ℕ, zero, suc, ◌+◌, ◌-◌, Bool, true, false, not, ◌||◌, Option, none, some, Bytes, codes, ltb, leb,
  ◌==◌, if◌then◌else◌, ◌≡◌, ◌⊎◌, inl, inr, refl,
}
use iot_sms.Message.{SmsMessage}
use Nvs.{
  NvsStore, ReadResult, found, missing, unreadable, OpenResult, opened, no_namespace, open_failed,
}
use Keys.{count_key, sms_key}

-- `ESP_OK` and `ESP_FAIL`
pub data EspErr : Type 0 where
  esp_ok esp_fail : EspErr

pub EspErr-cases : (e : EspErr) → (e ≡ esp_ok) ⊎ (e ≡ esp_fail)
EspErr-cases esp_ok = inl refl
EspErr-cases esp_fail = inr refl

-- What `sms_storage_get_next` returns: `ESP_OK` with the buffer filled, `ESP_ERR_NOT_FOUND`, `ESP_FAIL`.
pub data NextResult : Type 0 where
  next_message : SmsMessage → NextResult
  no_message : NextResult
  next_failed : NextResult

abbrev pub max_stored_sms : ℕ
max_stored_sms = 20

-- The local `count`, which is 0 unless the read succeeds.
abbrev pub count_read : ReadResult ℕ → ℕ
count_read (found n) = n
count_read missing = 0
count_read unreadable = 0

module _ (N : NvsStore) where
  open N use {Flash}

  -- The last step of the writing operations; the handle's closing changes nothing.
  unfoldable pub commit_changes : Flash → Flash × EspErr
  commit_changes f = let (f', done) = N.commit f in (f', if done then esp_ok else esp_fail)

  -- The update of the count and the commit.
  unfoldable pub set_count : Flash → ℕ → Flash × EspErr
  set_count f count =
      let (f', done) = N.set_u32 f count_key count in
      if done then commit_changes f' else (f', esp_fail)

  unfoldable pub save_at : Flash → SmsMessage → ℕ → Flash × EspErr
  save_at f sms count =
      if leb max_stored_sms count
      then (f, esp_fail)
      else (let (f', done) = N.set_blob f (sms_key count) sms in
          if done then set_count f' (count + 1) else (f', esp_fail))

  -- `none` is the NULL pointer.
  unfoldable pub sms_storage_save : Flash → Option SmsMessage → Flash × EspErr
  sms_storage_save f none = (f, esp_fail)
  sms_storage_save f (some sms) =
      let (f', done) = N.open_rw f in
      if not done then (f', esp_fail) else elim (N.get_u32 f' count_key) [
        | found n ↦ save_at f' sms n
        | missing ↦ save_at f' sms 0
        | unreadable ↦ (f', esp_fail)
      ]

  -- The read of `sms_0` behind the tests of the count.
  unfoldable pub read_oldest : Flash → NextResult
  read_oldest f = elim (N.get_blob f (sms_key 0)) [
    | found sms ↦ next_message sms
    | missing ↦ next_failed
    | unreadable ↦ next_failed
  ]

  -- `err == ESP_ERR_NVS_NOT_FOUND || count == 0`
  unfoldable pub nothing_stored : ReadResult ℕ → Bool
  nothing_stored missing = true
  nothing_stored (found n) = n == 0
  nothing_stored unreadable = count_read unreadable == 0

  -- The flag tells whether the buffer's pointer is other than NULL.
  unfoldable pub sms_storage_get_next : Flash → Bool → NextResult
  sms_storage_get_next f given = if not given then next_failed else elim (N.open_ro f) [
    | no_namespace ↦ no_message
    | open_failed ↦ next_failed
    | opened ↦
        let read = N.get_u32 f count_key in
        if nothing_stored read then no_message else elim read [
          | found n ↦ read_oldest f
          | missing ↦ next_failed
          | unreadable ↦ next_failed
        ]
  ]

  -- The loop that moves each message one key down, from key `i + 1` to key `i`; `false` is a read
  -- or a write that failed. The first argument counts the rounds left.
  unfoldable pub shift_down : ℕ → ℕ → Flash → Flash × Bool
  shift_down zero i f = (f, true)
  shift_down (suc rounds) i f = elim (N.get_blob f (sms_key (i + 1))) [
    | missing ↦ (f, false)
    | unreadable ↦ (f, false)
    | found sms ↦ elim (N.set_blob f (sms_key i) sms).1 [
      | false ↦ ((N.set_blob f (sms_key i) sms).0, false)
      | true ↦ shift_down rounds (i + 1) (N.set_blob f (sms_key i) sms).0
    ]
  ]

  -- The shift, the removal of the last key, whose failure is only logged, and the new count.
  unfoldable pub delete_first : Flash → ℕ → Flash × EspErr
  delete_first f count =
      let (f', done) = shift_down (count - 1) 0 f in
      if not done
      then (f', esp_fail)
      else set_count (N.erase_key f' (sms_key (count - 1))).0 (count - 1)

  unfoldable pub sms_storage_delete_oldest : Flash → Flash × EspErr
  sms_storage_delete_oldest f =
      let (f', done) = N.open_rw f in
      if not done
      then (f', esp_fail)
      else (let read = N.get_u32 f' count_key in
          if nothing_stored read then (f', esp_ok) else elim read [
            | found n ↦ delete_first f' n
            | missing ↦ (f', esp_fail)
            | unreadable ↦ (f', esp_fail)
          ])

  -- `none` is -1.
  unfoldable pub sms_storage_get_count : Flash → Option ℕ
  sms_storage_get_count f = elim (N.open_ro f) [
    | no_namespace ↦ some 0
    | open_failed ↦ none
    | opened ↦ elim (N.get_u32 f count_key) [
      | found n ↦ some n
      | missing ↦ some 0
      | unreadable ↦ none
    ]
  ]

  unfoldable pub sms_storage_clear_all : Flash → Flash × EspErr
  sms_storage_clear_all f =
      let (f', done) = N.open_rw f in
      if not done
      then (f', esp_fail)
      else (let (f'', erased) = N.erase_all f' in
          if not erased then (f'', esp_fail) else commit_changes f'')
