-- ===== src/Storage/Nvs.antt =====
-- The non-volatile storage library of ESP-IDF, which is not part of the repository: the operations
-- that main/sms_storage.c calls on its namespace, with their documented behaviour.
use iot_sms.Base.{ℕ, Bool, true, false, Option, none, some, ◌≡◌, ◌≢◌, ◌⊎◌, inl, inr, refl, Bytes}
use iot_sms.Message.{SmsMessage}

-- `ESP_OK` with the value, `ESP_ERR_NVS_NOT_FOUND`, any other error. A read that fails leaves the
-- caller's variable as it was.
pub data ReadResult {ℓ} (A : Type ℓ) : Type ℓ where
  found : A → ReadResult A
  missing : ReadResult A
  unreadable : ReadResult A

pub ReadResult-cases {ℓ} :
    {A : Type ℓ} (r : ReadResult A) → ((a : A) × (r ≡ found a)) ⊎ ((r ≡ missing) ⊎ (r ≡ unreadable))
ReadResult-cases (found a) = inl (a, refl)
ReadResult-cases missing = inr (inl refl)
ReadResult-cases unreadable = inr (inr refl)

-- `nvs_open (…, NVS_READONLY, …)`: `ESP_OK`, `ESP_ERR_NVS_NOT_FOUND`, any other error.
pub data OpenResult : Type 0 where
  opened no_namespace open_failed : OpenResult

pub OpenResult-cases : (r : OpenResult) → (r ≡ opened) ⊎ ((r ≡ no_namespace) ⊎ (r ≡ open_failed))
OpenResult-cases opened = inl refl
OpenResult-cases no_namespace = inr (inl refl)
OpenResult-cases open_failed = inr (inr refl)

pub record NvsStore : Type 1 where
  pub Flash : Type 0
  pub open_ro : Flash → OpenResult
  -- In the operations that write, `true` is `ESP_OK`.
  pub open_rw : Flash → Flash × Bool
  pub get_u32 : Flash → Bytes → ReadResult ℕ
  pub set_u32 : Flash → Bytes → ℕ → Flash × Bool
  pub get_blob : Flash → Bytes → ReadResult SmsMessage
  pub set_blob : Flash → Bytes → SmsMessage → Flash × Bool
  pub erase_key : Flash → Bytes → Flash × Bool
  pub erase_all : Flash → Flash × Bool
  pub commit : Flash → Flash × Bool
  -- What the namespace holds under a key.
  pub number_at : Flash → Bytes → Option ℕ
  pub blob_at : Flash → Bytes → Option SmsMessage
  -- A read that succeeds, or finds nothing, tells what is stored.
  pub get_u32_found :
      (f : Flash) (k : Bytes) {n : ℕ} → get_u32 f k ≡ found n → number_at f k ≡ some n
  pub get_u32_missing : (f : Flash) (k : Bytes) → get_u32 f k ≡ missing → number_at f k ≡ none
  pub get_blob_found :
      (f : Flash) (k : Bytes) {m : SmsMessage} → get_blob f k ≡ found m → blob_at f k ≡ some m
  pub no_namespace_empty : (f : Flash) (k : Bytes) → open_ro f ≡ no_namespace → number_at f k ≡ none
  -- Opening for writing and committing store no value.
  pub open_number : (f : Flash) (k : Bytes) → number_at (open_rw f).0 k ≡ number_at f k
  pub open_blob : (f : Flash) (k : Bytes) → blob_at (open_rw f).0 k ≡ blob_at f k
  pub commit_number : (f : Flash) (k : Bytes) → number_at (commit f).0 k ≡ number_at f k
  pub commit_blob : (f : Flash) (k : Bytes) → blob_at (commit f).0 k ≡ blob_at f k
  -- A write concerns its own key. If it succeeds the value is stored; if it fails the old value or
  -- the new one is.
  pub set_u32_ok :
      (f : Flash) (k : Bytes) (n : ℕ)
      → (set_u32 f k n).1 ≡ true
      → number_at (set_u32 f k n).0 k ≡ some n
  pub set_u32_fail :
      (f : Flash) (k : Bytes) (n : ℕ)
      → (set_u32 f k n).1 ≡ false
      → (number_at (set_u32 f k n).0 k ≡ number_at f k) ⊎ (number_at (set_u32 f k n).0 k ≡ some n)
  pub set_u32_blob :
      (f : Flash) (k : Bytes) (n : ℕ) (j : Bytes)
      → k ≢ j
      → blob_at (set_u32 f k n).0 j ≡ blob_at f j
  pub set_blob_ok :
      (f : Flash) (k : Bytes) (m : SmsMessage)
      → (set_blob f k m).1 ≡ true
      → blob_at (set_blob f k m).0 k ≡ some m
  pub set_blob_fail :
      (f : Flash) (k : Bytes) (m : SmsMessage)
      → (set_blob f k m).1 ≡ false
      → (blob_at (set_blob f k m).0 k ≡ blob_at f k) ⊎ (blob_at (set_blob f k m).0 k ≡ some m)
  pub set_blob_blob :
      (f : Flash) (k : Bytes) (m : SmsMessage) (j : Bytes)
      → k ≢ j
      → blob_at (set_blob f k m).0 j ≡ blob_at f j
  pub set_blob_number :
      (f : Flash) (k : Bytes) (m : SmsMessage) (j : Bytes)
      → k ≢ j
      → number_at (set_blob f k m).0 j ≡ number_at f j
  pub erase_key_blob : (f : Flash) (k j : Bytes) → k ≢ j → blob_at (erase_key f k).0 j ≡ blob_at f j
  pub erase_key_number :
      (f : Flash) (k j : Bytes) → k ≢ j → number_at (erase_key f k).0 j ≡ number_at f j
  pub erase_all_ok :
      (f : Flash) (k : Bytes) → (erase_all f).1 ≡ true → number_at (erase_all f).0 k ≡ none
