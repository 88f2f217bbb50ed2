-- ===== src/Storage/Contents.antt =====
-- What it means that the flash holds a list of messages, and what each step of the operations
-- does to the keys.
use iot_sms.Base.{
  ℕ, ◌≤◌, ◌<◌, ◌^◌, List, [], ◌∷◌, none, some, ◌≡◌, ◌≢◌, ◌⊎◌, inl, inr, refl, sym, ◌∙◌, arith,
  Bytes, length, get_elem?, Bool-cases,
}
use iot_sms.Message.{SmsMessage}
use iot_sms.Storage.{esp_fail, max_stored_sms, commit_changes, set_count}
use iot_sms.Storage.Keys.{count_key, sms_key, sms_key-injective, sms_key-ne-count_key}
use iot_sms.Storage.Nvs.{NvsStore, found, missing}

pub sms_key-ne : (i j : ℕ) → i < 2 ^ 32 → j < 2 ^ 32 → i ≢ j → sms_key i ≢ sms_key j
sms_key-ne i j hi hj ne e = ne (sms_key-injective i j hi hj e)

pub count_key-ne-sms_key : (i : ℕ) → count_key ≢ sms_key i
count_key-ne-sms_key i e = sms_key-ne-count_key i (sym e)

pub length-nil : (ms : List SmsMessage) → length ms ≡ 0 → ms ≡ []
length-nil [] e = refl
length-nil (m ∷ ms) e = absurd (omega arith)

module _ (N : NvsStore) where
  open N use {Flash, number_at, blob_at}

  -- The first keys hold the messages of the list.
  abbrev pub Blobs : Flash → List SmsMessage → Type 0
  Blobs f ms = (i : ℕ) → i < length ms → blob_at f (sms_key i) ≡ get_elem? ms i

  -- The count is the list's length, or absent where the list is empty.
  abbrev pub Counts : Flash → List SmsMessage → Type 0
  Counts f ms =
      (number_at f count_key ≡ some (length ms)) ⊎ ((number_at f count_key ≡ none) × (ms ≡ []))

  pub record Holds (f : Flash) (ms : List SmsMessage) : Type 0 where
    pub counts : Counts f ms
    pub blobs : Blobs f ms
    pub fits : length ms ≤ max_stored_sms

  -- Only the count and the message keys matter.
  pub Holds-same :
      (f g : Flash) (ms : List SmsMessage)
      → number_at g count_key ≡ number_at f count_key
      → ((i : ℕ) → i < length ms → blob_at g (sms_key i) ≡ blob_at f (sms_key i))
      → Holds f ms
      → Holds g ms
  Holds-same f g ms n b h = record {
    counts = rw n h.counts;
    blobs = λ i lt. b i lt ∙ h.blobs i lt;
    fits = h.fits;
  }

  pub open-Holds : (f : Flash) (ms : List SmsMessage) → Holds f ms → Holds (N.open_rw f).0 ms
  open-Holds f ms =
      Holds-same f _ ms (N.open_number f count_key) (λ i lt. N.open_blob f (sms_key i))

  pub count_found :
      (f : Flash) (ms : List SmsMessage) {n : ℕ}
      → Holds f ms
      → N.get_u32 f count_key ≡ found n
      → n ≡ length ms
  count_found f ms h e = elim h.counts [
    | inl c ↦ ground (arith, N.get_u32_found f count_key e, c)
    | inr (c, _) ↦ ground (arith, N.get_u32_found f count_key e, c)
  ]

  pub count_missing :
      (f : Flash) (ms : List SmsMessage) → Holds f ms → N.get_u32 f count_key ≡ missing → ms ≡ []
  count_missing f ms h e = elim h.counts [
    | inl c ↦ ground (arith, N.get_u32_missing f count_key e, c)
    | inr (_, c) ↦ c
  ]

  pub commit_changes-number :
      (f : Flash) (k : Bytes) → number_at (commit_changes N f).0 k ≡ number_at f k
  unfolding commit_changes
  commit_changes-number f k = N.commit_number f k

  commit_changes-blob : (f : Flash) (k : Bytes) → blob_at (commit_changes N f).0 k ≡ blob_at f k
  unfolding commit_changes
  commit_changes-blob f k = N.commit_blob f k

  pub set_count-blob :
      (f : Flash) (n i : ℕ) → blob_at (set_count N f n).0 (sms_key i) ≡ blob_at f (sms_key i)
  unfolding set_count
  set_count-blob f n i = elim (Bool-cases (N.set_u32 f count_key n).1) [
    | inl e ↦ rw e (
        commit_changes-blob _ (sms_key i)
        ∙ N.set_u32_blob f count_key n (sms_key i) (count_key-ne-sms_key i))
    | inr e ↦ rw e (N.set_u32_blob f count_key n (sms_key i) (count_key-ne-sms_key i))
  ]

  -- After an update of the count that succeeds the new count is stored; after one that fails, the
  -- old or the new.
  pub set_count-number :
      (f : Flash) (n : ℕ)
      → (number_at (set_count N f n).0 count_key ≡ some n)
        ⊎ (((set_count N f n).1 ≡ esp_fail)
            × (number_at (set_count N f n).0 count_key ≡ number_at f count_key))
  unfolding set_count
  set_count-number f n = elim (Bool-cases (N.set_u32 f count_key n).1) [
    | inl e ↦ inl (rw e (commit_changes-number _ count_key ∙ N.set_u32_ok f count_key n e))
    | inr e ↦ elim (N.set_u32_fail f count_key n e) [
      | inl old ↦ inr (rw e, rw e old)
      | inr new ↦ inl (rw e new)
    ]
  ]
