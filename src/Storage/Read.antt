-- ===== src/Storage/Read.antt =====
-- `sms_storage_get_next`, `sms_storage_get_count` and `sms_storage_clear_all` on flash that holds a
-- list of messages.
use iot_sms.Base.{
  ℕ, ◌<◌, true, false, List, [], some, ◌≡◌, ◌⊎◌, inl, inr, refl, sym, ap, ◌∙◌, arith, length,
  get_elem?, ◌==◌, ==_iff, Bool-cases,
}
use iot_sms.Message.{SmsMessage}
use iot_sms.Storage.{
  esp_ok, esp_fail, NextResult, next_message, no_message, next_failed, read_oldest, nothing_stored,
  sms_storage_get_next, sms_storage_get_count, sms_storage_clear_all,
}
use iot_sms.Storage.Contents.{Holds, count_found, count_missing, length-nil, commit_changes-number}
use iot_sms.Storage.Keys.{count_key, sms_key}
use iot_sms.Storage.Nvs.{
  NvsStore, missing, unreadable, ReadResult-cases, OpenResult-cases, no_namespace, open_failed,
}

module _ (N : NvsStore) where
  open N use {Flash, number_at, blob_at}

  -- What the answer of `sms_storage_get_next` tells of the stored messages.
  abbrev pub Peeks : Flash → List SmsMessage → NextResult → Type 0
  Peeks f ms (next_message m) = get_elem? ms 0 ≡ some m
  Peeks f ms no_message = (ms ≡ []) ⊎ (N.get_u32 f count_key ≡ unreadable)
  Peeks f ms next_failed =
      (N.open_ro f ≡ open_failed)
      ⊎ ((0 < length ms)
          × ((N.get_blob f (sms_key 0) ≡ missing) ⊎ (N.get_blob f (sms_key 0) ≡ unreadable)))

  no_namespace_nil :
      (f : Flash) (ms : List SmsMessage) → Holds N f ms → N.open_ro f ≡ no_namespace → ms ≡ []
  no_namespace_nil f ms h e = elim h.counts [
    | inl c ↦ ground (arith, N.no_namespace_empty f count_key e, c)
    | inr (_, c) ↦ c
  ]

  read_oldest-Peeks :
      (f : Flash) (ms : List SmsMessage)
      → Holds N f ms
      → 0 < length ms
      → Peeks f ms (read_oldest N f)
  unfolding read_oldest
  read_oldest-Peeks f ms h pos = elim (ReadResult-cases (N.get_blob f (sms_key 0))) [
    | inl (m, r) ↦ rw (r, read_oldest) (sym (h.blobs 0 pos) ∙ N.get_blob_found f (sms_key 0) r)
    | inr (inl r) ↦ rw (r, read_oldest) (inr (pos, inl r))
    | inr (inr r) ↦ rw (r, read_oldest) (inr (pos, inr r))
  ]

  -- Reading the next message, with a buffer given, from flash that holds a list: a message returned
  -- is the first of the list; ESP_ERR_NOT_FOUND means that the list is empty or the count could not
  -- be read; ESP_FAIL means that the namespace could not be opened or that the list is not empty
  -- and its first message could not be read.
  pub sms_storage_get_next-Peeks :
      (f : Flash) (ms : List SmsMessage) → Holds N f ms → Peeks f ms (sms_storage_get_next N f true)
  unfolding sms_storage_get_next nothing_stored
  sms_storage_get_next-Peeks f ms h = elim (OpenResult-cases (N.open_ro f)) [
    | inr (inl e) ↦ rw (e, sms_storage_get_next) (inl (no_namespace_nil f ms h e))
    | inr (inr e) ↦ rw (e, sms_storage_get_next) (inl e)
    | inl e ↦ elim (ReadResult-cases (N.get_u32 f count_key)) [
      | inr (inl r) ↦ rw (e, r, sms_storage_get_next) (inl (count_missing N f ms h r))
      | inr (inr r) ↦ rw (e, r, sms_storage_get_next) (inr r)
      | inl (n, r) ↦
          let is : n ≡ length ms = count_found N f ms h r in
          elim (Bool-cases (n == 0)) [
            | inl z ↦
                rw (e, r, sms_storage_get_next, z) (inl (length-nil ms (sym is ∙ (==_iff n 0).0 z)))
            | inr p ↦ rw (e, r, sms_storage_get_next, p) (read_oldest-Peeks f ms h (ground arith))
          ]
    ]
  ]

  -- On flash that holds a list, a count that is returned is the length of the list.
  pub sms_storage_get_count-length :
      (f : Flash) (ms : List SmsMessage) {n : ℕ}
      → Holds N f ms
      → sms_storage_get_count N f ≡ some n
      → n ≡ length ms
  unfolding sms_storage_get_count
  sms_storage_get_count-length f ms h e = elim (OpenResult-cases (N.open_ro f)) [
    | inr (inl o) ↦ ground (arith, o, ap length (no_namespace_nil f ms h o))
    | inr (inr o) ↦ ground (arith, o)
    | inl o ↦ elim (ReadResult-cases (N.get_u32 f count_key)) [
      | inl (n', r) ↦ ground (arith, o, r, count_found N f ms h r)
      | inr (inl r) ↦ ground (arith, o, r, ap length (count_missing N f ms h r))
      | inr (inr r) ↦ ground (arith, o, r)
    ]
  ]

  clear_unopened : (f : Flash) → (N.open_rw f).1 ≡ false → (sms_storage_clear_all N f).1 ≡ esp_fail
  unfolding sms_storage_clear_all
  clear_unopened f o = rw o

  clear_refused :
      (f : Flash)
      → (N.open_rw f).1 ≡ true
      → (N.erase_all (N.open_rw f).0).1 ≡ false
      → (sms_storage_clear_all N f).1 ≡ esp_fail
  unfolding sms_storage_clear_all
  clear_refused f o k = rw (o, k)

  -- If clearing returns ESP_OK, the flash holds the empty list, whatever it held before.
  pub sms_storage_clear_all-Holds :
      (f : Flash)
      → (sms_storage_clear_all N f).1 ≡ esp_ok
      → Holds N (sms_storage_clear_all N f).0 []
  unfolding sms_storage_clear_all
  sms_storage_clear_all-Holds f e = elim (Bool-cases (N.open_rw f).1) [
    | inr o ↦ cc (clear_unopened f o)
    | inl o ↦ elim (Bool-cases (N.erase_all (N.open_rw f).0).1) [
      | inr k ↦ cc (clear_refused f o k)
      | inl k ↦
          rw (o, k)
            (record {
              counts =
                  inr (commit_changes-number N _ count_key ∙ N.erase_all_ok _ count_key k, refl);
              blobs = λ i lt. absurd (omega arith);
              fits = omega arith;
            })
    ]
  ]
