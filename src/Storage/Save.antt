-- ===== src/Storage/Save.antt =====
-- `sms_storage_save` on flash that holds a list of messages.
use iot_sms.Base.{
  ℕ, ◌+◌, ◌≤◌, ◌<◌, true, false, List, [], ◌∷◌, ◌++◌, some, ◌≡◌, ◌⊎◌, inl, inr, refl, sym, ap, ◌∙◌,
  arith, length, length-append, get_elem?-append_left, get_elem?-append_last, leb, ltb, subst,
  ltb→lt, lt→ltb, Bool-cases,
}
use iot_sms.Message.{SmsMessage}
use iot_sms.Storage.{
  EspErr, EspErr-cases, esp_ok, esp_fail, max_stored_sms, set_count, save_at, sms_storage_save,
}
use iot_sms.Storage.Contents.{
  sms_key-ne, Blobs, Holds, Holds-same, open-Holds, count_found, count_missing, set_count-blob,
  set_count-number,
}
use iot_sms.Storage.Keys.{count_key, sms_key, sms_key-ne-count_key}
use iot_sms.Storage.Nvs.{NvsStore, ReadResult-cases}

module _ (N : NvsStore) where
  open N use {Flash, number_at, blob_at}

  -- The outcome of an operation that is to change the list `old` into `new`: on success the flash
  -- holds `new`, on failure one of the two.
  abbrev pub Changes : Flash × EspErr → List SmsMessage → List SmsMessage → Type 0
  Changes r old new =
      ((r.1 ≡ esp_ok) × Holds N r.0 new) ⊎ ((r.1 ≡ esp_fail) × (Holds N r.0 old ⊎ Holds N r.0 new))

  -- A message behind the last one, with the count still as it was.
  module _ (f : Flash) (ms : List SmsMessage) (m : SmsMessage) (h : Holds N f ms)
      (room : length ms < max_stored_sms) where
    set_blob-elsewhere :
        (i : ℕ)
        → i < length ms
        → blob_at (N.set_blob f (sms_key (length ms)) m).0 (sms_key i) ≡ blob_at f (sms_key i)
    set_blob-elsewhere i lt =
        N.set_blob_blob f _ m _ (sms_key-ne (length ms) i (omega arith) (omega arith) (omega arith))

    set_blob-count :
        number_at (N.set_blob f (sms_key (length ms)) m).0 count_key ≡ number_at f count_key
    set_blob-count = N.set_blob_number f _ m count_key (sms_key-ne-count_key (length ms))

    set_blob-Holds : Holds N (N.set_blob f (sms_key (length ms)) m).0 ms
    set_blob-Holds = Holds-same N f _ ms set_blob-count set_blob-elsewhere h

    set_blob-Blobs :
        (N.set_blob f (sms_key (length ms)) m).1 ≡ true
        → Blobs N (N.set_blob f (sms_key (length ms)) m).0 (ms ++ m ∷ [])
    set_blob-Blobs done i lt = elim (Bool-cases (ltb i (length ms))) [
      | inl before ↦
          let below : i < length ms = ltb→lt _ _ before in
          set_blob-elsewhere i below
          ∙ h.blobs i below
          ∙ sym (get_elem?-append_left ms (m ∷ []) i below)
      | inr not_before ↦
          let here : i ≡ length ms = omega (
            arith,
            λ (p : i < length ms). lt→ltb i (length ms) p,
            length-append ms (m ∷ []),
            last not_before,
          ) in
          ap (λ k. blob_at (N.set_blob f (sms_key (length ms)) m).0 (sms_key k)) here
          ∙ N.set_blob_ok f _ m done
          ∙ sym (get_elem?-append_last ms m i here)
    ]
      where
        last : ltb i (length ms) ≡ false → length ms ≤ i
        last e = ground arith

    -- The new count makes the message the last of the list.
    counted :
        (g : Flash)
        → Blobs N g (ms ++ m ∷ [])
        → number_at g count_key ≡ number_at f count_key
        → Changes (set_count N g (length ms + 1)) ms (ms ++ m ∷ [])
    counted g b same = elim (set_count-number N g (length ms + 1)) [
      | inl new ↦ elim (EspErr-cases (set_count N g (length ms + 1)).1) [
        | inl e ↦ inl (e, grown new)
        | inr e ↦ inr (e, inr (grown new))
      ]
      | inr (e, old) ↦ inr (
        e,
        inl (
            Holds-same N f _ ms (old ∙ same)
              (λ i lt.
                set_count-blob N g _ i
                ∙ b i (omega (arith, length-append ms (m ∷ [])))
                ∙ get_elem?-append_left ms (m ∷ []) i lt
                ∙ sym (h.blobs i lt))
              h),
      )
    ]
      where
        grown :
            number_at (set_count N g (length ms + 1)).0 count_key ≡ some (length ms + 1)
            → Holds N (set_count N g (length ms + 1)).0 (ms ++ m ∷ [])
        grown new = record {
          counts = inl (new ∙ ap some (omega (arith, length-append ms (m ∷ []))));
          blobs = λ i lt. set_count-blob N g _ i ∙ b i lt;
          fits = omega (arith, length-append ms (m ∷ []));
        }

  save_at-Changes :
      (f : Flash) (ms : List SmsMessage) (m : SmsMessage)
      → Holds N f ms
      → Changes (save_at N f m (length ms)) ms (ms ++ m ∷ [])
  unfolding save_at
  save_at-Changes f ms m h = elim (Bool-cases (leb max_stored_sms (length ms))) [
    | inl full ↦ rw full (inr (refl, inl h))
    | inr room ↦
        let below : length ms < max_stored_sms = ground arith in
        rw room (elim (Bool-cases (N.set_blob f (sms_key (length ms)) m).1) [
          | inl done ↦ rw done (
              counted f ms m h below _ (set_blob-Blobs f ms m h below done)
                (set_blob-count f ms m h below))
          | inr failed ↦ rw failed (inr (refl, inl (set_blob-Holds f ms m h below)))
        ])
  ]

  -- Saving a message to flash that holds a list, whatever operation of the flash fails: ESP_OK
  -- leaves the list with the message at its end, and ESP_FAIL leaves the list as it was or with the
  -- message at its end.
  pub sms_storage_save-Changes :
      (f : Flash) (ms : List SmsMessage) (m : SmsMessage)
      → Holds N f ms
      → Changes (sms_storage_save N f (some m)) ms (ms ++ m ∷ [])
  unfolding sms_storage_save
  sms_storage_save-Changes f ms m h = elim (Bool-cases (N.open_rw f).1) [
    | inr e ↦ rw e (inr (refl, inl held))
    | inl e ↦ elim (ReadResult-cases (N.get_u32 (N.open_rw f).0 count_key)) [
      | inl (n, r) ↦
          rw (e, r, sms_storage_save)
            (subst (λ (k : ℕ). Changes (save_at N (N.open_rw f).0 m k) ms (ms ++ m ∷ []))
              (sym (count_found N _ ms held r)) (save_at-Changes _ ms m held))
      | inr (inl r) ↦
          rw (e, r, sms_storage_save)
            (subst (λ (k : ℕ). Changes (save_at N (N.open_rw f).0 m k) ms (ms ++ m ∷ []))
              (ap length (count_missing N _ ms held r)) (save_at-Changes _ ms m held))
      | inr (inr r) ↦ rw (e, r, sms_storage_save) (inr (refl, inl held))
    ]
  ]
    where
      held : Holds N (N.open_rw f).0 ms
      held = open-Holds N f ms h
