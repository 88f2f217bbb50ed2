-- ===== src/Storage/Delete.antt =====
-- `sms_storage_delete_oldest` on flash that holds a list of messages.
use iot_sms.Base.{
  ℕ, suc, ◌+◌, ◌-◌, ◌≤◌, ◌<◌, List, [], ◌∷◌, none, some, ◌≡◌, ◌⊎◌, inl, inr, refl, sym, ap, subst,
  ◌∙◌, arith, length, get_elem?, drop, ◌==◌, ==_iff, Bool-cases,
}
use iot_sms.Message.{SmsMessage}
use iot_sms.Storage.{
  EspErr, EspErr-cases, esp_ok, esp_fail, max_stored_sms, set_count, nothing_stored, delete_first,
  sms_storage_delete_oldest,
}
use iot_sms.Storage.Contents.{
  sms_key-ne, Holds, open-Holds, count_found, count_missing, length-nil, set_count-blob,
  set_count-number,
}
use iot_sms.Storage.Keys.{count_key, sms_key, sms_key-ne-count_key}
use iot_sms.Storage.Nvs.{NvsStore, unreadable, ReadResult-cases}
use iot_sms.Storage.Shift.{Kept, Shifted, shift_down_lem}

drop-get_elem? : (ms : List SmsMessage) (i : ℕ) → get_elem? (drop 1 ms) i ≡ get_elem? ms (i + 1)
drop-get_elem? [] i = refl
drop-get_elem? (m ∷ ms) i = let next : suc i ≡ i + 1 = omega arith in ap (get_elem? (m ∷ ms)) next

length-drop : (ms : List SmsMessage) → length (drop 1 ms) ≡ length ms - 1
length-drop [] = refl
length-drop (m ∷ ms) = omega arith

module _ (N : NvsStore) where
  open N use {Flash, number_at, blob_at}

  -- A failed removal leaves every message but the oldest, and the count that was there or one less.
  pub record Survives (f : Flash) (ms : List SmsMessage) : Type 0 where
    pub kept : Kept N f ms
    pub counted :
        (number_at f count_key ≡ some (length ms))
        ⊎ ((number_at f count_key ≡ some (length ms - 1))
            ⊎ ((number_at f count_key ≡ none) × (ms ≡ [])))

  -- The outcome of a removal of the oldest message of `ms`.
  abbrev pub Removes : Flash × EspErr → List SmsMessage → Type 0
  Removes r ms = ((r.1 ≡ esp_ok) × Holds N r.0 (drop 1 ms)) ⊎ ((r.1 ≡ esp_fail) × Survives r.0 ms)

  Holds-Survives : (f : Flash) (ms : List SmsMessage) → Holds N f ms → Survives f ms
  Holds-Survives f ms h = record {
    kept = λ j lt. inr (h.blobs (j + 1) lt);
    counted = elim h.counts [ inl c ↦ inl c | inr c ↦ inr (inr c) ];
  }

  -- The last step of the removal, on flash whose messages have moved.
  module _ (ms : List SmsMessage) (g : Flash) (fits : length ms ≤ max_stored_sms)
      (moved : (j : ℕ) → j + 1 < length ms → blob_at g (sms_key j) ≡ get_elem? ms (j + 1))
      (count_stays : number_at g count_key ≡ some (length ms)) where
    abbrev erased : Flash
    erased = (N.erase_key g (sms_key (length ms - 1))).0

    abbrev ended : Flash × EspErr
    ended = set_count N erased (length ms - 1)

    ended-blob : (j : ℕ) → j + 1 < length ms → blob_at ended.0 (sms_key j) ≡ get_elem? ms (j + 1)
    ended-blob j lt =
        set_count-blob N erased (length ms - 1) j
        ∙ N.erase_key_blob g _ _
            (sms_key-ne (length ms - 1) j (omega arith) (omega arith) (omega arith))
        ∙ moved j lt

    ended-Survives :
        (number_at ended.0 count_key ≡ some (length ms - 1))
          ⊎ (number_at ended.0 count_key ≡ some (length ms))
        → Survives ended.0 ms
    ended-Survives c = record {
      kept = λ j lt. inl (ended-blob j lt);
      counted = elim c [ inl e ↦ inr (inl e) | inr e ↦ inl e ];
    }

    ended-Holds : number_at ended.0 count_key ≡ some (length ms - 1) → Holds N ended.0 (drop 1 ms)
    ended-Holds c = record {
      counts = inl (c ∙ ap some (sym (length-drop ms)));
      blobs = λ j lt. ended-blob j (omega (arith, length-drop ms)) ∙ sym (drop-get_elem? ms j);
      fits = omega (arith, length-drop ms);
    }

    ended-Removes : Removes ended ms
    ended-Removes = elim (set_count-number N erased (length ms - 1)) [
      | inr (e, old) ↦ inr (
        e,
        ended-Survives (
            inr (
              old ∙ N.erase_key_number g _ _ (sms_key-ne-count_key (length ms - 1)) ∙ count_stays)),
      )
      | inl new ↦ elim (EspErr-cases ended.1) [
        | inl e ↦ inl (e, ended-Holds new)
        | inr e ↦ inr (e, ended-Survives (inl new))
      ]
    ]

  pub unmoved : (f : Flash) (ms : List SmsMessage) (h : Holds N f ms) → Shifted N ms h.fits 0 f f
  unmoved f ms h = record {
    moved = λ j lt. absurd (omega arith);
    stays = λ j _ lt. h.blobs j lt;
    count_stays = refl;
  }

  delete_first-Removes :
      (f : Flash) (ms : List SmsMessage)
      → Holds N f ms
      → number_at f count_key ≡ some (length ms)
      → 0 < length ms
      → Removes (delete_first N f (length ms)) ms
  unfolding delete_first
  delete_first-Removes f ms h c pos =
      elim (shift_down_lem N ms h.fits (length ms - 1) 0 f f (omega arith) (unmoved f ms h)) [
        | inl (e, s) ↦
            rw e (ended-Removes ms _ h.fits (λ j lt. s.moved j (omega arith)) (s.count_stays ∙ c))
        | inr (e, k, same) ↦ rw e (inr (refl, record { kept = k; counted = inl (same ∙ c) }))
      ]

  -- Deleting the oldest message from flash that holds a list, whatever operation of the flash
  -- fails: ESP_OK leaves the list without its first message, or the whole list where the count
  -- could not be read; after ESP_FAIL every younger message is still stored under its old key or
  -- the one below, and the count is the old one or one less.
  pub sms_storage_delete_oldest-Removes :
      (f : Flash) (ms : List SmsMessage)
      → Holds N f ms
      → Removes (sms_storage_delete_oldest N f) ms
        ⊎ ((N.get_u32 (N.open_rw f).0 count_key ≡ unreadable)
            × ((sms_storage_delete_oldest N f).1 ≡ esp_ok)
            × Holds N (sms_storage_delete_oldest N f).0 ms)
  unfolding sms_storage_delete_oldest nothing_stored
  sms_storage_delete_oldest-Removes f ms h = elim (Bool-cases (N.open_rw f).1) [
    | inr e ↦ rw e (inl (inr (refl, Holds-Survives _ ms held)))
    | inl e ↦ elim (ReadResult-cases (N.get_u32 (N.open_rw f).0 count_key)) [
      | inr (inl r) ↦
          rw (e, r, sms_storage_delete_oldest) (inl (inl (refl, nil (count_missing N _ ms held r))))
      | inr (inr r) ↦ rw (e, r, sms_storage_delete_oldest) (inr (refl, refl, held))
      | inl (n, r) ↦
          let is : n ≡ length ms = count_found N _ ms held r in
          elim (Bool-cases (n == 0)) [
            | inl z ↦
                rw (e, r, sms_storage_delete_oldest, z)
                  (inl (inl (refl, nil (length-nil ms (sym is ∙ (==_iff n 0).0 z)))))
            | inr p ↦
                rw (e, r, sms_storage_delete_oldest, p)
                  (inl (
                    subst (λ (k : ℕ). Removes (delete_first N (N.open_rw f).0 k) ms) (sym is)
                      (delete_first-Removes _ ms held (N.get_u32_found _ count_key r ∙ ap some is)
                        (ground arith))))
          ]
    ]
  ]
    where
      held : Holds N (N.open_rw f).0 ms
      held = open-Holds N f ms h

      nil : ms ≡ [] → Holds N (N.open_rw f).0 (drop 1 ms)
      nil e = subst (λ l. Holds N (N.open_rw f).0 l) (e ∙ ap (drop 1) (sym e)) held
