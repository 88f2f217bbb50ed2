-- ===== src/Storage/Shift.antt =====
-- The loop of `sms_storage_delete_oldest` that moves the messages down, and what a failure leaves.
use iot_sms.Base.{
  ℕ, zero, suc, ◌+◌, ◌≤◌, ◌<◌, true, false, List, ◌≡◌, ◌≢◌, ◌⊎◌, inl, inr, refl, sym, ◌∙◌, subst,
  arith, length, get_elem?, ltb, ltb→lt, Bool-cases,
}
use iot_sms.Message.{SmsMessage}
use iot_sms.Storage.{max_stored_sms, shift_down}
use iot_sms.Storage.Contents.{sms_key-ne}
use iot_sms.Storage.Keys.{count_key, sms_key, sms_key-ne-count_key}
use iot_sms.Storage.Nvs.{NvsStore, found, ReadResult-cases}

-- Whatever message is not the oldest is still stored, under its old key or the one below.
abbrev pub Kept : (N : NvsStore) → N.Flash → List SmsMessage → Type 0
Kept N f ms =
    (j : ℕ)
    → j + 1 < length ms
    → (N.blob_at f (sms_key j) ≡ get_elem? ms (j + 1))
      ⊎ (N.blob_at f (sms_key (j + 1)) ≡ get_elem? ms (j + 1))

module _ (N : NvsStore) (ms : List SmsMessage) (fits : length ms ≤ max_stored_sms) where
  open N use {Flash, number_at, blob_at}

  -- The flash before round `i`: the messages `1` to `i` have moved, the others stand as before.
  pub record Shifted (i : ℕ) (start f : Flash) : Type 0 where
    pub moved : (j : ℕ) → j < i → blob_at f (sms_key j) ≡ get_elem? ms (j + 1)
    pub stays : (j : ℕ) → i ≤ j → j < length ms → blob_at f (sms_key j) ≡ get_elem? ms j
    pub count_stays : number_at f count_key ≡ number_at start count_key

  key_ne : (i j : ℕ) → i < length ms → j < length ms → i ≢ j → sms_key i ≢ sms_key j
  key_ne i j hi hj = sms_key-ne i j (omega arith) (omega arith)

  pub Shifted-Kept : (i : ℕ) (start f : Flash) → Shifted i start f → Kept N f ms
  Shifted-Kept i start f s j lt = elim (Bool-cases (ltb j i)) [
    | inl low ↦ inl (s.moved j (ltb→lt _ _ low))
    | inr high ↦ inr (s.stays (j + 1) (ground arith) lt)
  ]

  module _ (i : ℕ) (start f : Flash) (m : SmsMessage) (s : Shifted i start f)
      (inside : i + 1 < length ms) where
    abbrev after : Flash
    after = (N.set_blob f (sms_key i) m).0

    elsewhere : (j : ℕ) → j < length ms → i ≢ j → blob_at after (sms_key j) ≡ blob_at f (sms_key j)
    elsewhere j lt ne = N.set_blob_blob f _ m _ (key_ne i j (omega arith) lt ne)

    count_after : number_at after count_key ≡ number_at start count_key
    count_after = N.set_blob_number f _ m count_key (sms_key-ne-count_key i) ∙ s.count_stays

    Kept-after : Kept N after ms
    Kept-after j lt = elim (Bool-cases (ltb j i)) [
      | inl low ↦
          let below : j < i = ltb→lt _ _ low in
          inl (elsewhere j (omega arith) (omega arith) ∙ s.moved j below)
      | inr high ↦
          let above : i ≤ j = ground arith in
          inr (elsewhere (j + 1) lt (omega arith) ∙ s.stays (j + 1) (omega arith) lt)
    ]

    here :
        N.get_blob f (sms_key (i + 1)) ≡ found m
        → (N.set_blob f (sms_key i) m).1 ≡ true
        → blob_at after (sms_key i) ≡ get_elem? ms (i + 1)
    here got done =
        N.set_blob_ok f _ m done
        ∙ sym (N.get_blob_found f (sms_key (i + 1)) got)
        ∙ s.stays (i + 1) (omega arith) inside

    pub Shifted-after :
        N.get_blob f (sms_key (i + 1)) ≡ found m
        → (N.set_blob f (sms_key i) m).1 ≡ true
        → Shifted (i + 1) start after
    Shifted-after got done = record {
      moved = λ j lt. elim (Bool-cases (ltb j i)) [
        | inl low ↦
            let below : j < i = ltb→lt _ _ low in
            elsewhere j (omega arith) (omega arith) ∙ s.moved j below
        | inr high ↦
            let is : i ≡ j = ground arith in
            subst (λ k. blob_at after (sms_key k) ≡ get_elem? ms (k + 1)) is (here got done)
      ];
      stays = λ j le lt. elsewhere j lt (omega arith) ∙ s.stays j (omega arith) lt;
      count_stays = count_after;
    }

  -- The end of the loop, of which `rounds` rounds are left and `reached` is the first key that has
  -- not been filled.
  abbrev pub Moves : ℕ → ℕ → Flash → Flash → ℕ → Type 0
  Moves i rounds start f reached =
      (((shift_down N rounds i f).1 ≡ true) × Shifted reached start (shift_down N rounds i f).0)
      ⊎ (((shift_down N rounds i f).1 ≡ false)
          × Kept N (shift_down N rounds i f).0 ms
          × (number_at (shift_down N rounds i f).0 count_key ≡ number_at start count_key))

  -- The loop moves all messages or stops with the younger ones kept; the count stays.
  pub shift_down_lem :
      (rounds i : ℕ) (start f : Flash)
      → i + rounds + 1 ≡ length ms
      → Shifted i start f
      → Moves i rounds start f (i + rounds)
  unfolding shift_down
  shift_down_lem zero i start f e s = inl (refl, subst (λ k. Shifted k start f) (omega arith) s)
  shift_down_lem (suc rounds) i start f e s =
      elim (ReadResult-cases (N.get_blob f (sms_key (i + 1)))) [
        | inr (inl r) ↦ rw (r, shift_down) (inr (refl, Shifted-Kept i start f s, s.count_stays))
        | inr (inr r) ↦ rw (r, shift_down) (inr (refl, Shifted-Kept i start f s, s.count_stays))
        | inl (m, r) ↦ elim (Bool-cases (N.set_blob f (sms_key i) m).1) [
          | inr failed ↦
              rw (r, shift_down, failed)
                (inr (
                  refl,
                  Kept-after i start f m s (omega arith),
                  count_after i start f m s (omega arith),
                ))
          | inl done ↦
              rw (r, shift_down, done)
                (subst (λ k. Moves (i + 1) rounds start (after i start f m s (omega arith)) k)
                  (omega arith)
                  (shift_down_lem rounds (i + 1) start (after i start f m s (omega arith))
                    (omega arith) (Shifted-after i start f m s (omega arith) r done)))
        ]
      ]
