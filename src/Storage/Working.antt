-- ===== src/Storage/Working.antt =====
-- A storage whose operations all succeed, on which the operations of main/sms_storage.c succeed too.
use iot_sms.Base.{
  ℕ, zero, suc, ◌+◌, ◌-◌, ◌≤◌, ◌<◌, true, false, List, [], ◌∷◌, some, ◌≡◌, ◌≢◌, inl, inr, refl, sym,
  ap, subst, ◌∙◌, arith, Bytes, length, get_elem?, leb, ◌==◌, Bool-cases,
}
use iot_sms.Message.{SmsMessage}
use iot_sms.Storage.{
  EspErr, esp_ok, esp_fail, NextResult, next_message, no_message, next_failed, max_stored_sms,
  commit_changes, set_count, save_at, sms_storage_save, nothing_stored, sms_storage_get_next,
  shift_down, delete_first, sms_storage_delete_oldest,
}
use iot_sms.Storage.Contents.{Holds, open-Holds, count_found, count_missing}
use iot_sms.Storage.Keys.{count_key, sms_key}
use iot_sms.Storage.Nvs.{NvsStore, found, missing, unreadable, ReadResult-cases, open_failed}
use iot_sms.Storage.Delete.{unmoved}
use iot_sms.Storage.Read.{Peeks, sms_storage_get_next-Peeks}
use iot_sms.Storage.Shift.{Shifted, Shifted-after}

pub record IsWorking (N : NvsStore) : Type 0 where
  pub open_rw_works : (f : N.Flash) → (N.open_rw f).1 ≡ true
  pub open_ro_works : (f : N.Flash) → N.open_ro f ≢ open_failed
  pub get_u32_works : (f : N.Flash) (k : Bytes) → N.get_u32 f k ≢ unreadable
  pub get_blob_works :
      (f : N.Flash) (k : Bytes) {m : SmsMessage} → N.blob_at f k ≡ some m → N.get_blob f k ≡ found m
  pub set_u32_works : (f : N.Flash) (k : Bytes) (n : ℕ) → (N.set_u32 f k n).1 ≡ true
  pub set_blob_works : (f : N.Flash) (k : Bytes) (m : SmsMessage) → (N.set_blob f k m).1 ≡ true
  pub erase_all_works : (f : N.Flash) → (N.erase_all f).1 ≡ true
  pub commit_works : (f : N.Flash) → (N.commit f).1 ≡ true

pub get_elem?-some :
    (ms : List SmsMessage) (i : ℕ) → i < length ms → (m : SmsMessage) × (get_elem? ms i ≡ some m)
get_elem?-some [] i h = absurd (omega arith)
get_elem?-some (m ∷ ms) zero h = (m, refl)
get_elem?-some (m ∷ ms) (suc i) h = get_elem?-some ms i (omega arith)

-- The oldest message, if there is one.
abbrev pub oldest : List SmsMessage → NextResult
oldest [] = no_message
oldest (m ∷ ms) = next_message m

pub no-failed : {e : EspErr} → e ≡ esp_ok → e ≢ esp_fail
no-failed ok bad = ground (arith, ok, bad)

found-missing : {m : SmsMessage} → found m ≢ missing
found-missing e = ground arith

found-unreadable : {m : SmsMessage} → found m ≢ unreadable
found-unreadable e = ground arith

module _ (N : NvsStore) (w : IsWorking N) where
  open N use {Flash, number_at, blob_at}

  commit_changes_ok : (f : Flash) → (commit_changes N f).1 ≡ esp_ok
  unfolding commit_changes
  commit_changes_ok f = rw (w.commit_works f)

  set_count_ok : (f : Flash) (n : ℕ) → (set_count N f n).1 ≡ esp_ok
  unfolding set_count
  set_count_ok f n = rw (w.set_u32_works f count_key n) (commit_changes_ok _)

  save_at_ok :
      (f : Flash) (m : SmsMessage) (n : ℕ) → n < max_stored_sms → (save_at N f m n).1 ≡ esp_ok
  unfolding save_at
  save_at_ok f m n lt =
      let room : leb max_stored_sms n ≡ false = ground arith in
      rw (room, w.set_blob_works f (sms_key n) m) (set_count_ok _ (n + 1))

  save_at_full :
      (f : Flash) (m : SmsMessage) (n : ℕ) → max_stored_sms ≤ n → save_at N f m n ≡ (f, esp_fail)
  unfolding save_at
  save_at_full f m n le = let full : leb max_stored_sms n ≡ true = ground arith in rw full

  -- The save behind its tests.
  sms_storage_save-save_at :
      (f : Flash) (ms : List SmsMessage) (m : SmsMessage)
      → Holds N f ms
      → sms_storage_save N f (some m) ≡ save_at N (N.open_rw f).0 m (length ms)
  unfolding sms_storage_save
  sms_storage_save-save_at f ms m h =
      elim (ReadResult-cases (N.get_u32 (N.open_rw f).0 count_key)) [
        | inl (n, r) ↦
            rw (w.open_rw_works f, r, sms_storage_save)
              (ap (λ (k : ℕ). save_at N (N.open_rw f).0 m k) (count_found N _ ms held r))
        | inr (inl r) ↦
            rw (w.open_rw_works f, r, sms_storage_save)
              (ap (λ (k : ℕ). save_at N (N.open_rw f).0 m k)
                (sym (ap length (count_missing N _ ms held r))))
        | inr (inr r) ↦ absurd (w.get_u32_works _ count_key r)
      ]
    where
      held : Holds N (N.open_rw f).0 ms
      held = open-Holds N f ms h

  pub sms_storage_save_ok :
      (f : Flash) (ms : List SmsMessage) (m : SmsMessage)
      → Holds N f ms
      → length ms < max_stored_sms
      → (sms_storage_save N f (some m)).1 ≡ esp_ok
  sms_storage_save_ok f ms m h lt =
      ap (λ r. r.1) (sms_storage_save-save_at f ms m h) ∙ save_at_ok _ m (length ms) lt

  pub sms_storage_save_full :
      (f : Flash) (ms : List SmsMessage) (m : SmsMessage)
      → Holds N f ms
      → max_stored_sms ≤ length ms
      → sms_storage_save N f (some m) ≡ ((N.open_rw f).0, esp_fail)
  sms_storage_save_full f ms m h le =
      sms_storage_save-save_at f ms m h ∙ save_at_full _ m (length ms) le

  module _ (ms : List SmsMessage) (fits : length ms ≤ max_stored_sms) where
    shift_down_works :
        (rounds i : ℕ) (start f : Flash)
        → i + rounds + 1 ≡ length ms
        → Shifted N ms fits i start f
        → (shift_down N rounds i f).1 ≡ true
    unfolding shift_down
    shift_down_works zero i start f e s = refl
    shift_down_works (suc rounds) i start f e s =
        let (m, is) = get_elem?-some ms (i + 1) (omega arith) in
        let r : N.get_blob f (sms_key (i + 1)) ≡ found m =
          w.get_blob_works f _ (s.stays (i + 1) (omega arith) (omega arith) ∙ is) in
        let done = w.set_blob_works f (sms_key i) m in
        rw (r, shift_down, done)
          (shift_down_works rounds (i + 1) start _ (omega arith)
            (Shifted-after N ms fits i start f m s (omega arith) r done))

  delete_first_ok :
      (f : Flash) (ms : List SmsMessage)
      → Holds N f ms
      → 0 < length ms
      → (delete_first N f (length ms)).1 ≡ esp_ok
  unfolding delete_first
  delete_first_ok f ms h pos =
      rw (shift_down_works ms h.fits (length ms - 1) 0 f f (omega arith) (unmoved N f ms h))
        (set_count_ok _ (length ms - 1))

  pub sms_storage_delete_oldest_ok :
      (f : Flash) (ms : List SmsMessage) → Holds N f ms → (sms_storage_delete_oldest N f).1 ≡ esp_ok
  unfolding sms_storage_delete_oldest nothing_stored
  sms_storage_delete_oldest_ok f ms h =
      elim (ReadResult-cases (N.get_u32 (N.open_rw f).0 count_key)) [
        | inr (inl r) ↦ rw (w.open_rw_works f, r, sms_storage_delete_oldest) refl
        | inr (inr r) ↦ absurd (w.get_u32_works _ count_key r)
        | inl (n, r) ↦
            let is : n ≡ length ms = count_found N _ ms held r in
            elim (Bool-cases (n == 0)) [
              | inl z ↦ rw (w.open_rw_works f, r, sms_storage_delete_oldest, z) refl
              | inr p ↦
                  rw (w.open_rw_works f, r, sms_storage_delete_oldest, p)
                    (subst (λ (k : ℕ). (delete_first N (N.open_rw f).0 k).1 ≡ esp_ok) (sym is)
                      (delete_first_ok _ ms held (ground arith)))
            ]
      ]
    where
      held : Holds N (N.open_rw f).0 ms
      held = open-Holds N f ms h

  pub sms_storage_get_next-oldest :
      (f : Flash) (ms : List SmsMessage) → Holds N f ms → sms_storage_get_next N f true ≡ oldest ms
  sms_storage_get_next-oldest f ms h =
      go ms h (sms_storage_get_next N f true) (sms_storage_get_next-Peeks N f ms h)
    where
      go : (l : List SmsMessage) → Holds N f l → (r : NextResult) → Peeks N f l r → r ≡ oldest l
      go [] _ (next_message m) p = ground (arith, p)
      go (x ∷ l) _ (next_message m) p = ground (arith, p)
      go [] _ no_message p = refl
      go (x ∷ l) _ no_message (inl p) = ground (arith, p)
      go (x ∷ l) _ no_message (inr p) = absurd (w.get_u32_works f count_key p)
      go l _ next_failed (inl p) = absurd (w.open_ro_works f p)
      go [] _ next_failed (inr (pos, p)) = absurd (omega arith)
      go (x ∷ l) g next_failed (inr (pos, p)) =
          let r : N.get_blob f (sms_key 0) ≡ found x =
            w.get_blob_works f (sms_key 0) (g.blobs 0 pos) in
          elim p [
            | inl q ↦ absurd (found-missing (sym r ∙ q))
            | inr q ↦ absurd (found-unreadable (sym r ∙ q))
          ]
