-- ===== src/Storage/FlashModel.antt =====
-- A concrete namespace on which the theorems are tried: values under keys, and a number of writes
-- after which every write fails if the flash is worn.
use iot_sms.Base.{
  ℕ, ◌-◌, Bool, true, false, Option, none, some, ◌≡◌, ◌≢◌, ◌⊎◌, inl, inr, refl, ap, arith, Bytes,
  ◌==◌, Bool-cases, if◌then◌else◌, ◌&&◌,
}
use iot_sms.CString.{str_eq, str_eq_iff}
use iot_sms.Message.{SmsMessage}
use iot_sms.Storage.Nvs.{NvsStore, ReadResult, found, missing, unreadable, opened, no_namespace}
use iot_sms.Storage.Working.{IsWorking}

pub record FlashModel : Type 0 where
  pub numbers : Bytes → Option ℕ
  pub blobs : Bytes → Option SmsMessage
  pub writes_left : ℕ

abbrev put {ℓ} : {A : Type ℓ} → (Bytes → Option A) → Bytes → Option A → Bytes → Option A
put table k v j = if str_eq k j then v else table j

put_same {ℓ} :
    {A : Type ℓ} (table : Bytes → Option A) (k : Bytes) (v : Option A) → put table k v k ≡ v
put_same table k v = rw ((str_eq_iff k k).1 refl)

pub put_other {ℓ} :
    {A : Type ℓ} (table : Bytes → Option A) (k : Bytes) (v : Option A) (j : Bytes)
    → k ≢ j
    → put table k v j ≡ table j
put_other table k v j ne = elim (Bool-cases (str_eq k j)) [
  | inl e ↦ absurd (ne ((str_eq_iff k j).0 e))
  | inr e ↦ rw e
]

abbrev read_of {ℓ} : {A : Type ℓ} → Option A → ReadResult A
read_of none = missing
read_of (some a) = found a

pub read_of_found {ℓ} : {A : Type ℓ} (o : Option A) {a : A} → read_of o ≡ found a → o ≡ some a
read_of_found none e = absurd (ground arith)
read_of_found (some a) e = ap some (ground (arith, e))

pub read_of_missing {ℓ} : {A : Type ℓ} (o : Option A) → read_of o ≡ missing → o ≡ none
read_of_missing none e = refl
read_of_missing (some a) e = absurd (ground arith)

read_of-some {ℓ} : {A : Type ℓ} (o : Option A) {a : A} → o ≡ some a → read_of o ≡ found a
read_of-some o e = ap read_of e

no-unreadable {ℓ} : {A : Type ℓ} (o : Option A) → read_of o ≢ unreadable
no-unreadable none e = ground arith
no-unreadable (some a) e = ground arith

pub opened-no_namespace : opened ≢ no_namespace
opened-no_namespace e = ground arith

module _ (worn : Bool) where
  abbrev fails : FlashModel → Bool
  fails f = worn && (f.writes_left == 0)

  -- A write that fails changes nothing.
  abbrev write : FlashModel → FlashModel → FlashModel × Bool
  write f f' = if fails f then (f, false) else (record f' { writes_left = f.writes_left - 1 }, true)

  write-true : (f g : FlashModel) → (write f g).1 ≡ true → fails f ≡ false
  write-true f g e = ground arith

  write-false : (f g : FlashModel) → (write f g).1 ≡ false → fails f ≡ true
  write-false f g e = ground arith

  pub write_numbers :
      (f g : FlashModel) (j : Bytes)
      → g.numbers j ≡ f.numbers j
      → (write f g).0.numbers j ≡ f.numbers j
  write_numbers f g j e = elim (Bool-cases (fails f)) [ inl x ↦ rw x refl | inr x ↦ rw x e ]

  pub write_blobs :
      (f g : FlashModel) (j : Bytes) → g.blobs j ≡ f.blobs j → (write f g).0.blobs j ≡ f.blobs j
  write_blobs f g j e = elim (Bool-cases (fails f)) [ inl x ↦ rw x refl | inr x ↦ rw x e ]

  abbrev put_number : FlashModel → Bytes → ℕ → FlashModel
  put_number f k n = record f { numbers = put f.numbers k (some n) }

  abbrev put_blob : FlashModel → Bytes → SmsMessage → FlashModel
  put_blob f k m = record f { blobs = put f.blobs k (some m) }

  abbrev remove : FlashModel → Bytes → FlashModel
  remove f k = record f { numbers = put f.numbers k none; blobs = put f.blobs k none }

  abbrev no_values : FlashModel → FlashModel
  no_values f = record f { numbers = λ k. none; blobs = λ k. none }

  pub set_number_ok :
      (f : FlashModel) (k : Bytes) (n : ℕ)
      → (write f (put_number f k n)).1 ≡ true
      → (write f (put_number f k n)).0.numbers k ≡ some n
  set_number_ok f k n e = rw (write-true f (put_number f k n) e) (put_same f.numbers k (some n))

  pub set_number_fail :
      (f : FlashModel) (k : Bytes) (n : ℕ)
      → (write f (put_number f k n)).1 ≡ false
      → ((write f (put_number f k n)).0.numbers k ≡ f.numbers k)
        ⊎ ((write f (put_number f k n)).0.numbers k ≡ some n)
  set_number_fail f k n e = inl (rw (write-false f (put_number f k n) e) refl)

  pub set_blob_ok :
      (f : FlashModel) (k : Bytes) (m : SmsMessage)
      → (write f (put_blob f k m)).1 ≡ true
      → (write f (put_blob f k m)).0.blobs k ≡ some m
  set_blob_ok f k m e = rw (write-true f (put_blob f k m) e) (put_same f.blobs k (some m))

  pub set_blob_fail :
      (f : FlashModel) (k : Bytes) (m : SmsMessage)
      → (write f (put_blob f k m)).1 ≡ false
      → ((write f (put_blob f k m)).0.blobs k ≡ f.blobs k)
        ⊎ ((write f (put_blob f k m)).0.blobs k ≡ some m)
  set_blob_fail f k m e = inl (rw (write-false f (put_blob f k m) e) refl)

  pub erase_all_ok :
      (f : FlashModel) (k : Bytes)
      → (write f (no_values f)).1 ≡ true
      → (write f (no_values f)).0.numbers k ≡ none
  erase_all_ok f k e = rw (write-true f (no_values f) e) refl

  abbrev pub flash_model : NvsStore
  flash_model = record {
    Flash = FlashModel;
    open_ro = λ f. opened;
    open_rw = λ f. (f, true);
    get_u32 = λ f k. read_of (f.numbers k);
    set_u32 = λ f k n. write f (put_number f k n);
    get_blob = λ f k. read_of (f.blobs k);
    set_blob = λ f k m. write f (put_blob f k m);
    erase_key = λ f k. write f (remove f k);
    erase_all = λ f. write f (no_values f);
    commit = λ f. (f, true);
    number_at = λ f k. f.numbers k;
    blob_at = λ f k. f.blobs k;
    get_u32_found = λ f k e. read_of_found (f.numbers k) e;
    get_u32_missing = λ f k e. read_of_missing (f.numbers k) e;
    get_blob_found = λ f k e. read_of_found (f.blobs k) e;
    no_namespace_empty = λ f k e. absurd (opened-no_namespace e);
    open_number = λ f k. refl;
    open_blob = λ f k. refl;
    commit_number = λ f k. refl;
    commit_blob = λ f k. refl;
    set_u32_ok = λ f k n e. set_number_ok f k n e;
    set_u32_fail = λ f k n e. set_number_fail f k n e;
    set_u32_blob = λ f k n j ne. write_blobs f (put_number f k n) j refl;
    set_blob_ok = λ f k m e. set_blob_ok f k m e;
    set_blob_fail = λ f k m e. set_blob_fail f k m e;
    set_blob_blob =
        λ f k m j ne. write_blobs f (put_blob f k m) j (put_other f.blobs k (some m) j ne);
    set_blob_number = λ f k m j ne. write_numbers f (put_blob f k m) j refl;
    erase_key_blob = λ f k j ne. write_blobs f (remove f k) j (put_other f.blobs k none j ne);
    erase_key_number = λ f k j ne. write_numbers f (remove f k) j (put_other f.numbers k none j ne);
    erase_all_ok = λ f k e. erase_all_ok f k e;
  }

-- Flash that is not worn works.
pub flash_model-IsWorking : IsWorking (flash_model false)
flash_model-IsWorking = record {
  open_rw_works = λ f. refl;
  open_ro_works = λ f e. ground (arith, e);
  get_u32_works = λ f k e. no-unreadable (f.numbers k) e;
  get_blob_works = λ f k e. read_of-some (f.blobs k) e;
  set_u32_works = λ f k n. refl;
  set_blob_works = λ f k m. refl;
  erase_all_works = λ f. refl;
  commit_works = λ f. refl;
}
