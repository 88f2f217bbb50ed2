-- ===== src/LogRedaction/Tests.antt =====
-- The theorems on main/log_redaction.c at concrete numbers.
use iot_sms.Base.{ℕ, true, some, ◌≡◌, refl, arith, Bytes, codes}
use iot_sms.CString.{str_eq}
use iot_sms.LogRedaction.{output, mask, mask_long, has_high_byte, log_mask_phone}
use iot_sms.LogRedaction.Privacy.{LookAlike, log_mask_phone-LookAlike}

abbrev zero_size : ℕ
zero_size = 0

abbrev first_phone : Bytes
first_phone = codes "+4915211114321"

abbrev second_phone : Bytes
second_phone = codes "+4915299994321"

look_alike : LookAlike first_phone second_phone
unfolding has_high_byte
look_alike = record {
  long_left = omega arith;
  long_right = omega arith;
  same_start = refl;
  same_end = refl;
  same_ascii = refl;
}

log_mask_phone-LookAlike_example :
    log_mask_phone (some first_phone) true 40 ≡ log_mask_phone (some second_phone) true 40
log_mask_phone-LookAlike_example =
    log_mask_phone-LookAlike first_phone second_phone true 40 look_alike

masked_phone : log_mask_phone (some first_phone) true 40 ≡ output (codes "+49***4321")
unfolding log_mask_phone mask mask_long has_high_byte str_eq
masked_phone = refl
