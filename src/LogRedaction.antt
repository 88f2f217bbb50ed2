-- ===== src/LogRedaction.antt =====
-- main/log_redaction.c: the masking of phone numbers in the log.
pub mod Privacy
pub mod Tests
use iot_sms.Base.{
  ℕ, ◌+◌, ◌-◌, Bool, true, false, not, ◌&&◌, ◌||◌, [], ◌∷◌, ◌++◌, Option, none, some, Bytes, codes,
  length, take, drop, ltb, leb, ◌==◌, if◌then◌else◌,
}
use iot_sms.CString.{str_eq}

-- `LOG_REDACTED_VALUE`
abbrev pub log_redacted_value : Bytes
log_redacted_value = codes "[REDACTED]"

abbrev pub unknown : Bytes
unknown = codes "UNKNOWN"

-- What the function returns: the constant, or the array with the string that it holds.
pub data Masked : Type 0 where
  constant : Masked
  output : Bytes → Masked

-- `snprintf (output, output_size, "%s", s)` into an array that is not empty.
abbrev pub print : ℕ → Bytes → Bytes
print output_size s = take (output_size - 1) s

-- The loop that looks for a byte outside of ASCII.
unfoldable pub has_high_byte : Bytes → Bool
has_high_byte [] = false
has_high_byte (c ∷ s) = leb 0x80 c || has_high_byte s

-- `"%.3s***%s"`
abbrev pub masked : Bytes → Bytes
masked phone = take 3 phone ++ codes "***" ++ drop (length phone - 4) phone

unfoldable pub mask_long : ℕ → Bytes → Bytes
mask_long output_size phone =
    if leb output_size (length (masked phone))
    then print output_size log_redacted_value
    else masked phone

unfoldable pub mask : ℕ → Bytes → Bytes
mask output_size phone =
    if length phone == 0 || str_eq phone unknown
    then print output_size unknown
    else if has_high_byte phone
    then print output_size log_redacted_value
    else if leb (length phone) 7
    then print output_size log_redacted_value
    else mask_long output_size phone

-- The flag tells whether the array's pointer is other than NULL, and `none` is a NULL phone.
unfoldable pub log_mask_phone : Option Bytes → Bool → ℕ → Masked
log_mask_phone phone given output_size =
    if not given || output_size == 0 then constant else elim phone [
      | none ↦ output (print output_size unknown)
      | some s ↦ output (mask output_size s)
    ]
