-- ===== src/LogRedaction/Privacy.antt =====
-- What a masked phone number shows, and that it fits.
use iot_sms.Base.{
  ℕ, ◌-◌, ◌<◌, Bool, true, false, not, ◌||◌, ◌++◌, Option, none, some, ◌≡◌, ◌⊎◌, inl, inr, refl,
  sym, ap, ◌∙◌, arith, Bytes, codes, length, length-take, take, drop, leb, ◌==◌, if◌then◌else◌,
  Bool-cases,
}
use iot_sms.CString.{str_eq, str_eq_iff}
use iot_sms.LogRedaction.{
  log_redacted_value, unknown, constant, output, print, has_high_byte, masked, mask_long, mask,
  log_mask_phone,
}

length-mask :
    (output_size : ℕ) (phone : Bytes)
    → 0 < output_size
    → length (mask output_size phone) < output_size
unfolding mask mask_long
length-mask size phone pos = elim (Bool-cases (length phone == 0 || str_eq phone unknown)) [
  | inl e ↦ rw e (omega (arith, length-take (size - 1) unknown))
  | inr e ↦ elim (Bool-cases (has_high_byte phone)) [
    | inl h ↦ rw (e, h) (omega (arith, length-take (size - 1) log_redacted_value))
    | inr h ↦ elim (Bool-cases (leb (length phone) 7)) [
      | inl l ↦ rw (e, h, l) (omega (arith, length-take (size - 1) log_redacted_value))
      | inr l ↦ elim (Bool-cases (leb size (length (masked phone)))) [
        | inl b ↦ rw (e, h, l, b) (omega (arith, length-take (size - 1) log_redacted_value))
        | inr b ↦ rw (e, h, l, b) (ground arith)
      ]
    ]
  ]
]

-- The result is the constant just if there is no array or its size is 0, and otherwise a string
-- that fits into the array with its terminator.
pub log_mask_phone_fits :
    (phone : Option Bytes) (given : Bool) (output_size : ℕ)
    → ((log_mask_phone phone given output_size ≡ constant) × ((given ≡ false) ⊎ (output_size ≡ 0)))
      ⊎ ((s : Bytes) × (log_mask_phone phone given output_size ≡ output s)
          × (length s < output_size))
unfolding log_mask_phone
log_mask_phone_fits phone false size = inl (refl, inl refl)
log_mask_phone_fits phone true size = elim (Bool-cases (size == 0)) [
  | inl e ↦ inl (rw (e, log_mask_phone) refl, inr (ground arith))
  | inr e ↦ inr (written phone e)
]
  where
    written :
        (phone : Option Bytes)
        → size == 0 ≡ false
        → (s : Bytes) × (log_mask_phone phone true size ≡ output s) × (length s < size)
    written none e = (
      print size unknown,
      rw (e, log_mask_phone) refl,
      omega (arith, length-take (size - 1) unknown, pos e),
    )
      where
        pos : size == 0 ≡ false → 0 < size
        pos e = ground arith
    written (some s) e =
        (mask size s, rw (e, log_mask_phone) refl, length-mask size s (ground arith))

-- Two numbers of more than seven characters that differ only in what the mask hides.
pub record LookAlike (p q : Bytes) : Type 0 where
  pub long_left : 7 < length p
  pub long_right : 7 < length q
  pub same_start : take 3 p ≡ take 3 q
  pub same_end : drop (length p - 4) p ≡ drop (length q - 4) q
  pub same_ascii : has_high_byte p ≡ has_high_byte q

not_unknown : (p : Bytes) → 7 < length p → (length p == 0 || str_eq p unknown) ≡ false
not_unknown p long = elim (Bool-cases (str_eq p unknown)) [
  | inl e ↦
      let is : p ≡ unknown = (str_eq_iff p unknown).0 e in absurd (omega (arith, ap length is))
  | inr e ↦ let filled : (length p == 0) ≡ false = ground arith in rw (filled, e) refl
]

mask_of_long :
    (size : ℕ) (p : Bytes)
    → 7 < length p
    → mask size p ≡ (if has_high_byte p then print size log_redacted_value else mask_long size p)
unfolding mask
mask_of_long size p long =
    let more : leb (length p) 7 ≡ false = ground arith in rw (not_unknown p long) (rw more refl)

mask-LookAlike : (size : ℕ) (p q : Bytes) → LookAlike p q → mask size p ≡ mask size q
unfolding mask_long
mask-LookAlike size p q l =
    mask_of_long size p l.long_left
    ∙ ap (λ b. if b then print size log_redacted_value else mask_long size p) l.same_ascii
    ∙ ap
        (λ (s : Bytes).
          if has_high_byte q
          then print size log_redacted_value
          else if leb size (length s)
          then print size log_redacted_value
          else s)
        same
    ∙ sym (mask_of_long size q l.long_right)
  where
    same : masked p ≡ masked q
    same =
        ap (λ s. s ++ codes "***" ++ drop (length p - 4) p) l.same_start
        ∙ ap (λ s. take 3 q ++ codes "***" ++ s) l.same_end

-- Two numbers of more than seven characters with the same first three and last four characters,
-- both or neither with a byte outside of ASCII, are masked alike, so that nothing else of them
-- shows in the log.
pub log_mask_phone-LookAlike :
    (p q : Bytes) (given : Bool) (output_size : ℕ)
    → LookAlike p q
    → log_mask_phone (some p) given output_size ≡ log_mask_phone (some q) given output_size
unfolding log_mask_phone
log_mask_phone-LookAlike p q given size l =
    ap (λ s. if not given || size == 0 then constant else output s) (mask-LookAlike size p q l)
