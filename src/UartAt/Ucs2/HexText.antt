-- ===== src/UartAt/Ucs2/HexText.antt =====
-- The hex text of code units, as a modem in UCS2 mode sends it, is read back unit by unit.
use Prim.Native.Nat.{bit_or}
use iot_sms.Base.{
  ℕ, ◌+◌, ◌-◌, ◌*◌, ◌/◌, ◌%◌, ◌^◌, ◌<◌, List, [], ◌∷◌, some, ◌≡◌, refl, ap, ◌∙◌, ◌≢◌, arith, Bytes,
  All, ltb, if◌then◌else◌,
}
use iot_sms.Base.Bits.{bit_or_field}
use iot_sms.CString.{NoNul}
use iot_sms.UartAt.Ucs2.{hex_char_to_int, join_nibbles, code_unit}
use iot_sms.UartAt.Ucs2.Utf8.{code_units}

pub join_nibbles-sum :
    (h1 h2 h3 h4 : ℕ)
    → h1 < 16
    → h2 < 16
    → h3 < 16
    → h4 < 16
    → join_nibbles h1 h2 h3 h4 ≡ h1 * 4096 + h2 * 256 + h3 * 16 + h4
unfolding join_nibbles
join_nibbles-sum h1 h2 h3 h4 a b c d =
    rw (bit_or_field 12 h1 (h2 * 2 ^ 8) (omega arith), second, third) (omega arith)
  where
    second : bit_or (h1 * 2 ^ 12 + h2 * 2 ^ 8) (h3 * 2 ^ 4) ≡ h1 * 2 ^ 12 + h2 * 2 ^ 8 + h3 * 2 ^ 4
    second =
        let e : h1 * 2 ^ 12 + h2 * 2 ^ 8 ≡ (h1 * 16 + h2) * 2 ^ 8 = omega arith in
        rw e (bit_or_field 8 (h1 * 16 + h2) (h3 * 2 ^ 4) (omega arith))

    third :
        bit_or (h1 * 2 ^ 12 + h2 * 2 ^ 8 + h3 * 2 ^ 4) h4
        ≡ h1 * 2 ^ 12 + h2 * 2 ^ 8 + h3 * 2 ^ 4 + h4
    third =
        let e : h1 * 2 ^ 12 + h2 * 2 ^ 8 + h3 * 2 ^ 4 ≡ (h1 * 256 + h2 * 16 + h3) * 2 ^ 4 =
          omega arith in
        rw e (bit_or_field 4 (h1 * 256 + h2 * 16 + h3) h4 (omega arith))

abbrev pub IsUnit : ℕ → Type 0
IsUnit c = c < 2 ^ 16

-- The upper-case hex text of code units, as a modem in UCS2 mode sends it.
unfoldable pub upper_digit : ℕ → ℕ
upper_digit d = if ltb d 10 then b'0' + d else b'A' + (d - 10)

abbrev pub hex_text : List ℕ → Bytes
hex_text [] = []
hex_text (c ∷ cs) =
    upper_digit (c / 4096)
    ∷ upper_digit (c / 256 % 16)
    ∷ upper_digit (c / 16 % 16)
    ∷ upper_digit (c % 16)
    ∷ hex_text cs

pub hex_char_to_int-upper_digit : (d : ℕ) → d < 16 → hex_char_to_int (upper_digit d) ≡ some d
unfolding hex_char_to_int upper_digit
hex_char_to_int-upper_digit d h = ground arith

code_unit_valid :
    (c1 c2 c3 c4 : ℕ) {h1 h2 h3 h4 : ℕ}
    → hex_char_to_int c1 ≡ some h1
    → hex_char_to_int c2 ≡ some h2
    → hex_char_to_int c3 ≡ some h3
    → hex_char_to_int c4 ≡ some h4
    → code_unit c1 c2 c3 c4 ≡ some (join_nibbles h1 h2 h3 h4)
unfolding code_unit
code_unit_valid c1 c2 c3 c4 e1 e2 e3 e4 = ground arith

code_unit-upper_digit :
    (c : ℕ)
    → IsUnit c
    → code_unit
        (upper_digit (c / 4096))
        (upper_digit (c / 256 % 16))
        (upper_digit (c / 16 % 16))
        (upper_digit (c % 16))
      ≡ some c
code_unit-upper_digit c h =
    code_unit_valid _ _ _ _ (hex_char_to_int-upper_digit (c / 4096) (omega arith))
      (hex_char_to_int-upper_digit (c / 256 % 16) (omega arith))
      (hex_char_to_int-upper_digit (c / 16 % 16) (omega arith))
      (hex_char_to_int-upper_digit (c % 16) (omega arith))
    ∙ ap some (
        join_nibbles-sum (c / 4096) (c / 256 % 16) (c / 16 % 16) (c % 16) (omega arith)
          (omega arith) (omega arith) (omega arith)
        ∙ omega arith)

pub code_units-hex_text : (cs : List ℕ) → All IsUnit cs → code_units (hex_text cs) ≡ cs
code_units-hex_text [] h = refl
code_units-hex_text (c ∷ cs) h =
    rw (code_unit-upper_digit c h.0, code_units) (ap (◌∷◌ c) (code_units-hex_text cs h.1))

upper_digit-ne-zero : (d : ℕ) → upper_digit d ≢ 0
unfolding upper_digit
upper_digit-ne-zero d h = ground arith

pub hex_text-NoNul : (cs : List ℕ) → NoNul (hex_text cs)
hex_text-NoNul [] = tt
hex_text-NoNul (c ∷ cs) = (
  upper_digit-ne-zero (c / 4096),
  (
    upper_digit-ne-zero (c / 256 % 16),
    (upper_digit-ne-zero (c / 16 % 16), (upper_digit-ne-zero (c % 16), hex_text-NoNul cs)),
  ),
)
