-- ===== src/UartAt/Ucs2.antt =====
-- `hex_char_to_int` and `decode_ucs2_hex_to_utf8` of main/uart_at_manager.c.
pub mod Bounds
pub mod Utf8
pub mod HexText
pub mod RoundTrip
pub mod Tests
use Prim.Native.Nat.{bit_and, bit_or}
use iot_sms.Base.{
  ℕ, ◌+◌, ◌-◌, ◌*◌, ◌/◌, ◌%◌, ◌^◌, ◌&&◌, [], ◌∷◌, ◌++◌, Option, none, some, Bytes, length, ltb, leb,
  if◌then◌else◌,
}
use iot_sms.CString.{c_str}

-- `none` is the -1 of the source.
unfoldable pub hex_char_to_int : ℕ → Option ℕ
hex_char_to_int c =
    if leb b'0' c && leb c b'9'
    then some (c - b'0')
    else if leb b'A' c && leb c b'F'
    then some (c - b'A' + 10)
    else if leb b'a' c && leb c b'f'
    then some (c - b'a' + 10)
    else none

-- Subtraction of `size_t`, 32 bits wide.
unfoldable pub size_sub : ℕ → ℕ → ℕ
size_sub a b = (a + 2 ^ 32 - b) % 2 ^ 32

-- `(h1 << 12) | (h2 << 8) | (h3 << 4) | h4`
unfoldable pub join_nibbles : ℕ → ℕ → ℕ → ℕ → ℕ
join_nibbles h1 h2 h3 h4 =
    bit_or (bit_or (bit_or (h1 * 2 ^ 12) (h2 * 2 ^ 8)) (h3 * 2 ^ 4)) h4 % 2 ^ 16

-- Four hex characters; `none` if one of them is invalid.
unfoldable pub code_unit : ℕ → ℕ → ℕ → ℕ → Option ℕ
code_unit c1 c2 c3 c4 = elim (hex_char_to_int c1) [
  | none ↦ none
  | some h1 ↦ elim (hex_char_to_int c2) [
    | none ↦ none
    | some h2 ↦ elim (hex_char_to_int c3) [
      | none ↦ none
      | some h3 ↦ elim (hex_char_to_int c4) [
        | none ↦ none
        | some h4 ↦ some (join_nibbles h1 h2 h3 h4)
      ]
    ]
  ]
]

-- The conversion of one character behind the bytes `out`; `none` is the `break` of a full buffer.
unfoldable pub put_char : ℕ → Bytes → ℕ → Option Bytes
put_char size out c =
    if ltb c 0x80
    then some (out ++ c ∷ [])
    else if ltb c 0x800
    then (if ltb (length out + 1) (size_sub size 1)
        then some (out ++ bit_or 0xC0 (c / 2 ^ 6) ∷ bit_or 0x80 (bit_and c 0x3F) ∷ [])
        else none)
    else (if ltb (length out + 2) (size_sub size 1)
        then some (
            out
            ++ bit_or 0xE0 (c / 2 ^ 12)
              ∷ bit_or 0x80 (bit_and (c / 2 ^ 6) 0x3F)
              ∷ bit_or 0x80 (bit_and c 0x3F)
              ∷ [])
        else none)

-- The loop's test and one round of its body; `none` where the loop ends.
unfoldable pub decode_step : ℕ → ℕ → ℕ → ℕ → ℕ → Bytes → Option Bytes
decode_step size c1 c2 c3 c4 out =
    if ltb (length out) (size_sub size 4)
    then elim (code_unit c1 c2 c3 c4) [ none ↦ none | some c ↦ put_char size out c ]
    else none

-- The loop over groups of four hex characters; `out` holds the bytes written so far.
unfoldable pub decode_from : ℕ → Bytes → Bytes → Bytes
decode_from size (c1 ∷ c2 ∷ c3 ∷ c4 ∷ rest) out = elim (decode_step size c1 c2 c3 c4 out) [
  | none ↦ out
  | some out' ↦ decode_from size rest out'
]
decode_from size _ out = out

-- The bytes written in front of the terminator, into an array of `size` bytes.
unfoldable pub decode_ucs2_hex_to_utf8 : Bytes → ℕ → Bytes
decode_ucs2_hex_to_utf8 hex size = decode_from size (c_str hex) []
