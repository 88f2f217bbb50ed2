-- ===== src/Dtu/Text.antt =====
-- The decoding of hexadecimal UTF-8 text in main/uart_dtu_manager.c.
pub mod Masks
pub mod Trim
pub mod Decode
pub mod Length
pub mod Tests
use Prim.Native.Nat.{bit_and, bit_or}
use mathlib.Core.List.{reverse}
use iot_sms.Base.{
  ℕ, zero, suc, ◌+◌, ◌-◌, ◌*◌, ◌/◌, ◌%◌, ◌^◌, Bool, ◌&&◌, ◌||◌, [], ◌∷◌, ◌++◌, Option, none, some,
  Bytes, length, take, ltb, leb, ◌==◌, not, if◌then◌else◌,
}
use iot_sms.CString.{c_str}

-- `none` is the -1 of the source.
unfoldable pub hex_char_to_int : ℕ → Option ℕ
hex_char_to_int c =
    if leb b'0' c && leb c b'9'
    then some (c - b'0')
    else if leb b'A' c && leb c b'F'
    then some (c - b'A' + 10)
    else if leb b'a' c && leb c b'f'
    then some (c - b'a' + 10)
    else none

-- `(byte & 0xC0) == 0x80`
unfoldable pub is_continuation : ℕ → Bool
is_continuation c = bit_and c 0xC0 == 0x80

-- `seq_len` of a lead byte
unfoldable pub seq_len : ℕ → ℕ
seq_len lead =
    if bit_and lead 0xE0 == 0xC0
    then 2
    else if bit_and lead 0xF0 == 0xE0
    then 3
    else if bit_and lead 0xF8 == 0xF0
    then 4
    else 1

-- The loop from the end of the array to the lead byte: the first argument is `3 - back`, the
-- second holds the bytes before `end`, from the last one, and the result is `back` with the bytes
-- that are left.
unfoldable pub step_back : ℕ → Bytes → ℕ → ℕ × Bytes
step_back zero before back = (back, before)
step_back (suc more) [] back = (back, [])
step_back (suc more) (c ∷ before) back =
    let further = step_back more before (back + 1) in
    if is_continuation c then further else (back, c ∷ before)

-- What is left of the array `buf` behind the loop; a lead byte that is overwritten ends the string
-- in front of it.
unfoldable pub trim_at : Bytes → ℕ × Bytes → Bytes
trim_at buf (back, []) = buf
trim_at buf (back, lead ∷ rest) = if ltb (back + 1) (seq_len lead) then reverse rest else buf

unfoldable pub utf8_trim_incomplete_tail : Bytes → Bytes
utf8_trim_incomplete_tail buf = trim_at buf (step_back 3 (reverse buf) 0)

-- `(hi << 4) | lo`, cast to `char`
unfoldable pub join_pair : ℕ → ℕ → ℕ
join_pair hi lo = bit_or (hi * 2 ^ 4) lo % 2 ^ 8

-- The loop over the first `byte_len` pairs; `none` is the -1 for an invalid character.
unfoldable pub decode_pairs : ℕ → Bytes → Option Bytes
decode_pairs zero hex = some []
decode_pairs (suc n) (c1 ∷ c2 ∷ hex) = elim (hex_char_to_int c1) [
  | none ↦ none
  | some hi ↦ elim (hex_char_to_int c2) [
    | none ↦ none
    | some lo ↦ elim (decode_pairs n hex) [ none ↦ none | some out ↦ some (join_pair hi lo ∷ out) ]
  ]
]
decode_pairs (suc n) _ = none

-- The bytes of `out`, whose number is returned; `none` is -1.
unfoldable pub decode_utf8_hex : Bytes → ℕ → Option Bytes
decode_utf8_hex hex out_size =
    let hex_len = length hex in
    if hex_len == 0 || not (hex_len % 2 == 0)
    then none
    else if leb out_size (hex_len / 2)
    then (elim (decode_pairs (out_size - 1) hex) [
      | none ↦ none
      | some out ↦ some (utf8_trim_incomplete_tail out)
    ])
    else decode_pairs (hex_len / 2) hex
