-- ===== src/UartAt/Ucs2/Tests.antt =====
-- Runs of the decoder, and its theorems at these inputs.
use iot_sms.Base.{ℕ, ◌+◌, ◌≤◌, List, [], ◌∷◌, ◌≡◌, ◌⊎◌, refl, arith, codes, length, take}
use iot_sms.CString.{c_str}
use iot_sms.UartAt.Ucs2.{
  decode_ucs2_hex_to_utf8, decode_from, decode_step, put_char, code_unit, hex_char_to_int,
  join_nibbles, size_sub,
}
use iot_sms.UartAt.Ucs2.Utf8.{utf8_text, code_units, decode_ucs2_hex_to_utf8-prefix}

decodes_hello : decode_ucs2_hex_to_utf8 (codes "00480069") 32 ≡ codes "Hi"
unfolding decode_ucs2_hex_to_utf8 decode_from decode_step put_char code_unit hex_char_to_int
    join_nibbles size_sub c_str
decodes_hello = refl

stops_at_bad_character : decode_ucs2_hex_to_utf8 (codes "0048zz690069") 32 ≡ codes "H"
unfolding decode_ucs2_hex_to_utf8 decode_from decode_step put_char code_unit hex_char_to_int
    join_nibbles size_sub c_str
stops_at_bad_character = refl

-- U+4E2D, "middle"
decodes_chinese : decode_ucs2_hex_to_utf8 (codes "4E2D") 32 ≡ 0xE4 ∷ 0xB8 ∷ 0xAD ∷ []
unfolding decode_ucs2_hex_to_utf8 decode_from decode_step put_char code_unit hex_char_to_int
    join_nibbles size_sub c_str
decodes_chinese = refl

abbrev word : List ℕ
word = 0x4E2D ∷ 0x56FD ∷ 0x48 ∷ []

decode_ucs2_hex_to_utf8-prefix_example :
    (k : ℕ) × (decode_ucs2_hex_to_utf8 (codes "4E2D56FD") 8
      ≡ utf8_text (take k (code_units (c_str (codes "4E2D56FD")))))
    × ((take k (code_units (c_str (codes "4E2D56FD"))) ≡ code_units (c_str (codes "4E2D56FD")))
        ⊎ (8 ≤ length (decode_ucs2_hex_to_utf8 (codes "4E2D56FD") 8) + 4))
decode_ucs2_hex_to_utf8-prefix_example =
    decode_ucs2_hex_to_utf8-prefix 8 (omega arith) (omega arith) (codes "4E2D56FD")
