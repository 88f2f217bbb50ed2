-- ===== src/Dtu/Text/Tests.antt =====
-- The decoder of main/uart_dtu_manager.c at concrete texts.
use iot_sms.Base.{List, [], ◌∷◌, none, some, ◌≡◌, refl, arith, Bytes}
use iot_sms.Dtu.Text.{decode_utf8_hex}
use iot_sms.Dtu.Text.Decode.{hex_text, decode_utf8_hex-text}

-- A letter and two characters of three bytes.
abbrev characters : List Bytes
characters = (0x41 ∷ []) ∷ (0xE4 ∷ 0xB8 ∷ 0xAD ∷ []) ∷ (0xE5 ∷ 0x9B ∷ 0xBD ∷ []) ∷ []

decode_utf8_hex-text_example :
    decode_utf8_hex (hex_text (0x41 ∷ 0xE4 ∷ 0xB8 ∷ 0xAD ∷ 0xE5 ∷ 0x9B ∷ 0xBD ∷ [])) 7
    ≡ some (0x41 ∷ 0xE4 ∷ 0xB8 ∷ 0xAD ∷ [])
decode_utf8_hex-text_example =
    decode_utf8_hex-text characters 7
      (
        omega arith,
        (
          (omega arith, omega arith, (omega arith, omega arith), (omega arith, omega arith)),
          ((omega arith, omega arith, (omega arith, omega arith), (omega arith, omega arith)), tt),
        ),
      )
      (omega arith) (omega arith)

odd_text : decode_utf8_hex (0x34 ∷ []) 2048 ≡ none
unfolding decode_utf8_hex
odd_text = refl
