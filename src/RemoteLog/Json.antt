-- ===== src/RemoteLog/Json.antt =====
-- `rl_json_escape` of main/remote_log.c.
pub mod Reader
use iot_sms.Base.{
  ℕ, zero, suc, ◌+◌, ◌-◌, ◌/◌, ◌%◌, ◌||◌, [], ◌∷◌, ◌++◌, Option, none, some, Bytes, length, ltb,
  leb, ◌==◌, if◌then◌else◌,
}

-- A digit of `%x`
unfoldable pub hex_digit_lower : ℕ → ℕ
hex_digit_lower d = if ltb d 10 then b'0' + d else b'a' + (d - 10)

-- `"\\u%04x"` of a byte below 32
abbrev pub unicode_escape : ℕ → Bytes
unicode_escape c =
    0x5C ∷ b'u' ∷ b'0' ∷ b'0' ∷ hex_digit_lower (c / 16) ∷ hex_digit_lower (c % 16) ∷ []

-- What one byte of the text is written as.
unfoldable pub escape_byte : ℕ → Bytes
escape_byte c =
    if c == 0x22 || c == 0x5C
    then 0x5C ∷ c ∷ []
    else if ltb c 0x20
    then unicode_escape c
    else c ∷ []

-- The loop behind the bytes `out`; `none` is the -1 of a full array.
unfoldable pub escape_from : ℕ → Bytes → Bytes → Option Bytes
escape_from dst_size out [] = some out
escape_from dst_size out (c ∷ src) =
    let rest = escape_from dst_size (out ++ escape_byte c) src in
    if leb dst_size (length out + length (escape_byte c)) then none else rest

unfoldable pub rl_json_escape : ℕ → Bytes → Option Bytes
rl_json_escape dst_size src = escape_from dst_size [] src
