-- ===== src/Dtu/Parse.antt =====
-- `parse_sms_line` of main/uart_dtu_manager.c.
pub mod Report
pub mod Tests
use iot_sms.Base.{
  ℕ, ◌+◌, ◌-◌, Bool, true, false, ◌||◌, [], ◌∷◌, ◌++◌, Option, none, some, Bytes, codes, length,
  leb, ◌==◌, if◌then◌else◌,
}
use iot_sms.CString.{c_str, strip_prefix, split_at_char}
use iot_sms.Dtu.Text.{decode_utf8_hex}
use iot_sms.Message.{SmsMessage, sender_size, content_size}

abbrev pub sms_prefix : Bytes
sms_prefix = codes "config,sms,ok,"

-- The line behind its prefix, split at the comma.
unfoldable pub parse_fields : Bytes → Bytes → Option SmsMessage
parse_fields sender hex =
    if length sender == 0 || leb sender_size (length sender)
    then none
    else (elim (decode_utf8_hex hex content_size) [
      | none ↦ none
      | some content ↦ some (record { sender = sender; content = c_str content })
    ])

-- `none` is `false`.
unfoldable pub parse_sms_line : Bytes → Option SmsMessage
parse_sms_line line = elim (strip_prefix sms_prefix line) [
  | none ↦ none
  | some rest ↦ elim (split_at_char b',' rest) [
    | none ↦ none
    | some (sender, hex) ↦ parse_fields sender hex
  ]
]
