-- ===== src/Dtu/Parse/Tests.antt =====
-- The parser of main/uart_dtu_manager.c at a concrete line.
use iot_sms.Base.{ℕ, ◌≢◌, List, [], ◌∷◌, none, some, ◌≡◌, refl, arith, Bytes, codes}
use iot_sms.CString.{Without, c_str, strip_prefix, split_at_char}
use iot_sms.Dtu.Parse.{parse_sms_line, parse_fields}
use iot_sms.Dtu.Parse.Report.{report, parse_sms_line-report, TakenFrom, parse_sms_line-TakenFrom}
use iot_sms.Dtu.Text.{decode_utf8_hex, decode_pairs, hex_char_to_int, join_pair}
use iot_sms.Dtu.Text.Decode.{hex_text}
use iot_sms.Message.{SmsMessage}

abbrev characters : List Bytes
characters = (0x41 ∷ []) ∷ (0xC3 ∷ 0xA9 ∷ []) ∷ []

abbrev number : Bytes
number = codes "10010"

abbrev code_one : ℕ
code_one = b'1'

abbrev code_zero : ℕ
code_zero = b'0'

number_plain : Without b',' number
number_plain = (one_plain, (zero_plain, (zero_plain, (one_plain, (zero_plain, tt)))))
  where
    one_plain : code_one ≢ b','
    one_plain e = omega arith

    zero_plain : code_zero ≢ b','
    zero_plain e = omega arith

abbrev pub sample : SmsMessage
sample = record { sender = number; content = 0x41 ∷ 0xC3 ∷ 0xA9 ∷ [] }

abbrev pub sample_line : Bytes
sample_line = codes "config,sms,ok,10010,41C3A9"

parse_sms_line-report_example :
    parse_sms_line (report number (hex_text (0x41 ∷ 0xC3 ∷ 0xA9 ∷ []))) ≡ some sample
unfolding c_str
parse_sms_line-report_example =
    parse_sms_line-report number characters number_plain (omega arith) (omega arith)
      (omega arith, ((omega arith, omega arith, (omega arith, omega arith)), tt)) (omega arith)

pub sample_parse : parse_sms_line sample_line ≡ some sample
unfolding parse_sms_line parse_fields strip_prefix split_at_char decode_utf8_hex decode_pairs
    hex_char_to_int join_pair c_str
sample_parse = refl

sent_answer : parse_sms_line (codes "config,sms,ok,0") ≡ none
unfolding parse_sms_line strip_prefix split_at_char
sent_answer = refl

parse_sms_line-TakenFrom_example : TakenFrom sample_line sample
parse_sms_line-TakenFrom_example = parse_sms_line-TakenFrom sample_line sample sample_parse
