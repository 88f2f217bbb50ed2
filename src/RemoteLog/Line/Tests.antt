-- ===== src/RemoteLog/Line/Tests.antt =====
-- The log lines of main/remote_log.c at concrete texts.
use iot_sms.Base.{ℕ, false, [], ◌∷◌, ◌++◌, some, ◌≡◌, refl, arith, Bytes, codes}
use iot_sms.CString.{Without, str_eq}
use iot_sms.Decimal.{decimal}
use iot_sms.RemoteLog.Line.{
  drop_line_ends, rl_strip_line, rl_parse_prefix, rl_tag_blocked, is_forwarded, rl_level_num,
}
use iot_sms.RemoteLog.Line.Parse.{log_line, rl_parse_prefix-log_line}
use iot_sms.RemoteLog.Line.Strip.{colour, rl_strip_line-colour}

abbrev code_i : ℕ
code_i = b'i'

abbrev text : Bytes
text = code_i ∷ []

text_plain : Without 0x1B text
text_plain = ((λ e. absurd (omega (arith, e))), tt)

text_whole : drop_line_ends text ≡ text
unfolding drop_line_ends
text_whole = refl

coloured_line_stripped :
    rl_strip_line (colour (codes "0;32") (text ++ colour (codes "0") (0x0A ∷ []))) ≡ text
coloured_line_stripped =
    rl_strip_line-colour (codes "0;32") (codes "0") text (refl, (refl, (refl, (refl, tt))))
      (refl, tt) text_plain text_whole

tag_plain : Without b':' text
tag_plain = ((λ e. absurd (omega (arith, e))), tt)

rl_parse_prefix-log_line_example :
    rl_parse_prefix (log_line b'W' (decimal 4711) text (codes " ready"))
    ≡ some (record { level = b'W'; tag = text; ts_ms = 4711 })
rl_parse_prefix-log_line_example =
    rl_parse_prefix-log_line b'W' 4711 code_i [] (codes " ready") refl (omega arith) tag_plain

blocked_debug :
    is_forwarded 5 (some (record { level = b'D'; tag = codes "outbox"; ts_ms = 1 })) ≡ false
unfolding is_forwarded rl_tag_blocked rl_level_num str_eq
blocked_debug = refl
