-- ===== src/Dtu/Parse/Report.antt =====
-- Which lines `parse_sms_line` takes for a message, and the message that it gives.
use iot_sms.Base.{
  ◌-◌, ◌≤◌, ◌<◌, false, ◌||◌, List, [], ◌∷◌, ◌++◌, some, ◌≡◌, inl, inr, refl, ap, subst, ◌∙◌, arith,
  Bytes, All, length, take, leb, ◌==◌, Bool-cases, Option-cases, some-injective, none-some,
}
use iot_sms.CString.{
  c_str, strip_prefix, split_at_char, strip_prefix-append, strip_prefix-some, split_at_char-append,
  split_at_char-some, Without,
}
use iot_sms.Dtu.Parse.{sms_prefix, parse_fields, parse_sms_line}
use iot_sms.Dtu.Text.{decode_utf8_hex}
use iot_sms.Dtu.Text.Decode.{hex_text, decode_utf8_hex-text}
use iot_sms.Dtu.Text.Length.{decode_utf8_hex-FitsIn}
use iot_sms.Dtu.Text.Trim.{IsChar, text, fitting}
use iot_sms.Message.{SmsMessage, sender_size, content_size}

-- The line by which the modem reports a message.
abbrev pub report : Bytes → Bytes → Bytes
report sender hex = sms_prefix ++ sender ++ b',' ∷ hex

parse_fields-some :
    (sender hex content : Bytes)
    → 0 < length sender
    → length sender < sender_size
    → decode_utf8_hex hex content_size ≡ some content
    → parse_fields sender hex ≡ some (record { sender = sender; content = c_str content })
unfolding parse_fields
parse_fields-some sender hex content pos lt e =
    let good : (length sender == 0 || leb sender_size (length sender)) ≡ false = ground arith in
    rw (good, e, parse_fields) refl

parse_sms_line-fields :
    (sender hex : Bytes)
    → Without b',' sender
    → parse_sms_line (report sender hex) ≡ parse_fields sender hex
unfolding parse_sms_line
parse_sms_line-fields sender hex h =
    let behind = strip_prefix-append sms_prefix (sender ++ b',' ∷ hex) in
    let fields = split_at_char-append b',' sender hex h in rw (behind, fields, parse_sms_line) refl

-- The report line of a sender of 1 to 31 bytes without a comma and of the hexadecimal text of UTF-8
-- characters, at least one byte in all, is taken for the message with this sender and as content,
-- up to a NUL, the first characters that fit into 2047 bytes.
pub parse_sms_line-report :
    (sender : Bytes) (cs : List Bytes)
    → Without b',' sender
    → 0 < length sender
    → length sender < sender_size
    → All IsChar cs
    → 0 < length (text cs)
    → parse_sms_line (report sender (hex_text (text cs)))
      ≡ some (record {
        sender = sender;
        content = c_str (text (take (fitting (content_size - 1) cs) cs));
      })
parse_sms_line-report sender cs h pos lt chars some_text =
    parse_sms_line-fields sender (hex_text (text cs)) h
    ∙ parse_fields-some sender (hex_text (text cs)) _ pos lt
        (decode_utf8_hex-text cs content_size chars some_text (omega arith))

-- What a message that has been taken from a line tells of the line.
pub record TakenFrom (line : Bytes) (m : SmsMessage) : Type 0 where
  pub hex : Bytes
  pub is_report : line ≡ report m.sender hex
  pub sender_plain : Without b',' m.sender
  pub sender_some : 0 < length m.sender
  pub sender_fits : length m.sender < sender_size
  pub content_fits : length m.content < content_size

length-c_str : (s : Bytes) → length (c_str s) ≤ length s
unfolding c_str
length-c_str [] = omega arith
length-c_str (c ∷ s) = ground (arith, length-c_str s)

fields_TakenFrom :
    (line sender hex : Bytes) (m : SmsMessage)
    → line ≡ report sender hex
    → Without b',' sender
    → parse_fields sender hex ≡ some m
    → TakenFrom line m
unfolding parse_fields
fields_TakenFrom line sender hex m is plain =
    elim (Bool-cases (length sender == 0 || leb sender_size (length sender))) [
      | inl bad ↦ rw bad (λ e. absurd (none-some e))
      | inr good ↦ elim (Option-cases (decode_utf8_hex hex content_size)) [
        | inl e ↦ rw (good, e, parse_fields) (λ f. absurd (none-some f))
        | inr (content, e) ↦
            rw (good, e, parse_fields)
              (λ f. subst (TakenFrom line) (some-injective f) (taken content good e))
      ]
    ]
  where
    taken :
        (content : Bytes)
        → (length sender == 0 || leb sender_size (length sender)) ≡ false
        → decode_utf8_hex hex content_size ≡ some content
        → TakenFrom line (record { sender = sender; content = c_str content })
    taken content good e = record {
      hex = hex;
      is_report = is;
      sender_plain = plain;
      sender_some = ground arith;
      sender_fits = ground arith;
      content_fits = omega (
        arith,
        length-c_str content,
        decode_utf8_hex-FitsIn hex content_size (omega arith) content e,
      );
    }

-- A line that is taken for a message is the report prefix, the sender, a comma and further text;
-- the sender has no comma and 1 to 31 bytes, and the content with its terminator fits into 2048
-- bytes.
pub parse_sms_line-TakenFrom :
    (line : Bytes) (m : SmsMessage) → parse_sms_line line ≡ some m → TakenFrom line m
unfolding parse_sms_line
parse_sms_line-TakenFrom line m = elim (Option-cases (strip_prefix sms_prefix line)) [
  | inl e ↦ rw (e, parse_sms_line) (λ f. absurd (none-some f))
  | inr (rest, e) ↦ elim (Option-cases (split_at_char b',' rest)) [
    | inl e' ↦ rw (e, e', parse_sms_line) (λ f. absurd (none-some f))
    | inr ((sender, hex), e') ↦
        let (is, plain) = split_at_char-some b',' rest sender hex e' in
        rw (e, e', parse_sms_line)
          (fields_TakenFrom line sender hex m
            (strip_prefix-some sms_prefix line rest e ∙ ap (◌++◌ sms_prefix) is) plain)
  ]
]
