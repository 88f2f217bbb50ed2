-- ===== src/UartAt/Urc/Reports.antt =====
-- A buffer that holds well-formed reports one after the other, and how each of them is parsed.
use iot_sms.Base.{
  ℕ, ◌+◌, ◌<◌, false, List, [], ◌∷◌, ◌++◌, append_assoc, some, Bytes, All-append, length,
  length-append, take, drop, ◌==◌, ◌≡◌, refl, ap, arith, drop-append, drop_more, take-append,
}
use iot_sms.CString.{Without, split_at_char-append}
use iot_sms.CString.Search.{split_at_text-append}
use iot_sms.UartAt.Urc.{
  cmt_prefix, crlf, find_two_lines, find_sms_urc, decode_sender, quoted, parse_sender, trim_content,
  parse_content,
}

-- A report `+CMT: "sender",…`, with what stands in front of it in the buffer.
pub record Report : Type 0 where
  pub noise : Bytes
  pub gap : Bytes
  pub sender_hex : Bytes
  pub dates : Bytes
  pub content : Bytes

pub record IsReport (r : Report) : Type 0 where
  pub no_plus : Without b'+' r.noise
  pub gap_quote : Without b'"' r.gap
  pub gap_line : Without 0x0D r.gap
  pub sender_quote : Without b'"' r.sender_hex
  pub sender_line : Without 0x0D r.sender_hex
  pub dates_line : Without 0x0D r.dates
  pub content_return : Without 0x0D r.content
  pub content_feed : Without 0x0A r.content
  pub content_some : 0 < length r.content

abbrev pub report_header : Report → Bytes
report_header r = r.gap ++ b'"' ∷ (r.sender_hex ++ b'"' ∷ r.dates)

-- From `+CMT:` to the second end of line.
abbrev pub block : Report → Bytes
block r = cmt_prefix ++ report_header r ++ (crlf ++ (r.content ++ crlf))

-- The report, and the bytes behind it.
abbrev pub report_then : Report → Bytes → Bytes
report_then r t =
    r.noise ++ (cmt_prefix ++ (report_header r ++ (crlf ++ (r.content ++ (crlf ++ t)))))

abbrev pub stream : List Report → Bytes → Bytes
stream [] tail = tail
stream (r ∷ rs) tail = report_then r (stream rs tail)

pub header_line : (r : Report) → IsReport r → Without 0x0D (report_header r)
header_line r h =
    All-append _ r.gap _ h.gap_line
      (omega arith, All-append _ r.sender_hex _ h.sender_line (omega arith, h.dates_line))

find_two_lines-block :
    (r : Report) (t : Bytes)
    → IsReport r
    → find_two_lines (cmt_prefix ++ report_header r ++ (crlf ++ (r.content ++ (crlf ++ t))))
      ≡ some (cmt_prefix ++ report_header r, r.content, t)
unfolding find_two_lines
find_two_lines-block r t h =
    let first =
      split_at_text-append 0x0D (0x0A ∷ []) (cmt_prefix ++ report_header r)
        (r.content ++ (crlf ++ t)) (All-append _ cmt_prefix _ (ground arith) (header_line r h)) in
    let second = split_at_text-append 0x0D (0x0A ∷ []) r.content t h.content_return in
    rw (first, find_two_lines, second) refl

pub find-report :
    (r : Report) (t : Bytes)
    → IsReport r
    → find_sms_urc (report_then r t) ≡ some (length r.noise, length (block r))
unfolding find_sms_urc
find-report r t h =
    let here =
      split_at_text-append b'+' (b'C' ∷ b'M' ∷ b'T' ∷ b':' ∷ []) r.noise
        (report_header r ++ (crlf ++ (r.content ++ (crlf ++ t)))) h.no_plus in
    rw (here, find_sms_urc, find_two_lines-block r t h)
      (ap (λ (n : ℕ). some (length r.noise, n))
        (omega (
          arith,
          length-append (cmt_prefix ++ report_header r) (crlf ++ (r.content ++ crlf)),
          length-append r.content crlf,
        )))

block-then : (r : Report) (t : Bytes) → report_then r t ≡ r.noise ++ (block r ++ t)
block-then r t = ap (◌++◌ r.noise) (simp append_assoc)

pub report_block :
    (r : Report) (t : Bytes)
    → take (length (block r)) (drop (length r.noise) (report_then r t)) ≡ block r
report_block r t = rw (block-then r t, drop-append r.noise (block r ++ t)) (take-append (block r) t)

pub report_rest :
    (r : Report) (t : Bytes) → drop (length r.noise + length (block r)) (report_then r t) ≡ t
report_rest r t =
    rw (block-then r t, drop_more (length (block r)) r.noise (block r ++ t))
      (drop-append (block r) t)

trim_content_id : (s : Bytes) → Without 0x0D s → Without 0x0A s → trim_content s ≡ s
unfolding trim_content
trim_content_id [] h k = refl
trim_content_id (c ∷ s) (h, hs) (k, ks) =
    let return : (c == 0x0D) ≡ false = ground arith in
    let feed : (c == 0x0A) ≡ false = ground arith in
    rw (return, feed) (ap (◌∷◌ c) (trim_content_id s hs ks))

pub parse_sender-block :
    (r : Report) → IsReport r → parse_sender (block r) ≡ decode_sender r.sender_hex
unfolding parse_sender quoted
parse_sender-block r h =
    let line : block r
        ≡ cmt_prefix
          ++ r.gap
          ++ b'"' ∷ (r.sender_hex ++ b'"' ∷ (r.dates ++ (crlf ++ (r.content ++ crlf)))) =
      simp append_assoc in
    let open_quote =
      split_at_char-append b'"' (cmt_prefix ++ r.gap)
        (r.sender_hex ++ b'"' ∷ (r.dates ++ (crlf ++ (r.content ++ crlf))))
        (All-append _ cmt_prefix _ (ground arith) h.gap_quote) in
    let close_quote =
      split_at_char-append b'"' r.sender_hex (r.dates ++ (crlf ++ (r.content ++ crlf)))
        h.sender_quote in
    rw (line, open_quote, quoted, close_quote, parse_sender) refl

pub parse_content-block : (r : Report) → IsReport r → parse_content (block r) ≡ some r.content
unfolding parse_content
parse_content-block r h =
    let first =
      split_at_text-append 0x0D (0x0A ∷ []) (cmt_prefix ++ report_header r) (r.content ++ crlf)
        (All-append _ cmt_prefix _ (ground arith) (header_line r h)) in
    let second = split_at_text-append 0x0D (0x0A ∷ []) r.content [] h.content_return in
    rw (first, parse_content, second, parse_content)
      (ap some (trim_content_id r.content h.content_return h.content_feed))

pub shorter : (r : Report) (t : Bytes) → length t < length (report_then r t)
shorter r t = omega (
  arith,
  length-append r.noise (cmt_prefix ++ (report_header r ++ (crlf ++ (r.content ++ (crlf ++ t))))),
  length-append (report_header r) (crlf ++ (r.content ++ (crlf ++ t))),
  length-append r.content (crlf ++ t),
)
