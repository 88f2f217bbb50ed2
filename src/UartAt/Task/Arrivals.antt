-- ===== src/UartAt/Task/Arrivals.antt =====
-- What stands in the receive buffer after chunks of well-formed reports, however they are cut.
use iot_sms.Base.{
  ℕ, zero, suc, ◌+◌, ◌<◌, false, List, [], ◌∷◌, ◌++◌, append-nil, append_assoc, some, Bytes, All,
  All-append, length, length-append, ltb, ◌≡◌, refl, sym, ap, ◌∙◌, arith, if◌then◌else◌, Bool-cases,
  inl, inr,
}
use iot_sms.CString.{strip_prefix}
use iot_sms.CString.Search.{split_at_text, starts_with, split_at_text-here, split_at_text-append}
use iot_sms.UartAt.Urc.{AtState, cmt_prefix, crlf}
use iot_sms.UartAt.Urc.Reports.{Report, IsReport, report_header, report_then, stream, header_line}
use iot_sms.UartAt.Receive.{buf_size, is_other_urc, clean, receive_data, signal}
use iot_sms.UartAt.Receive.Bounds.{clean-Within}
use iot_sms.UartAt.Receive.Chunks.{receive_roomy}
use iot_sms.UartAt.Receive.Clean.{clean_again, clean_line}
use iot_sms.UartAt.Commands.{receive_all}

abbrev pub blank_lines : ℕ → Bytes
blank_lines zero = []
blank_lines (suc n) = crlf ++ blank_lines n

-- In front of the report there are empty lines only, and its content is no notification.
pub record IsCalm (r : Report) : Type 0 where
  pub blank : (n : ℕ) × (r.noise ≡ blank_lines n)
  pub hex : is_other_urc r.content ≡ false

-- A line that is kept.
clean_kept :
    (s line behind : Bytes)
    → split_at_text crlf s ≡ some (line, behind)
    → is_other_urc line ≡ false
    → clean s ≡ line ++ (crlf ++ clean behind)
clean_kept s line behind e kept =
    clean_line s line behind e
    ∙ ap (λ b. if b then clean behind else line ++ (crlf ++ clean behind)) kept

header_kept : (r : Report) → is_other_urc (cmt_prefix ++ report_header r) ≡ false
unfolding is_other_urc starts_with strip_prefix
header_kept r = refl

empty_kept : is_other_urc [] ≡ false
unfolding is_other_urc starts_with strip_prefix
empty_kept = refl

-- From the header on.
abbrev from_header : Report → Bytes → Bytes
from_header r t = cmt_prefix ++ report_header r ++ (crlf ++ (r.content ++ (crlf ++ t)))

clean-from_header :
    (r : Report) (t : Bytes)
    → IsReport r
    → IsCalm r
    → clean (from_header r t) ≡ from_header r (clean t)
clean-from_header r t h calm =
    let header = cmt_prefix ++ report_header r in
    let first =
      split_at_text-append 0x0D (0x0A ∷ []) header (r.content ++ (crlf ++ t))
        (All-append _ cmt_prefix _ (ground arith) (header_line r h)) in
    let second = split_at_text-append 0x0D (0x0A ∷ []) r.content t h.content_return in
    clean_kept (from_header r t) header (r.content ++ (crlf ++ t)) first (header_kept r)
    ∙ ap (λ x. header ++ (crlf ++ x))
        (clean_kept (r.content ++ (crlf ++ t)) r.content t second calm.hex)

clean-blank_lines : (n : ℕ) (s : Bytes) → clean (blank_lines n ++ s) ≡ blank_lines n ++ clean s
clean-blank_lines zero s = refl
clean-blank_lines (suc n) s =
    clean_kept (crlf ++ (blank_lines n ++ s)) [] (blank_lines n ++ s)
      (split_at_text-here 0x0D (0x0A ∷ []) (blank_lines n ++ s)) empty_kept
    ∙ ap (◌++◌ crlf) (clean-blank_lines n s)

clean-report_then :
    (r : Report) (t : Bytes)
    → IsReport r
    → IsCalm r
    → clean (report_then r t) ≡ report_then r (clean t)
clean-report_then r t h calm =
    let (n, e) = calm.blank in
    ap (λ x. clean (x ++ from_header r t)) e
    ∙ clean-blank_lines n (from_header r t)
    ∙ ap (◌++◌ (blank_lines n)) (clean-from_header r t h calm)
    ∙ ap (λ x. x ++ from_header r (clean t)) (sym e)

pub clean-stream :
    (rs : List Report) (tail : Bytes)
    → All IsReport rs
    → All IsCalm rs
    → clean tail ≡ tail
    → clean (stream rs tail) ≡ stream rs tail
clean-stream [] tail h calm e = e
clean-stream (r ∷ rs) tail (h, hs) (c, cs) e =
    clean-report_then r (stream rs tail) h c ∙ ap (report_then r) (clean-stream rs tail hs cs e)

abbrev pub concat : List Bytes → Bytes
concat [] = []
concat (chunk ∷ chunks) = chunk ++ concat chunks

receive_nothing : {Queue : Type 0} (s : AtState Queue) → (receive_data s []).rx_buffer ≡ s.rx_buffer
unfolding receive_data
receive_nothing s = refl

clean_twice : (s : Bytes) → clean (clean s) ≡ clean s
clean_twice s = ap clean (sym (append-nil (clean s))) ∙ clean_again s [] ∙ ap clean (append-nil s)

receive_cleaned :
    {Queue : Type 0} (s : AtState Queue) (dtmp : Bytes)
    → clean s.rx_buffer ≡ s.rx_buffer
    → length s.rx_buffer + length dtmp < buf_size
    → (receive_data s dtmp).rx_buffer ≡ clean (s.rx_buffer ++ dtmp)
receive_cleaned s [] e fits = receive_nothing s ∙ sym e ∙ ap clean (sym (append-nil s.rx_buffer))
receive_cleaned s (c ∷ dtmp) e fits = receive_roomy s (c ∷ dtmp) (omega arith) fits

-- A cleaned buffer with room takes one of several chunks.
abbrev pub Grows : {Queue : Type 0} → AtState Queue → Bytes → Bytes → Type 0
Grows s chunk more =
    (clean (receive_data s chunk).rx_buffer ≡ (receive_data s chunk).rx_buffer)
    × (length (receive_data s chunk).rx_buffer + length more < buf_size)
    × (clean ((receive_data s chunk).rx_buffer ++ more) ≡ clean (s.rx_buffer ++ (chunk ++ more)))

pub receive_data-Grows :
    {Queue : Type 0} (s : AtState Queue) (chunk more : Bytes)
    → clean s.rx_buffer ≡ s.rx_buffer
    → length s.rx_buffer + length (chunk ++ more) < buf_size
    → Grows s chunk more
receive_data-Grows s chunk more e fits =
    let sum = length-append chunk more in
    let first = receive_cleaned s chunk e (omega arith) in
    let shorter = (clean-Within (s.rx_buffer ++ chunk)).shorter in
    (
      ap clean first ∙ clean_twice (s.rx_buffer ++ chunk) ∙ sym first,
      omega (arith, ap length first, shorter, length-append s.rx_buffer chunk),
      ap (λ x. clean (x ++ more)) first
          ∙ clean_again (s.rx_buffer ++ chunk) more
          ∙ ap clean (append_assoc s.rx_buffer chunk more),
    )

pub rx-receive_all :
    {Queue : Type 0} (chunks : List Bytes) (s : AtState Queue)
    → clean s.rx_buffer ≡ s.rx_buffer
    → length s.rx_buffer + length (concat chunks) < buf_size
    → (receive_all s chunks).rx_buffer ≡ clean (s.rx_buffer ++ concat chunks)
unfolding receive_all
rx-receive_all [] s e fits = sym e ∙ ap clean (sym (append-nil s.rx_buffer))
rx-receive_all (chunk ∷ chunks) s e fits =
    let (stays, room, same) = receive_data-Grows s chunk (concat chunks) e fits in
    rx-receive_all chunks (receive_data s chunk) stays room ∙ same

pub fragments-receive_data :
    {Queue : Type 0} (s : AtState Queue) (dtmp : Bytes)
    → (receive_data s dtmp).fragments ≡ s.fragments
unfolding receive_data signal
fragments-receive_data s dtmp = elim (Bool-cases (ltb 0 (length dtmp))) [
  | inl e ↦ rw e refl
  | inr e ↦ rw e refl
]

pub fragments-receive_all :
    {Queue : Type 0} (s : AtState Queue) (chunks : List Bytes)
    → (receive_all s chunks).fragments ≡ s.fragments
unfolding receive_all
fragments-receive_all s [] = refl
fragments-receive_all s (chunk ∷ chunks) =
    fragments-receive_all (receive_data s chunk) chunks ∙ fragments-receive_data s chunk
