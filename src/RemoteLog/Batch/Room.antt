-- ===== src/RemoteLog/Batch/Room.antt =====
-- A line of at most 255 bytes always fits into an empty batch.
use iot_sms.Base.{
  ℕ, ◌+◌, ◌-◌, ◌*◌, ◌%◌, ◌≤◌, ◌<◌, ◌^◌, true, false, ◌&&◌, [], ◌∷◌, ◌++◌, append_assoc, Option,
  none, some, ◌≡◌, ◌⊎◌, inl, inr, refl, sym, ap, arith, Bytes, codes, length, length-append, ltb,
  ltb→lt, leb, ◌==◌, Bool-cases, Option-cases, some-injective, none-some,
}
use iot_sms.CString.{split_at_char, split_at_char-some}
use iot_sms.Decimal.{length-decimal}
use iot_sms.RemoteLog.Batch.{
  avail, Source, header, breaks_json, line_prefix, comma, line_head, put_line, append_first,
}
use iot_sms.RemoteLog.Json.Reader.{
  escaped, length-escaped, rl_json_escape-escaped, rl_json_escape_full,
}
use iot_sms.RemoteLog.Line.{
  Prefix, is_digit, is_level, read_number, parse_tag, parse_rest, rl_parse_prefix,
}

length-read_number : (ts : ℕ) (s : Bytes) → length (read_number ts s).1 ≤ length s
unfolding read_number
length-read_number ts [] = omega arith
length-read_number ts (c ∷ s) = elim (Bool-cases (is_digit c)) [
  | inl e ↦ rw e (omega (arith, length-read_number ((ts * 10 + (c - b'0')) % 2 ^ 32) s))
  | inr e ↦ rw e (omega arith)
]

-- The tag of what is parsed is no longer than a line.
abbrev TagIn : ℕ → Option Prefix → Type 0
TagIn n o = (p : Prefix) → o ≡ some p → length p.tag ≤ n

parse_tag-TagIn : (level ts : ℕ) (s : Bytes) → TagIn (length s) (parse_tag level ts s)
unfolding parse_tag
parse_tag-TagIn level ts s = elim (Option-cases (split_at_char b':' s)) [
  | inl e ↦ rw (e, parse_tag) (λ p f. absurd (none-some f))
  | inr (([], behind), e) ↦ rw (e, parse_tag) (λ p f. absurd (none-some f))
  | inr ((c ∷ tag, behind), e) ↦
      let is = split_at_char-some b':' s (c ∷ tag) behind e in
      rw (e, parse_tag)
        (λ p f. omega (
          arith,
          ap (λ (p : Prefix). length p.tag) (sym (some-injective f)),
          ap length is.0,
          length-append tag (b':' ∷ behind),
        ))
]

parse_rest-TagIn :
    (level ts : ℕ) (s : Bytes) (n : ℕ) → length s ≤ n → TagIn n (parse_rest level (ts, s))
unfolding parse_rest
parse_rest-TagIn level ts [] n h = λ p f. absurd (none-some f)
parse_rest-TagIn level ts (a ∷ []) n h = λ p f. absurd (none-some f)
parse_rest-TagIn level ts (a ∷ b ∷ s) n h = elim (Bool-cases (a == b')' && b == b' ')) [
  | inl e ↦ rw e (λ p f. omega (arith, parse_tag-TagIn level ts s p f))
  | inr e ↦ rw e (λ p f. absurd (none-some f))
]

rl_parse_prefix-TagIn : (s : Bytes) → TagIn (length s) (rl_parse_prefix s)
unfolding rl_parse_prefix
rl_parse_prefix-TagIn (a ∷ b ∷ c ∷ d ∷ s) =
    elim (Bool-cases (is_level a && (b == b' ' && (c == b'(' && is_digit d)))) [
      | inl e ↦ rw e (
          parse_rest-TagIn a (read_number 0 (d ∷ s)).0 (read_number 0 (d ∷ s)).1 _
            (omega (arith, length-read_number 0 (d ∷ s))))
      | inr e ↦ rw e (λ p f. absurd (none-some f))
    ]
rl_parse_prefix-TagIn (a ∷ b ∷ c ∷ []) = λ p f. absurd (none-some f)
rl_parse_prefix-TagIn (a ∷ b ∷ []) = λ p f. absurd (none-some f)
rl_parse_prefix-TagIn (a ∷ []) = λ p f. absurd (none-some f)
rl_parse_prefix-TagIn [] = λ p f. absurd (none-some f)

pub length-line_prefix : (item : Bytes) → length (line_prefix item).tag ≤ length item + 3
unfolding line_prefix
length-line_prefix item = elim (Option-cases (rl_parse_prefix item)) [
  | inl e ↦ rw (e, line_prefix) (omega arith)
  | inr (p, e) ↦ elim (Bool-cases (breaks_json p.tag)) [
    | inl bad ↦ rw (e, line_prefix, bad) (omega arith)
    | inr good ↦ rw (e, line_prefix, good) (omega (arith, rl_parse_prefix-TagIn item p e))
  ]
]

-- What the line adds to a batch.
abbrev pub line_text : ℕ → Bytes → Bytes
line_text lines item = line_head lines (line_prefix item) ++ (escaped item ++ codes "\"}")

length-comma : (lines : ℕ) → length (comma lines) ≤ 1
length-comma lines = ground arith

length-line_head : (lines : ℕ) (p : Prefix) → length (line_head lines p) ≤ length p.tag + 60
unfolding line_head
length-line_head lines p =
    simp length-append (omega (arith, length-comma lines, length-decimal p.ts_ms))

length-header : (s : Source) → length (header s) ≤ length s.device_id + length s.phone + 80
unfolding header
length-header s = simp length-append (omega (arith, length-decimal s.seq, length-decimal s.dropped))

module _ (start : Bytes) (lines : ℕ) (item : Bytes) where
  abbrev opened : Bytes
  opened = start ++ line_head lines (line_prefix item)

  size : length start + length (line_text lines item) ≡ length opened + length (escaped item) + 2
  size = omega (
    arith,
    length-append start (line_head lines (line_prefix item)),
    length-append (line_head lines (line_prefix item)) (escaped item ++ codes "\"}"),
    length-append (escaped item) (codes "\"}"),
  )

  put_line-line_text :
      length start + length (line_text lines item) < avail
      → put_line start lines item ≡ some (start ++ line_text lines item)
  unfolding put_line
  put_line-line_text lt =
      let room : leb avail (length opened) ≡ false = ground (arith, size) in
      let msg = rl_json_escape-escaped (avail - length opened) item (omega (arith, size)) in
      let behind : leb avail (length opened + length (escaped item) + 2) ≡ false =
        ground (arith, size) in
      rw (room, msg, put_line, behind)
        (ap some
          (append_assoc start (line_head lines (line_prefix item)) (escaped item ++ codes "\"}")))

  put_line_full :
      avail ≤ length start + length (line_text lines item) → put_line start lines item ≡ none
  unfolding put_line
  put_line_full full = elim (Bool-cases (leb avail (length opened))) [
    | inl e ↦ rw e refl
    | inr e ↦ elim (Bool-cases (ltb (length (escaped item)) (avail - length opened))) [
      | inl fits ↦
          let msg = rl_json_escape-escaped (avail - length opened) item (ltb→lt _ _ fits) in
          let behind : leb avail (length opened + length (escaped item) + 2) ≡ true =
            ground (arith, size) in
          rw (e, msg, put_line, behind) refl
      | inr over ↦
          let msg =
            rl_json_escape_full (avail - length opened) item (ground arith) (ground arith) in
          rw (e, msg, put_line) refl
    ]
  ]

pub length-line_text :
    (lines : ℕ) (item : Bytes) → length (line_text lines item) ≤ 7 * length item + 70
length-line_text lines item = simp length-append (
    omega (
      arith,
      length-line_head lines (line_prefix item),
      length-line_prefix item,
      length-escaped item,
    ))

-- A line, the device and the phone as they are kept in their arrays.
pub record IsSmall (s : Source) (item : Bytes) : Type 0 where
  pub device_fits : length s.device_id < 32
  pub phone_fits : length s.phone < 24
  pub line_fits : length item < 256

pub first_fits :
    (s : Source) (item : Bytes)
    → IsSmall s item
    → length (header s) + length (line_text 0 item) < avail
first_fits s item small = omega (
  arith,
  length-header s,
  length-line_text 0 item,
  small.device_fits,
  small.phone_fits,
  small.line_fits,
)

pub append_first-line_text :
    (s : Source) (item : Bytes)
    → IsSmall s item
    → append_first s item ≡ (record { bytes = header s ++ line_text 0 item; lines = 1 }, true)
unfolding append_first
append_first-line_text s item small =
    let fits = first_fits s item small in
    let room : leb avail (length (header s)) ≡ false = ground (arith, fits) in
    let put = put_line-line_text (header s) 0 item fits in rw (room, put, append_first) refl

-- What a line is put into is left with room for the end of the batch.
abbrev pub PutWell : Bytes → ℕ → Bytes → Option Bytes → Type 0
PutWell start lines item o =
    (o ≡ none)
    ⊎ ((o ≡ some (start ++ line_text lines item))
        × (length (start ++ line_text lines item) < avail))

pub put_line-PutWell :
    (start : Bytes) (lines : ℕ) (item : Bytes)
    → PutWell start lines item (put_line start lines item)
put_line-PutWell start lines item =
    elim (Bool-cases (ltb (length start + length (line_text lines item)) avail)) [
      | inl fits ↦ inr (
        put_line-line_text start lines item (ltb→lt _ _ fits),
        omega (arith, length-append start (line_text lines item), ltb→lt _ _ fits),
      )
      | inr full ↦ inl (put_line_full start lines item (ground arith))
    ]
