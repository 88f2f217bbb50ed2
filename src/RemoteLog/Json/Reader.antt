-- ===== src/RemoteLog/Json/Reader.antt =====
-- An escaped line is read back from a JSON string.
use iot_sms.Base.{
  ℕ, zero, suc, ◌+◌, ◌*◌, ◌/◌, ◌%◌, ◌≤◌, ◌<◌, false, ◌&&◌, ◌||◌, [], ◌∷◌, ◌++◌, append-nil,
  append_assoc, Option, none, some, ◌≡◌, inl, inr, refl, sym, ap, subst, ◌∙◌, arith, Bytes, length,
  length-append, ltb, ltb→lt, leb, ◌==◌, ==_iff, if◌then◌else◌, Bool-cases,
}
use iot_sms.RemoteLog.Json.{
  hex_digit_lower, unicode_escape, escape_byte, escape_from, rl_json_escape,
}
use iot_sms.UartAt.Ucs2.{hex_char_to_int}

-- The text as JSON writes it inside the quotes.
abbrev pub escaped : Bytes → Bytes
escaped [] = []
escaped (c ∷ src) = escape_byte c ++ escaped src

length-escape_byte : (c : ℕ) → length (escape_byte c) ≤ 6
unfolding escape_byte
length-escape_byte c = ground arith

pub length-escaped : (src : Bytes) → length (escaped src) ≤ 6 * length src
length-escaped [] = omega arith
length-escaped (c ∷ src) =
    omega
      (arith, length-append (escape_byte c) (escaped src), length-escape_byte c, length-escaped src)

escape_from-escaped :
    (size : ℕ) (out src : Bytes)
    → length out + length (escaped src) < size
    → escape_from size out src ≡ some (out ++ escaped src)
unfolding escape_from
escape_from-escaped size out [] lt = ap some (sym (append-nil out))
escape_from-escaped size out (c ∷ src) lt =
    let whole = length-append (escape_byte c) (escaped src) in
    let grown = length-append out (escape_byte c) in
    let room : leb size (length out + length (escape_byte c)) ≡ false = ground (arith, whole) in
    let rest = escape_from-escaped size (out ++ escape_byte c) src (omega (arith, whole, grown)) in
    rw room (rest ∙ ap some (append_assoc out (escape_byte c) (escaped src)))

escape_from_full :
    (size : ℕ) (out src : Bytes)
    → length out < size
    → size ≤ length out + length (escaped src)
    → escape_from size out src ≡ none
unfolding escape_from
escape_from_full size out [] lt full = absurd (omega arith)
escape_from_full size out (c ∷ src) lt full =
    let whole = length-append (escape_byte c) (escaped src) in
    let grown = length-append out (escape_byte c) in
    elim (Bool-cases (leb size (length out + length (escape_byte c)))) [
      | inl e ↦ rw e refl
      | inr e ↦ rw e (
          escape_from_full size (out ++ escape_byte c) src (ground (arith, grown))
            (omega (arith, whole, grown)))
    ]

pub rl_json_escape_full :
    (size : ℕ) (src : Bytes)
    → 0 < size
    → size ≤ length (escaped src)
    → rl_json_escape size src ≡ none
unfolding rl_json_escape
rl_json_escape_full size src pos full = escape_from_full size [] src pos (omega arith)

pub rl_json_escape-escaped :
    (size : ℕ) (src : Bytes)
    → length (escaped src) < size
    → rl_json_escape size src ≡ some (escaped src)
unfolding rl_json_escape
rl_json_escape-escaped size src lt = escape_from-escaped size [] src (omega arith)

-- A reader of JSON strings: the quote that ends one, or a byte, which an escape may stand for.
pub data Token : Type 0 where
  quote : Token
  byte : ℕ → Token

unfoldable pub hex_pair : ℕ → ℕ → Bytes → Option (Token × Bytes)
hex_pair a b s = elim (hex_char_to_int a) [
  | none ↦ none
  | some h ↦ elim (hex_char_to_int b) [ none ↦ none | some l ↦ some (byte (h * 16 + l), s) ]
]

abbrev read_unicode : Bytes → Option (Token × Bytes)
read_unicode (z ∷ z' ∷ a ∷ b ∷ s) = if z == b'0' && z' == b'0' then hex_pair a b s else none
read_unicode _ = none

abbrev read_escape : Bytes → Option (Token × Bytes)
read_escape [] = none
read_escape (k ∷ s) =
    if k == b'u' then read_unicode s else if k == 0x22 || k == 0x5C then some (byte k, s) else none

abbrev read_token : Bytes → Option (Token × Bytes)
read_token [] = none
read_token (c ∷ s) =
    if c == 0x22 then some (quote, s) else if c == 0x5C then read_escape s else some (byte c, s)

abbrev put_byte : ℕ → Option (Bytes × Bytes) → Option (Bytes × Bytes)
put_byte c none = none
put_byte c (some (s, rest)) = some (c ∷ s, rest)

-- The first argument bounds the number of characters with the closing quote.
unfoldable pub read_string : ℕ → Bytes → Option (Bytes × Bytes)
read_string zero s = none
read_string (suc fuel) s = elim (read_token s) [
  | none ↦ none
  | some (quote, rest) ↦ some ([], rest)
  | some (byte c, rest) ↦ put_byte c (read_string fuel rest)
]

hex_char_to_int-hex_digit_lower : (d : ℕ) → d < 16 → hex_char_to_int (hex_digit_lower d) ≡ some d
unfolding hex_char_to_int hex_digit_lower
hex_char_to_int-hex_digit_lower d h = ground arith

hex_pair-some :
    (a b h l : ℕ) (s : Bytes)
    → hex_char_to_int a ≡ some h
    → hex_char_to_int b ≡ some l
    → hex_pair a b s ≡ some (byte (h * 16 + l), s)
unfolding hex_pair
hex_pair-some a b h l s e e' = rw (e, e', hex_pair) refl

read_token-unicode :
    (c : ℕ) (s : Bytes) → c < 32 → read_token (unicode_escape c ++ s) ≡ some (byte c, s)
read_token-unicode c s lt =
    let high = hex_char_to_int-hex_digit_lower (c / 16) (omega arith) in
    let low = hex_char_to_int-hex_digit_lower (c % 16) (omega arith) in
    let sum : c / 16 * 16 + c % 16 ≡ c = omega arith in
    hex_pair-some _ _ (c / 16) (c % 16) s high low ∙ ap (λ (n : ℕ). some (byte n, s)) sum

read_token-escape_byte : (c : ℕ) (s : Bytes) → read_token (escape_byte c ++ s) ≡ some (byte c, s)
unfolding escape_byte
read_token-escape_byte c s = elim (Bool-cases (c == 0x22)) [
  | inl e ↦
      subst (λ (k : ℕ). read_token (escape_byte k ++ s) ≡ some (byte k, s))
        (sym ((==_iff c 0x22).0 e)) refl
  | inr e ↦ elim (Bool-cases (c == 0x5C)) [
    | inl e' ↦
        subst (λ (k : ℕ). read_token (escape_byte k ++ s) ≡ some (byte k, s))
          (sym ((==_iff c 0x5C).0 e')) refl
    | inr e' ↦ elim (Bool-cases (ltb c 0x20)) [
      | inl low ↦ rw (e, e', low) (read_token-unicode c s (ltb→lt c 0x20 low))
      | inr high ↦ rw (e, e', high) (rw (e, e') refl)
    ]
  ]
]

read_string-byte :
    (fuel c : ℕ) (s r : Bytes)
    → read_token s ≡ some (byte c, r)
    → read_string (suc fuel) s ≡ put_byte c (read_string fuel r)
unfolding read_string
read_string-byte fuel c s r e = rw (e, read_string) refl

pub read_string-escaped :
    (fuel : ℕ) (src rest : Bytes)
    → length src < fuel
    → read_string fuel (escaped src ++ 0x22 ∷ rest) ≡ some (src, rest)
unfolding read_string
read_string-escaped zero src rest lt = absurd (omega arith)
read_string-escaped (suc fuel) [] rest lt = refl
read_string-escaped (suc fuel) (c ∷ src) rest lt =
    ap (read_string (suc fuel)) (append_assoc (escape_byte c) (escaped src) (0x22 ∷ rest))
    ∙ read_string-byte fuel c (escape_byte c ++ (escaped src ++ 0x22 ∷ rest))
        (escaped src ++ 0x22 ∷ rest) (read_token-escape_byte c (escaped src ++ 0x22 ∷ rest))
    ∙ ap (put_byte c) (read_string-escaped fuel src rest (omega arith))
