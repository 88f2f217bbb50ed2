-- ===== src/RemoteLog/Line/Parse.antt =====
-- The standard prefix of a log line is parsed into its level, tag and time.
use iot_sms.Base.{
  ℕ, zero, suc, ◌+◌, ◌-◌, ◌*◌, ◌/◌, ◌%◌, ◌^◌, ◌≤◌, ◌<◌, true, false, [], ◌∷◌, ◌++◌, some, ◌≡◌, inl,
  inr, refl, ap, ◌∙◌, arith, Bytes, All, All-append, length, length-append, ltb, Bool-cases,
}
use iot_sms.CString.{Without, split_at_char-append}
use iot_sms.Decimal.{decimal, digits_of, value_from, value-decimal}
use iot_sms.RemoteLog.Line.{is_digit, is_level, read_number, parse_tag, parse_rest, rl_parse_prefix}

abbrev Digits : Bytes → Type 0
Digits = All (λ c. is_digit c ≡ true)

digits_of-Digits : (more n : ℕ) → Digits (digits_of more n)
unfolding digits_of
digits_of-Digits zero n = (ground arith, tt)
digits_of-Digits (suc more) n = elim (Bool-cases (ltb n 10)) [
  | inl one ↦ rw one (digit n one, tt)
  | inr many ↦ rw many (
      All-append (λ c. is_digit c ≡ true) (digits_of more (n / 10)) ((b'0' + n % 10) ∷ [])
        (digits_of-Digits more (n / 10)) (ground arith, tt))
]
  where
    digit : (n : ℕ) → ltb n 10 ≡ true → is_digit (b'0' + n) ≡ true
    digit n e = ground arith

value_from-le : (acc : ℕ) (s : Bytes) → acc ≤ value_from acc s
value_from-le acc [] = omega arith
value_from-le acc (c ∷ s) = omega (arith, value_from-le (acc * 10 + (c - b'0')) s)

read_number-Digits :
    (acc : ℕ) (ds : Bytes) (c : ℕ) (s : Bytes)
    → Digits ds
    → value_from acc ds < 2 ^ 32
    → is_digit c ≡ false
    → read_number acc (ds ++ c ∷ s) ≡ (value_from acc ds, c ∷ s)
unfolding read_number
read_number-Digits acc [] c s h lt stop = rw stop refl
read_number-Digits acc (d ∷ ds) c s (e, h) lt stop =
    let small : (acc * 10 + (d - b'0')) % 2 ^ 32 ≡ acc * 10 + (d - b'0') =
      omega (arith, value_from-le (acc * 10 + (d - b'0')) ds) in
    rw (e, small) (read_number-Digits (acc * 10 + (d - b'0')) ds c s h lt stop)

parse_tag-tag :
    (level ts : ℕ) (c : ℕ) (tag behind : Bytes)
    → Without b':' (c ∷ tag)
    → parse_tag level ts (c ∷ tag ++ b':' ∷ behind)
      ≡ some (record { level = level; tag = c ∷ tag; ts_ms = ts })
unfolding parse_tag
parse_tag-tag level ts c tag behind h =
    let split = split_at_char-append b':' (c ∷ tag) behind h in rw (split, parse_tag) refl

parse_rest-tag :
    (level ts : ℕ) (c : ℕ) (tag behind : Bytes)
    → Without b':' (c ∷ tag)
    → parse_rest level (ts, b')' ∷ b' ' ∷ (c ∷ tag ++ b':' ∷ behind))
      ≡ some (record { level = level; tag = c ∷ tag; ts_ms = ts })
unfolding parse_rest
parse_rest-tag level ts c tag behind h = parse_tag-tag level ts c tag behind h

-- The standard prefix with what follows it.
abbrev pub log_line : ℕ → Bytes → Bytes → Bytes → Bytes
log_line level digits tag behind =
    level ∷ b' ' ∷ b'(' ∷ (digits ++ b')' ∷ b' ' ∷ (tag ++ b':' ∷ behind))

rl_parse_prefix-value_from :
    (level : ℕ) (ds : Bytes) (c : ℕ) (tag behind : Bytes)
    → is_level level ≡ true
    → Digits ds
    → 0 < length ds
    → value_from 0 ds < 2 ^ 32
    → Without b':' (c ∷ tag)
    → rl_parse_prefix (log_line level ds (c ∷ tag) behind)
      ≡ some (record { level = level; tag = c ∷ tag; ts_ms = value_from 0 ds })
unfolding rl_parse_prefix
rl_parse_prefix-value_from level [] c tag behind l h pos lt plain = absurd (omega arith)
rl_parse_prefix-value_from level (d ∷ ds) c tag behind l (e, h) pos lt plain =
    let number =
      read_number-Digits 0 (d ∷ ds) b')' (b' ' ∷ (c ∷ tag ++ b':' ∷ behind)) (e, h) lt refl in
    rw (l, e)
      (ap (parse_rest level) number
        ∙ parse_rest-tag level (value_from 0 (d ∷ ds)) c tag behind plain)

length-digits_of_pos : (more n : ℕ) → 0 < length (digits_of more n)
unfolding digits_of
length-digits_of_pos zero n = omega arith
length-digits_of_pos (suc more) n = elim (Bool-cases (ltb n 10)) [
  | inl one ↦ rw one (omega arith)
  | inr many ↦
      rw many (omega (arith, length-append (digits_of more (n / 10)) ((b'0' + n % 10) ∷ [])))
]

decimal-Digits : (n : ℕ) → Digits (decimal n)
unfolding decimal
decimal-Digits n = digits_of-Digits 9 n

length-decimal_pos : (n : ℕ) → 0 < length (decimal n)
unfolding decimal
length-decimal_pos n = length-digits_of_pos 9 n

-- A line that starts with one of the five levels, a time of 32 bits in brackets and a tag of at
-- least one character without a colon, with the colon behind it, is parsed into the level, the tag
-- and the time, whatever follows.
pub rl_parse_prefix-log_line :
    (level ts_ms : ℕ) (c : ℕ) (tag behind : Bytes)
    → is_level level ≡ true
    → ts_ms < 2 ^ 32
    → Without b':' (c ∷ tag)
    → rl_parse_prefix (log_line level (decimal ts_ms) (c ∷ tag) behind)
      ≡ some (record { level = level; tag = c ∷ tag; ts_ms = ts_ms })
rl_parse_prefix-log_line level ts c tag behind l lt plain =
    let value = value-decimal ts lt in
    rl_parse_prefix-value_from level (decimal ts) c tag behind l (decimal-Digits ts)
      (length-decimal_pos ts) (omega arith) plain
    ∙ ap (λ (n : ℕ). some (record { level = level; tag = c ∷ tag; ts_ms = n })) value
