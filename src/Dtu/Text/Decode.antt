-- ===== src/Dtu/Text/Decode.antt =====
-- Hexadecimal UTF-8 text is decoded to as many whole characters as the array has room for.
use iot_sms.Base.{
  ℕ, zero, suc, ◌-◌, ◌*◌, ◌/◌, ◌%◌, ◌≤◌, ◌<◌, true, false, not, ◌||◌, List, [], ◌∷◌, some, ◌≡◌, inl,
  inr, refl, sym, ap, ◌∙◌, arith, Bytes, All, All-append, length, length-append, take, take_all,
  leb, ◌==◌, Bool-cases,
}
use iot_sms.Base.Bits.{bit_or_field}
use iot_sms.Dtu.Text.{
  hex_char_to_int, join_pair, decode_pairs, utf8_trim_incomplete_tail, decode_utf8_hex, step_back,
  trim_at,
}
use iot_sms.Dtu.Text.Trim.{IsChar, text, fitting, trim-take}
use iot_sms.UartAt.Ucs2.HexText.{upper_digit}

-- The text that the modem sends for bytes.
abbrev pub hex_text : Bytes → Bytes
hex_text [] = []
hex_text (c ∷ s) = upper_digit (c / 16) ∷ upper_digit (c % 16) ∷ hex_text s

pub length-hex_text : (s : Bytes) → length (hex_text s) ≡ 2 * length s
length-hex_text [] = omega arith
length-hex_text (c ∷ s) = omega (arith, length-hex_text s)

hex_char_to_int-upper_digit : (d : ℕ) → d < 16 → hex_char_to_int (upper_digit d) ≡ some d
unfolding hex_char_to_int upper_digit
hex_char_to_int-upper_digit d h = ground arith

join_pair-sum : (c : ℕ) → c < 256 → join_pair (c / 16) (c % 16) ≡ c
unfolding join_pair
join_pair-sum c h = rw (bit_or_field 4 (c / 16) (c % 16) (omega arith)) (omega arith)

abbrev IsByte : ℕ → Type 0
IsByte c = c < 256

decode_pairs-hex_text :
    (n : ℕ) (s : Bytes)
    → All IsByte s
    → n ≤ length s
    → decode_pairs n (hex_text s) ≡ some (take n s)
unfolding decode_pairs
decode_pairs-hex_text zero s h le = refl
decode_pairs-hex_text (suc n) [] h le = absurd (omega arith)
decode_pairs-hex_text (suc n) (c ∷ s) (b, h) le =
    let hi = hex_char_to_int-upper_digit (c / 16) (omega arith) in
    let lo = hex_char_to_int-upper_digit (c % 16) (omega arith) in
    let rest = decode_pairs-hex_text n s h (omega arith) in
    rw (hi, lo, rest, decode_pairs) (ap (λ d. some (d ∷ take n s)) (join_pair-sum c b))

IsChar-bytes : (ch : Bytes) → IsChar ch → All IsByte ch
IsChar-bytes [] h = tt
IsChar-bytes (a ∷ []) h = (omega arith, tt)
IsChar-bytes (a ∷ b ∷ []) (l, h, tb) = (omega arith, (omega (arith, tb.1), tt))
IsChar-bytes (a ∷ b ∷ c ∷ []) (l, h, tb, tc) =
    (omega arith, (omega (arith, tb.1), (omega (arith, tc.1), tt)))
IsChar-bytes (a ∷ b ∷ c ∷ d ∷ []) (l, h, tb, tc, td) =
    (omega arith, (omega (arith, tb.1), (omega (arith, tc.1), (omega (arith, td.1), tt))))
IsChar-bytes (a ∷ b ∷ c ∷ d ∷ e ∷ ch) h = absurd h

text-bytes : (cs : List Bytes) → All IsChar cs → All IsByte (text cs)
text-bytes [] h = tt
text-bytes (ch ∷ cs) (h, hs) = All-append IsByte ch (text cs) (IsChar-bytes ch h) (text-bytes cs hs)

fitting_all : (n : ℕ) (cs : List Bytes) → length (text cs) ≤ n → take (fitting n cs) cs ≡ cs
fitting_all n [] le = take_all (fitting n []) [] (omega arith)
fitting_all n (ch ∷ cs) le =
    let fits : leb (length ch) n ≡ true = ground (arith, length-append ch (text cs)) in
    let rest = fitting_all (n - length ch) cs (omega (arith, length-append ch (text cs))) in
    rw fits (ap (◌∷◌ ch) rest)

trim_nil : utf8_trim_incomplete_tail [] ≡ []
unfolding utf8_trim_incomplete_tail trim_at step_back
trim_nil = refl

-- The hexadecimal text of UTF-8 characters that are at least one byte is decoded, into an array of
-- at least one byte, to as many of the first characters as fit in front of its terminator, and no
-- character is cut in two.
pub decode_utf8_hex-text :
    (cs : List Bytes) (out_size : ℕ)
    → All IsChar cs
    → 0 < length (text cs)
    → 0 < out_size
    → decode_utf8_hex (hex_text (text cs)) out_size
      ≡ some (text (take (fitting (out_size - 1) cs) cs))
unfolding decode_utf8_hex
decode_utf8_hex-text cs size h some_text room =
    rw even (elim (Bool-cases (leb size (length (hex_text (text cs)) / 2))) [
      | inl long ↦
          let cut = decode_pairs-hex_text (size - 1) (text cs) bytes (within long) in
          rw (long, cut, decode_utf8_hex) (ap some (trim-take (size - 1) cs [] h trim_nil))
      | inr short ↦
          rw short (ap (λ (n : ℕ). decode_pairs n (hex_text (text cs))) halved ∙ all short)
    ])
  where
    bytes : All IsByte (text cs)
    bytes = text-bytes cs h

    even : (length (hex_text (text cs)) == 0 || not (length (hex_text (text cs)) % 2 == 0)) ≡ false
    even = ground (arith, length-hex_text (text cs))

    halved : length (hex_text (text cs)) / 2 ≡ length (text cs)
    halved = omega (arith, length-hex_text (text cs))

    within : leb size (length (hex_text (text cs)) / 2) ≡ true → size - 1 ≤ length (text cs)
    within long = ground (arith, halved)

    all :
        leb size (length (hex_text (text cs)) / 2) ≡ false
        → decode_pairs (length (text cs)) (hex_text (text cs))
          ≡ some (text (take (fitting (size - 1) cs) cs))
    all short =
        let fits : length (text cs) ≤ size - 1 = ground (arith, halved) in
        decode_pairs-hex_text (length (text cs)) (text cs) bytes (omega arith)
        ∙ ap some (take_all (length (text cs)) (text cs) (omega arith))
        ∙ ap (λ l. some (text l)) (sym (fitting_all (size - 1) cs fits))
