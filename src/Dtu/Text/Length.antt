-- ===== src/Dtu/Text/Length.antt =====
-- The decoded text with its terminator fits into the array.
use mathlib.Core.List.{reverse, reverse_aux}
use iot_sms.Base.{
  ℕ, zero, suc, ◌+◌, ◌-◌, ◌/◌, ◌%◌, ◌≤◌, ◌<◌, not, ◌||◌, [], ◌∷◌, Option, none, some, ◌≡◌, inl, inr,
  sym, ap, arith, Bytes, length, leb, ltb, ◌==◌, Bool-cases, Option-cases, some-injective,
  none-some,
}
use iot_sms.Dtu.Text.{
  hex_char_to_int, is_continuation, seq_len, decode_pairs, utf8_trim_incomplete_tail,
  decode_utf8_hex, step_back, trim_at,
}

length-reverse_aux : (s t : Bytes) → length (reverse_aux s t) ≡ length s + length t
length-reverse_aux [] t = omega arith
length-reverse_aux (c ∷ s) t = omega (arith, length-reverse_aux s (c ∷ t))

length-reverse : (s : Bytes) → length (reverse s) ≡ length s
length-reverse s = omega (arith, length-reverse_aux s [])

length-step_back : (more : ℕ) (s : Bytes) (back : ℕ) → length (step_back more s back).1 ≤ length s
unfolding step_back
length-step_back zero s back = omega arith
length-step_back (suc more) [] back = omega arith
length-step_back (suc more) (c ∷ s) back = elim (Bool-cases (is_continuation c)) [
  | inl e ↦ rw e (omega (arith, length-step_back more s (back + 1)))
  | inr e ↦ rw e (omega arith)
]

length-trim_at :
    (buf : Bytes) (r : ℕ × Bytes) → length r.1 ≤ length buf → length (trim_at buf r) ≤ length buf
unfolding trim_at
length-trim_at buf (back, []) h = omega arith
length-trim_at buf (back, lead ∷ rest) h = elim (Bool-cases (ltb (back + 1) (seq_len lead))) [
  | inl e ↦ rw e (omega (arith, length-reverse rest))
  | inr e ↦ rw e (omega arith)
]

length-trim : (buf : Bytes) → length (utf8_trim_incomplete_tail buf) ≤ length buf
unfolding utf8_trim_incomplete_tail
length-trim buf =
    length-trim_at buf (step_back 3 (reverse buf) 0)
      (omega (arith, length-step_back 3 (reverse buf) 0, length-reverse buf))

-- The decoding loop writes as many bytes as it is asked for.
abbrev Writes : ℕ → Option Bytes → Type 0
Writes n o = (out : Bytes) → o ≡ some out → length out ≡ n

decode_pairs-length : (n : ℕ) (hex : Bytes) → Writes n (decode_pairs n hex)
unfolding decode_pairs
decode_pairs-length zero hex = λ out e. ap length (sym (some-injective e))
decode_pairs-length (suc n) [] = λ out e. absurd (none-some e)
decode_pairs-length (suc n) (c ∷ []) = λ out e. absurd (none-some e)
decode_pairs-length (suc n) (c1 ∷ c2 ∷ hex) = elim (Option-cases (hex_char_to_int c1)) [
  | inl e1 ↦ rw (e1, decode_pairs) (λ out e. absurd (none-some e))
  | inr (hi, e1) ↦ elim (Option-cases (hex_char_to_int c2)) [
    | inl e2 ↦ rw (e1, e2, decode_pairs) (λ out e. absurd (none-some e))
    | inr (lo, e2) ↦ elim (Option-cases (decode_pairs n hex)) [
      | inl e3 ↦ rw (e1, e2, e3, decode_pairs) (λ out e. absurd (none-some e))
      | inr (rest, e3) ↦
          rw (e1, e2, e3, decode_pairs)
            (λ out e.
              omega (arith, ap length (sym (some-injective e)), decode_pairs-length n hex rest e3))
    ]
  ]
]

abbrev pub FitsIn : ℕ → Option Bytes → Type 0
FitsIn size o = (out : Bytes) → o ≡ some out → length out < size

cut_FitsIn :
    (size : ℕ) (hex : Bytes)
    → 0 < size
    → FitsIn size (elim (decode_pairs (size - 1) hex) [
      | none ↦ none
      | some out ↦ some (utf8_trim_incomplete_tail out)
    ])
cut_FitsIn size hex pos = elim (Option-cases (decode_pairs (size - 1) hex)) [
  | inl e ↦ rw e (λ out f. absurd (none-some f))
  | inr (whole, e) ↦ rw e (λ out f. omega (
    arith,
    ap length (sym (some-injective f)),
    length-trim whole,
    decode_pairs-length (size - 1) hex whole e,
  ))
]

pub decode_utf8_hex-FitsIn :
    (hex : Bytes) (size : ℕ) → 0 < size → FitsIn size (decode_utf8_hex hex size)
unfolding decode_utf8_hex
decode_utf8_hex-FitsIn hex size pos =
    elim (Bool-cases (length hex == 0 || not (length hex % 2 == 0))) [
      | inl bad ↦ rw bad (λ out e. absurd (none-some e))
      | inr good ↦ elim (Bool-cases (leb size (length hex / 2))) [
        | inl long ↦ rw (good, long) (cut_FitsIn size hex pos)
        | inr short ↦
            rw (good, short)
              (λ out e.
                let written = decode_pairs-length (length hex / 2) hex out e in ground arith)
      ]
    ]
