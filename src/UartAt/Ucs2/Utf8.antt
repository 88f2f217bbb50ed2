-- ===== src/UartAt/Ucs2/Utf8.antt =====
-- What the decoder writes: the UTF-8 text of the code units that the hex string spells.
use iot_sms.Base.{
  ℕ, suc, ◌+◌, ◌/◌, ◌%◌, ◌^◌, ◌≤◌, ◌<◌, List, [], ◌∷◌, ◌++◌, none, some, ◌≡◌, ◌⊎◌, inl, inr, refl,
  sym, ap, ◌∙◌, arith, Bytes, length, take, ltb, ltb→lt, if◌then◌else◌, Option-cases, Bool-cases,
  append-nil, append_assoc,
}
use iot_sms.Base.Bits.{bit_or_field, six_bits}
use iot_sms.CString.{c_str}
use iot_sms.UartAt.Ucs2.{
  size_sub, join_nibbles, put_char, code_unit, decode_step, decode_from, decode_ucs2_hex_to_utf8,
}
use iot_sms.UartAt.Ucs2.Bounds.{size_sub_exact}

-- The UTF-8 form of a character of the basic plane.
abbrev pub utf8 : ℕ → Bytes
utf8 c =
    if ltb c 0x80
    then c ∷ []
    else if ltb c 0x800
    then (192 + c / 64) ∷ (128 + c % 64) ∷ []
    else (224 + c / 4096) ∷ (128 + c / 64 % 64) ∷ (128 + c % 64) ∷ []

abbrev pub utf8_text : List ℕ → Bytes
utf8_text [] = []
utf8_text (c ∷ cs) = utf8 c ++ utf8_text cs

-- The code units up to the first group that is short or holds an invalid character.
abbrev pub code_units : Bytes → List ℕ
code_units (c1 ∷ c2 ∷ c3 ∷ c4 ∷ rest) = elim (code_unit c1 c2 c3 c4) [
  | none ↦ []
  | some c ↦ c ∷ code_units rest
]
code_units _ = []

-- The tests for a full array inside the loop never fail behind the loop's own test.
put_char-utf8 :
    (size : ℕ) (out : Bytes) (c : ℕ)
    → size < 2 ^ 32
    → length out + 4 < size
    → c < 2 ^ 16
    → put_char size out c ≡ some (out ++ utf8 c)
unfolding put_char size_sub
put_char-utf8 size out c word room h = ground (
  arith,
  bit_or_field 6 3 (c / 64),
  bit_or_field 4 14 (c / 4096),
  bit_or_field 6 2 (c / 64 % 64),
  bit_or_field 6 2 (c % 64),
  six_bits c,
  six_bits (c / 64),
)

code_unit-lt : (c1 c2 c3 c4 : ℕ) {c : ℕ} → code_unit c1 c2 c3 c4 ≡ some c → c < 2 ^ 16
unfolding code_unit join_nibbles
code_unit-lt c1 c2 c3 c4 e = ground arith

module _ (size : ℕ) (four : 4 ≤ size) (word : size < 2 ^ 32) where
  -- One round: it stops for lack of space, at an invalid group, or writes one whole character.
  pub decode_step_cases :
      (c1 c2 c3 c4 : ℕ) (out : Bytes)
      → ((decode_step size c1 c2 c3 c4 out ≡ none)
          × ((size ≤ length out + 4) ⊎ (code_unit c1 c2 c3 c4 ≡ none)))
        ⊎ ((c : ℕ) × (code_unit c1 c2 c3 c4 ≡ some c)
            × (decode_step size c1 c2 c3 c4 out ≡ some (out ++ utf8 c))
            × (length out + 4 < size))
  unfolding decode_step
  decode_step_cases c1 c2 c3 c4 out = elim (Bool-cases (ltb (length out) (size_sub size 4))) [
    | inl more ↦ elim (Option-cases (code_unit c1 c2 c3 c4)) [
      | inl bad ↦ inl (rw (more, bad), inr bad)
      | inr (c, unit) ↦
          let room : length out + 4 < size = omega (arith, ltb→lt _ _ more, exact) in
          inr (
            c,
            unit,
            rw (more, unit) (put_char-utf8 size out c word room (code_unit-lt c1 c2 c3 c4 unit)),
            room,
          )
    ]
    | inr full ↦ inl (rw full, inl (ground (arith, full, exact)))
  ]
    where
      exact : size_sub size 4 + 4 ≡ size
      exact = size_sub_exact size 4 four word

  decode_from-prefix :
      (hex out : Bytes)
      → (k : ℕ) × (decode_from size hex out ≡ out ++ utf8_text (take k (code_units hex)))
        × ((take k (code_units hex) ≡ code_units hex)
            ⊎ (size ≤ length (decode_from size hex out) + 4))
  unfolding decode_from
  decode_from-prefix (c1 ∷ c2 ∷ c3 ∷ c4 ∷ rest) out = elim (decode_step_cases c1 c2 c3 c4 out) [
    | inl (stop, why) ↦ (
      0,
      rw (stop, decode_from) (sym (append-nil out)),
      elim why [
        | inl full ↦ inr (rw (stop, decode_from) full)
        | inr bad ↦ inl (rw (bad, code_units))
      ],
    )
    | inr (c, unit, go, room) ↦
        let (k, text, all) = decode_from-prefix rest (out ++ utf8 c) in
        (
          suc k,
          rw (go, decode_from, unit, code_units) (text ∙ append_assoc out (utf8 c) _),
          elim all [
            | inl e ↦ inl (rw (unit, code_units) (ap (◌∷◌ c) e))
            | inr h ↦ inr (rw (go, decode_from) h)
          ],
        )
  ]
  decode_from-prefix _ out = (0, sym (append-nil out), inl refl)

  -- For any hex text and an array of 4 to 2^32 - 1 bytes, the bytes written are the UTF-8 form of a
  -- prefix of the code units that the text spells up to its first invalid or short group, and the
  -- prefix is all of them unless at most four bytes of the array are left.
  pub decode_ucs2_hex_to_utf8-prefix :
      (hex : Bytes)
      → (k : ℕ) × (decode_ucs2_hex_to_utf8 hex size ≡ utf8_text (take k (code_units (c_str hex))))
        × ((take k (code_units (c_str hex)) ≡ code_units (c_str hex))
            ⊎ (size ≤ length (decode_ucs2_hex_to_utf8 hex size) + 4))
  unfolding decode_ucs2_hex_to_utf8
  decode_ucs2_hex_to_utf8-prefix hex = decode_from-prefix (c_str hex) []
