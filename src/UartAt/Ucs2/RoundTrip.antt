-- ===== src/UartAt/Ucs2/RoundTrip.antt =====
-- The decoded text read back by a reader of UTF-8.
use iot_sms.Base.{
  ℕ, zero, suc, ◌+◌, ◌-◌, ◌*◌, ◌/◌, ◌%◌, ◌≤◌, ◌<◌, List, [], ◌∷◌, ◌++◌, Option, none, some, ◌≡◌,
  inl, inr, refl, ap, ◌∙◌, ◌&&◌, arith, Bytes, Bool, true, false, length, All, ltb, ltb→lt, le→ltb,
  leb, Bool-cases,
}
use iot_sms.UartAt.Ucs2.Utf8.{utf8, utf8_text}
use iot_sms.UartAt.Ucs2.HexText.{IsUnit}

-- A reader of UTF-8 text in the basic plane, written from the format's definition.
abbrev pub is_tail : ℕ → Bool
is_tail b = leb 0x80 b && ltb b 0xC0

abbrev cons_some : ℕ → Option (List ℕ) → Option (List ℕ)
cons_some c none = none
cons_some c (some cs) = some (c ∷ cs)

-- The bytes of a two-byte and of a three-byte character.
pub is_two : ℕ → ℕ → Bool
is_two b1 b2 = leb 0xC0 b1 && ltb b1 0xE0 && is_tail b2

pub is_three : ℕ → ℕ → ℕ → Bool
is_three b1 b2 b3 = leb 0xE0 b1 && ltb b1 0xF0 && is_tail b2 && is_tail b3

-- `fuel` bounds the number of characters.
pub read_utf8 : ℕ → Bytes → Option (List ℕ)
read_utf8 fuel [] = some []
read_utf8 zero (b ∷ s) = none
read_utf8 (suc fuel) (b1 ∷ s) = elim (ltb b1 0x80) [
  | true ↦ cons_some b1 (read_utf8 fuel s)
  | false ↦ elim s [
    | [] ↦ none
    | b2 ∷ s2 ↦ elim (is_two b1 b2) [
      | true ↦ cons_some ((b1 - 0xC0) * 64 + (b2 - 0x80)) (read_utf8 fuel s2)
      | false ↦ elim s2 [
        | [] ↦ none
        | b3 ∷ s3 ↦ elim (is_three b1 b2 b3) [
          | true ↦
              cons_some ((b1 - 0xE0) * 4096 + (b2 - 0x80) * 64 + (b3 - 0x80)) (read_utf8 fuel s3)
          | false ↦ none
        ]
      ]
    ]
  ]
]

is_two_lead : (hi lo : ℕ) → hi < 32 → lo < 64 → is_two (192 + hi) (128 + lo) ≡ true
unfolding is_two
is_two_lead hi lo h k = ground arith

not-is_two : (hi b : ℕ) → is_two (224 + hi) b ≡ false
unfolding is_two
not-is_two hi b = ground arith

is_three_lead :
    (hi mid lo : ℕ)
    → hi < 16
    → mid < 64
    → lo < 64
    → is_three (224 + hi) (128 + mid) (128 + lo) ≡ true
unfolding is_three
is_three_lead hi mid lo h k l = ground arith

module _ (fuel : ℕ) (rest : Bytes) where
  read_utf8_one :
      (b : ℕ) → b < 0x80 → read_utf8 (suc fuel) (b ∷ rest) ≡ cons_some b (read_utf8 fuel rest)
  unfolding read_utf8
  read_utf8_one b h = ground arith

  read_utf8_two :
      (hi lo : ℕ)
      → hi < 32
      → lo < 64
      → read_utf8 (suc fuel) ((192 + hi) ∷ (128 + lo) ∷ rest)
        ≡ cons_some (hi * 64 + lo) (read_utf8 fuel rest)
  unfolding read_utf8
  read_utf8_two hi lo h k =
      rw (le→ltb (192 + hi) 0x80 (omega arith), read_utf8, is_two_lead hi lo h k)
        (ap (λ d. cons_some d (read_utf8 fuel rest)) (omega arith))

  read_utf8_three :
      (hi mid lo : ℕ)
      → hi < 16
      → mid < 64
      → lo < 64
      → read_utf8 (suc fuel) ((224 + hi) ∷ (128 + mid) ∷ (128 + lo) ∷ rest)
        ≡ cons_some (hi * 4096 + mid * 64 + lo) (read_utf8 fuel rest)
  unfolding read_utf8
  read_utf8_three hi mid lo h k l =
      rw
        (
          le→ltb (224 + hi) 0x80 (omega arith),
          read_utf8,
          not-is_two hi (128 + mid),
          is_three_lead hi mid lo h k l,
        )
        (ap (λ d. cons_some d (read_utf8 fuel rest)) (omega arith))

  read_utf8_char :
      (c : ℕ) → IsUnit c → read_utf8 (suc fuel) (utf8 c ++ rest) ≡ cons_some c (read_utf8 fuel rest)
  read_utf8_char c h = elim (Bool-cases (ltb c 0x80)) [
    | inl one ↦ rw one (read_utf8_one c (ltb→lt _ _ one))
    | inr more ↦ elim (Bool-cases (ltb c 0x800)) [
      | inl two ↦
          rw (more, two)
            (read_utf8_two (c / 64) (c % 64) (omega (arith, ltb→lt _ _ two)) (omega arith)
              ∙ ap (λ d. cons_some d (read_utf8 fuel rest)) (omega arith))
      | inr three ↦
          rw (more, three)
            (read_utf8_three (c / 4096) (c / 64 % 64) (c % 64) (omega arith) (omega arith)
                (omega arith)
              ∙ ap (λ d. cons_some d (read_utf8 fuel rest)) (omega arith))
    ]
  ]

pub read_utf8-utf8_text :
    (fuel : ℕ) (cs : List ℕ)
    → length cs ≤ fuel
    → All IsUnit cs
    → read_utf8 fuel (utf8_text cs) ≡ some cs
unfolding read_utf8
read_utf8-utf8_text zero [] h u = refl
read_utf8-utf8_text (suc fuel) [] h u = refl
read_utf8-utf8_text zero (c ∷ cs) h u = absurd (omega arith)
read_utf8-utf8_text (suc fuel) (c ∷ cs) h u =
    rw (read_utf8_char fuel (utf8_text cs) c u.0, read_utf8-utf8_text fuel cs (omega arith) u.1)
