-- ===== src/Decimal.antt =====
-- `%lu` of `snprintf` for 32-bit numbers.
use native.Mathlib.Nat.{pow-suc}
use iot_sms.Base.{
  ℕ, zero, suc, ◌+◌, ◌-◌, ◌*◌, ◌/◌, ◌%◌, ◌^◌, ◌≤◌, ◌<◌, [], ◌∷◌, ◌++◌, ◌≡◌, refl, sym, ap, ◌∙◌, inl,
  inr, arith, Bytes, length, length-append, ltb, if◌then◌else◌, Bool-cases,
}

-- At most `more + 1` digits, the highest first.
unfoldable pub digits_of : ℕ → ℕ → Bytes
digits_of zero n = (b'0' + n % 10) ∷ []
digits_of (suc more) n =
    let above = digits_of more (n / 10) in
    if ltb n 10 then (b'0' + n) ∷ [] else above ++ (b'0' + n % 10) ∷ []

-- Ten digits serve for a word of 32 bits.
unfoldable pub decimal : ℕ → Bytes
decimal n = digits_of 9 n

-- The number that digits spell behind the number `acc`.
abbrev pub value_from : ℕ → Bytes → ℕ
value_from acc [] = acc
value_from acc (c ∷ s) = value_from (acc * 10 + (c - b'0')) s

value_from-concat :
    (acc : ℕ) (s : Bytes) (c : ℕ)
    → value_from acc (s ++ c ∷ []) ≡ value_from acc s * 10 + (c - b'0')
value_from-concat acc [] c = refl
value_from-concat acc (d ∷ s) c = value_from-concat (acc * 10 + (d - b'0')) s c

value-digits_of : (more n : ℕ) → n < 10 ^ suc more → value_from 0 (digits_of more n) ≡ n
unfolding digits_of
value-digits_of zero n h = omega arith
value-digits_of (suc more) n h = elim (Bool-cases (ltb n 10)) [
  | inl one ↦ rw one (omega arith)
  | inr many ↦
      rw (many, value_from-concat)
        (omega (arith, value-digits_of more (n / 10) (omega (arith, pow-suc 10 (suc more)))))
]

length-digits_of : (more n : ℕ) → length (digits_of more n) ≤ more + 1
unfolding digits_of
length-digits_of zero n = omega arith
length-digits_of (suc more) n = ground (
  arith,
  length-digits_of more (n / 10),
  length-append (digits_of more (n / 10)) ((b'0' + n % 10) ∷ []),
)

pub length-decimal : (n : ℕ) → length (decimal n) ≤ 10
unfolding decimal
length-decimal n = length-digits_of 9 n

pub value-decimal : (n : ℕ) → n < 2 ^ 32 → value_from 0 (decimal n) ≡ n
unfolding decimal
value-decimal n h = value-digits_of 9 n (omega arith)

pub decimal-injective : (m n : ℕ) → m < 2 ^ 32 → n < 2 ^ 32 → decimal m ≡ decimal n → m ≡ n
decimal-injective m n hm hn e = sym (value-decimal m hm) ∙ ap (value_from 0) e ∙ value-decimal n hn
