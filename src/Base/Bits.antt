-- ===== src/Base/Bits.antt =====
-- Facts on `|` and `&` at variables: a field that is shifted past another is added to it, and a
-- mask of ones is a remainder.
use Prim.Native.Nat.{
  ℕ, zero, suc, ◌+◌, ◌*◌, ◌/◌, ◌%◌, ◌^◌, ◌≤◌, ◌<◌, min, max, bit_and, bit_or, digits,
  bit_or-bitwise, bit_and-bitwise,
}
use mathlib.Core.Path.{◌≡◌, refl, ap, ◌∙◌}
use native.Mathlib.Omega.{arith}
use native.Mathlib.Nat.{pow-suc}

-- Fuel beyond the first number changes nothing.
module _ (last : ℕ → ℕ) (digit : ℕ → ℕ → ℕ) where
  digits_agree : (a b k l : ℕ) → a ≤ k → a ≤ l → digits last digit k a b ≡ digits last digit l a b
  digits_agree zero b zero zero _ _ = refl
  digits_agree zero b zero (suc l) _ _ = refl
  digits_agree zero b (suc k) zero _ _ = refl
  digits_agree zero b (suc k) (suc l) _ _ = refl
  digits_agree (suc a) b zero l few _ = absurd (omega arith)
  digits_agree (suc a) b (suc k) zero _ few = absurd (omega arith)
  digits_agree (suc a) b (suc k) (suc l) hk hl =
      let rest = digits_agree (suc a / 2) (b / 2) k l (omega arith) (omega arith) in
      ap (λ r. r * 2 + digit (suc a % 2) (b % 2)) rest

none-bit_or : (b : ℕ) → bit_or 0 b ≡ b
none-bit_or b = bit_or-bitwise 0 b

-- The lowest digit of `bit_or`, and the digits above it.
or_digits : (a b : ℕ) → bit_or a b ≡ bit_or (a / 2) (b / 2) * 2 + max (a % 2) (b % 2)
or_digits zero b = omega (arith, none-bit_or (b / 2), none-bit_or b)
or_digits (suc a) b =
    let above = bit_or-bitwise (suc a / 2) (b / 2) in
    let fuel =
      digits_agree (λ c. c) max (suc a / 2) (b / 2) a (suc a / 2) (omega arith) (omega arith) in
    let both = bit_or-bitwise (suc a) b in omega (arith, above, fuel, both)

none-bit_and : (b : ℕ) → bit_and 0 b ≡ 0
none-bit_and b = bit_and-bitwise 0 b

-- The lowest digit of `bit_and`, and the digits above it.
and_digits : (a b : ℕ) → bit_and a b ≡ bit_and (a / 2) (b / 2) * 2 + min (a % 2) (b % 2)
and_digits zero b = omega (arith, none-bit_and (b / 2), none-bit_and b)
and_digits (suc a) b =
    let above = bit_and-bitwise (suc a / 2) (b / 2) in
    let fuel =
      digits_agree (λ c. 0) min (suc a / 2) (b / 2) a (suc a / 2) (omega arith) (omega arith) in
    let both = bit_and-bitwise (suc a) b in omega (arith, above, fuel, both)

bit_or-zero_below : (n a : ℕ) → a ≤ n → bit_or a 0 ≡ a
bit_or-zero_below n zero h = none-bit_or 0
bit_or-zero_below zero (suc a) h = absurd (omega arith)
bit_or-zero_below (suc n) (suc a) h =
    let half = bit_or-zero_below n (suc a / 2) (omega arith) in
    omega (arith, half, or_digits (suc a) 0)

-- A field of `k` bits below a shifted one.
pub bit_or_field : (k a b : ℕ) → b < 2 ^ k → bit_or (a * 2 ^ k) b ≡ a * 2 ^ k + b
bit_or_field zero a zero h = omega (arith, bit_or-zero_below (a * 2 ^ 0) (a * 2 ^ 0) (omega arith))
bit_or_field zero a (suc b) h = absurd (omega arith)
bit_or_field (suc k) a b h = omega (
  arith,
  or_digits (a * 2 ^ suc k) b,
  ap (λ t. bit_or t (b / 2)) halved,
  bit_or_field k a (b / 2) (omega (arith, pow-suc 2 k)),
  doubled,
)
  where
    doubled : a * 2 ^ suc k ≡ a * 2 ^ k * 2
    doubled = omega (arith, ap (λ (t : ℕ). a * t) (pow-suc 2 k))

    halved : a * 2 ^ suc k / 2 ≡ a * 2 ^ k
    halved = omega (arith, doubled)

no_common_bits : (a bound : ℕ) → a ≤ bound → bit_and a 0 ≡ 0
no_common_bits zero bound small = none-bit_and 0
no_common_bits (suc a) zero small = absurd (omega arith)
no_common_bits (suc a) (suc bound) small =
    let half = no_common_bits (suc a / 2) bound (omega arith) in
    omega (arith, half, and_digits (suc a) 0)

lowest_bit : (a : ℕ) → bit_and a 1 ≡ a % 2
lowest_bit a = omega (arith, no_common_bits (a / 2) a (omega arith), and_digits a 1)

pub three_bits : (a : ℕ) → bit_and a 7 ≡ a % 8
three_bits a = omega (arith, and_digits a 7, and_digits (a / 2) 3, lowest_bit (a / 2 / 2))

-- `a & 0x3F`
pub six_bits : (a : ℕ) → bit_and a 0x3f ≡ a % 64
six_bits a = omega (
  arith,
  and_digits a 63,
  and_digits (a / 2) 31,
  and_digits (a / 2 / 2) 15,
  three_bits (a / 2 / 2 / 2),
)

-- A mask whose lowest bit is not set leaves the lowest bit out.
pub bit_and_double : (a b : ℕ) → bit_and a (b * 2) ≡ bit_and (a / 2) b * 2
bit_and_double a b =
    let half : b * 2 / 2 ≡ b = omega arith in
    let low : min (a % 2) (b * 2 % 2) ≡ 0 = omega arith in
    and_digits a (b * 2) ∙ rw (half, low) (omega arith)

pub two_bits : (a : ℕ) → bit_and a 3 ≡ a % 4
two_bits a = omega (arith, and_digits a 3, lowest_bit (a / 2))

pub four_bits : (a : ℕ) → bit_and a 15 ≡ a % 16
four_bits a = omega (arith, and_digits a 15, three_bits (a / 2))

pub five_bits : (a : ℕ) → bit_and a 31 ≡ a % 32
five_bits a = omega (arith, and_digits a 31, four_bits (a / 2))
