-- ===== src/Dtu/Text/Masks.antt =====
-- The tests of lead and continuation bytes as bounds.
use Prim.Native.Nat.{bit_and}
use iot_sms.Base.{ℕ, ◌*◌, ◌/◌, ◌%◌, ◌≤◌, ◌<◌, true, false, ◌≡◌, arith}
use iot_sms.Base.Bits.{bit_and_double, three_bits, two_bits, four_bits, five_bits}
use iot_sms.Dtu.Text.{is_continuation, seq_len}

mask_c0 : (c : ℕ) → bit_and c 0xC0 ≡ c / 64 % 4 * 64
mask_c0 c = omega (
  arith,
  bit_and_double c 96,
  bit_and_double (c / 2) 48,
  bit_and_double (c / 2 / 2) 24,
  bit_and_double (c / 2 / 2 / 2) 12,
  bit_and_double (c / 2 / 2 / 2 / 2) 6,
  bit_and_double (c / 2 / 2 / 2 / 2 / 2) 3,
  two_bits (c / 2 / 2 / 2 / 2 / 2 / 2),
)

mask_e0 : (c : ℕ) → bit_and c 0xE0 ≡ c / 32 % 8 * 32
mask_e0 c = omega (
  arith,
  bit_and_double c 112,
  bit_and_double (c / 2) 56,
  bit_and_double (c / 2 / 2) 28,
  bit_and_double (c / 2 / 2 / 2) 14,
  bit_and_double (c / 2 / 2 / 2 / 2) 7,
  three_bits (c / 2 / 2 / 2 / 2 / 2),
)

mask_f0 : (c : ℕ) → bit_and c 0xF0 ≡ c / 16 % 16 * 16
mask_f0 c = omega (
  arith,
  bit_and_double c 120,
  bit_and_double (c / 2) 60,
  bit_and_double (c / 2 / 2) 30,
  bit_and_double (c / 2 / 2 / 2) 15,
  four_bits (c / 2 / 2 / 2 / 2),
)

mask_f8 : (c : ℕ) → bit_and c 0xF8 ≡ c / 8 % 32 * 8
mask_f8 c = omega (
  arith,
  bit_and_double c 124,
  bit_and_double (c / 2) 62,
  bit_and_double (c / 2 / 2) 31,
  five_bits (c / 2 / 2 / 2),
)

pub is_continuation-between : (c : ℕ) → 128 ≤ c → c < 192 → is_continuation c ≡ true
unfolding is_continuation
is_continuation-between c low high = ground (arith, mask_c0 c)

pub is_continuation-below : (c : ℕ) → c < 128 → is_continuation c ≡ false
unfolding is_continuation
is_continuation-below c low = ground (arith, mask_c0 c)

pub is_continuation-above : (c : ℕ) → 192 ≤ c → c < 256 → is_continuation c ≡ false
unfolding is_continuation
is_continuation-above c low high = ground (arith, mask_c0 c)

pub seq_len_one : (c : ℕ) → c < 128 → seq_len c ≡ 1
unfolding seq_len
seq_len_one c h = ground (arith, mask_e0 c, mask_f0 c, mask_f8 c)

pub seq_len_two : (c : ℕ) → 192 ≤ c → c < 224 → seq_len c ≡ 2
unfolding seq_len
seq_len_two c low high = ground (arith, mask_e0 c)

pub seq_len_three : (c : ℕ) → 224 ≤ c → c < 240 → seq_len c ≡ 3
unfolding seq_len
seq_len_three c low high = ground (arith, mask_e0 c, mask_f0 c)

pub seq_len_four : (c : ℕ) → 240 ≤ c → c < 248 → seq_len c ≡ 4
unfolding seq_len
seq_len_four c low high = ground (arith, mask_e0 c, mask_f0 c, mask_f8 c)
