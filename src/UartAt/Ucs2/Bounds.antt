-- ===== src/UartAt/Ucs2/Bounds.antt =====
-- The decoder stays inside the array that it is given.
use Prim.Native.Nat.{bit_and, bit_or}
use iot_sms.Base.{
  ℕ, ◌+◌, ◌≤◌, ◌<◌, ◌^◌, [], ◌∷◌, some, ◌≡◌, arith, Bytes, length, true, ltb, ltb→lt, ◌/◌,
  length-append, Option-cases, inl, inr,
}
use iot_sms.CString.{c_str}
use iot_sms.UartAt.Ucs2.{
  size_sub, put_char, code_unit, decode_step, decode_from, decode_ucs2_hex_to_utf8,
}

pub size_sub_exact : (a b : ℕ) → b ≤ a → a < 2 ^ 32 → size_sub a b + b ≡ a
unfolding size_sub
size_sub_exact a b h k = omega arith

module _ (size : ℕ) (four : 4 ≤ size) (word : size < 2 ^ 32) where
  -- One round writes between one and three bytes, and leaves room for the terminator.
  put_char-fits :
      (out : Bytes) (c : ℕ) (out' : Bytes)
      → length out + 4 < size
      → put_char size out c ≡ some out'
      → length out' < size
  unfolding put_char size_sub
  put_char-fits out c out' room e = ground (
    arith,
    length-append out (c ∷ []),
    length-append out (bit_or 0xC0 (c / 2 ^ 6) ∷ bit_or 0x80 (bit_and c 0x3F) ∷ []),
    length-append out (
        bit_or 0xE0 (c / 2 ^ 12)
        ∷ bit_or 0x80 (bit_and (c / 2 ^ 6) 0x3F)
        ∷ bit_or 0x80 (bit_and c 0x3F)
        ∷ []),
  )

  below_limit : (out : Bytes) → ltb (length out) (size_sub size 4) ≡ true → length out + 4 < size
  below_limit out h = omega (arith, ltb→lt _ _ h, size_sub_exact size 4 four word)

  decode_step-fits :
      (c1 c2 c3 c4 : ℕ) (out : Bytes) {out' : Bytes}
      → decode_step size c1 c2 c3 c4 out ≡ some out'
      → length out' < size
  unfolding decode_step
  decode_step-fits c1 c2 c3 c4 out {out'} e = elim (Option-cases (code_unit c1 c2 c3 c4)) [
    | inl bad ↦ ground (arith, bad)
    | inr (c, unit) ↦ ground (arith, unit, put_char-fits out c out', below_limit out)
  ]

  decode_from-fits :
      (hex out : Bytes) → length out < size → length (decode_from size hex out) < size
  unfolding decode_from
  decode_from-fits (c1 ∷ c2 ∷ c3 ∷ c4 ∷ rest) out h =
      elim (Option-cases (decode_step size c1 c2 c3 c4 out)) [
        | inl e ↦ rw (e, decode_from) h
        | inr (out', e) ↦
            rw (e, decode_from) (decode_from-fits rest out' (decode_step-fits c1 c2 c3 c4 out e))
      ]
  decode_from-fits _ out h = h

  -- For any hex text and an array of 4 to 2^32 - 1 bytes, the bytes written and the terminator
  -- behind them lie inside the array.
  pub length-decode_ucs2_hex_to_utf8 :
      (hex : Bytes) → length (decode_ucs2_hex_to_utf8 hex size) < size
  unfolding decode_ucs2_hex_to_utf8
  length-decode_ucs2_hex_to_utf8 hex = decode_from-fits (c_str hex) [] (omega arith)
