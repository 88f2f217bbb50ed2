-- ===== src/Dtu/Text/Trim.antt =====
-- Of UTF-8 text that has been cut, `utf8_trim_incomplete_tail` leaves the whole characters.
use mathlib.Core.List.{reverse, reverse-append, reverse-reverse}
use iot_sms.Base.{
  ℕ, zero, suc, ◌-◌, ◌≤◌, ◌<◌, true, false, List, [], ◌∷◌, ◌++◌, append-nil, append_assoc, ◌≡◌, inl,
  inr, refl, sym, ap, ◌∙◌, arith, Bytes, All, length, take, leb, ltb, ltb→lt, if◌then◌else◌,
  Bool-cases,
}
use iot_sms.Dtu.Text.{is_continuation, seq_len, step_back, trim_at, utf8_trim_incomplete_tail}
use iot_sms.Dtu.Text.Masks.{
  is_continuation-between, is_continuation-below, is_continuation-above, seq_len_one, seq_len_two,
  seq_len_three, seq_len_four,
}

abbrev pub IsTail : ℕ → Type 0
IsTail c = (128 ≤ c) × (c < 192)

-- The UTF-8 form of a character: a lead byte and the continuation bytes that it announces.
abbrev pub IsChar : Bytes → Type 0
IsChar (a ∷ []) = a < 128
IsChar (a ∷ b ∷ []) = (192 ≤ a) × (a < 224) × IsTail b
IsChar (a ∷ b ∷ c ∷ []) = (224 ≤ a) × (a < 240) × IsTail b × IsTail c
IsChar (a ∷ b ∷ c ∷ d ∷ []) = (240 ≤ a) × (a < 248) × IsTail b × IsTail c × IsTail d
IsChar _ = ⊥

-- The first bytes of a character that has more.
abbrev IsPart : Bytes → Type 0
IsPart (a ∷ []) = (192 ≤ a) × (a < 248)
IsPart (a ∷ b ∷ []) = (224 ≤ a) × (a < 248) × IsTail b
IsPart (a ∷ b ∷ c ∷ []) = (240 ≤ a) × (a < 248) × IsTail b × IsTail c
IsPart _ = ⊥

tail : (c : ℕ) → IsTail c → is_continuation c ≡ true
tail c (low, high) = is_continuation-between c low high

seq_len_more :
    (a : ℕ)
    → 192 ≤ a
    → a < 248
    → (2 ≤ seq_len a) × (224 ≤ a → 3 ≤ seq_len a) × (240 ≤ a → 4 ≤ seq_len a)
seq_len_more a low high = elim (Bool-cases (ltb a 224)) [
  | inl two ↦
      let below : a < 224 = ltb→lt a 224 two in
      (
        omega (arith, seq_len_two a low below),
        (λ h. absurd (omega arith)),
        (λ h. absurd (omega arith)),
      )
  | inr more ↦ elim (Bool-cases (ltb a 240)) [
    | inl three ↦
        let above : 224 ≤ a = ground arith in
        let below : a < 240 = ltb→lt a 240 three in
        (
          omega (arith, seq_len_three a above below),
          (λ h. omega (arith, seq_len_three a above below)),
          (λ h. absurd (omega arith)),
        )
    | inr four ↦
        let above : 240 ≤ a = ground arith in
        (
          omega (arith, seq_len_four a above high),
          (λ h. omega (arith, seq_len_four a above high)),
          (λ h. omega (arith, seq_len_four a above high)),
        )
  ]
]

trim_part : (s p : Bytes) → IsPart p → utf8_trim_incomplete_tail (s ++ p) ≡ s
unfolding utf8_trim_incomplete_tail trim_at step_back
trim_part s [] h = absurd h
trim_part s (a ∷ b ∷ c ∷ d ∷ p) h = absurd h
trim_part s (a ∷ []) (low, high) =
    let lead = is_continuation-above a low (omega arith) in
    let short : ltb 1 (seq_len a) ≡ true = ground (arith, (seq_len_more a low high).0) in
    let stop : step_back 3 (a ∷ reverse s) 0 ≡ (0, a ∷ reverse s) = rw (lead) refl in
    let cut : trim_at (s ++ a ∷ []) (0, a ∷ reverse s) ≡ s = rw short (reverse-reverse s) in
    ap (λ r. trim_at (s ++ a ∷ []) (step_back 3 r 0)) (reverse-append s (a ∷ []))
    ∙ ap (trim_at (s ++ a ∷ [])) stop
    ∙ cut
trim_part s (a ∷ b ∷ []) (low, high, tb) =
    let lead = is_continuation-above a (omega arith) (omega arith) in
    let short : ltb 2 (seq_len a) ≡ true =
      ground (arith, (seq_len_more a (omega arith) high).1 low) in
    let stop : step_back 3 (b ∷ a ∷ reverse s) 0 ≡ (1, a ∷ reverse s) = rw (tail b tb, lead) refl in
    let cut : trim_at (s ++ a ∷ b ∷ []) (1, a ∷ reverse s) ≡ s = rw short (reverse-reverse s) in
    ap (λ r. trim_at (s ++ a ∷ b ∷ []) (step_back 3 r 0)) (reverse-append s (a ∷ b ∷ []))
    ∙ ap (trim_at (s ++ a ∷ b ∷ [])) stop
    ∙ cut
trim_part s (a ∷ b ∷ c ∷ []) (low, high, tb, tc) =
    let lead = is_continuation-above a (omega arith) (omega arith) in
    let short : ltb 3 (seq_len a) ≡ true =
      ground (arith, (seq_len_more a (omega arith) high).2 low) in
    let stop : step_back 3 (c ∷ b ∷ a ∷ reverse s) 0 ≡ (2, a ∷ reverse s) =
      rw (tail c tc, tail b tb, lead) refl in
    let cut : trim_at (s ++ a ∷ b ∷ c ∷ []) (2, a ∷ reverse s) ≡ s = rw short (reverse-reverse s) in
    ap (λ r. trim_at (s ++ a ∷ b ∷ c ∷ []) (step_back 3 r 0)) (reverse-append s (a ∷ b ∷ c ∷ []))
    ∙ ap (trim_at (s ++ a ∷ b ∷ c ∷ [])) stop
    ∙ cut

trim_whole : (s ch : Bytes) → IsChar ch → utf8_trim_incomplete_tail (s ++ ch) ≡ s ++ ch
unfolding utf8_trim_incomplete_tail trim_at step_back
trim_whole s [] h = absurd h
trim_whole s (a ∷ b ∷ c ∷ d ∷ e ∷ ch) h = absurd h
trim_whole s (a ∷ []) low =
    let lead = is_continuation-below a low in
    let enough : ltb 1 (seq_len a) ≡ false = ground (arith, seq_len_one a low) in
    let stop : step_back 3 (a ∷ reverse s) 0 ≡ (0, a ∷ reverse s) = rw (lead) refl in
    let cut : trim_at (s ++ a ∷ []) (0, a ∷ reverse s) ≡ s ++ a ∷ [] = rw enough refl in
    ap (λ r. trim_at (s ++ a ∷ []) (step_back 3 r 0)) (reverse-append s (a ∷ []))
    ∙ ap (trim_at (s ++ a ∷ [])) stop
    ∙ cut
trim_whole s (a ∷ b ∷ []) (low, high, tb) =
    let lead = is_continuation-above a low (omega arith) in
    let enough : ltb 2 (seq_len a) ≡ false = ground (arith, seq_len_two a low high) in
    let stop : step_back 3 (b ∷ a ∷ reverse s) 0 ≡ (1, a ∷ reverse s) = rw (tail b tb, lead) refl in
    let cut : trim_at (s ++ a ∷ b ∷ []) (1, a ∷ reverse s) ≡ s ++ a ∷ b ∷ [] = rw enough refl in
    ap (λ r. trim_at (s ++ a ∷ b ∷ []) (step_back 3 r 0)) (reverse-append s (a ∷ b ∷ []))
    ∙ ap (trim_at (s ++ a ∷ b ∷ [])) stop
    ∙ cut
trim_whole s (a ∷ b ∷ c ∷ []) (low, high, tb, tc) =
    let lead = is_continuation-above a (omega arith) (omega arith) in
    let enough : ltb 3 (seq_len a) ≡ false = ground (arith, seq_len_three a low high) in
    let stop : step_back 3 (c ∷ b ∷ a ∷ reverse s) 0 ≡ (2, a ∷ reverse s) =
      rw (tail c tc, tail b tb, lead) refl in
    let cut : trim_at (s ++ a ∷ b ∷ c ∷ []) (2, a ∷ reverse s) ≡ s ++ a ∷ b ∷ c ∷ [] =
      rw enough refl in
    ap (λ r. trim_at (s ++ a ∷ b ∷ c ∷ []) (step_back 3 r 0)) (reverse-append s (a ∷ b ∷ c ∷ []))
    ∙ ap (trim_at (s ++ a ∷ b ∷ c ∷ [])) stop
    ∙ cut
trim_whole s (a ∷ b ∷ c ∷ d ∷ []) (low, high, tb, tc, td) =
    let enough : ltb 4 (seq_len a) ≡ false = ground (arith, seq_len_four a low high) in
    let stop : step_back 3 (d ∷ c ∷ b ∷ a ∷ reverse s) 0 ≡ (3, a ∷ reverse s) =
      rw (tail d td, tail c tc, tail b tb) refl in
    let cut : trim_at (s ++ a ∷ b ∷ c ∷ d ∷ []) (3, a ∷ reverse s) ≡ s ++ a ∷ b ∷ c ∷ d ∷ [] =
      rw enough refl in
    ap (λ r. trim_at (s ++ a ∷ b ∷ c ∷ d ∷ []) (step_back 3 r 0))
      (reverse-append s (a ∷ b ∷ c ∷ d ∷ []))
    ∙ ap (trim_at (s ++ a ∷ b ∷ c ∷ d ∷ [])) stop
    ∙ cut

abbrev pub text : List Bytes → Bytes
text [] = []
text (ch ∷ cs) = ch ++ text cs

-- How many characters fit into `n` bytes.
abbrev pub fitting : ℕ → List Bytes → ℕ
fitting n [] = 0
fitting n (ch ∷ cs) =
    let rest = fitting (n - length ch) cs in if leb (length ch) n then suc rest else 0

take-append_more :
    (s t : Bytes) (n : ℕ) → length s ≤ n → take n (s ++ t) ≡ s ++ take (n - length s) t
take-append_more [] t n h = ap (λ (k : ℕ). take k t) (omega arith)
take-append_more (c ∷ s) t zero h = absurd (omega arith)
take-append_more (c ∷ s) t (suc n) h =
    let same : n - length s ≡ suc n - length (c ∷ s) = omega arith in
    ap (◌∷◌ c) (take-append_more s t n (omega arith) ∙ ap (λ (k : ℕ). s ++ take k t) same)

char_IsPart : (n : ℕ) (ch t : Bytes) → IsChar ch → n < length ch → 0 < n → IsPart (take n (ch ++ t))
char_IsPart zero ch t h lt pos = absurd (omega arith)
char_IsPart (suc n) [] t h lt pos = absurd h
char_IsPart (suc n) (a ∷ []) t h lt pos = absurd (omega arith)
char_IsPart (suc zero) (a ∷ b ∷ []) t (low, high, _) lt pos = (low, omega arith)
char_IsPart (suc (suc n)) (a ∷ b ∷ []) t h lt pos = absurd (omega arith)
char_IsPart (suc zero) (a ∷ b ∷ c ∷ []) t (low, high, _, _) lt pos = (omega arith, omega arith)
char_IsPart (suc (suc zero)) (a ∷ b ∷ c ∷ []) t (low, high, tb, _) lt pos = (low, omega arith, tb)
char_IsPart (suc (suc (suc n))) (a ∷ b ∷ c ∷ []) t h lt pos = absurd (omega arith)
char_IsPart (suc zero) (a ∷ b ∷ c ∷ d ∷ []) t (low, high, _, _, _) lt pos =
    (omega arith, omega arith)
char_IsPart (suc (suc zero)) (a ∷ b ∷ c ∷ d ∷ []) t (low, high, tb, _, _) lt pos =
    (omega arith, high, tb)
char_IsPart (suc (suc (suc zero))) (a ∷ b ∷ c ∷ d ∷ []) t (low, high, tb, tc, _) lt pos =
    (low, high, tb, tc)
char_IsPart (suc (suc (suc (suc n)))) (a ∷ b ∷ c ∷ d ∷ []) t h lt pos = absurd (omega arith)
char_IsPart (suc n) (a ∷ b ∷ c ∷ d ∷ e ∷ ch) t h lt pos = absurd h

take-nothing : (n : ℕ) → take n (text []) ≡ []
take-nothing zero = refl
take-nothing (suc n) = refl

-- The part of a character that does not fit is cut off.
trim_cut :
    (n : ℕ) (ch t s : Bytes)
    → IsChar ch
    → n < length ch
    → utf8_trim_incomplete_tail s ≡ s
    → utf8_trim_incomplete_tail (s ++ take n (ch ++ t)) ≡ s
trim_cut zero ch t s h lt e = ap utf8_trim_incomplete_tail (append-nil s) ∙ e
trim_cut (suc n) ch t s h lt e =
    trim_part s (take (suc n) (ch ++ t)) (char_IsPart (suc n) ch t h lt (omega arith))

pub trim-take :
    (n : ℕ) (cs : List Bytes) (s : Bytes)
    → All IsChar cs
    → utf8_trim_incomplete_tail s ≡ s
    → utf8_trim_incomplete_tail (s ++ take n (text cs)) ≡ s ++ text (take (fitting n cs) cs)
trim-take n [] s h e =
    ap (λ t. utf8_trim_incomplete_tail (s ++ t)) (take-nothing n)
    ∙ ap utf8_trim_incomplete_tail (append-nil s)
    ∙ e
    ∙ sym (append-nil s)
trim-take n (ch ∷ cs) s (h, hs) e = elim (Bool-cases (leb (length ch) n)) [
  | inl fits ↦
      let rest = trim-take (n - length ch) cs (s ++ ch) hs (trim_whole s ch h) in
      let within : length ch ≤ n = ground arith in
      rw fits (
        ap (λ t. utf8_trim_incomplete_tail (s ++ t)) (take-append_more ch (text cs) n within)
        ∙ ap utf8_trim_incomplete_tail (sym (append_assoc s ch (take (n - length ch) (text cs))))
        ∙ rest
        ∙ append_assoc s ch (text (take (fitting (n - length ch) cs) cs)))
  | inr long ↦
      let over : n < length ch = ground arith in
      rw long (trim_cut n ch (text cs) s h over e ∙ sym (append-nil s))
]
