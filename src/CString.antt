-- ===== src/CString.antt =====
-- The C library's string functions that the firmware calls, on lists of bytes. A C string is the
-- part of its array before the first NUL.
pub mod Search
use iot_sms.Base.{
  ℕ, ◌≤◌, Bool, true, false, ◌&&◌, [], ◌∷◌, ◌≡◌, ◌↔◌, ◌≢◌, refl, arith, Bytes, All, length, take,
  length-take, ◌==◌, if◌then◌else◌, Option, none, some, some-injective, none-some, Bool-cases,
  Option-cases, ==_iff, inl, inr, subst, ◌++◌, ap, sym, ◌∙◌,
}

-- What `strlen`, `strcpy` and `%s` see of an array.
unfoldable pub c_str : Bytes → Bytes
c_str [] = []
c_str (c ∷ s) = if c == 0 then [] else c ∷ c_str s

-- `strncpy` of at most `n` bytes, where the terminator follows in a zeroed array.
unfoldable pub strncpy : ℕ → Bytes → Bytes
unfolding c_str
strncpy n s = take n (c_str s)

-- `strcmp (a, b) == 0`
unfoldable pub str_eq : Bytes → Bytes → Bool
str_eq [] [] = true
str_eq (x ∷ xs) (y ∷ ys) = x == y && str_eq xs ys
str_eq _ _ = false

pub str_eq_iff : (a b : Bytes) → (str_eq a b ≡ true) ↔ (a ≡ b)
unfolding str_eq
str_eq_iff (x ∷ a) (y ∷ b) = ground (arith, str_eq_iff a b)
str_eq_iff _ _ = ground arith

abbrev pub NoNul : Bytes → Type 0
NoNul = All (λ c. c ≢ 0)

pub c_str-NoNul : (s : Bytes) → NoNul (c_str s)
unfolding c_str
c_str-NoNul [] = tt
c_str-NoNul (c ∷ s) = ground (arith, c_str-NoNul s)

pub c_str_id : (s : Bytes) → NoNul s → c_str s ≡ s
unfolding c_str
c_str_id [] h = refl
c_str_id (c ∷ s) h = ground (arith, c_str_id s h.1)

pub length-strncpy : (n : ℕ) (s : Bytes) → length (strncpy n s) ≤ n
unfolding strncpy
length-strncpy n s = omega (arith, length-take n (c_str s))

-- `strncmp (s, prefix, strlen (prefix)) == 0`, with what follows the prefix.
unfoldable pub strip_prefix : Bytes → Bytes → Option Bytes
strip_prefix [] s = some s
strip_prefix (p ∷ prefix) [] = none
strip_prefix (p ∷ prefix) (c ∷ s) =
    let rest = strip_prefix prefix s in if p == c then rest else none

-- `strchr`: what stands in front of the first such character, and behind it.
unfoldable pub split_at_char : ℕ → Bytes → Option (Bytes × Bytes)
split_at_char c [] = none
split_at_char c (d ∷ s) =
    let rest = split_at_char c s in
    if d == c
    then some ([], s)
    else (elim rest [ none ↦ none | some (before, behind) ↦ some (d ∷ before, behind) ])

pub strip_prefix-append : (p s : Bytes) → strip_prefix p (p ++ s) ≡ some s
unfolding strip_prefix
strip_prefix-append [] s = refl
strip_prefix-append (c ∷ p) s =
    let same : (c == c) ≡ true = ground arith in rw same (strip_prefix-append p s)

pub strip_prefix-some : (p s r : Bytes) → strip_prefix p s ≡ some r → s ≡ p ++ r
unfolding strip_prefix
strip_prefix-some [] s r = λ e. some-injective e
strip_prefix-some (c ∷ p) [] r = λ e. absurd (none-some e)
strip_prefix-some (c ∷ p) (d ∷ s) r = elim (Bool-cases (c == d)) [
  | inl same ↦ rw same (λ e.
      ap (◌∷◌ d) (strip_prefix-some p s r e)
      ∙ ap (λ (x : ℕ). x ∷ p ++ r) (sym ((==_iff c d).0 same)))
  | inr other ↦ rw other (λ e. absurd (none-some e))
]

abbrev pub Without : ℕ → Bytes → Type 0
Without c = All (λ d. d ≢ c)

pub split_at_char-append :
    (c : ℕ) (s t : Bytes) → Without c s → split_at_char c (s ++ c ∷ t) ≡ some (s, t)
unfolding split_at_char
split_at_char-append c [] t h = let same : (c == c) ≡ true = ground arith in rw same refl
split_at_char-append c (d ∷ s) t (ne, h) =
    let other : (d == c) ≡ false = ground arith in
    let rest = split_at_char-append c s t h in rw (other, rest, split_at_char) refl

abbrev Splits : ℕ → Bytes → Bytes × Bytes → Type 0
Splits c s (a, b) = (s ≡ a ++ c ∷ b) × Without c a

Splits-subst : (c : ℕ) (s : Bytes) {r r' : Bytes × Bytes} → r ≡ r' → Splits c s r → Splits c s r'
Splits-subst c s e h = subst (Splits c s) e h

pub split_at_char-some :
    (c : ℕ) (s a b : Bytes) → split_at_char c s ≡ some (a, b) → (s ≡ a ++ c ∷ b) × Without c a
unfolding split_at_char
split_at_char-some c [] a b = λ e. absurd (none-some e)
split_at_char-some c (d ∷ s) a b = elim (Bool-cases (d == c)) [
  | inl same ↦ rw same (λ e.
      Splits-subst c (d ∷ s) (some-injective e) (ap (λ (x : ℕ). x ∷ s) ((==_iff d c).0 same), tt))
  | inr other ↦ elim (Option-cases (split_at_char c s)) [
    | inl stuck ↦ rw (other, stuck, split_at_char) (λ e. absurd (none-some e))
    | inr ((a', b'), e') ↦
        rw (other, e', split_at_char)
          (λ e.
            let (is, without) = split_at_char-some c s a' b' e' in
            Splits-subst c (d ∷ s) (some-injective e) (ap (◌∷◌ d) is, (ne other, without)))
  ]
]
  where
    ne : (d == c) ≡ false → d ≢ c
    ne other = ground arith

pub split_at_char-none : (c : ℕ) (s : Bytes) → split_at_char c s ≡ none → Without c s
unfolding split_at_char
split_at_char-none c [] = λ e. tt
split_at_char-none c (d ∷ s) = elim (Bool-cases (d == c)) [
  | inl same ↦ rw same (λ e. absurd (none-some (sym e)))
  | inr other ↦ elim (Option-cases (split_at_char c s)) [
    | inl away ↦ rw (other, away, split_at_char) (λ e. (ne other, split_at_char-none c s away))
    | inr ((a, b), found) ↦ rw (other, found, split_at_char) (λ e. absurd (none-some (sym e)))
  ]
]
  where
    ne : (d == c) ≡ false → d ≢ c
    ne other = ground arith
