-- ===== src/CString/Search.antt =====
-- `strstr`, on lists of bytes: what stands in front of the first place of a text, and behind it.
use iot_sms.Base.{
  ℕ, ◌≤◌, Bool, true, false, [], ◌∷◌, ◌++◌, append_assoc, ◌≡◌, ◌≢◌, refl, sym, ap, subst, ◌∙◌,
  arith, Bytes, length, length-append, ◌==◌, Option, none, some, some-injective, none-some,
  Bool-cases, Option-cases, inl, inr,
}
use iot_sms.CString.{strip_prefix, strip_prefix-append, strip_prefix-some, Without}

-- The search goes on behind the character `d` unless the text stands here.
unfoldable pub search_on : ℕ → Option Bytes → Option (Bytes × Bytes) → Option (Bytes × Bytes)
search_on d (some behind) later = some ([], behind)
search_on d none none = none
search_on d none (some (before, behind)) = some (d ∷ before, behind)

-- `strstr (s, pat)`, where `pat` is not empty.
unfoldable pub split_at_text : Bytes → Bytes → Option (Bytes × Bytes)
unfolding search_on
split_at_text pat [] = none
split_at_text pat (d ∷ s) =
    let later = split_at_text pat s in search_on d (strip_prefix pat (d ∷ s)) later

pub split_at_text-here :
    (p : ℕ) (pat s : Bytes) → split_at_text (p ∷ pat) (p ∷ pat ++ s) ≡ some ([], s)
unfolding split_at_text
split_at_text-here p pat s = rw (strip_prefix-append (p ∷ pat) s) refl

strip_other : (p d : ℕ) (pat s : Bytes) → d ≢ p → strip_prefix (p ∷ pat) (d ∷ s) ≡ none
unfolding strip_prefix
strip_other p d pat s ne = let other : (p == d) ≡ false = ground arith in rw other refl

-- The text is found behind characters that differ from its first one.
pub split_at_text-append :
    (p : ℕ) (pat a b : Bytes)
    → Without p a
    → split_at_text (p ∷ pat) (a ++ (p ∷ pat ++ b)) ≡ some (a, b)
unfolding split_at_text
split_at_text-append p pat [] b h = split_at_text-here p pat b
split_at_text-append p pat (d ∷ a) b (ne, h) =
    let later = split_at_text-append p pat a b h in
    rw (strip_other p d pat (a ++ (p ∷ pat ++ b)) ne, later) refl

pub split_at_text-absent : (p : ℕ) (pat s : Bytes) → Without p s → split_at_text (p ∷ pat) s ≡ none
unfolding split_at_text
split_at_text-absent p pat [] h = refl
split_at_text-absent p pat (d ∷ s) (ne, h) =
    let later = split_at_text-absent p pat s h in rw (strip_other p d pat s ne, later) refl

abbrev Joins : Bytes → Bytes → Bytes × Bytes → Type 0
Joins pat s (a, b) = s ≡ a ++ (pat ++ b)

search_on-some :
    (pat : Bytes) (d : ℕ) (s : Bytes) (here : Option Bytes) (later : Option (Bytes × Bytes))
    → ((r : Bytes) → here ≡ some r → d ∷ s ≡ pat ++ r)
    → ((a b : Bytes) → later ≡ some (a, b) → s ≡ a ++ (pat ++ b))
    → (a b : Bytes) → search_on d here later ≡ some (a, b)
    → d ∷ s ≡ a ++ (pat ++ b)
unfolding search_on
search_on-some pat d s (some r) later h l a b =
    λ e. subst (Joins pat (d ∷ s)) (some-injective e) (h r refl)
search_on-some pat d s none none h l a b = λ e. absurd (none-some e)
search_on-some pat d s none (some (a', b')) h l a b =
    λ e. subst (Joins pat (d ∷ s)) (some-injective e) (ap (◌∷◌ d) (l a' b' refl))

pub split_at_text-some :
    (pat s a b : Bytes) → split_at_text pat s ≡ some (a, b) → s ≡ a ++ (pat ++ b)
unfolding split_at_text
split_at_text-some pat [] a b = λ e. absurd (none-some e)
split_at_text-some pat (d ∷ s) a b =
    search_on-some pat d s (strip_prefix pat (d ∷ s)) (split_at_text pat s)
      (strip_prefix-some pat (d ∷ s)) (split_at_text-some pat s) a b

-- `strncmp (s, prefix, strlen (prefix)) == 0`
unfoldable pub starts_with : Bytes → Bytes → Bool
starts_with prefix s = elim (strip_prefix prefix s) [ none ↦ false | some _ ↦ true ]

-- `strstr (s, pat) != NULL`
unfoldable pub contains : Bytes → Bytes → Bool
contains pat s = elim (split_at_text pat s) [ none ↦ false | some _ ↦ true ]

-- A text that is found stays found where the list grows at its end.
strip_grows :
    (p s t r : Bytes) → strip_prefix p s ≡ some r → strip_prefix p (s ++ t) ≡ some (r ++ t)
strip_grows p s t r e =
    ap (λ x. strip_prefix p (x ++ t)) (strip_prefix-some p s r e)
    ∙ ap (strip_prefix p) (append_assoc p r t)
    ∙ strip_prefix-append p (r ++ t)

strip_stays_none :
    (p s t : Bytes) → length p ≤ length s → strip_prefix p s ≡ none → strip_prefix p (s ++ t) ≡ none
unfolding strip_prefix
strip_stays_none [] s t h = λ e. absurd (none-some (sym e))
strip_stays_none (c ∷ p) [] t h = λ e. absurd (omega arith)
strip_stays_none (c ∷ p) (d ∷ s) t h = elim (Bool-cases (c == d)) [
  | inl same ↦ rw same (strip_stays_none p s t (omega arith))
  | inr other ↦ rw other (λ e. refl)
]

search_on-grows :
    (pat : Bytes) (d : ℕ) (s t : Bytes) (later : Option (Bytes × Bytes))
    → ((a b : Bytes) → later ≡ some (a, b) → length pat ≤ length s)
    → (a b : Bytes) → search_on d (strip_prefix pat (d ∷ s)) later ≡ some (a, b)
    → (later' : Option (Bytes × Bytes))
    → ((a' b' : Bytes) → later ≡ some (a', b') → later' ≡ some (a', b' ++ t))
    → search_on d (strip_prefix pat (d ∷ s ++ t)) later' ≡ some (a, b ++ t)
unfolding search_on
search_on-grows pat d s t later fits a b = elim (Option-cases (strip_prefix pat (d ∷ s))) [
  | inr (r, e) ↦
      let grown = strip_grows pat (d ∷ s) t r e in
      rw (e, grown)
        (λ is later' l. ap (λ (x : Bytes × Bytes). some (x.0, x.1 ++ t)) (some-injective is))
  | inl e ↦ elim (Option-cases later) [
    | inl away ↦ rw (e, away, search_on) (λ is. absurd (none-some is))
    | inr ((a', b'), found) ↦
        let still = strip_stays_none pat (d ∷ s) t (omega (arith, fits a' b' found)) e in
        rw (e, found, search_on, still)
          (λ is later' l.
            ap (search_on d none) (l a' b' refl)
            ∙ ap (λ (x : Bytes × Bytes). some (x.0, x.1 ++ t)) (some-injective is))
  ]
]

found_fits : (pat s a b : Bytes) → split_at_text pat s ≡ some (a, b) → length pat ≤ length s
found_fits pat s a b e = omega (
  arith,
  ap length (split_at_text-some pat s a b e),
  length-append a (pat ++ b),
  length-append pat b,
)

pub split_at_text-grows :
    (pat s t a b : Bytes)
    → split_at_text pat s ≡ some (a, b)
    → split_at_text pat (s ++ t) ≡ some (a, b ++ t)
unfolding split_at_text
split_at_text-grows pat [] t a b = λ e. absurd (none-some e)
split_at_text-grows pat (d ∷ s) t a b = λ e.
    search_on-grows pat d s t (split_at_text pat s) (found_fits pat s) a b e
      (split_at_text pat (s ++ t)) (split_at_text-grows pat s t)

strip_shrinks : (p s t : Bytes) → strip_prefix p (s ++ t) ≡ none → strip_prefix p s ≡ none
strip_shrinks p s t e = elim (Option-cases (strip_prefix p s)) [
  | inl away ↦ away
  | inr (r, found) ↦ absurd (none-some (sym e ∙ strip_grows p s t r found))
]

strip_other_end :
    (p u v w : Bytes)
    → length p ≤ length u
    → strip_prefix p (u ++ v) ≡ none
    → strip_prefix p (u ++ w) ≡ none
strip_other_end p u v w fits e = strip_stays_none p u w fits (strip_shrinks p u v e)

-- Where a text was found, it is found before any other end.
pub split_at_text-again :
    (p : ℕ) (pat s t a b : Bytes)
    → split_at_text (p ∷ pat) s ≡ some (a, b)
    → split_at_text (p ∷ pat) (a ++ (p ∷ pat ++ t)) ≡ some (a, t)
unfolding split_at_text
split_at_text-again p pat [] t a b = λ e. absurd (none-some e)
split_at_text-again p pat (d ∷ s) t a b = elim (Option-cases (strip_prefix (p ∷ pat) (d ∷ s))) [
  | inr (r, e) ↦ rw e (λ is.
      subst (λ x. split_at_text (p ∷ pat) (x ++ (p ∷ pat ++ t)) ≡ some (x, t))
        (ap (λ (x : Bytes × Bytes). x.0) (some-injective is)) (split_at_text-here p pat t))
  | inl e ↦ elim (Option-cases (split_at_text (p ∷ pat) s)) [
    | inl away ↦ rw (e, away, search_on) (λ is. absurd (none-some is))
    | inr ((a', b'), found) ↦
        rw (e, found, search_on)
          (λ is.
            subst (λ x. split_at_text (p ∷ pat) (x ++ (p ∷ pat ++ t)) ≡ some (x, t))
              (ap (λ (x : Bytes × Bytes). x.0) (some-injective is))
              (later a' b' e found (split_at_text-again p pat s t a' b' found)))
  ]
]
  where
    later :
        (a' b' : Bytes)
        → strip_prefix (p ∷ pat) (d ∷ s) ≡ none
        → split_at_text (p ∷ pat) s ≡ some (a', b')
        → split_at_text (p ∷ pat) (a' ++ (p ∷ pat ++ t)) ≡ some (a', t)
        → split_at_text (p ∷ pat) (d ∷ a' ++ (p ∷ pat ++ t)) ≡ some (d ∷ a', t)
    later a' b' e found again =
        let whole : d ∷ s ≡ d ∷ a' ++ (p ∷ pat) ++ b' =
          ap (◌∷◌ d)
            (split_at_text-some (p ∷ pat) s a' b' found ∙ sym (append_assoc a' (p ∷ pat) b')) in
        let away : strip_prefix (p ∷ pat) (d ∷ a' ++ (p ∷ pat) ++ t) ≡ none =
          strip_other_end (p ∷ pat) (d ∷ a' ++ (p ∷ pat)) b' t
            (omega (arith, length-append a' (p ∷ pat)))
            (subst (λ x. strip_prefix (p ∷ pat) x ≡ none) whole e) in
        let away' : strip_prefix (p ∷ pat) (d ∷ (a' ++ (p ∷ pat ++ t))) ≡ none =
          subst (λ x. strip_prefix (p ∷ pat) (d ∷ x) ≡ none) (append_assoc a' (p ∷ pat) t) away in
        rw (away', again) refl

-- A prefix test does not see what follows a character that the prefix does not have.
pub starts_with-line :
    (p line t : Bytes) (c : ℕ) → Without c p → starts_with p (line ++ c ∷ t) ≡ starts_with p line
unfolding starts_with strip_prefix
starts_with-line [] line t c h = refl
starts_with-line (d ∷ p) [] t c (ne, h) =
    let other : (d == c) ≡ false = ground arith in rw (other, starts_with) refl
starts_with-line (d ∷ p) (x ∷ line) t c (ne, h) = elim (Bool-cases (d == x)) [
  | inl same ↦ rw (same, starts_with) (starts_with-line p line t c h)
  | inr other ↦ rw (other, starts_with) refl
]
