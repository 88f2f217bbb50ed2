-- ===== src/UartAt/Receive/Clean.antt =====
-- The removal of other notifications does not depend on how the bytes are cut into chunks.
use iot_sms.Base.{
  ℕ, zero, suc, ◌<◌, Bool, true, false, [], ◌∷◌, ◌++◌, append_assoc, none, some, Bytes, codes,
  length, length-append, ◌≡◌, refl, sym, ap, ◌∙◌, arith, if◌then◌else◌, Option-cases, inl, inr,
}
use iot_sms.CString.Search.{
  split_at_text, split_at_text-some, split_at_text-grows, split_at_text-again, starts_with-line,
}
use iot_sms.UartAt.Urc.{crlf}
use iot_sms.UartAt.Receive.{is_other_urc, remove_other_urcs, clean}

-- A line is kept with its end, or dropped.
abbrev keep : Bool → Bytes → Bytes → Bytes
keep other line rest = if other then rest else line ++ (crlf ++ rest)

remove_open :
    (fuel : ℕ) (s : Bytes) → split_at_text crlf s ≡ none → remove_other_urcs (suc fuel) s ≡ s
unfolding remove_other_urcs
remove_open fuel s e = rw (e, remove_other_urcs) refl

remove_line :
    (fuel : ℕ) (s line behind : Bytes)
    → split_at_text crlf s ≡ some (line, behind)
    → remove_other_urcs (suc fuel) s ≡ keep (is_other_urc s) line (remove_other_urcs fuel behind)
unfolding remove_other_urcs
remove_line fuel s line behind e = rw (e, remove_other_urcs) refl

behind_shorter :
    (s line behind : Bytes) → split_at_text crlf s ≡ some (line, behind) → length behind < length s
behind_shorter s line behind e = omega (
  arith,
  ap length (split_at_text-some crlf s line behind e),
  length-append line (crlf ++ behind),
)

enough :
    (f g : ℕ) (s : Bytes)
    → length s < f
    → length s < g
    → remove_other_urcs f s ≡ remove_other_urcs g s
enough zero g s hf hg = absurd (omega arith)
enough (suc f) zero s hf hg = absurd (omega arith)
enough (suc f) (suc g) s hf hg = elim (Option-cases (split_at_text crlf s)) [
  | inl e ↦ remove_open f s e ∙ sym (remove_open g s e)
  | inr ((line, behind), e) ↦
      let less = behind_shorter s line behind e in
      let rest = enough f g behind (omega arith) (omega arith) in
      remove_line f s line behind e
      ∙ ap (keep (is_other_urc s) line) rest
      ∙ sym (remove_line g s line behind e)
]

pub clean_open : (s : Bytes) → split_at_text crlf s ≡ none → clean s ≡ s
unfolding clean
clean_open s e = remove_open (length s) s e

-- The test looks at the line only.
is_other_urc-line : (line t : Bytes) → is_other_urc (line ++ (crlf ++ t)) ≡ is_other_urc line
unfolding is_other_urc
is_other_urc-line line t =
    let at : Bytes = 0x0A ∷ t in
    let s1 = starts_with-line (codes "+") line at 0x0D (ground arith) in
    let s2 = starts_with-line (codes "^") line at 0x0D (ground arith) in
    let s3 = starts_with-line (codes "+CMT:") line at 0x0D (ground arith) in
    let s4 = starts_with-line (codes "+CME ERROR:") line at 0x0D (ground arith) in
    let s5 = starts_with-line (codes "+CMS ERROR:") line at 0x0D (ground arith) in
    rw (s1, s2, s3, s4, s5) refl

pub clean_line :
    (s line behind : Bytes)
    → split_at_text crlf s ≡ some (line, behind)
    → clean s ≡ keep (is_other_urc line) line (clean behind)
unfolding clean
clean_line s line behind e =
    let less = behind_shorter s line behind e in
    let test : is_other_urc s ≡ is_other_urc line =
      ap is_other_urc (split_at_text-some crlf s line behind e) ∙ is_other_urc-line line behind in
    remove_line (length s) s line behind e
    ∙ ap (λ b. keep b line (remove_other_urcs (length s) behind)) test
    ∙ ap (keep (is_other_urc line) line)
        (enough (length s) (suc (length behind)) behind less (omega arith))

-- Where the first line is known, cleaning goes on behind it.
clean_first :
    (s line behind t : Bytes)
    → split_at_text crlf s ≡ some (line, behind)
    → clean (line ++ (crlf ++ t)) ≡ keep (is_other_urc line) line (clean t)
clean_first s line behind t e =
    clean_line (line ++ (crlf ++ t)) line t (split_at_text-again 0x0D (0x0A ∷ []) s t line behind e)

clean_keeps :
    (s line behind b : Bytes) (other : Bool)
    → split_at_text crlf s ≡ some (line, behind)
    → is_other_urc line ≡ other
    → clean (clean behind ++ b) ≡ clean (behind ++ b)
    → clean (keep other line (clean behind) ++ b) ≡ keep other line (clean (behind ++ b))
clean_keeps s line behind b true e k again = again
clean_keeps s line behind b false e k again =
    ap clean (append_assoc line (crlf ++ clean behind) b)
    ∙ clean_first s line behind (clean behind ++ b) e
    ∙ rw (k, again) refl

clean_again_fuel : (n : ℕ) (a b : Bytes) → length a < n → clean (clean a ++ b) ≡ clean (a ++ b)
clean_again_fuel zero a b h = absurd (omega arith)
clean_again_fuel (suc n) a b h = elim (Option-cases (split_at_text crlf a)) [
  | inl e ↦ ap (λ x. clean (x ++ b)) (clean_open a e)
  | inr ((line, behind), e) ↦
      let less = behind_shorter a line behind e in
      let again = clean_again_fuel n behind b (omega arith) in
      ap (λ x. clean (x ++ b)) (clean_line a line behind e)
      ∙ clean_keeps a line behind b (is_other_urc line) e refl again
      ∙ sym (clean_line (a ++ b) line (behind ++ b) (split_at_text-grows crlf a b line behind e))
]

-- Cleaning a buffer before more bytes arrive makes no difference to the cleaned whole.
pub clean_again : (a b : Bytes) → clean (clean a ++ b) ≡ clean (a ++ b)
clean_again a b = clean_again_fuel (suc (length a)) a b (omega arith)
