-- ===== src/RemoteLog/Line/Strip.antt =====
-- A coloured log line is stripped to its text.
use iot_sms.Base.{
  ℕ, true, false, ◌&&◌, [], ◌∷◌, ◌++◌, ◌≡◌, refl, ap, ◌∙◌, arith, Bytes, All, length, ◌==◌,
  if◌then◌else◌,
}
use iot_sms.CString.{Without}
use iot_sms.RemoteLog.Line.{
  at_text, in_sequence, is_final, is_line_end, drop_colours, drop_line_ends, rl_strip_line,
}

drop_colours-text :
    (t s : Bytes) → Without 0x1B t → drop_colours at_text (t ++ s) ≡ t ++ drop_colours at_text s
unfolding drop_colours
drop_colours-text [] s h = refl
drop_colours-text (c ∷ t) s (ne, h) =
    let plain : (c == 0x1B) ≡ false = ground arith in
    rw plain (ap (◌∷◌ c) (drop_colours-text t s h))

-- The bytes between the bracket and the letter of a control sequence.
abbrev pub Parameters : Bytes → Type 0
Parameters = All (λ c. is_final c ≡ false)

drop_colours-sequence :
    (ps s : Bytes) (f : ℕ)
    → Parameters ps
    → is_final f ≡ true
    → drop_colours in_sequence (ps ++ f ∷ s) ≡ drop_colours at_text s
unfolding drop_colours
drop_colours-sequence [] s f h final = rw final refl
drop_colours-sequence (c ∷ ps) s f (more, h) final = rw more (drop_colours-sequence ps s f h final)

-- `ESC [ parameters m`
abbrev pub colour : Bytes → Bytes → Bytes
colour ps s = 0x1B ∷ b'[' ∷ (ps ++ b'm' ∷ s)

drop_colours-colour :
    (ps s : Bytes) → Parameters ps → drop_colours at_text (colour ps s) ≡ drop_colours at_text s
unfolding drop_colours
drop_colours-colour ps s h = drop_colours-sequence ps s b'm' h refl

drop_line_ends-end :
    (t : Bytes) (c : ℕ) → is_line_end c ≡ true → drop_line_ends (t ++ c ∷ []) ≡ drop_line_ends t
unfolding drop_line_ends
drop_line_ends-end [] c e = rw e refl
drop_line_ends-end (d ∷ t) c e =
    ap (λ l. if is_line_end d && length l == 0 then [] else d ∷ l) (drop_line_ends-end t c e)

newline : drop_colours at_text (0x0A ∷ []) ≡ 0x0A ∷ []
unfolding drop_colours
newline = refl

-- A line with a colour in front, a text without escape characters and with no line end at its end,
-- another colour and a newline is stripped to the text.
pub rl_strip_line-colour :
    (ps ps' text : Bytes)
    → Parameters ps
    → Parameters ps'
    → Without 0x1B text
    → drop_line_ends text ≡ text
    → rl_strip_line (colour ps (text ++ colour ps' (0x0A ∷ []))) ≡ text
unfolding rl_strip_line
rl_strip_line-colour ps ps' text h h' plain whole =
    ap drop_line_ends (
      drop_colours-colour ps (text ++ colour ps' (0x0A ∷ [])) h
      ∙ drop_colours-text text (colour ps' (0x0A ∷ [])) plain
      ∙ ap (λ t. text ++ t) (drop_colours-colour ps' (0x0A ∷ []) h' ∙ newline))
    ∙ drop_line_ends-end text 0x0A refl
    ∙ whole
