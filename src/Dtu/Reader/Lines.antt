-- ===== src/Dtu/Reader/Lines.antt =====
-- Calls one after the other give the lines of the stream one after the other.
use iot_sms.Base.{
  ℕ, ◌≤◌, ◌<◌, false, [], ◌∷◌, ◌++◌, List, Option, none, some, Bytes, All, length, leb, ◌==◌, ◌≡◌,
  inl, inr, refl, ap, subst, ◌∙◌, arith, Bool-cases,
}
use iot_sms.Dtu.Reader.{dtu_line_buf_size, RxState, UartRead, drop_return, copy_line, dtu_read_line}
use iot_sms.Dtu.Reader.Intact.{stream_of, HasRoom, IsLine, join, ReadsFrom, dtu_read_line-ReadsFrom}

length-drop_return : (s : Bytes) → length (drop_return s) ≤ length s
unfolding drop_return
length-drop_return [] = omega arith
length-drop_return (c ∷ []) = elim (Bool-cases (c == 0x0D)) [
  | inl e ↦ rw e (omega arith)
  | inr e ↦ rw e (omega arith)
]
length-drop_return (c ∷ d ∷ s) = omega (arith, length-drop_return (d ∷ s))

-- The full-size buffer cuts no line.
pub copy_line-drop_return :
    (raw : Bytes)
    → length raw < dtu_line_buf_size
    → copy_line raw dtu_line_buf_size ≡ drop_return raw
unfolding copy_line
copy_line-drop_return raw short =
    let fits : leb dtu_line_buf_size (length (drop_return raw)) ≡ false =
      ground (arith, length-drop_return raw) in
    rw fits refl

abbrev pub add_line : Option Bytes → List Bytes → List Bytes
add_line none lines = lines
add_line (some line) lines = line ∷ lines

-- Calls with a buffer of the full size, each with the counter at its start and its reads: the lines
-- that they return, and what is left.
unfoldable pub read_lines : ℕ → List (ℕ × List UartRead) → RxState → List Bytes × RxState
read_lines timeout_ticks [] rx = ([], rx)
read_lines timeout_ticks ((start, reads) ∷ calls) rx =
    let (line, rx') = dtu_read_line start timeout_ticks dtu_line_buf_size rx reads in
    let (lines, rx'') = read_lines timeout_ticks calls rx' in (add_line line lines, rx'')

abbrev pub without_returns : List Bytes → List Bytes
without_returns [] = []
without_returns (raw ∷ raws) = drop_return raw ∷ without_returns raws

-- The lines are the first ones of the stream, and the others are still to come.
abbrev pub Splits : List Bytes → Bytes → List Bytes × RxState → Type 0
Splits raws tail (lines, rx) =
    (done : List Bytes) × (left : List Bytes) × (raws ≡ done ++ left)
    × (lines ≡ without_returns done)
    × (stream_of rx ≡ join left tail)

module _ (timeout_ticks : ℕ) (tail : Bytes) (last : IsLine tail) where
  read_step :
      (calls : List (ℕ × List UartRead)) (raws : List Bytes) (line : Option Bytes) (rx : RxState)
      → ((raws' : List Bytes)
          → All IsLine raws'
          → HasRoom rx
          → stream_of rx ≡ join raws' tail
          → Splits raws' tail (read_lines timeout_ticks calls rx))
      → All IsLine raws
      → ReadsFrom dtu_line_buf_size raws tail (line, rx)
      → let (lines, rx') = read_lines timeout_ticks calls rx in
        Splits raws tail (add_line line lines, rx')
  read_step calls raws line rx further lines (room, inl (e, h)) =
      let (done, left, parts, are, rest) = further raws lines room h in
      (done, left, parts, rw e are, rest)
  read_step calls raws line rx further lines (room, inr (raw, raws', split, e, h)) =
      let (short, others) = subst (All IsLine) split lines in
      let (done, left, parts, are, rest) = further raws' others room h in
      (
        raw ∷ done,
        left,
        split ∙ ap (◌∷◌ raw) parts,
        rw (e, copy_line-drop_return raw short.1) (ap (◌∷◌ (drop_return raw)) are),
        rest,
      )

  -- Where what is in the buffer and what the UART still delivers are lines shorter than the buffer
  -- with their newlines, and a tail without one, calls of dtu_read_line return the first lines in
  -- their order, each without a return at its end, and leave the others to come, however the UART
  -- cuts the bytes and whichever calls end without a line.
  pub read_lines-Splits :
      (calls : List (ℕ × List UartRead)) (rx : RxState) (raws : List Bytes)
      → HasRoom rx
      → stream_of rx ≡ join raws tail
      → All IsLine raws
      → Splits raws tail (read_lines timeout_ticks calls rx)
  unfolding read_lines
  read_lines-Splits [] rx raws room h lines = ([], raws, refl, refl, h)
  read_lines-Splits ((start, reads) ∷ calls) rx raws room h lines =
      let (line, rx') = dtu_read_line start timeout_ticks dtu_line_buf_size rx reads in
      read_step calls raws line rx'
        (λ raws' lines' room' h'. read_lines-Splits calls rx' raws' room' h' lines') lines
        (dtu_read_line-ReadsFrom start timeout_ticks dtu_line_buf_size tail last reads rx raws room
          h lines)
