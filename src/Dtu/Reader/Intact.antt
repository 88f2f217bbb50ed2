-- ===== src/Dtu/Reader/Intact.antt =====
-- The lines come out whole and in order, however the UART cuts them.
use iot_sms.Base.{
  ℕ, ◌-◌, ◌≤◌, ◌<◌, min, false, [], ◌∷◌, ◌++◌, append_assoc, List, Option, none, some, Bytes, All,
  All-right, length, length-append, length-take, take, drop, take-drop, leb, ◌≡◌, ◌⊎◌, inl, inr,
  refl, sym, ap, subst, ◌∙◌, arith, Bool-cases, Option-cases, some-injective,
}
use iot_sms.CString.{
  Without, split_at_char, split_at_char-append, split_at_char-some, split_at_char-none,
}
use iot_sms.Rtos.{tick_sub}
use iot_sms.Dtu.Reader.{dtu_line_buf_size, RxState, UartRead, copy_line, read_more, dtu_read_line}

-- All bytes that have still to be made into lines.
abbrev pub stream_of : RxState → Bytes
stream_of rx = rx.s_rx_acc ++ rx.incoming

-- The buffer holds no more than its array.
abbrev pub HasRoom : RxState → Type 0
HasRoom rx = length rx.s_rx_acc ≤ dtu_line_buf_size

abbrev pub IsLine : Bytes → Type 0
IsLine raw = Without 0x0A raw × length raw < dtu_line_buf_size

-- Lines with their newlines, and a tail without one.
abbrev pub join : List Bytes → Bytes → Bytes
join [] tail = tail
join (raw ∷ raws) tail = raw ++ 0x0A ∷ join raws tail

tail_eq : {c d : ℕ} {s t : Bytes} → c ∷ s ≡ d ∷ t → s ≡ t
tail_eq e = ap (drop 1) e

head_eq : {c d : ℕ} {s t : Bytes} → c ∷ s ≡ d ∷ t → c ≡ d
head_eq {c = c} e = ap (λ l. elim l [ [] ↦ c | x ∷ xs ↦ x ]) e

-- A text without newline is no longer than what stands in front of the first newline.
in_front : (a s raw t : Bytes) → Without 0x0A a → a ++ s ≡ raw ++ 0x0A ∷ t → length a ≤ length raw
in_front [] s raw t h e = omega arith
in_front (c ∷ a) s [] t (ne, h) e = absurd (ne (head_eq e))
in_front (c ∷ a) s (d ∷ raw) t (ne, h) e = omega (arith, in_front a s raw t h (tail_eq e))

room_left :
    (a s : Bytes) (raws : List Bytes) (tail : Bytes)
    → split_at_char 0x0A a ≡ none
    → a ++ s ≡ join raws tail
    → All IsLine raws
    → IsLine tail
    → length a < dtu_line_buf_size
room_left a s [] tail e h lines last = omega (arith, ap length h, length-append a s, last.1)
room_left a s (raw ∷ raws) tail e h lines last =
    omega (arith, in_front a s raw (join raws tail) (split_at_char-none 0x0A a e) h, lines.0.1)

-- The first line of the buffer is the first line of the stream.
abbrev FirstOf : List Bytes → Bytes → Bytes → Bytes → Type 0
FirstOf raws tail raw rest = (raws' : List Bytes) × (raws ≡ raw ∷ raws') × (rest ≡ join raws' tail)

first_line :
    (a s : Bytes) (raws : List Bytes) (tail raw rest : Bytes)
    → split_at_char 0x0A a ≡ some (raw, rest)
    → a ++ s ≡ join raws tail
    → All IsLine raws
    → IsLine tail
    → FirstOf raws tail raw (rest ++ s)
first_line a s raws tail raw rest e h lines last = by_lines raws h lines
  where
    whole : a ++ s ≡ raw ++ 0x0A ∷ (rest ++ s)
    whole =
        ap (λ x. x ++ s) (split_at_char-some 0x0A a raw rest e).0 ∙ append_assoc raw (0x0A ∷ rest) s

    free : Without 0x0A raw
    free = (split_at_char-some 0x0A a raw rest e).1

    by_lines :
        (raws : List Bytes)
        → a ++ s ≡ join raws tail
        → All IsLine raws
        → FirstOf raws tail raw (rest ++ s)
    by_lines [] h lines = absurd (
        (All-right _ raw (0x0A ∷ (rest ++ s)) (subst (Without 0x0A) (sym h ∙ whole) last.0)).0 refl)
    by_lines (first ∷ raws') h lines =
        let same = some-injective (
          sym (split_at_char-append 0x0A first (join raws' tail) lines.0.0)
          ∙ ap (split_at_char 0x0A) (sym h ∙ whole)
          ∙ split_at_char-append 0x0A raw (rest ++ s) free) in
        (
          raws',
          ap (λ (p : Bytes × Bytes). p.0 ∷ raws') same,
          sym (ap (λ (p : Bytes × Bytes). p.1) same),
        )

-- What one call does with a stream of lines: nothing is lost if the time ends, and otherwise the
-- first line is taken.
abbrev pub ReadsFrom : ℕ → List Bytes → Bytes → Option Bytes × RxState → Type 0
ReadsFrom line_size raws tail (line, rx) =
    HasRoom rx
    × (((line ≡ none) × (stream_of rx ≡ join raws tail))
        ⊎ ((raw : Bytes) × (raws' : List Bytes) × (raws ≡ raw ∷ raws')
            × (line ≡ some (copy_line raw line_size))
            × (stream_of rx ≡ join raws' tail)))

stream-read_more :
    (rx : RxState) (ready : ℕ)
    → length rx.s_rx_acc < dtu_line_buf_size
    → (stream_of (read_more rx ready) ≡ stream_of rx) × HasRoom (read_more rx ready)
unfolding read_more
stream-read_more rx ready room =
    let more : leb dtu_line_buf_size (length rx.s_rx_acc) ≡ false = ground arith in
    let len : ℕ = min ready (dtu_line_buf_size - length rx.s_rx_acc) in
    rw more (
      append_assoc rx.s_rx_acc (take len rx.incoming) (drop len rx.incoming)
          ∙ ap (◌++◌ rx.s_rx_acc) (take-drop len rx.incoming),
      omega (arith, length-append rx.s_rx_acc (take len rx.incoming), length-take len rx.incoming),
    )

module _ (start timeout_ticks line_size : ℕ) (tail : Bytes) (last : IsLine tail) where
  -- The answer where a line is in the buffer.
  from_buffer :
      (rx : RxState) (raws : List Bytes) (raw rest : Bytes)
      → split_at_char 0x0A rx.s_rx_acc ≡ some (raw, rest)
      → HasRoom rx
      → stream_of rx ≡ join raws tail
      → All IsLine raws
      → ReadsFrom line_size raws tail
          (some (copy_line raw line_size), record rx { s_rx_acc = rest })
  from_buffer rx raws raw rest e room h lines =
      let (raws', first, behind) =
        first_line rx.s_rx_acc rx.incoming raws tail raw rest e h lines last in
      (
        omega (
          arith,
          ap length (split_at_char-some 0x0A rx.s_rx_acc raw rest e).0,
          length-append raw (0x0A ∷ rest),
        ),
        inr (raw, raws', first, refl, behind),
      )

  pub dtu_read_line-ReadsFrom :
      (reads : List UartRead) (rx : RxState) (raws : List Bytes)
      → HasRoom rx
      → stream_of rx ≡ join raws tail
      → All IsLine raws
      → ReadsFrom line_size raws tail (dtu_read_line start timeout_ticks line_size rx reads)
  unfolding dtu_read_line
  dtu_read_line-ReadsFrom [] rx raws room h lines =
      elim (Option-cases (split_at_char 0x0A rx.s_rx_acc)) [
        | inl e ↦ rw (e, dtu_read_line) (room, inl (refl, h))
        | inr ((raw, rest), e) ↦ rw (e, dtu_read_line) (from_buffer rx raws raw rest e room h lines)
      ]
  dtu_read_line-ReadsFrom (r ∷ reads) rx raws room h lines =
      elim (Option-cases (split_at_char 0x0A rx.s_rx_acc)) [
        | inr ((raw, rest), e) ↦ rw (e, dtu_read_line) (from_buffer rx raws raw rest e room h lines)
        | inl e ↦
            let (kept, room') =
              stream-read_more rx r.ready
                (room_left rx.s_rx_acc rx.incoming raws tail e h lines last) in
            let later =
              dtu_read_line-ReadsFrom reads (read_more rx r.ready) raws room' (kept ∙ h) lines in
            elim (Bool-cases (leb timeout_ticks (tick_sub r.now start))) [
              | inl over ↦ rw (e, dtu_read_line, over) (room, inl (refl, h))
              | inr more ↦ rw (e, dtu_read_line, more) later
            ]
      ]
