-- ===== src/Dtu/Task/Draining.antt =====
-- While whole lines stand in the buffer, each round of the main loop of main/uart_dtu_manager.c
-- handles the next one.
use iot_sms.Base.{
  ℕ, zero, suc, ◌-◌, ◌<◌, append-nil, false, ◌++◌, [], ◌∷◌, List, Option, none, some, Bytes, All,
  drop, length, take, min, leb, length-append, ◌≡◌, inl, inr, refl, sym, ap, ◌∙◌, arith, Bool-cases,
}
use iot_sms.CString.{split_at_char, split_at_char-append}
use iot_sms.Dtu.Reader.{dtu_line_buf_size, RxState, UartRead, read_more, dtu_read_line, drop_return}
use iot_sms.Dtu.Reader.Intact.{IsLine, join}
use iot_sms.Dtu.Reader.Lines.{copy_line-drop_return}
use iot_sms.Dtu.Task.{
  dtu_sms_poll_interval_ms, DtuTask, PollRound, dtu_send_command, poll_round, poll_loop,
}
use iot_sms.Dtu.Task.Passing.{read_round}
use iot_sms.Dtu.Task.Answers.{Arrived, handle_lines}
use iot_sms.Rtos.{Rtos, tick_sub, ms_to_ticks}

abbrev pub buffered : Bytes → RxState
buffered acc = record { s_rx_acc = acc; incoming = [] }

-- The lines with the times of the rounds, as far as there are rounds.
abbrev pub in_rounds : List Bytes → List PollRound → List Arrived
in_rounds (raw ∷ raws) (x ∷ xs) = (raw, x.checked, x.stored) ∷ in_rounds raws xs
in_rounds raws xs = []

in_rounds_none : (raws : List Bytes) → in_rounds raws [] ≡ []
in_rounds_none [] = refl
in_rounds_none (raw ∷ raws) = refl

read_first :
    (start timeout : ℕ) (raw behind : Bytes) (reads : List UartRead)
    → IsLine raw
    → dtu_read_line start timeout dtu_line_buf_size (buffered (raw ++ 0x0A ∷ behind)) reads
      ≡ (some (drop_return raw), buffered behind)
unfolding dtu_read_line
read_first start timeout raw behind [] h =
    let first = split_at_char-append 0x0A raw behind h.0 in
    rw (first, dtu_read_line) (ap (λ l. (some l, buffered behind)) (copy_line-drop_return raw h.1))
read_first start timeout raw behind (r ∷ reads) h =
    let first = split_at_char-append 0x0A raw behind h.0 in
    rw (first, dtu_read_line) (ap (λ l. (some l, buffered behind)) (copy_line-drop_return raw h.1))

take_nothing : (n : ℕ) → take {A = ℕ} n [] ≡ []
take_nothing zero = refl
take_nothing (suc n) = refl

drop_nothing {ℓ} : {A : Type ℓ} (n : ℕ) → drop {A = A} n [] ≡ []
drop_nothing zero = refl
drop_nothing (suc n) = refl

nothing_more :
    (acc : Bytes) (ready : ℕ)
    → length acc < dtu_line_buf_size
    → read_more (buffered acc) ready ≡ buffered acc
unfolding read_more
nothing_more acc ready h =
    let room : leb dtu_line_buf_size (length acc) ≡ false = ground arith in
    let len = min ready (dtu_line_buf_size - length acc) in
    rw (room, take_nothing len, drop_nothing len) (ap buffered (append-nil acc))

read_nothing :
    (start timeout : ℕ) (acc : Bytes) (reads : List UartRead)
    → split_at_char 0x0A acc ≡ none
    → length acc < dtu_line_buf_size
    → dtu_read_line start timeout dtu_line_buf_size (buffered acc) reads ≡ (none, buffered acc)
unfolding dtu_read_line
read_nothing start timeout acc [] e h = rw (e, dtu_read_line) refl
read_nothing start timeout acc (r ∷ reads) e h =
    elim (Bool-cases (leb timeout (tick_sub r.now start))) [
      | inl late ↦ rw (e, dtu_read_line, late) refl
      | inr early ↦
          rw (e, dtu_read_line, early)
            (ap (λ rx. dtu_read_line start timeout dtu_line_buf_size rx reads)
                (nothing_more acc r.ready h)
              ∙ read_nothing start timeout acc reads e h)
    ]

module _ (R : Rtos) where
  rx-read_round :
      (s : DtuTask R) (x : PollRound) (line : Option Bytes) (rx' : RxState)
      → (read_round R s x line rx').rx ≡ rx'
  rx-read_round s x none rx' = refl
  rx-read_round s x (some l) rx' = refl

  -- What a round reads, where that is known.
  round_reads :
      (s : DtuTask R) (last_poll : ℕ) (x : PollRound) (acc : Bytes) (line : Option Bytes)
      → dtu_read_line x.called (ms_to_ticks R 1000) dtu_line_buf_size s.rx x.reads
        ≡ (line, buffered acc)
      → ((poll_round R (s, last_poll) x).0.rx ≡ buffered acc)
        × ((poll_round R (s, last_poll) x).0.dtu ≡ (read_round R s x line (buffered acc)).dtu)
  unfolding poll_round dtu_send_command
  round_reads s last_poll x acc line e =
      let read = dtu_read_line x.called (ms_to_ticks R 1000) dtu_line_buf_size s.rx x.reads in
      let rx : (read_round R s x read.0 read.1).rx ≡ buffered acc =
        ap (λ (r : Option Bytes × RxState). (read_round R s x r.0 r.1).rx) e
        ∙ rx-read_round s x line (buffered acc) in
      let dtu = ap (λ (r : Option Bytes × RxState). (read_round R s x r.0 r.1).dtu) e in
      elim (Bool-cases
        (leb (ms_to_ticks R dtu_sms_poll_interval_ms) (tick_sub x.polled last_poll))) [
          | inl due ↦ rw due (rx, dtu)
          | inr early ↦ rw early (rx, dtu)
        ]

  -- Where the buffer of the DTU task holds lines with their newlines, and then a tail without one,
  -- together shorter than the buffer, and the UART delivers nothing more, each round of the main
  -- loop handles the next line, so that after any rounds as many lines have been handled, in order,
  -- as there were rounds or lines, and the others are left, whatever polls are sent.
  pub poll_loop-drains :
      (tail : Bytes) (xs : List PollRound) (s : DtuTask R) (last_poll : ℕ) (raws : List Bytes)
      → split_at_char 0x0A tail ≡ none
      → All IsLine raws
      → length (join raws tail) < dtu_line_buf_size
      → s.rx ≡ buffered (join raws tail)
      → ((poll_loop R (s, last_poll) xs).0.rx ≡ buffered (join (drop (length xs) raws) tail))
        × ((poll_loop R (s, last_poll) xs).0.dtu ≡ handle_lines R s.dtu (in_rounds raws xs))
  unfolding poll_loop
  poll_loop-drains tail [] s last_poll raws e h room held =
      (held, ap (handle_lines R s.dtu) (sym (in_rounds_none raws)))
  poll_loop-drains tail (x ∷ xs) s last_poll [] e h room held =
      let next = poll_round R (s, last_poll) x in
      let (rx, dtu) = round_reads s last_poll x tail none (
        ap (λ b. dtu_read_line x.called (ms_to_ticks R 1000) dtu_line_buf_size b x.reads) held
        ∙ read_nothing x.called (ms_to_ticks R 1000) tail x.reads e room) in
      let (rx', dtu') = poll_loop-drains tail xs next.0 next.1 [] e h room rx in
      (
        rx'
            ∙ ap (λ l. buffered (join l tail))
                (drop_nothing (length xs) ∙ sym (drop_nothing (length (x ∷ xs)))),
        dtu' ∙ dtu,
      )
  poll_loop-drains tail (x ∷ xs) s last_poll (raw ∷ raws) e (h, hs) room held =
      let next = poll_round R (s, last_poll) x in
      let (rx, dtu) = round_reads s last_poll x (join raws tail) (some (drop_return raw)) (
        ap (λ b. dtu_read_line x.called (ms_to_ticks R 1000) dtu_line_buf_size b x.reads) held
        ∙ read_first x.called (ms_to_ticks R 1000) raw (join raws tail) x.reads h) in
      let (rx', dtu') =
        poll_loop-drains tail xs next.0 next.1 raws e hs
          (omega (arith, length-append raw (0x0A ∷ join raws tail))) rx in
      (rx', dtu' ∙ ap (λ d. handle_lines R d (in_rounds raws xs)) dtu)
