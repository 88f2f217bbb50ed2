-- ===== src/Dtu/Task/Asking.antt =====
-- What `dtu_query` of main/uart_dtu_manager.c does with the lines that arrive while it waits.
use iot_sms.Base.{
  ℕ, length, arith, ◌-◌, Bool, true, false, [], ◌∷◌, List, Option, none, some, Bytes, All, take,
  ltb, ◌≡◌, inl, inr, refl, sym, ap, subst, ◌∙◌, if◌then◌else◌,
}
use iot_sms.CString.{c_str, strip_prefix}
use iot_sms.Dtu.Dedup.{dtu_handle_line}
use iot_sms.Dtu.Reader.{dtu_line_buf_size, RxState, dtu_read_line}
use iot_sms.Dtu.Reader.Intact.{stream_of, HasRoom, IsLine, join, ReadsFrom, dtu_read_line-ReadsFrom}
use iot_sms.Dtu.Reader.Lines.{copy_line-drop_return}
use iot_sms.Dtu.Task.{DtuTask, QueryRound, Query, dtu_send_command, query_loop, dtu_query}
use iot_sms.Rtos.{Rtos, tick_sub}
use iot_sms.Dtu.Task.Answers.{text_of, query_timeout, GaveUp, GaveUp-next, Asked}

module _ (R : Rtos) where
  module _ (tail resp_prefix : Bytes) where
    abbrev text_read : Option Bytes → Bytes
    text_read line = elim line [ none ↦ [] | some l ↦ c_str l ]

    -- A round of the loop, with what the call of `dtu_read_line` returns and the further rounds.
    abbrev query_step :
        DtuTask R
        → Bool
        → Option Bytes
        → Bytes
        → RxState
        → Option Bytes
        → DtuTask R × Option Bytes
        → DtuTask R × Option Bytes
    query_step s in_time line text rx' found further =
        if in_time
        then (elim line [
          | none ↦ (record s { rx = rx' }, none)
          | some _ ↦ elim found [
            | some _ ↦ (record s { rx = rx' }, some (take (128 - 1) text))
            | none ↦ further
          ]
        ])
        else (s, none)

    nothing_Asked :
        (start : ℕ) (xs : List QueryRound) (s : DtuTask R) (raws : List Bytes) (rx' : RxState)
        → HasRoom rx'
        → stream_of rx' ≡ join raws tail
        → GaveUp R start xs [] rx'
        → Asked R tail resp_prefix start xs s raws (record s { rx = rx' }, none)
    nothing_Asked start xs s raws rx' room h cause = record {
      handled = [];
      left = raws;
      reports = refl;
      others = tt;
      to_come = h;
      has_room = room;
      same_operator = refl;
      same_sent = refl;
      answer = inl (refl, refl, cause);
    }

    answer_Asked :
        (start : ℕ) (xs : List QueryRound) (s : DtuTask R) (raw : Bytes) (raws : List Bytes)
        (rest : Bytes) (rx' : RxState)
        → strip_prefix resp_prefix (text_of raw) ≡ some rest
        → HasRoom rx'
        → stream_of rx' ≡ join raws tail
        → Asked R tail resp_prefix start xs s
            (raw ∷ raws)
            (record s { rx = rx' }, some (take (128 - 1) (text_of raw)))
    answer_Asked start xs s raw raws rest rx' found room h = record {
      handled = [];
      left = raws;
      reports = refl;
      others = tt;
      to_come = h;
      has_room = room;
      same_operator = refl;
      same_sent = refl;
      answer = inr (raw, rest, found, refl, refl);
    }

    other_Asked :
        (start : ℕ) (x : QueryRound) (xs : List QueryRound) (s : DtuTask R) (raw : Bytes)
        (raws : List Bytes) (rx' : RxState) (r : DtuTask R × Option Bytes)
        → strip_prefix resp_prefix (text_of raw) ≡ none
        → Asked R tail resp_prefix start xs
            (record s { rx = rx'; dtu = dtu_handle_line R s.dtu (text_of raw) x.checked x.stored })
            raws
            r
        → Asked R tail resp_prefix start (x ∷ xs) s (raw ∷ raws) r
    other_Asked start x xs s raw raws rx' r other a = record {
      handled = (raw, x.checked, x.stored) ∷ a.handled;
      left = a.left;
      reports = a.reports;
      others = (other, a.others);
      to_come = a.to_come;
      has_room = a.has_room;
      same_operator = a.same_operator;
      same_sent = a.same_sent;
      answer = elim a.answer [
        | inl (nothing, parts, cause) ↦ inl (
          nothing,
          ap (raw ∷◌) parts,
          GaveUp-next R start x xs (raw, x.checked, x.stored) a.handled r.0.rx cause,
        )
        | inr (last, rest, found, is, parts) ↦ inr (last, rest, found, is, ap (raw ∷◌) parts)
      ];
    }

    -- One round of the loop, and the further ones.
    module _ (start : ℕ) (x : QueryRound) (xs : List QueryRound) (s : DtuTask R)
        (rx' : RxState) where
      -- The task when it has handled what was read.
      abbrev handled_line : Bytes → DtuTask R
      handled_line text = record s {
        rx = rx';
        dtu = dtu_handle_line R s.dtu text x.checked x.stored;
      }

      line_Asked :
          (raw : Bytes) (raws : List Bytes) (l : Bytes) (found : Option Bytes)
          (further : DtuTask R × Option Bytes)
          → c_str l ≡ text_of raw
          → strip_prefix resp_prefix (c_str l) ≡ found
          → HasRoom rx'
          → stream_of rx' ≡ join raws tail
          → Asked R tail resp_prefix start xs (handled_line (c_str l)) raws further
          → Asked R tail resp_prefix start
              (x ∷ xs)
              s
              (raw ∷ raws)
              (query_step s true (some l) (c_str l) rx' found further)
      line_Asked raw raws l (some rest) further same found room h a =
          subst
            (λ text.
              Asked R tail resp_prefix start (x ∷ xs) s (raw ∷ raws)
                (record s { rx = rx' }, some (take (128 - 1) text)))
            (sym same)
            (answer_Asked start (x ∷ xs) s raw raws rest rx'
              (ap (strip_prefix resp_prefix) (sym same) ∙ found) room h)
      line_Asked raw raws l none further same other room h a =
          other_Asked start x xs s raw raws rx' further
            (ap (strip_prefix resp_prefix) (sym same) ∙ other)
            (subst (λ text. Asked R tail resp_prefix start xs (handled_line text) raws further) same
              a)

      step_Asked :
          (raws : List Bytes) (in_time : Bool) (line : Option Bytes)
          (further : DtuTask R × Option Bytes)
          → HasRoom s.rx
          → stream_of s.rx ≡ join raws tail
          → All IsLine raws
          → ReadsFrom dtu_line_buf_size raws tail (line, rx')
          → (in_time ≡ false → GaveUp R start (x ∷ xs) [] s.rx)
          → (line ≡ none → GaveUp R start (x ∷ xs) [] rx')
          → ((raws' : List Bytes)
              → All IsLine raws'
              → HasRoom rx'
              → stream_of rx' ≡ join raws' tail
              → Asked R tail resp_prefix start xs (handled_line (text_read line)) raws' further)
          → Asked R tail resp_prefix start (x ∷ xs) s raws (
              query_step s in_time line
                (text_read line)
                rx'
                (strip_prefix resp_prefix (text_read line))
                further)
      step_Asked raws false line further room h lines read late silent more =
          nothing_Asked start (x ∷ xs) s raws s.rx room h (late refl)
      step_Asked raws true none further room h lines (room', inl (e, h')) late silent more =
          nothing_Asked start (x ∷ xs) s raws rx' room' h' (silent refl)
      step_Asked raws true (some l) further room h lines (room', inl (e, h')) late silent more =
          absurd (ground (arith, e))
      step_Asked raws true none further room h lines (room', inr (raw, raws', split, e, h')) late
            silent more =
          absurd (ground (arith, e))
      step_Asked raws true (some l) further room h lines (room', inr (raw, raws', split, e, h'))
            late silent more =
          let (short, others) = subst (All IsLine) split lines in
          subst
            (λ ls. Asked R tail resp_prefix start (x ∷ xs) s ls (
              query_step s true (some l) (c_str l) rx' (strip_prefix resp_prefix (c_str l))
                further))
            (sym split)
            (line_Asked raw raws' l (strip_prefix resp_prefix (c_str l)) further
              (ap (λ o. c_str (elim o [ none ↦ l | some y ↦ y ])) e
                ∙ ap c_str (copy_line-drop_return raw short.1))
              refl room' h' (more raws' others room' h'))

    module _ (last : IsLine tail) where
      query_loop-Asked :
          (s : DtuTask R) (start : ℕ) (xs : List QueryRound) (raws : List Bytes)
          → HasRoom s.rx
          → stream_of s.rx ≡ join raws tail
          → All IsLine raws
          → Asked R tail resp_prefix start xs s raws (query_loop R s resp_prefix start xs)
      unfolding query_loop
      query_loop-Asked s start [] raws room h lines =
          nothing_Asked start [] s raws s.rx room h (inl refl)
      query_loop-Asked s start (x ∷ xs) raws room h lines =
          let left : ℕ = query_timeout R - tick_sub x.tested start in
          let read : Option Bytes × RxState =
            dtu_read_line x.called left dtu_line_buf_size s.rx x.reads in
          let handled : DtuTask R = handled_line start x xs s read.1 (text_read read.0) in
          step_Asked start x xs s read.1 raws (ltb (tick_sub x.tested start) (query_timeout R))
            read.0 (query_loop R handled resp_prefix start xs) room h lines
            (dtu_read_line-ReadsFrom x.called left dtu_line_buf_size tail last x.reads s.rx raws
              room h lines)
            (λ late. inr (x, refl, inl late))
            (λ silent. inr (x, refl, inr (s.rx, ap (λ o. (o, read.1)) silent)))
            (λ raws' lines' room' h'. query_loop-Asked handled start xs raws' room' h' lines')

      -- Where what is in the buffer and what the UART still delivers are lines shorter than the
      -- buffer with their newlines, and a tail without one, a query sends its command and then
      -- handles the first lines of the stream, in order, as lines of the main loop, none of which
      -- starts with the prefix of the answer; the next line, if it starts with the prefix, is the
      -- answer, cut to 127 bytes, and is not handled; the other lines are still to come; there is
      -- no answer only if, behind the handled lines, the rounds are over, or a round finds the time
      -- over, or its call of dtu_read_line ends without a line.
      pub dtu_query-Asked :
          (at : ℕ → Query) (s : DtuTask R) (cmd : Bytes) (raws : List Bytes)
          → HasRoom s.rx
          → stream_of s.rx ≡ join raws tail
          → All IsLine raws
          → Asked R tail resp_prefix
              (at (length s.sent)).start
              (at (length s.sent)).query_rounds
              (dtu_send_command R s cmd)
              raws
              (dtu_query R at s cmd resp_prefix)
      unfolding dtu_query dtu_send_command
      dtu_query-Asked at s cmd raws room h lines =
          query_loop-Asked (dtu_send_command R s cmd) (at (length s.sent)).start
            (at (length s.sent)).query_rounds raws room h lines
