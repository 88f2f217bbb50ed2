-- ===== src/UartAt/Urc/Stream.antt =====
-- What the loop makes of a buffer that holds reports one after the other.
use iot_sms.Base.{
  ℕ, zero, suc, ◌<◌, Bool, true, false, List, [], ◌∷◌, ◌++◌, none, some, Bytes, All, length, take,
  drop, ltb, lt→ltb, ◌≡◌, refl, sym, ap, subst, ◌∙◌, arith, if◌then◌else◌, inl, inr,
}
use iot_sms.CString.Search.{split_at_text-here}
use iot_sms.Rtos.{Rtos}
use iot_sms.UartAt.Fragments.{State, process_sms_fragment}
use iot_sms.UartAt.Urc.{
  AtState, Moment, crlf, find_sms_urc, decode_sender, process_content, send_complete,
  parse_cmt_text_mode_response, handle_urcs, process_pending_sms_urcs,
}
use iot_sms.UartAt.Urc.Steps.{take_report, handle_urcs_last, handle_urcs_more, handle_urcs_final}
use iot_sms.UartAt.Urc.Drain.{empty_or_longer, none-has_complete}
use iot_sms.UartAt.Urc.Reports.{
  Report, IsReport, report_header, block, report_then, stream, find-report, report_block,
  report_rest, parse_sender-block, parse_content-block, shorter,
}

module _ (R : Rtos) where
  -- What is to happen with a report: its text goes to the reassembly, with its decoded sender.
  unfoldable pub deliver : State R → Report → Moment → State R
  deliver s r m =
      if m.allocated
      then send_complete R (
          process_sms_fragment R s (decode_sender r.sender_hex) r.content (length r.content)
            m.checked m.stored)
      else s

  unfoldable pub deliver_all : (ℕ → Moment) → ℕ → State R → List Report → State R
  deliver_all at i s [] = s
  deliver_all at i s (r ∷ rs) = deliver_all at (suc i) (deliver s r (at i)) rs

  deliver_allocated :
      (s : State R) (r : Report) (m : Moment) (b : Bool)
      → ltb 0 (length r.content) ≡ true
      → m.allocated ≡ b
      → send_complete R (process_content R s (decode_sender r.sender_hex) (some r.content) m)
        ≡ deliver s r m
  unfolding process_content deliver send_complete
  deliver_allocated s r m true e b = rw (e, b) refl
  deliver_allocated s r m false e b = rw (e, b) refl

  parse-block :
      (s : State R) (r : Report) (m : Moment)
      → IsReport r
      → parse_cmt_text_mode_response R s (block r) m
        ≡ process_content R s (decode_sender r.sender_hex) (some r.content) m
  unfolding parse_cmt_text_mode_response
  parse-block s r m h =
      let here =
        split_at_text-here b'+' (b'C' ∷ b'M' ∷ b'T' ∷ b':' ∷ [])
          (report_header r ++ (crlf ++ (r.content ++ crlf))) in
      rw (here, parse_cmt_text_mode_response, parse_sender-block r h, parse_content-block r h) refl

  take_report-deliver :
      (s : State R) (r : Report) (t : Bytes) (m : Moment)
      → IsReport r
      → take_report R s (take (length (block r)) (drop (length r.noise) (report_then r t))) m
        ≡ deliver s r m
  take_report-deliver s r t m h =
      ap (λ line. take_report R s line m) (report_block r t)
      ∙ ap (send_complete R) (parse-block s r m h)
      ∙ deliver_allocated s r m m.allocated (lt→ltb _ _ h.content_some) refl

  deliver_one :
      (fuel : ℕ) (at : ℕ → Moment) (i : ℕ) (s : State R) (r : Report) (t : Bytes)
      → IsReport r
      → 0 < length t
      → handle_urcs R (suc fuel) at i s (report_then r t)
        ≡ handle_urcs R fuel at (suc i) (deliver s r (at i)) t
  deliver_one fuel at i s r t h more =
      handle_urcs_more R fuel at i s (report_then r t) _ _ (find-report r t h)
        (subst (λ x. 0 < length x) (sym (report_rest r t)) more)
      ∙ rw (take_report-deliver s r t (at i) h, report_rest r t) refl

  deliver_last :
      (fuel : ℕ) (at : ℕ → Moment) (i : ℕ) (s : State R) (r : Report)
      → IsReport r
      → handle_urcs R (suc fuel) at i s (report_then r []) ≡ (deliver s r (at i), [])
  deliver_last fuel at i s r h =
      handle_urcs_final R fuel at i s (report_then r []) _ _ (find-report r [] h) (report_rest r [])
      ∙ ap (λ x. (x, [])) (take_report-deliver s r [] (at i) h)

  handle_urcs-stream :
      (fuel : ℕ) (at : ℕ → Moment) (i : ℕ) (s : State R) (rs : List Report) (tail : Bytes)
      → All IsReport rs
      → find_sms_urc tail ≡ none
      → length (stream rs tail) < fuel
      → handle_urcs R fuel at i s (stream rs tail) ≡ (deliver_all at i s rs, tail)
  unfolding deliver_all
  handle_urcs-stream zero at i s rs tail h e enough = absurd (omega arith)
  handle_urcs-stream (suc fuel) at i s [] tail h e enough = handle_urcs_last R fuel at i s tail e
  handle_urcs-stream (suc fuel) at i s (r ∷ []) tail h e enough = elim (empty_or_longer tail) [
    | inl gone ↦ rw gone (deliver_last fuel at i s r h.0)
    | inr more ↦
        deliver_one fuel at i s r tail h.0 more
        ∙ handle_urcs-stream fuel at (suc i) (deliver s r (at i)) [] tail h.1 e
            (omega (arith, shorter r tail))
  ]
  handle_urcs-stream (suc fuel) at i s (r ∷ r' ∷ rs) tail h e enough =
      deliver_one fuel at i s r (stream (r' ∷ rs) tail) h.0
        (omega (arith, shorter r' (stream rs tail)))
      ∙ handle_urcs-stream fuel at (suc i) (deliver s r (at i)) (r' ∷ rs) tail h.1 e
          (omega (arith, shorter r (stream (r' ∷ rs) tail)))

  pub process_pending-stream :
      (s : AtState R.Queue) (at : ℕ → Moment) (rs : List Report) (tail : Bytes)
      → All IsReport rs
      → find_sms_urc tail ≡ none
      → s.rx_buffer ≡ stream rs tail
      → process_pending_sms_urcs R s at ≡ record s {
        rx_buffer = tail;
        fragments = deliver_all at 0 s.fragments rs;
        urc_bit = false;
      }
  unfolding process_pending_sms_urcs
  process_pending-stream s at rs tail h e held =
      let all =
        ap (λ x. handle_urcs R (suc (length x)) at 0 s.fragments x) held
        ∙ handle_urcs-stream (suc (length (stream rs tail))) at 0 s.fragments rs tail h e
            (omega arith) in
      rw (all, none-has_complete tail e) refl
