-- ===== src/UartAt/Task/Delivery.antt =====
-- A round of the main loop hands over the reports that are completed within it, however the bytes
-- arrive, and keeps the rest.
use iot_sms.Base.{
  ℕ, ◌+◌, ◌<◌, Bool, true, false, List, [], ◌∷◌, ◌++◌, append-nil, none, Bytes, All, length,
  length-append, ◌≢◌, ◌≡◌, refl, sym, ap, subst, ◌∙◌, arith, if◌then◌else◌, Bool-cases, none-some,
  inl, inr,
}
use iot_sms.Rtos.{Rtos}
use iot_sms.UartAt.Fragments.{State, is_fragment_timeout, flush_fragment_buffer_to_queue}
use iot_sms.UartAt.Urc.{
  AtState, Moment, find_sms_urc, has_complete_sms_urc, process_pending_sms_urcs,
}
use iot_sms.UartAt.Urc.Reports.{Report, IsReport, stream, find-report}
use iot_sms.UartAt.Urc.Stream.{deliver_all, process_pending-stream}
use iot_sms.UartAt.Receive.{buf_size, clean, receive_data}
use iot_sms.UartAt.Receive.Signals.{Announced, receive_data-Announced, incomplete_none}
use iot_sms.UartAt.Task.{LoopRound, wait_urc, main_loop_round}
use iot_sms.UartAt.Task.Arrivals.{
  IsCalm, concat, clean-stream, rx-receive_all, receive_data-Grows, fragments-receive_data,
  fragments-receive_all,
}
use iot_sms.UartAt.Task.Sound.{wait_urc_step}

-- The wait takes all chunks, and it ends without the bit only if no report is complete.
abbrev Took : {Queue : Type 0} → AtState Queue → List Bytes → AtState Queue × Bool → Type 0
Took s chunks (t, urc) =
    (t.rx_buffer ≡ clean (s.rx_buffer ++ concat chunks))
    × (t.fragments ≡ s.fragments)
    × (urc ≡ false → (has_complete_sms_urc t.rx_buffer ≡ false) × (t.urc_bit ≡ false))

no_report :
    {Queue : Type 0} (s : AtState Queue)
    → Announced s
    → s.urc_bit ≡ false
    → has_complete_sms_urc s.rx_buffer ≡ false
no_report s h off = elim (Bool-cases (has_complete_sms_urc s.rx_buffer)) [
  | inl complete ↦ absurd (true-false (sym (h complete) ∙ off))
  | inr none_there ↦ none_there
]
  where
    true-false : true ≢ false
    true-false e = ground (arith, e)

wait_urc-Took :
    {Queue : Type 0} (chunks : List Bytes) (s : AtState Queue)
    → clean s.rx_buffer ≡ s.rx_buffer
    → length s.rx_buffer + length (concat chunks) < buf_size
    → Announced s
    → Took s chunks (wait_urc s chunks)
unfolding wait_urc
wait_urc-Took [] s e fits h =
    (sym e ∙ ap clean (sym (append-nil s.rx_buffer)), refl, λ off. (no_report s h off, refl))
wait_urc-Took (chunk ∷ chunks) s e fits h = elim (Bool-cases s.urc_bit) [
  | inl on ↦
      let lowered = record s { urc_bit = false } in
      subst (Took s (chunk ∷ chunks)) (sym (wait_urc_step s chunk chunks true on)) (
        rx-receive_all (chunk ∷ chunks) lowered e fits,
        fragments-receive_all lowered (chunk ∷ chunks),
        λ x. absurd (ground (arith, x)),
      )
  | inr off ↦
      let (stays, room, same) = receive_data-Grows s chunk (concat chunks) e fits in
      let (rx, fragments, idle) =
        wait_urc-Took chunks (receive_data s chunk) stays room (receive_data-Announced s chunk h) in
      subst (Took s (chunk ∷ chunks)) (sym (wait_urc_step s chunk chunks false off))
        (rx ∙ same, fragments ∙ fragments-receive_data s chunk, idle)
]

module _ (R : Rtos) where
  -- Reports that are not complete are no reports.
  stream-none :
      (rs : List Report) (tail : Bytes)
      → All IsReport rs
      → find_sms_urc (stream rs tail) ≡ none
      → rs ≡ []
  stream-none [] tail h e = refl
  stream-none (r ∷ rs) tail (h, hs) e =
      absurd (none-some (sym e ∙ find-report r (stream rs tail) h))

  -- What the timer does with the reassembly in the end.
  abbrev pub timed_out : State R → ℕ → State R
  timed_out f checked =
      if is_fragment_timeout R f.buffer checked then flush_fragment_buffer_to_queue R f else f

  abbrev pub Delivers : AtState R.Queue → LoopRound → List Report → Bytes → AtState R.Queue → Type 0
  Delivers s x rs tail t =
      (t.rx_buffer ≡ tail)
      × (t.urc_bit ≡ false)
      × (t.fragments ≡ timed_out (deliver_all R x.moments 0 s.fragments rs) x.checked)

  none_delivered : (at : ℕ → Moment) (f : State R) → f ≡ deliver_all R at 0 f []
  unfolding deliver_all
  none_delivered at f = refl

  handled :
      (s t : AtState R.Queue) (urc : Bool) (at : ℕ → Moment) (rs : List Report) (tail : Bytes)
      → All IsReport rs
      → find_sms_urc tail ≡ none
      → t.rx_buffer ≡ stream rs tail
      → t.fragments ≡ s.fragments
      → (urc ≡ false → (has_complete_sms_urc t.rx_buffer ≡ false) × (t.urc_bit ≡ false))
      → let u : AtState R.Queue = if urc then process_pending_sms_urcs R t at else t in
        (u.rx_buffer ≡ tail)
        × (u.urc_bit ≡ false)
        × (u.fragments ≡ deliver_all R at 0 s.fragments rs)
  handled s t true at rs tail h e rx same idle =
      let all = process_pending-stream R t at rs tail h e rx in
      (
        ap (λ u. u.rx_buffer) all,
        ap (λ u. u.urc_bit) all,
        ap (λ u. u.fragments) all ∙ ap (λ f. deliver_all R at 0 f rs) same,
      )
  handled s t false at rs tail h e rx same idle =
      let (nothing, off) = idle refl in
      let gone =
        stream-none rs tail h (ap find_sms_urc (sym rx) ∙ incomplete_none R t.rx_buffer nothing) in
      (
        rx ∙ ap (λ l. stream l tail) gone,
        off,
        same ∙ none_delivered at s.fragments ∙ ap (deliver_all R at 0 s.fragments) (sym gone),
      )

  -- The end of the round.
  round_end :
      (u : AtState R.Queue) (checked : ℕ)
      → let v : AtState R.Queue =
          if is_fragment_timeout R u.fragments.buffer checked
          then record u { fragments = flush_fragment_buffer_to_queue R u.fragments }
          else u in
        (v.rx_buffer ≡ u.rx_buffer)
        × (v.urc_bit ≡ u.urc_bit)
        × (v.fragments ≡ timed_out u.fragments checked)
  round_end u checked = elim (Bool-cases (is_fragment_timeout R u.fragments.buffer checked)) [
    | inl e ↦ rw e (refl, refl, refl)
    | inr e ↦ rw e (refl, refl, refl)
  ]

  pub main_loop_round-Delivers :
      (s : AtState R.Queue) (x : LoopRound) (rs : List Report) (tail : Bytes)
      → All IsReport rs
      → All IsCalm rs
      → find_sms_urc tail ≡ none
      → clean tail ≡ tail
      → clean s.rx_buffer ≡ s.rx_buffer
      → Announced s
      → s.rx_buffer ++ concat x.during ≡ stream rs tail
      → length (stream rs tail) < buf_size
      → Delivers s x rs tail (main_loop_round R s x)
  unfolding main_loop_round
  main_loop_round-Delivers s x rs tail h calm e quiet stays announced arrived room =
      let fits : length s.rx_buffer + length (concat x.during) < buf_size =
        omega (arith, ap length arrived, length-append s.rx_buffer (concat x.during)) in
      let (rx, same, idle) = wait_urc-Took x.during s stays fits announced in
      let r = wait_urc s x.during in
      let held = rx ∙ ap clean arrived ∙ clean-stream rs tail h calm quiet in
      let (tail_left, off, delivered) = handled s r.0 r.1 x.moments rs tail h e held same idle in
      let u : AtState R.Queue = if r.1 then process_pending_sms_urcs R r.0 x.moments else r.0 in
      let (rx_end, bit_end, fragments_end) = round_end u x.checked in
      (rx_end ∙ tail_left, bit_end ∙ off, fragments_end ∙ ap (λ f. timed_out f x.checked) delivered)
