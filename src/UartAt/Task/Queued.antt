-- ===== src/UartAt/Task/Queued.antt =====
-- The reports of complete messages put these messages into the queue, in their order.
use iot_sms.Base.{
  false, List, [], ◌∷◌, ◌++◌, append-nil, append_assoc, some, ◌≡◌, refl, sym, ap, ◌∙◌, subst, arith,
  All, length,
}
use iot_sms.Rtos.{Rtos, max_delay}
use iot_sms.UartAt.Fragments.{State, empty_buffer, message_of, post}
use iot_sms.UartAt.Fragments.Reassembly.{whole, feed-reassembles}
use iot_sms.UartAt.Task.Messages.{
  Delivery, Parts, deliveries, all_deliveries, hex_of, name_of, message, messages, arrival,
  arrivals, arrivals-append, whole-arrivals, deliver_each, deliver_each-append, IsMessage,
  deliver_each-feed, Took, post-Took, single-process, deliver_on, send_message,
}

module _ (R : Rtos) where
  -- A message of one part.
  single-Took :
      (s : State R) (q : R.Queue) (last : Delivery)
      → IsMessage R (record { firsts = []; last = last })
      → s.buffer.is_active ≡ false
      → s.sms_queue ≡ some q
      → Took R q (message (record { firsts = []; last = last }) ∷ []) (deliver_each R s (last ∷ []))
  unfolding deliver_each
  single-Took s q last h idle e =
      let name = name_of (record { firsts = []; last = last }) in
      let single = single-process R s name last idle h.last_short in
      let sent : deliver_each R s (last ∷ [])
          ≡ post R s (message_of name last.0.content) max_delay =
        deliver_on R s name last refl h.allocated.0
        ∙ send_message R _ _ (ap (λ r. r.1) single)
        ∙ ap (λ r. post R r.0 (message_of name last.0.content) max_delay) single in
      subst (λ hex. Took R q (message_of name hex ∷ []) (deliver_each R s (last ∷ [])))
        (sym (append-nil last.0.content))
        (subst (Took R q (message_of name last.0.content ∷ [])) (sym sent)
          (post-Took R s q (message_of name last.0.content) idle e))

  -- A message of several parts.
  several-Took :
      (s : State R) (q : R.Queue) (first : Delivery) (mids : List Delivery) (last : Delivery)
      → IsMessage R (record { firsts = first ∷ mids; last = last })
      → s.buffer.is_active ≡ false
      → s.sms_queue ≡ some q
      → Took R q
          (message (record { firsts = first ∷ mids; last = last }) ∷ [])
          (deliver_each R s (first ∷ (mids ++ last ∷ [])))
  several-Took s q first mids last h idle e =
      let t : Parts = record { firsts = first ∷ mids; last = last } in
      let together : whole (arrivals (first ∷ mids) ++ arrival last ∷ []) ≡ hex_of (deliveries t) =
        ap whole (sym (arrivals-append (first ∷ mids) (last ∷ [])))
        ∙ whole-arrivals (deliveries t) in
      let fed =
        feed-reassembles R (arrival first) (arrival last) (arrivals mids) s (name_of t) idle
          h.name_text h.name_fits h.parts h.last_text h.last_short
          (omega (arith, h.fits, ap length together)) h.timely in
      let m = message_of (name_of t) (whole (arrivals (first ∷ mids) ++ arrival last ∷ [])) in
      let sent =
        deliver_each-feed R s (name_of t) (first ∷ mids) last m h.one_sender h.allocated
          (ap (λ r. r.1) fed)
        ∙ ap (λ r. post R r.0 m max_delay) fed in
      subst
        (λ hex.
          Took R q (message_of (name_of t) hex ∷ [])
            (deliver_each R s (first ∷ (mids ++ last ∷ []))))
        together
        (subst (Took R q (m ∷ [])) (sym sent)
          (post-Took R (record s { buffer = empty_buffer }) q m refl e))

  parts-Took :
      (s : State R) (q : R.Queue) (firsts : List Delivery) (last : Delivery)
      → IsMessage R (record { firsts = firsts; last = last })
      → s.buffer.is_active ≡ false
      → s.sms_queue ≡ some q
      → Took R q
          (message (record { firsts = firsts; last = last }) ∷ [])
          (deliver_each R s (firsts ++ last ∷ []))
  parts-Took s q [] last h idle e = single-Took s q last h idle e
  parts-Took s q (first ∷ mids) last h idle e = several-Took s q first mids last h idle e

  pub messages-Took :
      (s : State R) (q : R.Queue) (ts : List Parts)
      → All (IsMessage R) ts
      → s.buffer.is_active ≡ false
      → s.sms_queue ≡ some q
      → Took R q (messages ts) (deliver_each R s (all_deliveries ts))
  unfolding deliver_each
  messages-Took s q [] h idle e = record {
    idle = idle;
    queue = q;
    has_queue = e;
    taken = sym (append-nil (R.accepted q));
  }
  messages-Took s q (t ∷ ts) (h, hs) idle e =
      let first = parts-Took s q t.firsts t.last h idle e in
      let s' = deliver_each R s (deliveries t) in
      let others = messages-Took s' first.queue ts hs first.idle first.has_queue in
      subst (Took R q (messages (t ∷ ts)))
        (sym (deliver_each-append R s (deliveries t) (all_deliveries ts)))
        (record {
          idle = others.idle;
          queue = others.queue;
          has_queue = others.has_queue;
          taken =
              others.taken
              ∙ ap (λ l. l ++ messages ts) first.taken
              ∙ append_assoc (R.accepted q) (message t ∷ []) (messages ts);
        })
