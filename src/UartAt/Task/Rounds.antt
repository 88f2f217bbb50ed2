-- ===== src/UartAt/Task/Rounds.antt =====
-- From the bytes of the modem to the messages in the queue, over the rounds of the main loop.
use iot_sms.Base.{
  ℕ, ◌<◌, false, List, [], ◌∷◌, ◌++◌, none, some, ◌≡◌, refl, sym, ap, ◌∙◌, subst, arith, Bytes, All,
  length,
}
use iot_sms.Rtos.{Rtos}
use iot_sms.UartAt.Fragments.{State, is_fragment_timeout}
use iot_sms.UartAt.Urc.{AtState, find_sms_urc, has_complete_sms_urc}
use iot_sms.UartAt.Urc.Drain.{none-has_complete}
use iot_sms.UartAt.Urc.Reports.{Report, IsReport, stream}
use iot_sms.UartAt.Receive.{buf_size, clean}
use iot_sms.UartAt.Receive.Signals.{Announced}
use iot_sms.UartAt.Task.{LoopRound, uart_at_main_loop, main_loop_round}
use iot_sms.UartAt.Task.Arrivals.{IsCalm, concat}
use iot_sms.UartAt.Task.Delivery.{timed_out, main_loop_round-Delivers}
use iot_sms.UartAt.Task.Messages.{
  Delivery, Parts, all_deliveries, messages, at_moments, deliver_each, deliver_each-append,
  deliver_all-each, IsMessage, Took,
}
use iot_sms.UartAt.Task.Queued.{messages-Took}

-- A round of the main loop, the reports that are completed in it, and what is left of the bytes.
pub record Step : Type 0 where
  pub round : LoopRound
  pub reports : List Report
  pub rest : Bytes

abbrev pub rounds_of : List Step → List LoopRound
rounds_of [] = []
rounds_of (x ∷ xs) = x.round ∷ rounds_of xs

abbrev pub delivered_in : Step → List Delivery
delivered_in x = at_moments x.round.moments 0 x.reports

abbrev pub all_delivered : List Step → List Delivery
all_delivered [] = []
all_delivered (x ∷ xs) = delivered_in x ++ all_delivered xs

-- What the buffer holds, with the chunks of a round in any cut, is that round's reports and the
-- rest, with which the next round starts.
pub record Arrives (held : Bytes) (x : Step) : Type 0 where
  pub reports : All IsReport x.reports
  pub calm : All IsCalm x.reports
  pub incomplete : find_sms_urc x.rest ≡ none
  pub quiet : clean x.rest ≡ x.rest
  pub bytes : held ++ concat x.round.during ≡ stream x.reports x.rest
  pub room : length (stream x.reports x.rest) < buf_size

abbrev pub AllArrive : Bytes → List Step → Type 0
AllArrive held [] = Unit {0}
AllArrive held (x ∷ xs) = Arrives held x × AllArrive x.rest xs

abbrev pub last_rest : Bytes → List Step → Bytes
last_rest held [] = held
last_rest held (x ∷ xs) = last_rest x.rest xs

module _ (R : Rtos) where
  -- The time-out is found at the end of no round.
  abbrev pub Punctual : State R → List Step → Type 0
  Punctual f [] = Unit {0}
  Punctual f (x ∷ xs) =
      (is_fragment_timeout R (deliver_each R f (delivered_in x)).buffer x.round.checked ≡ false)
      × Punctual (deliver_each R f (delivered_in x)) xs

  no_report-Announced :
      (s : AtState R.Queue) (rest : Bytes)
      → find_sms_urc rest ≡ none
      → s.rx_buffer ≡ rest
      → Announced s
  no_report-Announced s rest e held complete =
      absurd (ground (arith, none-has_complete rest e, ap has_complete_sms_urc held, complete))

  in_time :
      (f : State R) (checked : ℕ)
      → is_fragment_timeout R f.buffer checked ≡ false
      → timed_out R f checked ≡ f
  in_time f checked e = rw e refl

  uart_at_main_loop-delivers :
      (s : AtState R.Queue) (xs : List Step)
      → AllArrive s.rx_buffer xs
      → clean s.rx_buffer ≡ s.rx_buffer
      → Announced s
      → Punctual s.fragments xs
      → ((uart_at_main_loop R s (rounds_of xs)).rx_buffer ≡ last_rest s.rx_buffer xs)
        × ((uart_at_main_loop R s (rounds_of xs)).fragments
            ≡ deliver_each R s.fragments (all_delivered xs))
  unfolding uart_at_main_loop deliver_each
  uart_at_main_loop-delivers s [] a stays announced times = (refl, refl)
  uart_at_main_loop-delivers s (x ∷ xs) (a, more) stays announced (time, times) =
      let t = main_loop_round R s x.round in
      let (held, off, got) =
        main_loop_round-Delivers R s x.round x.reports x.rest a.reports a.calm a.incomplete a.quiet
          stays announced a.bytes a.room in
      let same : t.fragments ≡ deliver_each R s.fragments (delivered_in x) =
        got
        ∙ ap (λ f. timed_out R f x.round.checked)
            (deliver_all-each R x.round.moments 0 s.fragments x.reports)
        ∙ in_time (deliver_each R s.fragments (delivered_in x)) x.round.checked time in
      let (last, all) =
        uart_at_main_loop-delivers t xs (subst (λ h. AllArrive h xs) (sym held) more)
          (ap clean held ∙ a.quiet ∙ sym held) (no_report-Announced t x.rest a.incomplete held)
          (subst (λ f. Punctual f xs) (sym same) times) in
      (
        last ∙ ap (λ h. last_rest h xs) held,
        all
            ∙ ap (λ f. deliver_each R f (all_delivered xs)) same
            ∙ sym (deliver_each-append R s.fragments (delivered_in x) (all_delivered xs)),
      )

  -- The bytes that are left are in the buffer, and the queue has taken the messages.
  pub record Queues (s : AtState R.Queue) (q : R.Queue) (xs : List Step) (ts : List Parts)
      (t : AtState R.Queue) : Type 0 where
    pub held : t.rx_buffer ≡ last_rest s.rx_buffer xs
    pub took : Took R q (messages ts) t.fragments

  -- For any number of rounds of the main loop, from an idle reassembly that has its queue, with a
  -- cleaned buffer in which a complete report is announced by the bit: if in each round what the
  -- buffer holds and the chunks that arrive, in any cut, are well-formed reports with only empty
  -- lines in front of each, whose contents are no notifications, and then a rest without a complete
  -- report and without lines to remove, together shorter than the buffer, if the time-out of the
  -- reassembly is found at the end of no round, and if the reports of all rounds are, one after the
  -- other, those of messages, each of parts of one sender, of the four lengths but for the last,
  -- that fit together and are handled without a gap over 30 seconds while memory is there, then the
  -- queue has taken, behind what it had taken before, the message of each with the sender and the
  -- decoded content of all its parts, in order; the reassembly is idle, and the buffer holds the
  -- last rest.
  pub uart_at_main_loop-Queues :
      (s : AtState R.Queue) (q : R.Queue) (xs : List Step) (ts : List Parts)
      → AllArrive s.rx_buffer xs
      → clean s.rx_buffer ≡ s.rx_buffer
      → Announced s
      → Punctual s.fragments xs
      → s.fragments.buffer.is_active ≡ false
      → s.fragments.sms_queue ≡ some q
      → all_delivered xs ≡ all_deliveries ts
      → All (IsMessage R) ts
      → Queues s q xs ts (uart_at_main_loop R s (rounds_of xs))
  uart_at_main_loop-Queues s q xs ts arrive stays announced times idle e same h =
      let (held, got) = uart_at_main_loop-delivers s xs arrive stays announced times in
      record {
        held = held;
        took =
            subst (Took R q (messages ts)) (sym (got ∙ ap (deliver_each R s.fragments) same))
              (messages-Took R s.fragments q ts h idle e);
      }
