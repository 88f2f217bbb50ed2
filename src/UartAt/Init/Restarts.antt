-- ===== src/UartAt/Init/Restarts.antt =====
-- Over any starts and restarts of the manager, there is one of each thing, and the buffer is sound.
use iot_sms.Base.{◌≤◌, true, Option, none, some, ◌≡◌, sym, ap, ◌∙◌, subst, arith}
use iot_sms.Rtos.{Rtos}
use iot_sms.UartAt.Urc.{AtState}
use iot_sms.UartAt.Receive.Signals.{IsSound}
use iot_sms.UartAt.Init.{Manager, InitResults, uart_at_init, create_at_task}
use iot_sms.UartAt.Init.Fresh.{IsMatched, all_ok, uart_at_init-IsFresh, create_at_task-IsMatched}
use iot_sms.UartAt.Task.Sound.{Reaches, Reaches-IsSound}

some_eq {ℓ} : {A : Type ℓ} {x y : A} → some x ≡ some y → x ≡ y
some_eq {x = x} e = ap (λ o. elim o [ none ↦ x | some z ↦ z ]) e

module _ (R : Rtos) where
  -- A start is `uart_at_init` and the creation of the task; between two starts, the tasks run.
  pub data Lives (first : Manager R.Queue) : Manager R.Queue → Type 0 where
    born : Lives first first
    starts :
        {m m' : Manager R.Queue} (r : InitResults) (sms_queue : Option R.Queue)
        → Lives first m
        → all_ok r ≡ true
        → uart_at_init r sms_queue m ≡ some m'
        → Lives first (create_at_task m')
    runs :
        {m : Manager R.Queue} {t : AtState R.Queue}
        → Lives first m
        → Reaches R m.at t
        → Lives first (record m { at = t })

  pub record IsOrderly (m : Manager R.Queue) : Type 0 where
    pub one_at_task : m.at_tasks ≤ 1
    pub one_event_task : m.event_tasks ≤ 1
    pub one_driver : m.drivers ≤ 1
    pub sound : IsSound m.at

  started-IsMatched :
      (r : InitResults) (sms_queue : Option R.Queue) (m m' : Manager R.Queue)
      → IsMatched m
      → all_ok r ≡ true
      → uart_at_init r sms_queue m ≡ some m'
      → IsMatched (create_at_task m') × IsSound (create_at_task m').at
  unfolding create_at_task
  started-IsMatched r sms_queue m m' h ok e =
      let (fresh, e', is) = uart_at_init-IsFresh r sms_queue m h ok in
      subst (λ n. IsMatched (create_at_task n) × IsSound (create_at_task n).at)
        (some_eq (sym e' ∙ e)) (create_at_task-IsMatched sms_queue m fresh is, is.sound)

  Lives-IsMatched :
      {first m : Manager R.Queue}
      → Lives first m
      → IsMatched first
      → IsSound first.at
      → IsMatched m × IsSound m.at
  Lives-IsMatched born h sound = (h, sound)
  Lives-IsMatched (starts {m} {m'} r sms_queue life ok e) h sound =
      started-IsMatched r sms_queue m m' (Lives-IsMatched life h sound).0 ok e
  Lives-IsMatched (runs life run) h sound =
      let (matched, before) = Lives-IsMatched life h sound in
      (
        record {
          at_task = matched.at_task;
          event_task = matched.event_task;
          mutex = matched.mutex;
          event_group = matched.event_group;
          one_driver = matched.one_driver;
        },
        Reaches-IsSound R run before,
      )

  -- Over any starts and restarts of the manager, each by uart_at_init with calls of the driver that
  -- succeed and the creation of the task, and between them any interleaving of driver events,
  -- configurations of the modem, waits for a retry, handlings of pending reports and rounds of the
  -- main loop, if the modem sends text without NULs: from a manager whose handles tell what there
  -- is, with one driver at most, and whose buffer is sound, there is never more than one of the AT
  -- task, of the event task and of the driver, the receive buffer is shorter than its array and
  -- without NULs, and a complete report that stands in it is announced by the bit.
  pub Lives-IsOrderly :
      {first m : Manager R.Queue} → Lives first m → IsMatched first → IsSound first.at → IsOrderly m
  Lives-IsOrderly {m = m} life h sound =
      let (matched, is) = Lives-IsMatched life h sound in
      record {
        one_at_task = ground (arith, matched.at_task);
        one_event_task = ground (arith, matched.event_task);
        one_driver = matched.one_driver;
        sound = is;
      }
