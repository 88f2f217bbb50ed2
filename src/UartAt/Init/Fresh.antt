-- ===== src/UartAt/Init/Fresh.antt =====
-- Whatever an earlier run has left, the manager starts afresh, and nothing is there twice.
use iot_sms.Base.{
  ℕ, ◌+◌, ◌-◌, ◌≤◌, Bool, true, false, ◌&&◌, [], Option, some, ◌≡◌, refl, arith, if◌then◌else◌, ltb,
}
use iot_sms.CString.Search.{split_at_text}
use iot_sms.UartAt.Urc.{has_complete_sms_urc, find_sms_urc}
use iot_sms.UartAt.Receive.Signals.{IsSound}
use iot_sms.UartAt.Init.{
  Manager, InitResults, one_if, delete_tasks, delete_driver, make_mutex, make_event_group,
  clear_rx_buffer, prepare, start_driver, uart_at_init, create_at_task,
}

abbrev pub all_ok : InitResults → Bool
all_ok r = r.driver_installed && r.params_set && r.pins_set

made_once :
    (n : ℕ) (had made : Bool)
    → n ≡ one_if had
    → (if had then n else n + one_if made) ≡ one_if (if had then true else made)
made_once n true made e = e
made_once n false made e = omega (arith, e)

deleted : (n : ℕ) → n ≤ 1 → (if ltb 0 n then n - 1 else n) ≡ 0
deleted n h = ground arith

none-has_report : has_complete_sms_urc [] ≡ false
unfolding has_complete_sms_urc find_sms_urc split_at_text
none-has_report = refl

module _ {Queue : Type 0} where
  -- The handles tell what is there, and there is one driver at most.
  pub record IsMatched (m : Manager Queue) : Type 0 where
    pub at_task : m.at_tasks ≡ one_if m.s_uart_at_task_handle
    pub event_task : m.event_tasks ≡ one_if m.s_uart_event_task_handle
    pub mutex : m.mutexes ≡ one_if m.s_uart_rx_mutex
    pub event_group : m.event_groups ≡ one_if m.s_at_response_event_group
    pub one_driver : m.drivers ≤ 1

  -- The state of the manager where it starts: an empty buffer and clear bits; the message that is
  -- being put together is kept, and the queue is the new one.
  pub record IsFresh (sms_queue : Option Queue) (m : Manager Queue) (m' : Manager Queue)
      : Type 0 where
    pub matched : IsMatched m'
    pub no_at_task : m'.at_tasks ≡ 0
    pub driver : m'.drivers ≡ 1
    pub empty : m'.at.rx_buffer ≡ []
    pub clear : (m'.at.ok_bit ≡ false) × (m'.at.error_bit ≡ false) × (m'.at.urc_bit ≡ false)
    pub queue : m'.at.fragments.sms_queue ≡ sms_queue
    pub pending : m'.at.fragments.buffer ≡ m.at.fragments.buffer
    pub sound : IsSound m'.at

  pub uart_at_init-IsFresh :
      (r : InitResults) (sms_queue : Option Queue) (m : Manager Queue)
      → IsMatched m
      → all_ok r ≡ true
      → (m' : Manager Queue) × (uart_at_init r sms_queue m ≡ some m') × IsFresh sms_queue m m'
  unfolding uart_at_init prepare start_driver clear_rx_buffer make_event_group make_mutex
      delete_driver delete_tasks
  uart_at_init-IsFresh r sms_queue m h ok = (
    start_driver r (prepare r sms_queue m),
    rw ok refl,
    record {
      matched = record {
        at_task = omega (arith, h.at_task);
        event_task = ground (arith, h.event_task);
        mutex = made_once m.mutexes m.s_uart_rx_mutex r.mutex_made h.mutex;
        event_group =
            made_once m.event_groups m.s_at_response_event_group r.group_made h.event_group;
        one_driver = omega (arith, deleted m.drivers h.one_driver);
      };
      no_at_task = omega (arith, h.at_task);
      driver = omega (arith, deleted m.drivers h.one_driver);
      empty = refl;
      clear = (refl, refl, refl);
      queue = refl;
      pending = refl;
      sound = (
        record { room = omega arith; text = tt },
        λ complete. absurd (ground (arith, none-has_report, complete)),
      );
    },
  )

  pub create_at_task-IsMatched :
      (sms_queue : Option Queue) (m m' : Manager Queue)
      → IsFresh sms_queue m m'
      → IsMatched (create_at_task m')
  unfolding create_at_task
  create_at_task-IsMatched sms_queue m m' h = record {
    at_task = omega (arith, h.no_at_task);
    event_task = h.matched.event_task;
    mutex = h.matched.mutex;
    event_group = h.matched.event_group;
    one_driver = h.matched.one_driver;
  }
