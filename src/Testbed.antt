-- ===== src/Testbed.antt =====
-- A concrete queue on which the theorems are tried: it holds messages while it has room, and a
-- sender who waits without a time-out is served.
use iot_sms.Base.{
  ℕ, ◌-◌, Bool, true, false, List, [], ◌∷◌, ◌++◌, Option, none, some, ◌≡◌, refl, arith, ◌==◌,
  if◌then◌else◌,
}
use iot_sms.Message.{SmsMessage}
use iot_sms.Rtos.{Rtos, max_delay}

pub record BoardQueue : Type 0 where
  pub room : ℕ
  pub waiting_messages : List SmsMessage
  pub all_accepted : List SmsMessage

abbrev pub put_message : BoardQueue → SmsMessage → BoardQueue
put_message q m = record q {
  room = q.room - 1;
  waiting_messages = q.waiting_messages ++ m ∷ [];
  all_accepted = q.all_accepted ++ m ∷ [];
}

unfoldable pub board_send : BoardQueue → SmsMessage → ℕ → BoardQueue × Bool
board_send q m t =
    if t == max_delay
    then (put_message q m, true)
    else if q.room == 0
    then (q, false)
    else (put_message q m, true)

unfoldable pub board_receive : BoardQueue → ℕ → BoardQueue × Option SmsMessage
board_receive q t = elim q.waiting_messages [
  | [] ↦ (q, none)
  | m ∷ ms ↦ (record q { waiting_messages = ms }, some m)
]

pub board_pass :
    (q : BoardQueue) (m : SmsMessage) (t : ℕ)
    → (board_send q m t).1 ≡ true
    → (board_send q m t).0.all_accepted ≡ q.all_accepted ++ m ∷ []
unfolding board_send
board_pass q m t e = ground arith

pub board_fail :
    (q : BoardQueue) (m : SmsMessage) (t : ℕ)
    → (board_send q m t).1 ≡ false
    → (board_send q m t).0.all_accepted ≡ q.all_accepted
unfolding board_send
board_fail q m t e = ground arith

pub board_forever : (q : BoardQueue) (m : SmsMessage) → (board_send q m max_delay).1 ≡ true
unfolding board_send
board_forever q m = refl

abbrev pub board : Rtos
board = record {
  Queue = BoardQueue;
  send = board_send;
  receive = board_receive;
  accepted = λ q. q.all_accepted;
  send_pass = board_pass;
  send_fail = board_fail;
  send_forever = board_forever;
  tick_rate_hz = 100;
}

abbrev pub queue_with : ℕ → BoardQueue
queue_with n = record { room = n; waiting_messages = []; all_accepted = [] }
