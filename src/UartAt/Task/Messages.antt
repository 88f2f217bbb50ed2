-- ===== src/UartAt/Task/Messages.antt =====
-- The messages that the reassembly makes of reports, one after the other.
use iot_sms.Base.{
  ℕ, suc, ◌<◌, true, false, List, [], ◌∷◌, ◌++◌, some, ◌≡◌, refl, ap, ◌∙◌, Bytes, All, length, drop,
}
use iot_sms.CString.{NoNul}
use iot_sms.Message.{SmsMessage, sender_size}
use iot_sms.Rtos.{Rtos, max_delay}
use iot_sms.UartAt.Fragments.{
  FragmentResult, complete, waiting, State, message_of, is_multipart_part_hex_len, post,
  start_message, process_sms_fragment,
}
use iot_sms.UartAt.Fragments.Reassembly.{Arrival, IsPart, whole, all_waiting, AllTimely, feed}
use iot_sms.UartAt.Fragments.Separation.{process_idle}
use iot_sms.UartAt.Urc.{Moment, decode_sender, send_complete}
use iot_sms.UartAt.Urc.Reports.{Report}
use iot_sms.UartAt.Urc.Stream.{deliver, deliver_all}

-- A report, and what the environment decides when it is handled.
abbrev pub Delivery : Type 0
Delivery = Report × Moment

-- A message as the modem reports it: all parts but the last, and the last.
pub record Parts : Type 0 where
  pub firsts : List Delivery
  pub last : Delivery

abbrev pub deliveries : Parts → List Delivery
deliveries t = t.firsts ++ t.last ∷ []

abbrev pub all_deliveries : List Parts → List Delivery
all_deliveries [] = []
all_deliveries (t ∷ ts) = deliveries t ++ all_deliveries ts

abbrev pub hex_of : List Delivery → Bytes
hex_of [] = []
hex_of (d ∷ ds) = d.0.content ++ hex_of ds

abbrev pub name_of : Parts → Bytes
name_of t = decode_sender t.last.0.sender_hex

-- The message of the parts.
abbrev pub message : Parts → SmsMessage
message t = message_of (name_of t) (hex_of (deliveries t))

abbrev pub arrival : Delivery → Arrival
arrival d = record { hex = d.0.content; checked = d.1.checked; stored = d.1.stored }

abbrev pub arrivals : List Delivery → List Arrival
arrivals [] = []
arrivals (d ∷ ds) = arrival d ∷ arrivals ds

pub arrivals-append : (a b : List Delivery) → arrivals (a ++ b) ≡ arrivals a ++ arrivals b
arrivals-append [] b = refl
arrivals-append (d ∷ a) b = ap (arrival d ∷◌) (arrivals-append a b)

pub whole-arrivals : (ds : List Delivery) → whole (arrivals ds) ≡ hex_of ds
whole-arrivals [] = refl
whole-arrivals (d ∷ ds) = ap (◌++◌ d.0.content) (whole-arrivals ds)

-- The reports of a list with the moments that a call gives them.
abbrev pub at_moments : (ℕ → Moment) → ℕ → List Report → List Delivery
at_moments at i [] = []
at_moments at i (r ∷ rs) = (r, at i) ∷ at_moments at (suc i) rs

abbrev pub messages : List Parts → List SmsMessage
messages [] = []
messages (t ∷ ts) = message t ∷ messages ts

first_of : {r r' : FragmentResult} {l l' : List FragmentResult} → r ∷ l ≡ r' ∷ l' → r ≡ r'
first_of {r = r} e = ap (λ l. elim l [ [] ↦ r | x ∷ _ ↦ x ]) e

rest_of : {r r' : FragmentResult} {l l' : List FragmentResult} → r ∷ l ≡ r' ∷ l' → l ≡ l'
rest_of e = ap (drop 1) e

module _ (R : Rtos) where
  abbrev pub TimelyParts : List Arrival → Arrival → Type 0
  TimelyParts [] last = Unit {0}
  TimelyParts (a ∷ firsts) last = AllTimely R a.stored (firsts ++ last ∷ [])

  unfoldable pub deliver_each : State R → List Delivery → State R
  deliver_each s [] = s
  deliver_each s (d ∷ ds) = deliver_each (deliver R s d.0 d.1) ds

  pub deliver_each-append :
      (s : State R) (a b : List Delivery)
      → deliver_each s (a ++ b) ≡ deliver_each (deliver_each s a) b
  unfolding deliver_each
  deliver_each-append s [] b = refl
  deliver_each-append s (d ∷ a) b = deliver_each-append (deliver R s d.0 d.1) a b

  pub deliver_all-each :
      (at : ℕ → Moment) (i : ℕ) (s : State R) (rs : List Report)
      → deliver_all R at i s rs ≡ deliver_each s (at_moments at i rs)
  unfolding deliver_all deliver_each
  deliver_all-each at i s [] = refl
  deliver_all-each at i s (r ∷ rs) = deliver_all-each at (suc i) (deliver R s r (at i)) rs

  -- Parts of one sender, of the four lengths but for the last, that fit together and come without a
  -- gap over 30 seconds, while memory is there.
  pub record IsMessage (t : Parts) : Type 0 where
    pub name_text : NoNul (name_of t)
    pub name_fits : length (name_of t) < sender_size
    pub one_sender : All (λ (d : Delivery). decode_sender d.0.sender_hex ≡ name_of t) (deliveries t)
    pub allocated : All (λ (d : Delivery). d.1.allocated ≡ true) (deliveries t)
    pub parts : All (λ a. IsPart a.hex) (arrivals t.firsts)
    pub last_text : NoNul t.last.0.content
    pub last_short : is_multipart_part_hex_len (length t.last.0.content) ≡ false
    pub fits : length (hex_of (deliveries t)) < 2047
    pub timely : TimelyParts (arrivals t.firsts) (arrival t.last)

  pub deliver_on :
      (s : State R) (name : Bytes) (d : Delivery)
      → decode_sender d.0.sender_hex ≡ name
      → d.1.allocated ≡ true
      → deliver R s d.0 d.1
        ≡ send_complete R
            (process_sms_fragment R s name d.0.content (length d.0.content) d.1.checked d.1.stored)
  unfolding deliver
  deliver_on s name d same on = rw (on, same) refl

  send_waiting : (r : State R × FragmentResult) → r.1 ≡ waiting → send_complete R r ≡ r.0
  unfolding send_complete
  send_waiting r e = ap (λ x. send_complete R (r.0, x)) e

  pub send_message :
      (r : State R × FragmentResult) (m : SmsMessage)
      → r.1 ≡ complete m
      → send_complete R r ≡ post R r.0 m max_delay
  unfolding send_complete
  send_message r m e = ap (λ x. send_complete R (r.0, x)) e

  -- Calls of which the last alone completes a message.
  pub deliver_each-feed :
      (s : State R) (name : Bytes) (ds : List Delivery) (last : Delivery) (m : SmsMessage)
      → All (λ (d : Delivery). decode_sender d.0.sender_hex ≡ name) (ds ++ last ∷ [])
      → All (λ (d : Delivery). d.1.allocated ≡ true) (ds ++ last ∷ [])
      → (feed R s name (arrivals ds ++ arrival last ∷ [])).1
        ≡ all_waiting (arrivals ds) ++ complete m ∷ []
      → deliver_each s (ds ++ last ∷ [])
        ≡ post R (feed R s name (arrivals ds ++ arrival last ∷ [])).0 m max_delay
  unfolding deliver_each feed
  deliver_each-feed s name [] last m (same, _) (on, _) e =
      deliver_on s name last same on ∙ send_message _ m (first_of e)
  deliver_each-feed s name (d ∷ ds) last m (same, sames) (on, ons) e =
      let r =
        process_sms_fragment R s name d.0.content (length d.0.content) d.1.checked d.1.stored in
      ap (λ t. deliver_each t (ds ++ last ∷ []))
        (deliver_on s name d same on ∙ send_waiting r (first_of e))
      ∙ deliver_each-feed r.0 name ds last m sames ons (rest_of e)

  -- The reassembly is idle, and its queue has taken these messages.
  pub record Took (q : R.Queue) (ms : List SmsMessage) (s : State R) : Type 0 where
    pub idle : s.buffer.is_active ≡ false
    pub queue : R.Queue
    pub has_queue : s.sms_queue ≡ some queue
    pub taken : R.accepted queue ≡ R.accepted q ++ ms

  pub post-Took :
      (s : State R) (q : R.Queue) (m : SmsMessage)
      → s.buffer.is_active ≡ false
      → s.sms_queue ≡ some q
      → Took q (m ∷ []) (post R s m max_delay)
  unfolding post
  post-Took s q m idle e = rw e (record {
    idle = idle;
    queue = (R.send q m max_delay).0;
    has_queue = refl;
    taken = R.send_pass q m max_delay (R.send_forever q m);
  })

  pub single-process :
      (s : State R) (name : Bytes) (d : Delivery)
      → s.buffer.is_active ≡ false
      → is_multipart_part_hex_len (length d.0.content) ≡ false
      → process_sms_fragment R s name d.0.content (length d.0.content) d.1.checked d.1.stored
        ≡ (s, complete (message_of name d.0.content))
  unfolding start_message
  single-process s name d idle short =
      process_idle R s name d.0.content (length d.0.content) d.1.checked d.1.stored idle
      ∙ rw short refl
