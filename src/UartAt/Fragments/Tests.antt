-- ===== src/UartAt/Fragments/Tests.antt =====
-- Runs of the reassembly, and its theorems at these inputs.
use iot_sms.Base.{ℕ, zero, suc, true, [], ◌∷◌, ◌++◌, some, ◌≡◌, inr, refl, arith, Bytes, codes}
use iot_sms.CString.{c_str, strncpy, str_eq}
use iot_sms.Rtos.{tick_sub}
use iot_sms.Testbed.{board, queue_with, BoardQueue}
use iot_sms.UartAt.Fragments.{
  FragmentState, complete, waiting, empty_buffer, message_of, is_multipart_part_hex_len,
  is_fragment_timeout, flush_fragment_buffer_to_queue, process_sms_fragment, process_body,
  start_message, continue_message, reset_fragment_buffer,
}
use iot_sms.UartAt.Fragments.Invariant.{IsSound, process_sms_fragment-IsSound}
use iot_sms.UartAt.Fragments.Separation.{process-flush}
use iot_sms.UartAt.Fragments.Reassembly.{Arrival, feed, feed-reassembles, whole}
use iot_sms.UartAt.Fragments.Losses.{flush-accepted}

abbrev repeat : ℕ → Bytes → Bytes
repeat zero s = []
repeat (suc n) s = s ++ repeat n s

-- 67 characters of UCS2 text
abbrev part : Bytes
part = repeat 67 (codes "4E2D")

abbrev idle : FragmentState BoardQueue
idle = record { buffer = empty_buffer; sms_queue = some (queue_with 10) }

-- One part of a message of sender "A" is stored.
abbrev pending : FragmentState BoardQueue
pending = record {
  buffer = record {
    sender = codes "A";
    accumulated_content = part;
    last_fragment_time = 100;
    fragment_count = 1;
    is_active = true;
  };
  sms_queue = some (queue_with 0);
}

abbrev at_tick : ℕ → Bytes → Arrival
at_tick t hex = record { hex = hex; checked = t; stored = t }

pending-IsSound : IsSound pending.buffer
pending-IsSound = record {
  sender_fits = omega arith;
  content_fits = omega arith;
  sender_text = omega arith;
  content_text = omega arith;
  active_counts = λ e. omega arith;
  idle_is_empty = λ e. cc;
}

reassembles_two_parts :
    (feed board idle (codes "A") (at_tick 100 part ∷ at_tick 200 (codes "0048") ∷ [])).1
    ≡ waiting ∷ complete (message_of (codes "A") (part ++ codes "0048")) ∷ []
unfolding feed process_sms_fragment process_body start_message continue_message is_fragment_timeout
    tick_sub is_multipart_part_hex_len strncpy c_str str_eq message_of reset_fragment_buffer
reassembles_two_parts = refl

process_sms_fragment-IsSound_example :
    IsSound (process_sms_fragment board pending (codes "A") part 268 200 200).0.buffer
process_sms_fragment-IsSound_example =
    process_sms_fragment-IsSound board pending (codes "A") part 268 200 200 pending-IsSound

process-flush_example :
    process_sms_fragment board pending (codes "B") (codes "0048") 4 200 200
    ≡ process_sms_fragment board
        (flush_fragment_buffer_to_queue board pending)
        (codes "B")
        (codes "0048")
        4
        200
        200
process-flush_example =
    process-flush board pending (codes "B") (codes "0048") 4 200 200 refl (inr (λ e. ground arith))

short_message_completes :
    (process_sms_fragment board idle (codes "A") (codes "0048") 4 200 200).1
    ≡ complete (message_of (codes "A") (codes "0048"))
unfolding process_sms_fragment process_body start_message is_fragment_timeout
    is_multipart_part_hex_len
short_message_completes = refl

feed-reassembles_example :
    feed board idle
      (codes "A")
      (at_tick 100 part ∷ at_tick 200 part ∷ at_tick 300 (codes "0048") ∷ [])
    ≡ (
      record idle { buffer = empty_buffer },
      waiting
          ∷ waiting
          ∷ complete (
              message_of
                (codes "A")
                (whole (at_tick 100 part ∷ at_tick 200 part ∷ at_tick 300 (codes "0048") ∷ [])))
          ∷ [],
    )
unfolding tick_sub is_multipart_part_hex_len
feed-reassembles_example =
    feed-reassembles board (at_tick 100 part) (at_tick 300 (codes "0048")) (at_tick 200 part ∷ [])
      idle (codes "A") refl (omega arith) (omega arith)
      ((omega arith, refl), ((omega arith, refl), tt)) (omega arith) refl (omega arith)
      (omega arith)

flush-accepted_example : (flush_fragment_buffer_to_queue board pending).buffer ≡ empty_buffer
flush-accepted_example = (flush-accepted board pending (queue_with 0) refl refl).0
