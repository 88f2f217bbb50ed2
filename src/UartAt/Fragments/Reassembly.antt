-- ===== src/UartAt/Fragments/Reassembly.antt =====
-- A long message whose parts arrive in order and in time is put together; and what happens where
-- the parts do not fit, or the queue does not take a message.
use iot_sms.Base.{
  ℕ, ◌+◌, ◌-◌, ◌*◌, ◌%◌, ◌^◌, ◌≤◌, ◌<◌, true, false, List, [], ◌∷◌, ◌++◌, append-nil, append_assoc,
  ◌≡◌, refl, ap, ◌∙◌, arith, Bytes, length, length-append, take, take_all, All, ltb, lt→ltb,
}
use iot_sms.CString.{c_str, c_str_id, strncpy, NoNul}
use iot_sms.Message.{sender_size, content_size}
use iot_sms.Rtos.{Rtos, tick_sub, tick_period_ms}
use iot_sms.UartAt.Fragments.{
  FragmentBuffer, FragmentResult, complete, waiting, empty_buffer, message_of,
  is_multipart_part_hex_len, State, is_fragment_timeout, sms_fragment_timeout_ms,
  reset_fragment_buffer, start_message, continue_message, process_sms_fragment,
}
use iot_sms.UartAt.Fragments.Separation.{process_idle, process_same}

-- One fragment's hex content, and the counter when the call tests for the time-out and when it
-- stores the fragment.
pub record Arrival : Type 0 where
  pub hex : Bytes
  pub checked : ℕ
  pub stored : ℕ

abbrev pub IsPart : Bytes → Type 0
IsPart hex = NoNul hex × (is_multipart_part_hex_len (length hex) ≡ true)

abbrev pub whole : List Arrival → Bytes
whole [] = []
whole (a ∷ rest) = a.hex ++ whole rest

abbrev pub all_waiting : List Arrival → List FragmentResult
all_waiting [] = []
all_waiting (a ∷ rest) = waiting ∷ all_waiting rest

module _ (R : Rtos) where
  -- At most 30 seconds, by the wrapping counter, lie between two fragments.
  abbrev pub Timely : ℕ → ℕ → Type 0
  Timely last now = tick_sub now last * tick_period_ms R % 2 ^ 32 ≤ sms_fragment_timeout_ms

  abbrev pub AllTimely : ℕ → List Arrival → Type 0
  AllTimely last [] = Unit {0}
  AllTimely last (a ∷ rest) = Timely last a.checked × AllTimely a.stored rest

  -- The calls for a list of fragments of one sender.
  unfoldable pub feed : State R → Bytes → List Arrival → State R × List FragmentResult
  feed s sender [] = (s, [])
  feed s sender (a ∷ rest) =
      let (s', r) = process_sms_fragment R s sender a.hex (length a.hex) a.checked a.stored in
      let (s'', rs) = feed s' sender rest in (s'', r ∷ rs)

  timely_lem :
      (b : FragmentBuffer) (now : ℕ)
      → Timely b.last_fragment_time now
      → is_fragment_timeout R b now ≡ false
  unfolding is_fragment_timeout
  timely_lem b now h = ground arith

  continue_fits :
      (s : State R) (hex : Bytes) (now : ℕ)
      → NoNul hex
      → length s.buffer.accumulated_content + length hex < 2047
      → take (content_size - length s.buffer.accumulated_content - 1) (c_str hex) ≡ hex
  continue_fits s hex now n fits = ap (take _) (c_str_id hex n) ∙ take_all _ hex (omega arith)

  continue_part :
      (s : State R) (hex : Bytes) (now : ℕ)
      → IsPart hex
      → length s.buffer.accumulated_content + length hex < 2047
      → continue_message R s hex (length hex) now ≡ (
        record s {
          buffer = record s.buffer {
            accumulated_content = s.buffer.accumulated_content ++ hex;
            fragment_count = s.buffer.fragment_count + 1;
            last_fragment_time = now;
          };
        },
        waiting,
      )
  unfolding continue_message
  continue_part s hex now (n, part) fits =
      let room : ltb (length hex) (content_size - length s.buffer.accumulated_content - 1) ≡ true =
        lt→ltb _ _ (omega arith) in
      simp (room, part, continue_fits s hex now n fits)

  continue_last :
      (s : State R) (hex : Bytes) (now : ℕ)
      → NoNul hex
      → is_multipart_part_hex_len (length hex) ≡ false
      → length s.buffer.accumulated_content + length hex < 2047
      → continue_message R s hex (length hex) now ≡ (
        record s { buffer = empty_buffer },
        complete (message_of s.buffer.sender (s.buffer.accumulated_content ++ hex)),
      )
  unfolding continue_message reset_fragment_buffer
  continue_last s hex now n last fits =
      let room : ltb (length hex) (content_size - length s.buffer.accumulated_content - 1) ≡ true =
        lt→ltb _ _ (omega arith) in
      simp (room, last, continue_fits s hex now n fits)

  feed_step :
      (s : State R) (sender : Bytes) (a : Arrival) (rest : List Arrival) {t : State R}
      {r : FragmentResult}
      → process_sms_fragment R s sender a.hex (length a.hex) a.checked a.stored ≡ (t, r)
      → feed s sender (a ∷ rest) ≡ ((feed t sender rest).0, r ∷ (feed t sender rest).1)
  unfolding feed
  feed_step s sender a rest e = rw e

  abbrev after_part : State R → Arrival → State R
  after_part s a = record s {
    buffer = record s.buffer {
      accumulated_content = s.buffer.accumulated_content ++ a.hex;
      fragment_count = s.buffer.fragment_count + 1;
      last_fragment_time = a.stored;
    };
  }

  abbrev started : State R → Bytes → Arrival → State R
  started s sender a = record s {
    buffer = record {
      sender = sender;
      accumulated_content = a.hex;
      last_fragment_time = a.stored;
      fragment_count = 1;
      is_active = true;
    };
  }

  start_part :
      (s : State R) (sender : Bytes) (a : Arrival)
      → NoNul sender
      → length sender < sender_size
      → IsPart a.hex
      → length a.hex < 2047
      → start_message R s sender a.hex (length a.hex) a.stored ≡ (started s sender a, waiting)
  unfolding start_message strncpy
  start_part s sender a name short (n, part) fits = simp (
    part,
    c_str_id sender name,
    c_str_id a.hex n,
    take_all 31 sender (omega arith),
    take_all 2047 a.hex (omega arith),
  )

  feed_rest :
      (mids : List Arrival) (last : Arrival) (s : State R) (sender : Bytes)
      → s.buffer.is_active ≡ true
      → s.buffer.sender ≡ sender
      → All (λ a. IsPart a.hex) mids
      → NoNul last.hex
      → is_multipart_part_hex_len (length last.hex) ≡ false
      → length s.buffer.accumulated_content + length (whole (mids ++ last ∷ [])) < 2047
      → AllTimely s.buffer.last_fragment_time (mids ++ last ∷ [])
      → feed s sender (mids ++ last ∷ []) ≡ (
        record s { buffer = empty_buffer },
        all_waiting mids
            ++ complete
                (message_of sender (s.buffer.accumulated_content ++ whole (mids ++ last ∷ [])))
              ∷ [],
      )
  feed_rest [] last s sender on same parts n end fits times =
      feed_step s sender last [] (
        process_same R s sender last.hex _ last.checked last.stored on
          (timely_lem s.buffer last.checked times.0) same
        ∙ continue_last s last.hex last.stored n end (omega (arith, length-append last.hex [])))
      ∙ unfold feed in simp (append-nil, same)
  feed_rest (a ∷ mids) last s sender on same parts n end fits times =
      feed_step s sender a (mids ++ last ∷ []) (
        process_same R s sender a.hex _ a.checked a.stored on
          (timely_lem s.buffer a.checked times.0) same
        ∙ continue_part s a.hex a.stored parts.0
            (omega (arith, length-append a.hex (whole (mids ++ last ∷ [])))))
      ∙ simp (feed_rest mids last (after_part s a) sender on same parts.1 n end fits' times.1)
          (simp append_assoc)
    where
      fits' :
          length (s.buffer.accumulated_content ++ a.hex) + length (whole (mids ++ last ∷ [])) < 2047
      fits' = omega (
        arith,
        length-append s.buffer.accumulated_content a.hex,
        length-append a.hex (whole (mids ++ last ∷ [])),
      )

  -- A message of two or more parts from one sender, each non-final part of one of the four lengths,
  -- with room in the buffer and no gap over 30 seconds, is completed by its last part with the
  -- decoded content of all parts in order; the calls before it wait, and afterwards the buffer is
  -- empty and the queue as before.
  pub feed-reassembles :
      (first last : Arrival) (mids : List Arrival) (s : State R) (sender : Bytes)
      → s.buffer.is_active ≡ false
      → NoNul sender
      → length sender < sender_size
      → All (λ a. IsPart a.hex) (first ∷ mids)
      → NoNul last.hex
      → is_multipart_part_hex_len (length last.hex) ≡ false
      → length (whole (first ∷ mids ++ last ∷ [])) < 2047
      → AllTimely first.stored (mids ++ last ∷ [])
      → feed s sender (first ∷ (mids ++ last ∷ [])) ≡ (
        record s { buffer = empty_buffer },
        waiting
            ∷ (all_waiting mids
                ++ complete (message_of sender (whole (first ∷ mids ++ last ∷ []))) ∷ []),
      )
  feed-reassembles first last mids s sender idle name short parts n end fits times =
      feed_step s sender first (mids ++ last ∷ []) (
        process_idle R s sender first.hex _ first.checked first.stored idle
        ∙ start_part s sender first name short parts.0
            (omega (arith, length-append first.hex (whole (mids ++ last ∷ [])))))
      ∙ simp (
          feed_rest mids last (started s sender first) sender refl refl parts.1 n end
            (omega (arith, length-append first.hex (whole (mids ++ last ∷ [])))) times)
