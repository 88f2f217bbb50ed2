-- ===== src/UartAt/Fragments/Invariant.antt =====
-- What holds of `s_fragment_buffer` between calls.
use iot_sms.Base.{
  ℕ, ◌+◌, ◌-◌, ◌≤◌, ◌<◌, true, false, not, [], ◌++◌, ◌≡◌, ◌⊎◌, inl, inr, refl, arith, Bytes, length,
  length-append, length-take, All-append, All-take, take, if◌then◌else◌, Bool-cases,
}
use iot_sms.CString.{c_str, c_str-NoNul, strncpy, length-strncpy, str_eq, NoNul}
use iot_sms.Message.{SmsMessage, sender_size, content_size}
use iot_sms.Rtos.{Rtos}
use iot_sms.UartAt.Fragments.{
  FragmentBuffer, FragmentResult, empty_buffer, is_multipart_part_hex_len, State,
  is_fragment_timeout, reset_fragment_buffer, post, flush_fragment_buffer_to_queue, start_message,
  continue_message, process_body, process_sms_fragment,
}

-- Both strings and their terminators lie inside their arrays and hold no NUL, an active buffer
-- holds a fragment, and an idle one is empty.
pub record IsSound (b : FragmentBuffer) : Type 0 where
  pub sender_fits : length b.sender < sender_size
  pub content_fits : length b.accumulated_content < content_size
  pub sender_text : NoNul b.sender
  pub content_text : NoNul b.accumulated_content
  pub active_counts : b.is_active ≡ true → 1 ≤ b.fragment_count
  pub idle_is_empty : b.is_active ≡ false → b.accumulated_content ≡ []

pub strncpy-NoNul : (n : ℕ) (s : Bytes) → NoNul (strncpy n s)
unfolding strncpy
strncpy-NoNul n s = All-take _ n (c_str s) (c_str-NoNul s)

pub empty_buffer-IsSound : IsSound empty_buffer
empty_buffer-IsSound = record {
  sender_fits = omega arith;
  content_fits = omega arith;
  sender_text = tt;
  content_text = tt;
  active_counts = λ e. cc;
  idle_is_empty = λ e. refl;
}

module _ (R : Rtos) where
  buffer-post : (s : State R) (m : SmsMessage) (t : ℕ) → (post R s m t).buffer ≡ s.buffer
  unfolding post
  buffer-post s m t = ground arith

  pub buffer-flush :
      (s : State R)
      → s.buffer.is_active ≡ true
      → (flush_fragment_buffer_to_queue R s).buffer ≡ empty_buffer
  unfolding flush_fragment_buffer_to_queue reset_fragment_buffer
  buffer-flush s e = rw e (buffer-post (reset_fragment_buffer R s) _ 0)

  pub flush_idle :
      (s : State R) → s.buffer.is_active ≡ false → flush_fragment_buffer_to_queue R s ≡ s
  unfolding flush_fragment_buffer_to_queue
  flush_idle s e = ground arith

  flush-IsSound :
      (s : State R) → IsSound s.buffer → IsSound (flush_fragment_buffer_to_queue R s).buffer
  flush-IsSound s h = elim (Bool-cases s.buffer.is_active) [
    | inl e ↦ rw (buffer-flush s e) empty_buffer-IsSound
    | inr e ↦ rw (flush_idle s e) h
  ]

  start_message-IsSound :
      (s : State R) (sender hex : Bytes) (len now : ℕ)
      → IsSound s.buffer
      → IsSound (start_message R s sender hex len now).0.buffer
  unfolding start_message
  start_message-IsSound s sender hex len now h = elim (Bool-cases (is_multipart_part_hex_len len)) [
    | inl e ↦ rw e (record {
      sender_fits = omega (arith, length-strncpy (sender_size - 1) sender);
      content_fits = omega (arith, length-strncpy (content_size - 1) hex);
      sender_text = strncpy-NoNul _ sender;
      content_text = strncpy-NoNul _ hex;
      active_counts = λ _. omega arith;
      idle_is_empty = λ f. cc;
    })
    | inr e ↦ rw e h
  ]

  -- The buffer that holds one fragment more.
  grown : FragmentBuffer → Bytes → ℕ → FragmentBuffer
  grown b hex now = record b {
    accumulated_content =
        b.accumulated_content ++ take (content_size - length b.accumulated_content - 1) (c_str hex);
    fragment_count = b.fragment_count + 1;
    last_fragment_time = now;
  }

  buffer-continue_message :
      (s : State R) (hex : Bytes) (len now : ℕ)
      → ((continue_message R s hex len now).0.buffer ≡ empty_buffer)
        ⊎ ((continue_message R s hex len now).0.buffer ≡ grown s.buffer hex now)
  unfolding continue_message reset_fragment_buffer grown
  buffer-continue_message s hex len now = ground arith

  grown-IsSound :
      (b : FragmentBuffer) (hex : Bytes) (now : ℕ)
      → b.is_active ≡ true
      → IsSound b
      → IsSound (grown b hex now)
  unfolding grown
  grown-IsSound b hex now on h = record {
    sender_fits = h.sender_fits;
    content_fits = omega (
      arith,
      length-append b.accumulated_content (take room (c_str hex)),
      length-take room (c_str hex),
      h.content_fits,
    );
    sender_text = h.sender_text;
    content_text =
        All-append _ b.accumulated_content (take room (c_str hex)) h.content_text
          (All-take _ room (c_str hex) (c_str-NoNul hex));
    active_counts = λ _. omega arith;
    idle_is_empty = λ f. cc;
  }
    where
      room : ℕ
      room = content_size - length b.accumulated_content - 1

  continue_message-IsSound :
      (s : State R) (hex : Bytes) (len now : ℕ)
      → s.buffer.is_active ≡ true
      → IsSound s.buffer
      → IsSound (continue_message R s hex len now).0.buffer
  continue_message-IsSound s hex len now on h = elim (buffer-continue_message s hex len now) [
    | inl e ↦ rw e empty_buffer-IsSound
    | inr e ↦ rw e (grown-IsSound s.buffer hex now on h)
  ]

  -- What the call at the end of the body must keep, the body keeps.
  process_body-IsSound :
      (again : State R → State R × FragmentResult)
      → ((s : State R) → IsSound s.buffer → IsSound (again s).0.buffer)
      → (s : State R) (sender hex : Bytes) (len checked stored : ℕ) → IsSound s.buffer
      → IsSound (process_body R again s sender hex len checked stored).0.buffer
  unfolding process_body
  process_body-IsSound again keeps s sender hex len checked stored h =
      elim (Bool-cases (is_fragment_timeout R s.buffer checked)) [
        | inl late ↦ rw late (rest (flush_fragment_buffer_to_queue R s) (flush-IsSound s h))
        | inr timely ↦ rw timely (rest s h)
      ]
    where
      rest :
          (s' : State R)
          → IsSound s'.buffer
          → IsSound
              (if not s'.buffer.is_active
                then start_message R s' sender hex len stored
                else if str_eq s'.buffer.sender sender
                then continue_message R s' hex len stored
                else again (flush_fragment_buffer_to_queue R s')).0.buffer
      rest s' h' = elim (Bool-cases s'.buffer.is_active) [
        | inr idle ↦ simp idle (start_message-IsSound s' sender hex len stored h')
        | inl on ↦ elim (Bool-cases (str_eq s'.buffer.sender sender)) [
          | inl same ↦ simp (on, same) (continue_message-IsSound s' hex len stored on h')
          | inr other ↦ simp (on, other) (keeps _ (flush-IsSound s' h'))
        ]
      ]

  -- `process_sms_fragment` keeps the fragment buffer sound for every fragment, length and time:
  -- both strings with their terminators inside their arrays and free of NUL, at least one fragment
  -- while active, no content while idle.
  pub process_sms_fragment-IsSound :
      (s : State R) (sender hex : Bytes) (len checked stored : ℕ)
      → IsSound s.buffer
      → IsSound (process_sms_fragment R s sender hex len checked stored).0.buffer
  unfolding process_sms_fragment
  process_sms_fragment-IsSound s sender hex len checked stored h =
      process_body-IsSound _
        (λ s' h'. process_body-IsSound _ (λ s'' h''. h'') s' sender hex len stored stored h') s
        sender hex len checked stored h
