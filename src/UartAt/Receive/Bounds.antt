-- ===== src/UartAt/Receive/Bounds.antt =====
-- The receive buffer never holds more than its array has room for, with the terminator.
use iot_sms.Base.{
  ℕ, zero, suc, ◌+◌, ◌-◌, ◌≤◌, ◌<◌, Bool, true, false, ◌++◌, some, Bytes, All-append, All-left,
  All-right, All-take, length, length-append, length-take, take, ltb, leb, ◌≡◌, refl, sym, ap,
  subst, arith, if◌then◌else◌, Bool-cases, Option-cases, inl, inr,
}
use iot_sms.CString.{NoNul}
use iot_sms.CString.Search.{split_at_text, split_at_text-some}
use iot_sms.UartAt.Urc.{AtState, cmt_prefix, crlf}
use iot_sms.UartAt.Receive.{
  buf_size, from_cmt, make_room, append_data, is_other_urc, remove_other_urcs, clean, signal,
  receive_data,
}

-- The text fits into the array, and is a C string.
pub record Fits (rx : Bytes) : Type 0 where
  pub room : length rx < buf_size
  pub text : NoNul rx

-- At most as long, and made of characters of the other text.
pub record Within (s t : Bytes) : Type 0 where
  pub shorter : length s ≤ length t
  pub made_of : NoNul t → NoNul s

pub Within-same : (s : Bytes) → Within s s
Within-same s = record { shorter = omega arith; made_of = λ h. h }

pub Within-Fits : {s t : Bytes} → Within s t → Fits t → Fits s
Within-Fits w h = record { room = omega (arith, w.shorter, h.room); text = w.made_of h.text }

behind-Within : (pat s a b : Bytes) → split_at_text pat s ≡ some (a, b) → Within (pat ++ b) s
behind-Within pat s a b e =
    let whole = split_at_text-some pat s a b e in
    record {
      shorter = omega (arith, ap length whole, length-append a (pat ++ b));
      made_of = λ h. All-right _ a (pat ++ b) (subst NoNul whole h);
    }

pub from_cmt-Within : (rx : Bytes) → Within (from_cmt rx) rx
unfolding from_cmt
from_cmt-Within rx = elim (Option-cases (split_at_text cmt_prefix rx)) [
  | inl away ↦ rw (away, from_cmt) (record { shorter = omega arith; made_of = λ h. tt })
  | inr ((before, behind), e) ↦ rw (e, from_cmt) (behind-Within cmt_prefix rx before behind e)
]

kept-Within :
    (other : Bool) (line rest behind : Bytes)
    → Within rest behind
    → Within (if other then rest else line ++ (crlf ++ rest)) (line ++ (crlf ++ behind))
kept-Within true line rest behind w = record {
  shorter = omega (arith, w.shorter, length-append line (crlf ++ behind));
  made_of = λ h. w.made_of (All-right _ line (crlf ++ behind) h).1.1;
}
kept-Within false line rest behind w = record {
  shorter =
      omega
        (arith, w.shorter, length-append line (crlf ++ behind), length-append line (crlf ++ rest));
  made_of = λ h.
      let (r, (f, hb)) = All-right _ line (crlf ++ behind) h in
      All-append _ line (crlf ++ rest) (All-left _ line (crlf ++ behind) h) (r, (f, w.made_of hb));
}

remove-Within : (fuel : ℕ) (s : Bytes) → Within (remove_other_urcs fuel s) s
unfolding remove_other_urcs
remove-Within zero s = Within-same s
remove-Within (suc fuel) s = elim (Option-cases (split_at_text crlf s)) [
  | inl open_end ↦ rw (open_end, remove_other_urcs) (Within-same s)
  | inr ((line, behind), e) ↦
      rw (e, remove_other_urcs)
        (subst
          (Within (
            if is_other_urc s
            then remove_other_urcs fuel behind
            else line ++ (crlf ++ remove_other_urcs fuel behind)))
          (sym (split_at_text-some crlf s line behind e))
          (kept-Within (is_other_urc s) line (remove_other_urcs fuel behind) behind
            (remove-Within fuel behind)))
]

pub clean-Within : (s : Bytes) → Within (clean s) s
unfolding clean
clean-Within s = remove-Within (suc (length s)) s

make_room-Within : (rx : Bytes) (n : ℕ) → Within (make_room rx n) rx
unfolding make_room
make_room-Within rx n = elim (Bool-cases (leb buf_size (length rx + n))) [
  | inl full ↦ rw full (from_cmt-Within rx)
  | inr fits ↦ rw fits (Within-same rx)
]

append_data-Fits : (rx dtmp : Bytes) → Fits rx → NoNul dtmp → Fits (append_data rx dtmp)
unfolding append_data
append_data-Fits rx dtmp h text = elim (Bool-cases (ltb (length rx + length dtmp) buf_size)) [
  | inl fits ↦ rw fits (record {
    room = ground (arith, length-append rx dtmp);
    text = All-append _ rx dtmp h.text text;
  })
  | inr full ↦
      let part = take (buf_size - length rx - 1) dtmp in
      rw full (record {
        room =
            omega
              (arith, h.room, length-append rx part, length-take (buf_size - length rx - 1) dtmp);
        text = All-append _ rx part h.text (All-take _ _ dtmp text);
      })
]

pub rx-signal : {Queue : Type 0} (s : AtState Queue) → (signal s).rx_buffer ≡ s.rx_buffer
unfolding signal
rx-signal s = refl

pub receive_data-Fits :
    {Queue : Type 0} (s : AtState Queue) (dtmp : Bytes)
    → Fits s.rx_buffer
    → NoNul dtmp
    → Fits (receive_data s dtmp).rx_buffer
unfolding receive_data
receive_data-Fits s dtmp h text = elim (Bool-cases (ltb 0 (length dtmp))) [
  | inr nothing ↦ rw nothing h
  | inl some_bytes ↦
      let roomy = make_room s.rx_buffer (length dtmp) in
      let filled =
        append_data-Fits roomy dtmp (Within-Fits (make_room-Within s.rx_buffer (length dtmp)) h)
          text in
      rw some_bytes (
        subst Fits (sym (rx-signal (record s { rx_buffer = clean (append_data roomy dtmp) })))
          (Within-Fits (clean-Within (append_data roomy dtmp)) filled))
]
