-- ===== src/UartAt/Receive/Chunks.antt =====
-- Bytes that arrive in several chunks leave the buffer as if they had arrived at once.
use iot_sms.Base.{
  ◌+◌, ◌<◌, ◌++◌, append_assoc, Bytes, length, length-append, lt→ltb, ◌≡◌, sym, ap, ◌∙◌, arith,
}
use iot_sms.UartAt.Urc.{AtState}
use iot_sms.UartAt.Receive.{buf_size, make_room, append_data, clean, receive_data}
use iot_sms.UartAt.Receive.Clean.{clean_again}
use iot_sms.UartAt.Receive.Bounds.{clean-Within, rx-signal}

roomy :
    (rx dtmp : Bytes)
    → length rx + length dtmp < buf_size
    → append_data (make_room rx (length dtmp)) dtmp ≡ rx ++ dtmp
unfolding append_data make_room
roomy rx dtmp h = ground arith

pub receive_roomy :
    {Queue : Type 0} (s : AtState Queue) (dtmp : Bytes)
    → 0 < length dtmp
    → length s.rx_buffer + length dtmp < buf_size
    → (receive_data s dtmp).rx_buffer ≡ clean (s.rx_buffer ++ dtmp)
unfolding receive_data
receive_roomy s dtmp one h = rw (lt→ltb _ _ one) (
    rx-signal
      (record s { rx_buffer = clean (append_data (make_room s.rx_buffer (length dtmp)) dtmp) })
    ∙ ap clean (roomy s.rx_buffer dtmp h))

-- Where two chunks of bytes, neither empty, fit into the buffer together, receiving them one after
-- the other leaves the buffer that receiving them at once leaves, wherever they are cut.
pub receive_data-append :
    {Queue : Type 0} (s : AtState Queue) (a b : Bytes)
    → 0 < length a
    → 0 < length b
    → length s.rx_buffer + length (a ++ b) < buf_size
    → (receive_data (receive_data s a) b).rx_buffer ≡ (receive_data s (a ++ b)).rx_buffer
receive_data-append s a b ha hb fits =
    let sum = length-append a b in
    let first = receive_roomy s a ha (omega arith) in
    let shorter = (clean-Within (s.rx_buffer ++ a)).shorter in
    let bound : length (receive_data s a).rx_buffer + length b < buf_size =
      omega (arith, ap length first, shorter, length-append s.rx_buffer a) in
    receive_roomy (receive_data s a) b hb bound
    ∙ ap (λ x. clean (x ++ b)) first
    ∙ clean_again (s.rx_buffer ++ a) b
    ∙ ap clean (append_assoc s.rx_buffer a b)
    ∙ sym (receive_roomy s (a ++ b) (omega arith) fits)
