-- ===== src/Wifi/Start.antt =====
-- What `wifi_manager_init_sta` returns, and the connection behind it.
use iot_sms.Base.{
  ℕ, zero, suc, ◌+◌, Bool, true, false, List, [], ◌∷◌, Option, none, some, ◌≡◌, refl, sym, ap,
  subst, ◌∙◌, arith,
}
use iot_sms.Storage.{EspErr, esp_ok, esp_fail}
use iot_sms.Wifi.{
  maximum_retry, WifiEvent, sta_start, sta_disconnected, sta_got_ip, other_wifi, WifiState, off,
  wifi_connect, disconnected, event_handler, wait_bits, wifi_manager_init_sta, handle_all,
}

-- The first address within ten retries is a success, one loss more a failure.
abbrev pub first_outcome : ℕ → List WifiEvent → Option EspErr
first_outcome left [] = none
first_outcome left (sta_got_ip ∷ es) = some esp_ok
first_outcome zero (sta_disconnected ∷ es) = some esp_fail
first_outcome (suc left) (sta_disconnected ∷ es) = first_outcome left es
first_outcome left (sta_start ∷ es) = first_outcome left es
first_outcome left (other_wifi ∷ es) = first_outcome left es

-- The first connection is being made, with so many retries left.
record Trying (s : WifiState) (left : ℕ) : Type 0 where
  initial : s.s_initial_connection ≡ true
  unconnected : s.connected_bit ≡ false
  unfailed : s.fail_bit ≡ false
  tried : s.s_retry_num + left ≡ maximum_retry

disconnected-Trying :
    (s : WifiState) (left : ℕ) → Trying s (suc left) → Trying (disconnected s) left
unfolding disconnected
disconnected-Trying s left h = ground (arith, h)

disconnected_last :
    (s : WifiState)
    → Trying s 0
    → ((disconnected s).connected_bit ≡ false) × ((disconnected s).fail_bit ≡ true)
unfolding disconnected
disconnected_last s h = ground (arith, h)

wait_ok :
    (s : WifiState) (es : List WifiEvent)
    → s.connected_bit ≡ true
    → (wait_bits s es).1 ≡ some esp_ok
unfolding wait_bits
wait_ok s [] h = ground (arith, h)
wait_ok s (e ∷ es) h = ground (arith, h)

wait_fail :
    (s : WifiState) (es : List WifiEvent)
    → s.connected_bit ≡ false
    → s.fail_bit ≡ true
    → (wait_bits s es).1 ≡ some esp_fail
unfolding wait_bits
wait_fail s [] h k = ground (arith, h, k)
wait_fail s (e ∷ es) h k = ground (arith, h, k)

wait_over :
    (s : WifiState) → s.connected_bit ≡ false → s.fail_bit ≡ false → (wait_bits s []).1 ≡ none
unfolding wait_bits
wait_over s h k = ground (arith, h, k)

wait_on :
    (s : WifiState) (e : WifiEvent) (es : List WifiEvent) (o : Option EspErr)
    → s.connected_bit ≡ false
    → s.fail_bit ≡ false
    → (wait_bits (event_handler s e) es).1 ≡ o
    → (wait_bits s (e ∷ es)).1 ≡ o
unfolding wait_bits
wait_on s e es o h k later = ground (arith, h, k, later)

got_ip-connected : (s : WifiState) → (event_handler s sta_got_ip).connected_bit ≡ true
unfolding event_handler
got_ip-connected s = refl

start-Trying : (s : WifiState) (left : ℕ) → Trying s left → Trying (event_handler s sta_start) left
unfolding event_handler
start-Trying s left h = record {
  initial = h.initial;
  unconnected = h.unconnected;
  unfailed = h.unfailed;
  tried = h.tried;
}

handler-disconnected : (s : WifiState) → event_handler s sta_disconnected ≡ disconnected s
unfolding event_handler
handler-disconnected s = refl

other-Trying : (s : WifiState) (left : ℕ) → Trying s left → Trying (event_handler s other_wifi) left
unfolding event_handler
other-Trying s left h = h

wait-first_outcome :
    (es : List WifiEvent) (left : ℕ) (s : WifiState)
    → Trying s left
    → (wait_bits s es).1 ≡ first_outcome left es
wait-first_outcome [] left s h = wait_over s h.unconnected h.unfailed
wait-first_outcome (sta_got_ip ∷ es) left s h =
    wait_on s sta_got_ip es (some esp_ok) h.unconnected h.unfailed
      (wait_ok (event_handler s sta_got_ip) es (got_ip-connected s))
wait-first_outcome (sta_start ∷ es) left s h =
    wait_on s sta_start es (first_outcome left es) h.unconnected h.unfailed
      (wait-first_outcome es left (event_handler s sta_start) (start-Trying s left h))
wait-first_outcome (other_wifi ∷ es) left s h =
    wait_on s other_wifi es (first_outcome left es) h.unconnected h.unfailed
      (wait-first_outcome es left (event_handler s other_wifi) (other-Trying s left h))
wait-first_outcome (sta_disconnected ∷ es) zero s h =
    wait_on s sta_disconnected es (some esp_fail) h.unconnected h.unfailed (
      ap (λ t. (wait_bits t es).1) (handler-disconnected s)
      ∙ wait_fail (disconnected s) es (disconnected_last s h).0 (disconnected_last s h).1)
wait-first_outcome (sta_disconnected ∷ es) (suc left) s h =
    wait_on s sta_disconnected es (first_outcome left es) h.unconnected h.unfailed (
      ap (λ t. (wait_bits t es).1) (handler-disconnected s)
      ∙ wait-first_outcome es left (disconnected s) (disconnected-Trying s left h))

off-Trying : Trying off 10
off-Trying = record { initial = refl; unconnected = refl; unfailed = refl; tried = refl }

-- Over any events of the driver, wifi_manager_init_sta returns ESP_OK if an address comes before
-- the eleventh loss of the connection, ESP_FAIL if the eleventh loss comes first, and waits
-- otherwise.
pub init_sta-first_outcome :
    (es : List WifiEvent) → (wifi_manager_init_sta es).1 ≡ first_outcome maximum_retry es
unfolding wifi_manager_init_sta
init_sta-first_outcome es = wait_on off sta_start es (first_outcome maximum_retry es) refl refl (
    wait-first_outcome es maximum_retry (event_handler off sta_start)
      (start-Trying off maximum_retry off-Trying))

-- How often the station loses its connection or is started.
abbrev pub losses : List WifiEvent → ℕ
losses [] = 0
losses (sta_disconnected ∷ es) = suc (losses es)
losses (sta_start ∷ es) = suc (losses es)
losses (sta_got_ip ∷ es) = losses es
losses (other_wifi ∷ es) = losses es

-- The connection after the last event that changes it.
abbrev pub last_state : Bool → List WifiEvent → Bool
last_state b [] = b
last_state b (sta_disconnected ∷ es) = last_state false es
last_state b (sta_got_ip ∷ es) = last_state true es
last_state b (sta_start ∷ es) = last_state b es
last_state b (other_wifi ∷ es) = last_state b es

-- What the events leave, from a state with a connection behind it.
abbrev pub Reconnects : WifiState → List WifiEvent → WifiState → Type 0
Reconnects s es t =
    (t.connects ≡ s.connects + losses es)
    × (t.s_wifi_connected ≡ last_state s.s_wifi_connected es)
    × (t.fail_bit ≡ s.fail_bit)

abbrev lost : WifiState → WifiState
lost s = record s { s_wifi_connected = false; connects = s.connects + 1 }

handler-lost :
    (s : WifiState) → s.s_initial_connection ≡ false → event_handler s sta_disconnected ≡ lost s
unfolding event_handler disconnected
handler-lost s h = ground (arith, h)

handler-others :
    (s : WifiState)
    → (event_handler s sta_start ≡ wifi_connect s)
      × (event_handler s other_wifi ≡ s)
      × (event_handler s sta_got_ip ≡ record s {
        s_retry_num = 0;
        s_wifi_connected = true;
        s_initial_connection = false;
        connected_bit = true;
      })
unfolding event_handler
handler-others s = (refl, refl, refl)

-- Once there was a connection, every loss is followed by an attempt.
pub handle_all-Reconnects :
    (es : List WifiEvent) (s : WifiState)
    → s.s_initial_connection ≡ false
    → Reconnects s es (handle_all s es)
unfolding handle_all
handle_all-Reconnects [] s h = (omega arith, refl, refl)
handle_all-Reconnects (sta_start ∷ es) s h =
    let (tries, state, bit) = handle_all-Reconnects es (wifi_connect s) h in
    subst (λ t. Reconnects s (sta_start ∷ es) (handle_all t es)) (sym (handler-others s).0)
      (omega (arith, tries), state, bit)
handle_all-Reconnects (other_wifi ∷ es) s h =
    subst (λ t. Reconnects s (other_wifi ∷ es) (handle_all t es)) (sym (handler-others s).1)
      (handle_all-Reconnects es s h)
handle_all-Reconnects (sta_got_ip ∷ es) s h =
    let up : WifiState = record s {
      s_retry_num = 0;
      s_wifi_connected = true;
      s_initial_connection = false;
      connected_bit = true;
    } in
    subst (λ t. Reconnects s (sta_got_ip ∷ es) (handle_all t es)) (sym (handler-others s).2)
      (handle_all-Reconnects es up refl)
handle_all-Reconnects (sta_disconnected ∷ es) s h =
    let (tries, state, bit) = handle_all-Reconnects es (lost s) h in
    subst (λ t. Reconnects s (sta_disconnected ∷ es) (handle_all t es)) (sym (handler-lost s h))
      (omega (arith, tries), state, bit)
