-- ===== src/Wifi.antt =====
-- main/wifi_manager.c: the station's connection as a machine on the events of the Wi-Fi driver.
pub mod Start
mod Tests
use iot_sms.Base.{
  ℕ, ◌+◌, Bool, true, false, not, ◌&&◌, List, [], ◌∷◌, Option, none, some, Bytes, ltb, ◌==◌,
  if◌then◌else◌,
}
use iot_sms.Storage.{EspErr, esp_ok, esp_fail}

-- `EXAMPLE_ESP_MAXIMUM_RETRY`
abbrev pub maximum_retry : ℕ
maximum_retry = 10

-- The events that `event_handler` tells apart.
pub data WifiEvent : Type 0 where
  sta_start sta_disconnected sta_got_ip other_wifi : WifiEvent

-- The static variables, the two bits, and how often `esp_wifi_connect` has been called.
pub record WifiState : Type 0 where
  pub s_retry_num : ℕ
  pub s_wifi_connected : Bool
  pub s_initial_connection : Bool
  pub connected_bit : Bool
  pub fail_bit : Bool
  pub connects : ℕ

-- The variables before `wifi_manager_init_sta`.
abbrev pub off : WifiState
off = record {
  s_retry_num = 0;
  s_wifi_connected = false;
  s_initial_connection = true;
  connected_bit = false;
  fail_bit = false;
  connects = 0;
}

-- `esp_wifi_connect`
abbrev pub wifi_connect : WifiState → WifiState
wifi_connect s = record s { connects = s.connects + 1 }

-- The branch for a lost connection.
unfoldable pub disconnected : WifiState → WifiState
disconnected s =
    let lost = record s { s_wifi_connected = false } in
    if s.s_initial_connection && ltb s.s_retry_num maximum_retry
    then wifi_connect (record lost { s_retry_num = s.s_retry_num + 1 })
    else if s.s_initial_connection
    then record lost { fail_bit = true }
    else wifi_connect lost

unfoldable pub event_handler : WifiState → WifiEvent → WifiState
event_handler s sta_start = wifi_connect s
event_handler s sta_disconnected = disconnected s
event_handler s sta_got_ip = record s {
  s_retry_num = 0;
  s_wifi_connected = true;
  s_initial_connection = false;
  connected_bit = true;
}
event_handler s other_wifi = s

-- `xEventGroupWaitBits` without a time-out, and the result for the bits; `none` where the events
-- are over and the call still waits.
unfoldable pub wait_bits : WifiState → List WifiEvent → WifiState × Option EspErr
wait_bits s [] =
    if s.connected_bit
    then (s, some esp_ok)
    else if s.fail_bit
    then (s, some esp_fail)
    else (s, none)
wait_bits s (e ∷ es) =
    let later = wait_bits (event_handler s e) es in
    if s.connected_bit then (s, some esp_ok) else if s.fail_bit then (s, some esp_fail) else later

-- `esp_wifi_start` makes the driver send the first event; the set-up of the driver stands in front.
unfoldable pub wifi_manager_init_sta : List WifiEvent → WifiState × Option EspErr
wifi_manager_init_sta events = wait_bits off (sta_start ∷ events)

unfoldable pub wifi_manager_is_connected : WifiState → Bool
wifi_manager_is_connected s = s.s_wifi_connected

-- The interface's address is that of the network library: `none` if there is no interface or the
-- call fails.
unfoldable pub wifi_manager_has_ip : WifiState → Option ℕ → Bool
wifi_manager_has_ip s addr =
    if not s.s_wifi_connected then false else elim addr [ none ↦ false | some a ↦ not (a == 0) ]

unfoldable pub handle_all : WifiState → List WifiEvent → WifiState
handle_all s [] = s
handle_all s (e ∷ es) = handle_all (event_handler s e) es
