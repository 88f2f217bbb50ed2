-- ===== src/Wifi/Tests.antt =====
-- The station's connection over given events.
use iot_sms.Base.{false, true, List, [], ◌∷◌, some, ◌≡◌, refl}
use iot_sms.Storage.{esp_fail}
use iot_sms.Wifi.{
  WifiEvent, sta_disconnected, sta_got_ip, WifiState, off, event_handler, handle_all,
  wifi_manager_init_sta, wifi_manager_is_connected, wifi_manager_has_ip,
}
use iot_sms.Wifi.Start.{init_sta-first_outcome, handle_all-Reconnects, Reconnects}

-- Eleven losses, then an address that comes too late.
abbrev losses_first : List WifiEvent
losses_first =
    sta_disconnected ∷ sta_disconnected ∷ sta_disconnected ∷ sta_disconnected ∷ sta_disconnected
    ∷ sta_disconnected ∷ sta_disconnected ∷ sta_disconnected ∷ sta_disconnected ∷ sta_disconnected
    ∷ sta_disconnected ∷ sta_got_ip ∷ []

init_sta-first_outcome_example : (wifi_manager_init_sta losses_first).1 ≡ some esp_fail
init_sta-first_outcome_example = init_sta-first_outcome losses_first

-- A station that has an address.
abbrev up : WifiState
up = record off { s_wifi_connected = true; s_initial_connection = false; connected_bit = true }

up-Reconnects :
    Reconnects up
      (sta_disconnected ∷ sta_got_ip ∷ [])
      (handle_all up (sta_disconnected ∷ sta_got_ip ∷ []))
up-Reconnects = handle_all-Reconnects (sta_disconnected ∷ sta_got_ip ∷ []) up refl

no_address : wifi_manager_has_ip up (some 0) ≡ false
unfolding wifi_manager_has_ip
no_address = refl

connected_known : wifi_manager_is_connected (event_handler off sta_got_ip) ≡ true
unfolding wifi_manager_is_connected event_handler
connected_known = refl
