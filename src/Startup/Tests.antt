-- ===== src/Startup/Tests.antt =====
-- The start of the firmware with given results, and the wait for the time.
use iot_sms.Base.{true, false, [], ◌∷◌, ◌≡◌, ◌↔◌, ◌*◌, refl, codes}
use iot_sms.Startup.{
  nvs_ok, new_version_found, Results, returned, halted, early_log, nvs_init, netif_init, event_loop,
  wifi_init, app_main, start_system, start_network, start_modem, start_services, nvs_again,
}
use iot_sms.Startup.Order.{Ready, starts_task, app_main-Ready}
use iot_sms.Startup.Sntp.{sntp_manager_init, await_time}
use iot_sms.Storage.{esp_ok, esp_fail}

-- The flash has an old layout, and everything else passes.
abbrev upgraded : Results
upgraded = record {
  nvs_first = new_version_found;
  erase_ok = true;
  nvs_second = nvs_ok;
  netif_ok = true;
  event_loop_ok = true;
  wifi_ok = true;
  queue_created = true;
  modem_ok = true;
  is_dtu = false;
}

app_main-Ready_example :
    ((starts_task (app_main upgraded).0 ≡ true) ↔ Ready upgraded)
    × (((app_main upgraded).1 ≡ returned) ↔ Ready upgraded)
app_main-Ready_example = app_main-Ready upgraded

no_wifi_halts :
    app_main (record upgraded { nvs_first = nvs_ok; wifi_ok = false })
    ≡ (early_log ∷ nvs_init ∷ netif_init ∷ event_loop ∷ wifi_init ∷ [], halted)
unfolding app_main nvs_again start_system start_network start_modem start_services
no_wifi_halts = refl

-- The time is there at the third reading, or never.
time_comes : (sntp_manager_init true (codes "UTC0") (λ i. 788918400 * i)).1 ≡ esp_ok
unfolding sntp_manager_init await_time
time_comes = refl

time_missing : (sntp_manager_init false (codes "UTC0") (λ i. i)).1 ≡ esp_fail
unfolding sntp_manager_init await_time
time_missing = refl
