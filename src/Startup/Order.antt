-- ===== src/Startup/Order.antt =====
-- Nothing is started before what it needs is there.
use iot_sms.Base.{Bool, true, false, List, [], ◌∷◌, ◌≡◌, ◌⊎◌, ◌↔◌, arith}
use iot_sms.Startup.{
  nvs_ok, no_free_pages, new_version_found, Call, dtu_task, at_task, mqtt_start, processor_task,
  Results, returned, start_services, start_modem, start_network, start_system, nvs_again, app_main,
}

-- The flash can be used.
abbrev pub NvsReady : Results → Type 0
NvsReady r =
    (r.nvs_first ≡ nvs_ok)
    ⊎ (((r.nvs_first ≡ no_free_pages) ⊎ (r.nvs_first ≡ new_version_found))
        × (r.erase_ok ≡ true)
        × (r.nvs_second ≡ nvs_ok))

-- All that has to pass before `app_main` returns.
pub record Ready (r : Results) : Type 0 where
  pub nvs : NvsReady r
  pub netif : r.netif_ok ≡ true
  pub loop : r.event_loop_ok ≡ true
  pub wifi : r.wifi_ok ≡ true
  pub queue : r.queue_created ≡ true
  pub modem : r.modem_ok ≡ true

returned-Ready : (r : Results) → (app_main r).1 ≡ returned → Ready r
unfolding app_main nvs_again start_system start_network start_modem start_services
returned-Ready r h = ground (arith, h)

-- A task that handles messages, or the MQTT client, is started.
abbrev pub starts_task : List Call → Bool
starts_task [] = false
starts_task (at_task ∷ calls) = true
starts_task (dtu_task ∷ calls) = true
starts_task (mqtt_start ∷ calls) = true
starts_task (processor_task ∷ calls) = true
starts_task (_ ∷ calls) = starts_task calls

starts_task-Ready : (r : Results) → starts_task (app_main r).0 ≡ true → Ready r
unfolding app_main nvs_again start_system start_network start_modem start_services
starts_task-Ready r h = ground (arith, h)

Ready-returned : (r : Results) → Ready r → (app_main r).1 ≡ returned
unfolding app_main nvs_again start_system start_network start_modem start_services
Ready-returned r h = ground (arith, h)

Ready-starts_task : (r : Results) → Ready r → starts_task (app_main r).0 ≡ true
unfolding app_main nvs_again start_system start_network start_modem start_services
Ready-starts_task r h = ground (arith, h)

-- App_main starts a modem task, the MQTT client or the processor just if the flash is ready (after
-- an erasure where the first initialisation asks for one), the network stack and the event loop are
-- set up, Wi-Fi is connected, the queue exists and the modem manager is initialised; and it returns
-- just in that case.
pub app_main-Ready :
    (r : Results)
    → ((starts_task (app_main r).0 ≡ true) ↔ Ready r) × (((app_main r).1 ≡ returned) ↔ Ready r)
app_main-Ready r =
    ((starts_task-Ready r, Ready-starts_task r), (returned-Ready r, Ready-returned r))
