-- ===== src/Startup.antt =====
-- main/main.c: `app_main`, which sets the parts of the firmware up one after the other.
pub mod Sntp
pub mod Order
mod Tests
use iot_sms.Base.{Bool, true, false, not, List, [], ◌∷◌, ◌++◌, if◌then◌else◌}

-- What `nvs_flash_init` returns.
pub data NvsResult : Type 0 where
  nvs_ok no_free_pages new_version_found nvs_other : NvsResult

-- The calls of `app_main` that set something up or start a task.
pub data Call : Type 0 where
  early_log nvs_init nvs_erase netif_init event_loop wifi_init queue_create : Call
  dtu_init at_init dtu_task at_task mqtt_start log_start processor_task sntp_init : Call

-- What the calls return; `ESP_ERROR_CHECK` aborts where its call fails.
pub record Results : Type 0 where
  pub nvs_first : NvsResult
  pub erase_ok : Bool
  pub nvs_second : NvsResult
  pub netif_ok : Bool
  pub event_loop_ok : Bool
  pub wifi_ok : Bool
  pub queue_created : Bool
  pub modem_ok : Bool
  -- `CONFIG_APP_MODEM_FIRMWARE_DTU`
  pub is_dtu : Bool

-- How `app_main` ends: it returns, it stays in an endless loop, or it aborts.
pub data Ending : Type 0 where
  returned halted aborted : Ending

-- A call in front of what follows.
abbrev pub then_call : Call → List Call × Ending → List Call × Ending
then_call c (calls, ending) = (c ∷ calls, ending)

-- The results of the last calls are only logged.
unfoldable pub start_services : List Call × Ending
start_services = (mqtt_start ∷ log_start ∷ processor_task ∷ sntp_init ∷ [], returned)

unfoldable pub start_modem : Results → List Call × Ending
start_modem r =
    if r.is_dtu
    then then_call dtu_init
        (if r.modem_ok then then_call dtu_task start_services else ([], aborted))
    else then_call at_init (if r.modem_ok then then_call at_task start_services else ([], aborted))

unfoldable pub start_network : Results → List Call × Ending
start_network r = then_call wifi_init (
    if not r.wifi_ok
    then ([], halted)
    else then_call queue_create (if r.queue_created then start_modem r else ([], halted)))

unfoldable pub start_system : Results → List Call × Ending
start_system r = then_call netif_init (
    if r.netif_ok
    then then_call event_loop (if r.event_loop_ok then start_network r else ([], aborted))
    else ([], aborted))

-- The second initialisation, behind the erasure.
unfoldable pub nvs_again : Results → List Call × Ending
nvs_again r = then_call nvs_erase (
    if r.erase_ok
    then then_call nvs_init (elim r.nvs_second [ nvs_ok ↦ start_system r | _ ↦ ([], aborted) ])
    else ([], aborted))

unfoldable pub app_main : Results → List Call × Ending
app_main r = then_call early_log (
    then_call nvs_init (elim r.nvs_first [
      | nvs_ok ↦ start_system r
      | no_free_pages ↦ nvs_again r
      | new_version_found ↦ nvs_again r
      | nvs_other ↦ ([], aborted)
    ]))
