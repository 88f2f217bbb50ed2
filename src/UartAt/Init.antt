-- ===== src/UartAt/Init.antt =====
-- `uart_at_init` of main/uart_at_manager.c, which may be called again after an earlier run.
pub mod Fresh
pub mod Restarts
mod Tests
use iot_sms.Base.{
  ℕ, ◌+◌, ◌-◌, Bool, true, false, ◌&&◌, ◌||◌, [], Option, none, some, ltb, if◌then◌else◌,
}
use iot_sms.UartAt.Urc.{AtState}

-- The handles that are not NULL, and what there is in the system: tasks, the driver, the mutex and
-- the event group.
pub record Manager (Queue : Type 0) : Type 0 where
  pub at : AtState Queue
  pub s_uart_at_task_handle : Bool
  pub s_uart_event_task_handle : Bool
  pub s_uart_rx_mutex : Bool
  pub s_at_response_event_group : Bool
  pub at_tasks : ℕ
  pub event_tasks : ℕ
  pub drivers : ℕ
  pub mutexes : ℕ
  pub event_groups : ℕ

-- What the calls return.
pub record InitResults : Type 0 where
  pub mutex_made : Bool
  pub group_made : Bool
  pub driver_installed : Bool
  pub params_set : Bool
  pub pins_set : Bool
  pub task_made : Bool

abbrev pub one_if : Bool → ℕ
one_if b = if b then 1 else 0

module _ {Queue : Type 0} where
  unfoldable pub delete_tasks : Manager Queue → Manager Queue
  delete_tasks m = record m {
    s_uart_at_task_handle = false;
    s_uart_event_task_handle = false;
    at_tasks = m.at_tasks - one_if m.s_uart_at_task_handle;
    event_tasks = m.event_tasks - one_if m.s_uart_event_task_handle;
  }

  -- `uart_is_driver_installed`, and the deletion.
  unfoldable pub delete_driver : Manager Queue → Manager Queue
  delete_driver m = record m { drivers = if ltb 0 m.drivers then m.drivers - 1 else m.drivers }

  unfoldable pub make_mutex : Bool → Manager Queue → Manager Queue
  make_mutex made m = record m {
    s_uart_rx_mutex = if m.s_uart_rx_mutex then true else made;
    mutexes = if m.s_uart_rx_mutex then m.mutexes else m.mutexes + one_if made;
  }

  -- The bits of a group that is there are cleared, and those of a new one are clear.
  unfoldable pub make_event_group : Bool → Manager Queue → Manager Queue
  make_event_group made m = record m {
    at = record m.at { ok_bit = false; error_bit = false; urc_bit = false };
    s_at_response_event_group = if m.s_at_response_event_group then true else made;
    event_groups =
        if m.s_at_response_event_group then m.event_groups else m.event_groups + one_if made;
  }

  unfoldable pub clear_rx_buffer : Manager Queue → Manager Queue
  clear_rx_buffer m = record m { at = record m.at { rx_buffer = [] } }

  -- The calls in front of the installation of the driver.
  unfoldable pub prepare : InitResults → Option Queue → Manager Queue → Manager Queue
  prepare r sms_queue m =
      let taken = record m {
        at = record m.at { fragments = record m.at.fragments { sms_queue = sms_queue } };
      } in
      clear_rx_buffer (
        make_event_group r.group_made
          (make_mutex r.mutex_made (delete_driver (delete_tasks taken))))

  -- The driver, and the task that gets its events.
  unfoldable pub start_driver : InitResults → Manager Queue → Manager Queue
  start_driver r m = record m {
    drivers = m.drivers + 1;
    s_uart_event_task_handle = r.task_made || m.s_uart_event_task_handle;
    event_tasks = m.event_tasks + one_if r.task_made;
  }

  -- `none` where `ESP_ERROR_CHECK` aborts.
  unfoldable pub uart_at_init : InitResults → Option Queue → Manager Queue → Option (Manager Queue)
  uart_at_init r sms_queue m =
      if r.driver_installed && r.params_set && r.pins_set
      then some (start_driver r (prepare r sms_queue m))
      else none

  -- `xTaskCreate (uart_at_task, …)` of app_main, and the handle that the task writes at its start.
  unfoldable pub create_at_task : Manager Queue → Manager Queue
  create_at_task m = record m { s_uart_at_task_handle = true; at_tasks = m.at_tasks + 1 }
