-- ===== src/UartAt.antt =====
-- main/uart_at_manager.c: the modem with AT firmware.
pub mod Ucs2
pub mod Fragments
pub mod Urc
pub mod Receive
pub mod Commands
pub mod Init
pub mod Task
pub mod Tests
