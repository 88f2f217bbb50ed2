-- ===== src/Dtu.antt =====
-- main/uart_dtu_manager.c: short messages from a modem with DTU firmware.
pub mod Text
pub mod Parse
pub mod Dedup
pub mod Reader
pub mod Task
