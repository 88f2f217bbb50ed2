-- ===== src/RemoteLog.antt =====
-- main/remote_log.c: the log lines that are forwarded over MQTT in batches of JSON.
pub mod Line
pub mod Json
pub mod Batch
pub mod Hook
pub mod Forward
