-- ===== src/Lib.antt =====
-- Verification of the SMS gateway firmware (main/*.c), which runs on an ESP32 with FreeRTOS. A
-- modem on a serial line delivers short messages; one of two managers turns them into messages on
-- a queue; the processor publishes them over MQTT and keeps in flash what could not be published;
-- log lines are masked and forwarded over MQTT too.
--
-- - Base, CString, Decimal: lists over the native numbers, bit fields, the C library's string
--   functions, and the decimal digits that printf writes.
-- - Message: sms_message_t of main/uart_at_manager.h. A string is the list of the bytes in front
--   of its terminator.
-- - Rtos: the queues and the tick counter of FreeRTOS as a record of operations with their
--   documented laws; ticks are words of 32 bits with their wrap written out. Testbed is a queue
--   on which the theorems are tried.
-- - UartAt.Ucs2: decode_ucs2_hex_to_utf8 of main/uart_at_manager.c, with the bit operations and
--   the arithmetic of size_t. UartAt.Fragments: process_sms_fragment and the buffer that puts the
--   parts of a long message together. UartAt.Urc: handle_urc, parse_cmt_text_mode_response and
--   the loop over the reports. UartAt.Receive: uart_event_task. UartAt.Commands: at_send_command
--   and the configuration of the modem, with the chunks that arrive meanwhile as arguments.
--   UartAt.Init: uart_at_init, which may be called again after an earlier run. UartAt.Task: the
--   two loops of uart_at_task and wait_for_recovery_retry. The mutex makes each handling of the
--   buffer one step; UartAt.Task.Sound is about any order of such steps, UartAt.Task.Delivery
--   about the bytes on their way to the reassembly, and UartAt.Task.Rounds about all rounds of
--   the main loop, from the bytes to the messages in the queue.
-- - Dtu: main/uart_dtu_manager.c. Dtu.Text is decode_utf8_hex and the trimming of a cut
--   character, Dtu.Parse is parse_sms_line, Dtu.Dedup the cache of fingerprints and
--   dtu_handle_line, Dtu.Reader is dtu_read_line, Dtu.Task the queries, the task and
--   uart_dtu_init. What the UART still delivers is part of the reader's state, without the bytes
--   that uart_flush_input drops at the start; Dtu.Task.Answers is what a query may do with the
--   lines that arrive while it waits.
-- - Storage: main/sms_storage.c over the record NvsStore of Storage.Nvs, which states what the
--   library for non-volatile storage documents. Every operation of it may fail; Storage.Working
--   has those that follow when none does. Storage.FlashModel is a flash on which the theorems are
--   tried.
-- - Publisher and Processor: main/sms_processor.c. A round of the task is drain, retry and
--   receive, one after the other; Publisher is what it uses of main/mqtt_manager.c. The reads of
--   the clock are arguments.
-- - Mqtt: main/mqtt_manager.c, the flag of the connection and the publications over the client
--   library, which is the record MqttClient. Mqtt.Report: the start and the report of the device,
--   with the events that arrive during its wait.
-- - Gateway: the processor on the MQTT manager. Gateway.Link makes the manager a Publisher, with
--   arbitrary events of the client and publications of other tasks in front of each of the
--   processor's calls, and with a log of what the manager's callers were told; the settings of a
--   payload, its time among them, depend on the call.
-- - LogRedaction: main/log_redaction.c.
-- - RemoteLog: main/remote_log.c. RemoteLog.Line is what the hook does to a line, RemoteLog.Json
--   is rl_json_escape, RemoteLog.Batch the batches. RemoteLog.Hook is the hook over the ring
--   buffer, which is the record RingBuffer, and the start; RemoteLog.Forward is the metrics and a
--   round of the task.
-- - Wifi: main/wifi_manager.c, as a machine on the events of the driver.
-- - Startup: main/main.c, app_main as the list of its calls; Startup.Sntp: main/sntp_manager.c.
--
-- Loops over data are recursions on the data. The loop of the processor over the stored messages
-- has fuel, one unit for each round; it ends with fuel above the number of stored messages while
-- the storage works, so that 21 is enough for a round of the task, since flash holds at most 20,
-- and the results say what happens where it does not. The task's own loop is a recursion on the
-- list of the times of its rounds. The loop over the reports in the buffer has fuel one above the
-- buffer's length, since each round but the last takes a report out; so has the removal of other
-- lines. The wait of the device report has fuel 31, one above its thirty intervals. The waits of
-- uart_at_manager.c are recursions on the list of what the environment does. The loop of
-- sms_storage_delete_oldest counts its rounds. The loop of utf8_trim_incomplete_tail makes at
-- most three steps.
--
-- Not modelled: the console output and the texts of log lines, the parameters of the UART in
-- uart_at_init and uart_dtu_init and the set-up of the Wi-Fi library in wifi_manager_init_sta
-- (they are constants and take nothing from the program's state), the fixed delays, and the time
-- of the last reconnection in main/mqtt_manager.c, which only a log line reads. The contents of
-- main/*.h are constants and declarations.
pub mod Base
pub mod CString
pub mod Decimal
pub mod Message
pub mod Rtos
pub mod Testbed
pub mod UartAt
pub mod Storage
pub mod Publisher
pub mod Processor
pub mod LogRedaction
pub mod Dtu
pub mod RemoteLog
pub mod Mqtt
pub mod Wifi
pub mod Startup
pub mod Gateway
