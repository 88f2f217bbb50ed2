-- ===== src/Message.antt =====
-- `sms_message_t` of main/uart_at_manager.h.
use iot_sms.Base.{ℕ, Bytes}

-- The bytes in front of each array's terminator.
pub record SmsMessage : Type 0 where
  pub sender : Bytes
  pub content : Bytes

abbrev pub sender_size : ℕ
sender_size = 32

abbrev pub content_size : ℕ
content_size = 2048
