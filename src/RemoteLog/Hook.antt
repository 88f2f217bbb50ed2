-- ===== src/RemoteLog/Hook.antt =====
-- The log hook of main/remote_log.c with its ring buffer, and the start of the module.
use iot_sms.Base.{
  ℕ, ◌+◌, ◌-◌, ◌/◌, ◌%◌, ◌^◌, Bool, true, false, ◌||◌, List, [], ◌∷◌, ◌++◌, Option, none, some, ◌≡◌,
  Bytes, codes, length, take, ltb, ◌==◌, if◌then◌else◌,
}
use iot_sms.LogRedaction.{constant, output, log_mask_phone}
use iot_sms.RemoteLog.Batch.{Source}
use iot_sms.RemoteLog.Line.{rl_strip_line, rl_parse_prefix, is_forwarded}

-- The ring buffer of ESP-IDF, which is not part of the repository.
pub record RingBuffer : Type 1 where
  pub Ring : Type 0
  -- `xRingbufferSend (ring, item, size, 0)`; `true` is `pdTRUE`.
  pub send : Ring → Bytes → Ring × Bool
  -- `xRingbufferReceive` with the return of the item, within its wait.
  pub receive : Ring → Ring × Option Bytes
  -- The items that it holds, the oldest first.
  pub held : Ring → List Bytes
  pub send_pass :
      (r : Ring) (item : Bytes)
      → (send r item).1 ≡ true
      → held (send r item).0 ≡ held r ++ item ∷ []
  pub send_full :
      (r : Ring) (item : Bytes) → (send r item).1 ≡ false → held (send r item).0 ≡ held r
  pub receive_item :
      (r : Ring) (item : Bytes) → (receive r).1 ≡ some item → held r ≡ item ∷ held (receive r).0
  pub receive_none : (r : Ring) → (receive r).1 ≡ none → held (receive r).0 ≡ held r

-- `RL_LINE_MAX`
abbrev pub rl_line_max : ℕ
rl_line_max = 256

-- `%02x`
abbrev pub hex_digit : ℕ → ℕ
hex_digit n = if ltb n 10 then b'0' + n else b'a' + (n - 10)

abbrev pub hex_byte : ℕ → Bytes
hex_byte n = hex_digit (n / 16 % 16) ∷ hex_digit (n % 16) ∷ []

-- `s_device_id`, of 32 bytes: the configured name, or one from the last bytes of the address.
unfoldable pub device_id_of : Bytes → ℕ → ℕ → ℕ → Bytes
device_id_of device_name mac3 mac4 mac5 =
    if ltb 0 (length device_name)
    then take (32 - 1) device_name
    else codes "esp32c3-" ++ (hex_byte mac3 ++ (hex_byte mac4 ++ hex_byte mac5))

-- What stands in `s_phone`, of 24 bytes.
unfoldable pub phone_of : Bytes → Bytes
phone_of number = elim (log_mask_phone (some number) true 24) [ constant ↦ [] | output s ↦ s ]

-- `s_log_rb`, whether the hook is installed, and the numbers of the batches with `s_dropped`.
pub record LogState (B : RingBuffer) : Type 0 where
  pub s_log_rb : Option B.Ring
  pub hooked : Bool
  pub source : Source

module _ (B : RingBuffer) where
  -- The ring is what `xRingbufferCreate` returns, and `false` is `ESP_ERR_NO_MEM`.
  unfoldable pub remote_log_early_init :
      Bytes → ℕ → ℕ → ℕ → Bytes → Option B.Ring → LogState B × Bool
  remote_log_early_init device_name mac3 mac4 mac5 number created =
      let source : Source = record {
        device_id = device_id_of device_name mac3 mac4 mac5;
        phone = phone_of number;
        seq = 0;
        dropped = 0;
      } in
      elim created [
        | none ↦ (record { s_log_rb = none; hooked = false; source = source }, false)
        | some ring ↦ (record { s_log_rb = some ring; hooked = true; source = source }, true)
      ]

  -- `remote_log_start`, where `created` is whether `xTaskCreate` passes.
  unfoldable pub remote_log_start : LogState B → Bool → Bool
  remote_log_start s created = elim s.s_log_rb [ none ↦ false | some _ ↦ created ]

  -- A line that does not fit into the ring is counted; the counter has 32 bits.
  unfoldable pub enqueue_line : LogState B → B.Ring → Bytes → LogState B
  enqueue_line s ring line =
      let (ring', sent) = B.send ring line in
      let held = record s { s_log_rb = some ring' } in
      if sent
      then held
      else record held { source = record s.source { dropped = (s.source.dropped + 1) % 2 ^ 32 } }

  -- The line as `vsnprintf` would write it, cut, without colours and without line ends.
  abbrev pub line_of : Bytes → Bytes
  line_of formatted = rl_strip_line (take (rl_line_max - 1) formatted)

  -- The hook behind its output on the console. `inside` is whether it runs in an interrupt or in
  -- the forwarding task.
  unfoldable pub remote_log_vprintf : LogState B → ℕ → Bool → Bytes → LogState B
  remote_log_vprintf s max_level inside formatted = elim s.s_log_rb [
    | none ↦ s
    | some ring ↦
        let line = line_of formatted in
        if inside || length line == 0
        then s
        else if is_forwarded max_level (rl_parse_prefix line)
        then enqueue_line s ring line
        else s
  ]
