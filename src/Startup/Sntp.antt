-- ===== src/Startup/Sntp.antt =====
-- `sntp_manager_init` of main/sntp_manager.c.
use iot_sms.Base.{
  ℕ, zero, suc, ◌*◌, ◌-◌, Bool, List, [], ◌∷◌, ◌++◌, Bytes, codes, ltb, if◌then◌else◌,
}
use iot_sms.Storage.{EspErr, esp_ok, esp_fail}

-- The calls of the SNTP library and of the C library in front of the wait.
pub data SntpCall : Type 0 where
  sntp_stop tzset poll_mode : SntpCall
  server : ℕ → Bytes → SntpCall
  zone : Bytes → SntpCall
  notification immediate_mode sntp_start : SntpCall

-- `SNTP_SYNC_TIMEOUT_SEC`
abbrev pub sntp_sync_timeout_sec : ℕ
sntp_sync_timeout_sec = 10

-- `MIN_VALID_TIME`, the start of 2020
abbrev pub min_valid_time : ℕ
min_valid_time = 1577836800

unfoldable pub sntp_calls : Bool → Bytes → List SntpCall
sntp_calls enabled timezone =
    (if enabled then sntp_stop ∷ [] else [])
    ++ (zone timezone
        ∷ tzset
        ∷ poll_mode
        ∷ server 0 (codes "pool.ntp.org")
        ∷ server 1 (codes "ntp.aliyun.com")
        ∷ server 2 (codes "time.cloudflare.com")
        ∷ notification
        ∷ immediate_mode
        ∷ sntp_start
        ∷ [])

-- The loop, with the number of rounds left: which reading of the clock comes next.
unfoldable pub await_time : (ℕ → ℕ) → ℕ → ℕ → ℕ
await_time clock zero i = i
await_time clock (suc left) i =
    let further = await_time clock left (suc i) in
    if ltb min_valid_time (clock i) then suc i else further

-- `++retry < retry_count` holds in one round less than `retry_count`.
unfoldable pub sntp_manager_init : Bool → Bytes → (ℕ → ℕ) → List SntpCall × EspErr
sntp_manager_init enabled timezone clock =
    let i = await_time clock (sntp_sync_timeout_sec * 2 - 1) 0 in
    (sntp_calls enabled timezone, if ltb min_valid_time (clock i) then esp_ok else esp_fail)
