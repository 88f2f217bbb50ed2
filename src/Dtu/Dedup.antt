-- ===== src/Dtu/Dedup.antt =====
-- The cache of main/uart_dtu_manager.c against messages that come twice, and `dtu_handle_line`.
pub mod Known
pub mod Repeats
pub mod Tests
use Prim.Native.Nat.{bit_xor}
use iot_sms.Base.{
  ℕ, zero, suc, ◌+◌, ◌-◌, ◌*◌, ◌%◌, ◌^◌, Bool, true, false, ◌&&◌, List, [], ◌∷◌, ◌++◌, Option, none,
  some, Bytes, length, ltb, leb, ◌==◌, if◌then◌else◌,
}
use iot_sms.Dtu.Parse.{parse_sms_line}
use iot_sms.Message.{SmsMessage}
use iot_sms.Rtos.{Rtos, tick_sub, ms_to_ticks}

abbrev pub dtu_dedup_cache_size : ℕ
dtu_dedup_cache_size = 8

abbrev pub dtu_dedup_window_ms : ℕ
dtu_dedup_window_ms = 10 * 60 * 1000

-- `sms_dedup_entry_t`
pub record SmsDedupEntry : Type 0 where
  pub hash : ℕ
  pub tick : ℕ
  pub valid : Bool

-- `s_dedup_cache` and `s_dedup_next`
pub record DedupCache : Type 0 where
  pub entries : List SmsDedupEntry
  pub next : ℕ

-- `h ^= (uint8_t)*p; h *= 16777619u;`
unfoldable pub fnv_step : ℕ → ℕ → ℕ
fnv_step h c = bit_xor h (c % 2 ^ 8) * 16777619 % 2 ^ 32

unfoldable pub fnv : ℕ → Bytes → ℕ
fnv h [] = h
fnv h (c ∷ s) = fnv (fnv_step h c) s

unfoldable pub sms_fingerprint : SmsMessage → ℕ
sms_fingerprint sms = fnv (fnv_step (fnv 2166136261 sms.sender) b',') sms.content

module _ (R : Rtos) where
  unfoldable pub is_recent : ℕ → ℕ → SmsDedupEntry → Bool
  is_recent h now e =
      e.valid && (e.hash == h && ltb (tick_sub now e.tick) (ms_to_ticks R dtu_dedup_window_ms))

  -- The loop: the first entry that is valid, has the hash and is recent gets the current time;
  -- `none` is `false`.
  unfoldable pub refresh : ℕ → ℕ → List SmsDedupEntry → Option (List SmsDedupEntry)
  refresh h now [] = none
  refresh h now (e ∷ es) =
      let rest = refresh h now es in
      if is_recent h now e
      then some (record e { tick = now } ∷ es)
      else (elim rest [ none ↦ none | some es' ↦ some (e ∷ es') ])

  unfoldable pub sms_is_duplicate : DedupCache → SmsMessage → ℕ → DedupCache × Bool
  sms_is_duplicate c sms now = elim (refresh (sms_fingerprint sms) now c.entries) [
    | none ↦ (c, false)
    | some es ↦ (record c { entries = es }, true)
  ]

-- An assignment to an element of the array.
abbrev pub set_entry : List SmsDedupEntry → ℕ → SmsDedupEntry → List SmsDedupEntry
set_entry [] i e = []
set_entry (x ∷ xs) zero e = e ∷ xs
set_entry (x ∷ xs) (suc i) e = x ∷ set_entry xs i e

unfoldable pub sms_dedup_record : DedupCache → SmsMessage → ℕ → DedupCache
sms_dedup_record c sms now = record {
  entries =
      set_entry c.entries c.next (record { hash = sms_fingerprint sms; tick = now; valid = true });
  next = (c.next + 1) % dtu_dedup_cache_size;
}

pub record DtuState (R : Rtos) : Type 0 where
  pub sms_queue : R.Queue
  pub cache : DedupCache

module _ (R : Rtos) where
  unfoldable pub enqueue : DtuState R → SmsMessage → ℕ → DtuState R
  enqueue s sms now =
      let (q, passed) = R.send s.sms_queue sms (ms_to_ticks R 1000) in
      if passed
      then record { sms_queue = q; cache = sms_dedup_record s.cache sms now }
      else record s { sms_queue = q }

  -- A message that has been taken from a line.
  unfoldable pub handle_sms : DtuState R → SmsMessage → ℕ → ℕ → DtuState R
  handle_sms s sms checked stored =
      let (c, duplicate) = sms_is_duplicate R s.cache sms checked in
      if duplicate then record s { cache = c } else enqueue (record s { cache = c }) sms stored

  -- The times are those of `sms_is_duplicate` and of `sms_dedup_record`.
  unfoldable pub dtu_handle_line : DtuState R → Bytes → ℕ → ℕ → DtuState R
  dtu_handle_line s line checked stored =
      if length line == 0
      then s
      else elim (parse_sms_line line) [ none ↦ s | some sms ↦ handle_sms s sms checked stored ]
