-- ===== src/RemoteLog/Batch.antt =====
-- `rl_batch_append` and `rl_batch_flush` of main/remote_log.c, and the lines of its task.
pub mod Room
pub mod Order
pub mod Tests
use iot_sms.Base.{
  ℕ, zero, suc, ◌+◌, ◌-◌, ◌%◌, ◌^◌, Bool, true, false, ◌||◌, List, [], ◌∷◌, ◌++◌, Option, none,
  some, Bytes, codes, length, ltb, leb, ◌==◌, if◌then◌else◌,
}
use iot_sms.Decimal.{decimal}
use iot_sms.RemoteLog.Json.{rl_json_escape}
use iot_sms.RemoteLog.Line.{Prefix, rl_parse_prefix}

-- `RL_BATCH_BUF_SIZE - 3`
abbrev pub avail : ℕ
avail = 4096 - 3

-- `s_device_id`, `s_phone`, `s_seq` and `s_dropped`
pub record Source : Type 0 where
  pub device_id : Bytes
  pub phone : Bytes
  pub seq : ℕ
  pub dropped : ℕ

-- The first `len` bytes of `batch`, and `lines`.
pub record LogBatch : Type 0 where
  pub bytes : Bytes
  pub lines : ℕ

abbrev pub no_lines : LogBatch
no_lines = record { bytes = []; lines = 0 }

unfoldable pub header : Source → Bytes
header s =
    codes "{\"device\":\""
    ++ s.device_id
    ++ codes "\",\"phone\":\""
    ++ s.phone
    ++ codes "\",\"seq\":"
    ++ decimal s.seq
    ++ codes ",\"dropped\":"
    ++ decimal s.dropped
    ++ codes ",\"lines\":["

-- `memchr` for a quote or a backslash
unfoldable pub breaks_json : Bytes → Bool
breaks_json [] = false
breaks_json (c ∷ s) = (c == 0x22 || c == 0x5C) || breaks_json s

-- The level, the tag and the time of a line; the tag is `raw` unless it can be written as it is.
unfoldable pub line_prefix : Bytes → Prefix
line_prefix item = elim (rl_parse_prefix item) [
  | none ↦ record { level = b'I'; tag = codes "raw"; ts_ms = 0 }
  | some p ↦ if breaks_json p.tag then record p { tag = codes "raw" } else p
]

abbrev pub comma : ℕ → Bytes
comma lines = if ltb 0 lines then b',' ∷ [] else []

unfoldable pub line_head : ℕ → Prefix → Bytes
line_head lines p =
    comma lines
    ++ codes "{\"level\":\""
    ++ p.level ∷ codes "\",\"tag\":\""
    ++ p.tag
    ++ codes "\",\"ts_ms\":"
    ++ decimal p.ts_ms
    ++ codes ",\"msg\":\""

-- The line behind the bytes `start`; `none` is the jump to `fail`.
unfoldable pub put_line : Bytes → ℕ → Bytes → Option Bytes
put_line start lines item =
    let opened = start ++ line_head lines (line_prefix item) in
    if leb avail (length opened)
    then none
    else (elim (rl_json_escape (avail - length opened) item) [
      | none ↦ none
      | some msg ↦
          if leb avail (length opened + length msg + 2)
          then none
          else some (opened ++ (msg ++ codes "\"}"))
    ])

-- The first line of a batch, behind the header.
unfoldable pub append_first : Source → Bytes → LogBatch × Bool
append_first s item =
    if leb avail (length (header s))
    then (no_lines, false)
    else (elim (put_line (header s) 0 item) [
      | none ↦ (no_lines, false)
      | some bytes ↦ (record { bytes = bytes; lines = 1 }, true)
    ])

unfoldable pub rl_batch_append : Source → LogBatch → Bytes → LogBatch × Bool
rl_batch_append s b item =
    if b.lines == 0 then append_first s item else (elim (put_line b.bytes b.lines item) [
      | none ↦ (b, false)
      | some bytes ↦ (record { bytes = bytes; lines = b.lines + 1 }, true)
    ])

-- The payload that is published, if there are lines; what the publication returns is not looked at.
unfoldable pub rl_batch_flush : Source → LogBatch → Source × (LogBatch × List Bytes)
rl_batch_flush s b =
    if b.lines == 0
    then (s, (b, []))
    else (record s { seq = (s.seq + 1) % 2 ^ 32 }, (no_lines, (b.bytes ++ codes "]}") ∷ []))

-- What the task does with a line from the ring buffer.
unfoldable pub forward_line : Source → LogBatch → Bytes → Source × (LogBatch × List Bytes)
forward_line s b item =
    let (b', added) = rl_batch_append s b item in
    if added
    then (s, (b', []))
    else (let (s', (b'', payloads)) = rl_batch_flush s b' in
        (s', ((rl_batch_append s' b'' item).0, payloads)))
