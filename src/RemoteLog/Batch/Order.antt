-- ===== src/RemoteLog/Batch/Order.antt =====
-- Every line of the log goes into a batch, in its place.
use iot_sms.Base.{ℕ, suc, ◌+◌, ◌<◌, ◌%◌, ◌^◌, List, [], ◌∷◌, ◌++◌, ◌≡◌, ◌⊎◌, Bytes, codes, length}
use iot_sms.RemoteLog.Batch.{avail, Source, LogBatch, no_lines}
use iot_sms.RemoteLog.Batch.Room.{line_text}

-- The lines of a batch behind its header, the first of them as number `n`.
abbrev pub lines_text : ℕ → List Bytes → Bytes
lines_text n [] = []
lines_text n (item ∷ items) = line_text n item ++ lines_text (suc n) items

-- The batch holds the lines, in their order, behind a header, and has room for its end.
pub record Carries (b : LogBatch) (items : List Bytes) : Type 0 where
  pub start : Bytes
  pub text : b.bytes ≡ start ++ lines_text 0 items
  pub count : b.lines ≡ length items
  pub room : length b.bytes < avail

-- After a line has come it stands behind the pending ones, or these have been published and the
-- line is the first of a new batch.
abbrev pub Forwarded : LogBatch → List Bytes → Bytes → LogBatch × List Bytes → Type 0
Forwarded b items item (b', payloads) =
    ((payloads ≡ []) × Carries b' (items ++ item ∷ []))
    ⊎ ((payloads ≡ (b.bytes ++ codes "]}") ∷ []) × Carries b' (item ∷ []))

-- A batch that is empty or carries lines.
abbrev pub Pending : LogBatch → List Bytes → Type 0
Pending b items = ((b ≡ no_lines) × (items ≡ [])) ⊎ ((0 < length items) × Carries b items)

abbrev next_seq : Source → Source
next_seq s = record s { seq = (s.seq + 1) % 2 ^ 32 }
