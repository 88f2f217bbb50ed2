-- ===== src/Dtu/Task/Answers.antt =====
-- What a query of main/uart_dtu_manager.c may do with the lines that arrive while it waits.
use iot_sms.Base.{
  ℕ, suc, length, get_elem?, ◌-◌, ◌++◌, false, [], ◌∷◌, List, Option, none, some, Bytes, All, take,
  ltb, ◌≡◌, ◌⊎◌, inl, inr, ap,
}
use iot_sms.CString.{c_str, strip_prefix}
use iot_sms.Dtu.Dedup.{DtuState, dtu_handle_line}
use iot_sms.Dtu.Reader.{dtu_line_buf_size, RxState, drop_return, dtu_read_line}
use iot_sms.Dtu.Reader.Intact.{stream_of, HasRoom, join}
use iot_sms.Dtu.Task.{dtu_cmd_response_timeout_ms, DtuTask, QueryRound}
use iot_sms.Rtos.{Rtos, tick_sub, ms_to_ticks}

-- What the task sees of a line of the stream.
abbrev pub text_of : Bytes → Bytes
text_of raw = c_str (drop_return raw)

-- A line of the stream, and the times at which the cache was looked at and written.
abbrev pub Arrived : Type 0
Arrived = Bytes × ℕ × ℕ

abbrev pub raws_of : List Arrived → List Bytes
raws_of [] = []
raws_of ((raw, checked, stored) ∷ arrived) = raw ∷ raws_of arrived

module _ (R : Rtos) where
  -- The lines go through the handling of reports one after the other.
  abbrev pub handle_lines : DtuState R → List Arrived → DtuState R
  handle_lines d [] = d
  handle_lines d ((raw, checked, stored) ∷ arrived) =
      handle_lines (dtu_handle_line R d (text_of raw) checked stored) arrived

  abbrev pub query_timeout : ℕ
  query_timeout = ms_to_ticks R dtu_cmd_response_timeout_ms

  -- Behind the handled lines, the rounds are over, or a round finds the time over, or its call of
  -- `dtu_read_line` ends without a line.
  abbrev pub GaveUp : ℕ → List QueryRound → List Arrived → RxState → Type 0
  GaveUp start xs handled rx' =
      (length handled ≡ length xs)
      ⊎ ((x : QueryRound) × (get_elem? xs (length handled) ≡ some x)
          × ((ltb (tick_sub x.tested start) query_timeout ≡ false)
              ⊎ ((rx : RxState) × (dtu_read_line x.called (query_timeout - tick_sub x.tested start)
                      dtu_line_buf_size rx x.reads
                    ≡ (none, rx')))))

  pub GaveUp-next :
      (start : ℕ) (x : QueryRound) (xs : List QueryRound) (a : Arrived) (handled : List Arrived)
      (rx' : RxState)
      → GaveUp start xs handled rx'
      → GaveUp start (x ∷ xs) (a ∷ handled) rx'
  GaveUp-next start x xs a handled rx' (inl over) = inl (ap suc over)
  GaveUp-next start x xs a handled rx' (inr (y, at_y, cause)) = inr (y, at_y, cause)

  -- The first lines of the stream have been handled, none of which starts with the prefix; then the
  -- answer has been taken out, if there is one, and the other lines are still to come.
  pub record Asked (tail resp_prefix : Bytes) (start : ℕ) (xs : List QueryRound) (s : DtuTask R)
      (raws : List Bytes) (r : DtuTask R × Option Bytes) : Type 0 where
    pub handled : List Arrived
    pub left : List Bytes
    pub reports : r.0.dtu ≡ handle_lines s.dtu handled
    pub others : All (λ (a : Arrived). strip_prefix resp_prefix (text_of a.0) ≡ none) handled
    pub to_come : stream_of r.0.rx ≡ join left tail
    pub has_room : HasRoom r.0.rx
    pub same_operator : r.0.sim_operator ≡ s.sim_operator
    pub same_sent : r.0.sent ≡ s.sent
    pub answer :
        ((r.1 ≡ none) × (raws ≡ raws_of handled ++ left) × GaveUp start xs handled r.0.rx)
        ⊎ ((raw : Bytes) × (rest : Bytes) × (strip_prefix resp_prefix (text_of raw) ≡ some rest)
            × (r.1 ≡ some (take (128 - 1) (text_of raw)))
            × (raws ≡ raws_of handled ++ raw ∷ left))
