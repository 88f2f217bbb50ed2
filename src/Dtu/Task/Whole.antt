-- ===== src/Dtu/Task/Whole.antt =====
-- Over the whole task of main/uart_dtu_manager.c, every line is handled or is an answer.
use iot_sms.Base.{ℕ, List, Bytes, All, ◌≡◌}
use iot_sms.Dtu.Reader.Intact.{stream_of, HasRoom, IsLine, join}
use iot_sms.Dtu.Task.{DtuTask}
use iot_sms.Dtu.Task.Passing.{Passed}
use iot_sms.Rtos.{Rtos}

module _ (R : Rtos) (tail : Bytes) (last : IsLine tail) where
  -- A step from a stream of lines.
  abbrev Passes : ℕ → (DtuTask R → DtuTask R) → Type 0
  Passes n step =
      (s : DtuTask R) (raws : List Bytes)
      → HasRoom s.rx
      → stream_of s.rx ≡ join raws tail
      → All IsLine raws
      → Passed R n tail s raws (step s)
