-- ===== src/UartAt/Task/Backoff.antt =====
-- The delays between the attempts to configure the modem.
use iot_sms.Base.{
  ℕ, zero, suc, ◌*◌, Bool, true, false, List, [], ◌∷◌, min, ◌≡◌, refl, sym, ap, ◌∙◌, arith,
  if◌then◌else◌, Bool-cases, inl, inr,
}
use iot_sms.Rtos.{Rtos, ms_to_ticks}
use iot_sms.UartAt.Urc.{AtState}
use iot_sms.UartAt.Commands.{Exchange, configure_modem_for_sms}
use iot_sms.UartAt.Task.{
  RetryRound, delay_at, delay_index, next_index, recover, wait_for_recovery_retry,
}

-- Five seconds, doubled as often as the number says, and thirty at most.
unfoldable pub doubled : ℕ → ℕ
doubled zero = 5000
doubled (suc n) = min (2 * doubled n) 30000

-- For attempts that fail, each with whether the modem has answered in it: an answer starts the
-- delays anew, and each attempt without one, behind so many others, doubles them.
unfoldable pub backoff : ℕ → List Bool → List ℕ
backoff n [] = []
backoff n (true ∷ answered) = 5000 ∷ backoff 0 answered
backoff n (false ∷ answered) = doubled n ∷ backoff (suc n) answered

doubled_most : (n : ℕ) → doubled (suc (suc (suc n))) ≡ 30000
unfolding doubled
doubled_most zero = refl
doubled_most (suc n) = ap (λ (d : ℕ). min (2 * d) 30000) (doubled_most n)

delay-doubled : (n : ℕ) → delay_at (min n 3) ≡ doubled n
unfolding doubled
delay-doubled zero = refl
delay-doubled (suc zero) = refl
delay-doubled (suc (suc zero)) = refl
delay-doubled (suc (suc (suc n))) =
    let most : min (suc (suc (suc n))) 3 ≡ 3 = omega arith in
    ap delay_at most ∙ sym (doubled_most n)

next_doubled : (n : ℕ) → next_index false (min n 3) ≡ min (suc n) 3
unfolding next_index delay_index
next_doubled n = ground arith

module _ (R : Rtos) (at : ℕ → Exchange) where
  -- Whether the modem has answered in each attempt of `recover` that has failed.
  unfoldable pub answered_in : AtState R.Queue → ℕ → List (ℕ × List RetryRound) → List Bool
  answered_in s index [] = []
  answered_in s index ((start, waits) ∷ rounds) =
      let c = configure_modem_for_sms R at s in
      let delay = delay_at (delay_index c.modem_responding index) in
      let waited = wait_for_recovery_retry R c.state start (ms_to_ticks R delay) waits in
      let later = answered_in waited (next_index c.modem_responding index) rounds in
      if c.is_ready then [] else c.modem_responding ∷ later

  recover-from :
      (s : AtState R.Queue) (n index : ℕ) (rounds : List (ℕ × List RetryRound))
      → index ≡ min n 3
      → (recover R at s index rounds).1 ≡ backoff n (answered_in s index rounds)
  unfolding recover answered_in backoff delay_index next_index
  recover-from s n index [] e = refl
  recover-from s n index ((start, waits) ∷ rounds) e =
      let c = configure_modem_for_sms R at s in
      let waited : Bool → AtState R.Queue = λ b.
        wait_for_recovery_retry R c.state start (ms_to_ticks R (delay_at (delay_index b index)))
          waits in
      elim (Bool-cases c.is_ready) [
        | inl ready ↦ rw ready refl
        | inr fails ↦ elim (Bool-cases c.modem_responding) [
          | inl on ↦
              rw (fails, on) (ap (5000 ∷◌) (recover-from (waited true) 0 0 rounds (omega arith)))
          | inr off ↦
              rw (fails, off)
                (ap (◌∷ (recover R at (waited false) (next_index false index) rounds).1)
                    (ap delay_at e ∙ delay-doubled n)
                  ∙ ap (doubled n ∷◌) (
                      recover-from (waited false) (suc n) (next_index false index) rounds
                        (ap (next_index false) e ∙ next_doubled n)))
        ]
      ]

  -- The delays of the loop around the configuration of the modem, for any modem and any attempts,
  -- are those of this rule on whether the modem has answered in each attempt that failed: an answer
  -- gives five seconds and starts the delays anew, and an attempt without one gives five seconds
  -- doubled for each attempt without one directly in front of it, thirty seconds at most.
  pub recover-backoff :
      (s : AtState R.Queue) (rounds : List (ℕ × List RetryRound))
      → (recover R at s 0 rounds).1 ≡ backoff 0 (answered_in s 0 rounds)
  recover-backoff s rounds = recover-from s 0 0 rounds (ground arith)
