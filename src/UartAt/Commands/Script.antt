-- ===== src/UartAt/Commands/Script.antt =====
-- The commands that the configuration of the modem sends, and when it counts as successful.
use iot_sms.Base.{
  ℕ, zero, suc, ◌<◌, Bool, true, false, [], ◌∷◌, ◌++◌, append_assoc, append-nil, Bytes, codes, ◌≡◌,
  refl, sym, ap, subst, ◌∙◌, arith, Bool-cases, inl, inr, ◌⊎◌,
}
use iot_sms.Rtos.{Rtos}
use iot_sms.UartAt.Urc.{AtState}
use iot_sms.UartAt.Commands.{
  Exchange, Configured, at_probe_max_retries, command, get_sim_imsi, get_sim_operator_name, probe,
  name_operator, set_indications, set_text_mode, configure_modem_for_sms, at_send_command,
  at_response_max_len,
}
use iot_sms.UartAt.Commands.Transcript.{
  Transcript, Sent, Sent-then, command-Sent, at_send_command-Sent,
}

abbrev pub failed_probes : ℕ → Transcript
failed_probes zero = []
failed_probes (suc n) = (codes "AT", false) ∷ failed_probes n

-- The required steps behind the opening, and whether the modem is ready in the end.
pub data Setup : Transcript → Bool → Type 0 where
  no_text_mode : Setup ((codes "AT+CMGF=1", false) ∷ []) false
  no_indications :
      (charset : Bool)
      → Setup
          ((codes "AT+CMGF=1", true)
            ∷ (codes "AT+CSCS=\"UCS2\"", charset)
            ∷ (codes "AT+CNMI=2,2,0,0,0", false)
            ∷ [])
          false
  ready :
      (charset imsi : Bool)
      → Setup
          ((codes "AT+CMGF=1", true)
            ∷ (codes "AT+CSCS=\"UCS2\"", charset)
            ∷ (codes "AT+CNMI=2,2,0,0,0", true)
            ∷ (codes "AT+CIMI", imsi)
            ∷ [])
          true

-- Three probes without an answer; or, behind at most two of them, one with an answer, two commands
-- with any result, and the required steps.
pub data Outcome : Transcript → Bool → Bool → Type 0 where
  unresponsive : Outcome (failed_probes at_probe_max_retries) false false
  responsive :
      (n : ℕ) (echo errors : Bool) {t : Transcript} {is_ready : Bool}
      → n < at_probe_max_retries
      → Setup t is_ready
      → Outcome
          (failed_probes n
            ++ ((codes "AT", true) ∷ (codes "ATE0", echo) ∷ (codes "AT+CMEE=2", errors) ∷ t))
          true
          is_ready

module _ (R : Rtos) (at : ℕ → Exchange) where
  abbrev ProbeRun : ℕ → AtState R.Queue → Type 0
  ProbeRun left s =
      let (u, answered) = probe R at left s in
      ((n : ℕ) × n < left
        × Sent s (failed_probes n ++ (codes "AT", true) ∷ []) u
        × (answered ≡ true))
      ⊎ (Sent s (failed_probes left) u × (answered ≡ false))

  probe-run : (left : ℕ) (s : AtState R.Queue) → ProbeRun left s
  unfolding probe
  probe-run zero s = inr (sym (append-nil s.commands), refl)
  probe-run (suc left) s =
      let (u, ok) = command R at s (codes "AT") in
      let sent = command-Sent R at s (codes "AT") in
      elim (Bool-cases (command R at s (codes "AT")).1) [
        | inl e ↦
            rw e
              (inl (zero, omega arith, subst (λ b. Sent s ((codes "AT", b) ∷ []) u) e sent, refl))
        | inr e ↦
            let one = subst (λ b. Sent s ((codes "AT", b) ∷ []) u) e sent in
            elim (probe-run left u) [
              | inl (n, less, run, answered) ↦ rw e (
                  inl (
                    suc n,
                    omega arith,
                    Sent-then s u (probe R at left u).0 ((codes "AT", false) ∷ [])
                        (failed_probes n ++ (codes "AT", true) ∷ []) one run,
                    answered,
                  ))
              | inr (run, silent) ↦ rw e (
                  inr (
                    Sent-then s u (probe R at left u).0 ((codes "AT", false) ∷ [])
                        (failed_probes left) one run,
                    silent,
                  ))
            ]
      ]

  name_operator-Sent :
      (s : AtState R.Queue)
      → (imsi : Bool) × Sent s ((codes "AT+CIMI", imsi) ∷ []) (name_operator R at s).state
  unfolding name_operator get_sim_operator_name get_sim_imsi
  name_operator-Sent s = (
    (at_send_command R at s (codes "AT+CIMI") at_response_max_len).2,
    at_send_command-Sent R at s (codes "AT+CIMI") at_response_max_len,
  )

  name_operator_ready :
      (s : AtState R.Queue)
      → ((name_operator R at s).modem_responding ≡ true) × ((name_operator R at s).is_ready ≡ true)
  unfolding name_operator
  name_operator_ready s = (refl, refl)

  -- What a step of the set-up leaves, where `t` was sent before it.
  abbrev SetupRun : Transcript → AtState R.Queue → Configured R.Queue → Type 0
  SetupRun t s c =
      (t' : Transcript) × Sent s t' c.state
      × (c.modem_responding ≡ true)
      × Setup (t ++ t') c.is_ready

  -- A command with a known result, in front of the run of a step.
  Sent-as :
      (s : AtState R.Queue) (cmd : Bytes) (b : Bool)
      → (command R at s cmd).1 ≡ b
      → Sent s ((cmd, b) ∷ []) (command R at s cmd).0
  Sent-as s cmd b e =
      subst (λ x. Sent s ((cmd, x) ∷ []) (command R at s cmd).0) e (command-Sent R at s cmd)

  set_indications-run :
      (s : AtState R.Queue) (charset : Bool)
      → SetupRun
          ((codes "AT+CMGF=1", true) ∷ (codes "AT+CSCS=\"UCS2\"", charset) ∷ [])
          s
          (set_indications R at s)
  unfolding set_indications
  set_indications-run s charset =
      let u = (command R at s (codes "AT+CNMI=2,2,0,0,0")).0 in
      elim (Bool-cases (command R at s (codes "AT+CNMI=2,2,0,0,0")).1) [
        | inr e ↦
            rw e (_, Sent-as s (codes "AT+CNMI=2,2,0,0,0") false e, refl, no_indications charset)
        | inl e ↦
            let (imsi, named) = name_operator-Sent u in
            let (responding, is_ready) = name_operator_ready u in
            rw e (
              (codes "AT+CNMI=2,2,0,0,0", true) ∷ (codes "AT+CIMI", imsi) ∷ [],
              Sent-then s u (name_operator R at u).state ((codes "AT+CNMI=2,2,0,0,0", true) ∷ [])
                  ((codes "AT+CIMI", imsi) ∷ []) (Sent-as s (codes "AT+CNMI=2,2,0,0,0") true e)
                  named,
              responding,
              subst (Setup _) (sym is_ready) (ready charset imsi),
            )
      ]

  set_text_mode-run : (s : AtState R.Queue) → SetupRun [] s (set_text_mode R at s)
  unfolding set_text_mode
  set_text_mode-run s =
      let u = (command R at s (codes "AT+CMGF=1")).0 in
      elim (Bool-cases (command R at s (codes "AT+CMGF=1")).1) [
        | inr e ↦ rw e (_, Sent-as s (codes "AT+CMGF=1") false e, refl, no_text_mode)
        | inl e ↦
            let v = (command R at u (codes "AT+CSCS=\"UCS2\"")).0 in
            let charset = (command R at u (codes "AT+CSCS=\"UCS2\"")).1 in
            let (t, run, responding, setup) = set_indications-run v charset in
            let mode : Transcript = (codes "AT+CMGF=1", true) ∷ [] in
            let chars : Transcript = (codes "AT+CSCS=\"UCS2\"", charset) ∷ [] in
            rw e (
              mode ++ (chars ++ t),
              Sent-then s u (set_indications R at v).state mode (chars ++ t)
                  (Sent-as s (codes "AT+CMGF=1") true e)
                  (Sent-then u v (set_indications R at v).state chars t
                    (command-Sent R at u (codes "AT+CSCS=\"UCS2\"")) run),
              responding,
              setup,
            )
      ]

  -- The configuration of the modem sends three probes that fail and reports that the modem does not
  -- respond; or, after at most two failed probes and one that passes, it disables the echo and asks
  -- for verbose errors whatever these give, and then sets the text mode and the indications, of
  -- which each is required to pass before the next step; it reports success only if both passed,
  -- and then has asked for the IMSI too.
  pub configure-Outcome :
      (s : AtState R.Queue)
      → let c = configure_modem_for_sms R at s in
        (t : Transcript) × Sent s t c.state × Outcome t c.modem_responding c.is_ready
  unfolding configure_modem_for_sms
  configure-Outcome s =
      let u = (probe R at at_probe_max_retries s).0 in
      elim (probe-run at_probe_max_retries s) [
        | inr (run, silent) ↦ rw silent (failed_probes at_probe_max_retries, run, unresponsive)
        | inl (n, less, run, answered) ↦
            let echo = (command R at u (codes "ATE0")).1 in
            let v = (command R at u (codes "ATE0")).0 in
            let errors = (command R at v (codes "AT+CMEE=2")).1 in
            let w = (command R at v (codes "AT+CMEE=2")).0 in
            let (t, set, responding, setup) = set_text_mode-run w in
            let first : Transcript = (codes "ATE0", echo) ∷ [] in
            let second : Transcript = (codes "AT+CMEE=2", errors) ∷ [] in
            let probes : Transcript = failed_probes n ++ (codes "AT", true) ∷ [] in
            let end = (set_text_mode R at w).state in
            let behind =
              Sent-then u v end first (second ++ t) (command-Sent R at u (codes "ATE0"))
                (Sent-then v w end second t (command-Sent R at v (codes "AT+CMEE=2")) set) in
            let all : Transcript =
              failed_probes n ++ ((codes "AT", true) ∷ (first ++ (second ++ t))) in
            rw answered (
              all,
              Sent-then s u end probes (first ++ (second ++ t)) run behind
                  ∙ ap (◌++◌ s.commands) (
                      append_assoc (failed_probes n) ((codes "AT", true) ∷ [])
                        (first ++ (second ++ t))),
              subst (λ b. Outcome all b (set_text_mode R at w).is_ready) (sym responding)
                  (responsive n echo errors less setup),
            )
      ]
