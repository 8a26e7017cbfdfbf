-- ===== src/Aiop/Ledger/Frame.antt =====
-- A ledger beside the device stays as it is in every exchange with the MC.
use gpp_aioptool.Base.{
  ℕ, zero, suc, ◌≡◌, refl, Option, none, some, ◌==◌, Bool-cases, inl, inr, Run, IfDone, IfDone-bind,
  Act, and_then, done, spinning, fault, sym, subst, ℤ,
}
use gpp_aioptool.Mc.Wire.{McCommand, read_status, status_ready, status_ok, mc_cmd_num_of_params}
use gpp_aioptool.Mc.Portal.{
  Device, FslMcIo, mc_write_command, write_params, read_params, mc_read_response, poll, send_to,
  mc_send_command, mc_status_to_error,
}
use gpp_aioptool.Dpaiop.Calls.{send, query}
use gpp_aioptool.Aiop.Ledger.{ledger_device}

-- A run that leaves the ledger `b` as it is.
abbrev pub Same : {S A B : Type 0} → B → A → S × B → Type 0
Same b r (s, c) = c ≡ b

module _ {S B : Type 0} (dev : Device S) (b : B) where
  read_params_same :
      (left i regs : ℕ) (resp : McCommand) (s : S)
      → (read_params (ledger_device dev) left i regs resp (s, b)).1.1 ≡ b
  unfolding read_params
  read_params_same zero i regs resp s = refl
  read_params_same (suc left) i regs resp s = read_params_same left _ regs _ _

  mc_read_response_same :
      (regs : ℕ) (resp : McCommand) (s : S)
      → (mc_read_response (ledger_device dev) regs resp (s, b)).1.1 ≡ b
  unfolding mc_read_response
  mc_read_response_same regs resp s =
      elim (Bool-cases (read_status (dev.ioread64 regs s).0 == status_ok)) [
        | inl ok ↦ rw ok (
            read_params_same mc_cmd_num_of_params 0 regs
              (record resp { header = (dev.ioread64 regs s).0 }) (dev.ioread64 regs s).1)
        | inr other ↦ rw other refl
      ]

  poll-Same :
      (budget regs : ℕ) (s : S) → IfDone (Same b) (poll (ledger_device dev) budget regs (s, b))
  unfolding poll
  poll-Same zero regs s = tt
  poll-Same (suc budget) regs s =
      elim (Bool-cases (read_status (dev.ioread64 regs s).0 == status_ready)) [
        | inl again ↦ rw again (poll-Same budget regs _)
        | inr other ↦ rw other refl
      ]

  -- Reading the response, after the polls.
  respond_lem :
      (regs : ℕ) (cmd : McCommand) (r : Run (S × B) ℕ)
      → IfDone (Same b) r
      → IfDone (Same b) (
          (elim r as (λ _. Run (S × B) (ℤ × McCommand)) [
            | done status s' ↦
                let (resp, s'') = mc_read_response (ledger_device dev) regs cmd s' in
                done (mc_status_to_error status, resp) s''
            | other ↦ spinning
          ]))
  respond_lem regs cmd (done status (s, c)) same =
      subst (λ c'. (mc_read_response (ledger_device dev) regs cmd (s, c')).1.1 ≡ b) (sym same)
        (mc_read_response_same regs cmd s)
  respond_lem regs cmd fault same = tt
  respond_lem regs cmd spinning same = tt

  mc_send_command-Same :
      (polls : ℕ) (io : Option FslMcIo) (cmd : McCommand) (s : S)
      → IfDone (Same b) (mc_send_command (ledger_device dev) polls io cmd (s, b))
  unfolding mc_send_command send_to mc_write_command write_params
  mc_send_command-Same polls none cmd s = refl
  mc_send_command-Same polls (some io) cmd s = elim (Bool-cases (io.regs == 0)) [
    | inl null ↦ rw null refl
    | inr there ↦
        rw there
          (respond_lem io.regs cmd _ (poll-Same polls io.regs (mc_write_command dev io.regs cmd s)))
  ]

  pub send-Same :
      (polls : ℕ) (io : Option FslMcIo) (cmd : McCommand) (s : S)
      → IfDone (Same b) (send (ledger_device dev) polls io cmd (s, b))
  unfolding send
  send-Same polls io cmd s =
      IfDone-bind (Same b) (Same b) _ _ (mc_send_command-Same polls io cmd s)
        (λ (err, rsp) (u, c) e. e)

  pub query-Same :
      {A : Type 0} (polls : ℕ) (io : Option FslMcIo) (cmd : McCommand) (read : McCommand → A)
      (old : A) (s : S)
      → IfDone (Same b) (query (ledger_device dev) polls io cmd read old (s, b))
  unfolding query
  query-Same polls io cmd read old s =
      IfDone-bind (Same b) (Same b) _ _ (mc_send_command-Same polls io cmd s)
        (λ (err, rsp) (u, c) e. e)

-- A step that leaves the ledger alone, before the rest.
pub Same-bind :
    {S B A C : Type 0} (b : B) (Q : C → S × B → Type 0) (r : Run (S × B) A) (k : A → Act (S × B) C)
    → IfDone (Same b) r
    → ((a : A) (s : S) → IfDone Q (k a (s, b)))
    → IfDone Q (and_then r k)
Same-bind b Q (done a (s, c)) k same next = subst (λ d. IfDone Q (k a (s, d))) (sym same) (next a s)
Same-bind b Q fault k same next = tt
Same-bind b Q spinning k same next = tt
