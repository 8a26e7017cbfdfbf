-- ===== src/Mc/Portal/Exchange.antt =====
-- One exchange with a device that answers.
use mathlib.Core.List.{append_assoc}
use gpp_aioptool.Base.{
  ℕ, zero, suc, ◌+◌, ◌<◌, ◌≡◌, refl, ap, ◌∙◌, ◌≢◌, inl, inr, List, [], ◌∷◌, ◌++◌, some, arith, done,
  ◌==◌, ==_ne, if◌then◌else◌, Bool-cases, length, get_or, set, length-append,
}
use gpp_aioptool.Mc.Wire.{McCommand, read_status, status_ok, status_ready, mc_cmd_num_of_params}
use gpp_aioptool.Mc.Portal.{
  Device, param_addr, mc_write_command, read_params, mc_read_response, poll, send_to,
  mc_send_command, mc_status_to_error,
}

module _ {S : Type 0} (dev : Device S) (regs : ℕ) where
  -- From `s` the header reads READY `n` times, and then the device is in state `t`.
  pub data Pending (t : S) : ℕ → S → Type 0 where
    now : Pending t zero t
    later :
        {n : ℕ} {s : S}
        → read_status (dev.ioread64 regs s).0 ≡ status_ready
        → Pending t n (dev.ioread64 regs s).1
        → Pending t (suc n) s

  -- In state `t` the registers hold the response `r`, and reads do not disturb them.
  pub record Answers (t : S) (r : McCommand) : Type 0 where
    pub header : dev.ioread64 regs t ≡ (r.header, t)
    pub answered : read_status r.header ≢ status_ready
    pub params :
        (i : ℕ)
        → i < mc_cmd_num_of_params
        → dev.ioread64 (param_addr regs i) t ≡ (get_or r.params i 0, t)
    pub seven : length r.params ≡ mc_cmd_num_of_params

  poll-Answers :
      (budget : ℕ) {n : ℕ} {s t : S} {r : McCommand}
      → Pending t n s
      → n < budget
      → Answers t r
      → poll dev budget regs s ≡ done (read_status r.header) t
  unfolding poll
  poll-Answers zero p h a = absurd (omega arith)
  poll-Answers (suc budget) {r} now h a =
      rw (a.header, ==_ne (read_status r.header) status_ready a.answered)
  poll-Answers (suc budget) (later ready p) h a = rw ready (poll-Answers budget p (omega arith) a)

  set-append :
      (pre : List ℕ) (x : ℕ) (xs : List ℕ) (v : ℕ)
      → set (pre ++ x ∷ xs) (length pre) v ≡ pre ++ v ∷ xs
  set-append [] x xs v = refl
  set-append (p ∷ pre) x xs v = ap (λ t. p ∷ t) (set-append pre x xs v)

  get_or-append : (pre : List ℕ) (x : ℕ) (xs : List ℕ) → get_or (pre ++ x ∷ xs) (length pre) 0 ≡ x
  get_or-append [] x xs = refl
  get_or-append (p ∷ pre) x xs = get_or-append pre x xs

  -- `pre` has been read, `old` is still to be overwritten by `new`.
  read_params-append :
      (left h : ℕ) (pre old new : List ℕ) (t : S)
      → length old ≡ left
      → length new ≡ left
      → length pre + left ≡ mc_cmd_num_of_params
      → ((i : ℕ)
          → i < mc_cmd_num_of_params
          → dev.ioread64 (param_addr regs i) t ≡ (get_or (pre ++ new) i 0, t))
      → read_params dev left (length pre) regs (record { header = h; params = pre ++ old }) t
        ≡ (record { header = h; params = pre ++ new }, t)
  unfolding read_params
  read_params-append zero h pre [] [] t lo ln total reads = refl
  read_params-append zero h pre (x ∷ old) new t lo ln total reads = absurd (omega arith)
  read_params-append zero h pre [] (v ∷ new) t lo ln total reads = absurd (omega arith)
  read_params-append (suc left) h pre [] new t lo ln total reads = absurd (omega arith)
  read_params-append (suc left) h pre (x ∷ old) [] t lo ln total reads = absurd (omega arith)
  read_params-append (suc left) h pre (x ∷ old) (v ∷ new) t lo ln total reads =
      rw (word, set-append)
        (simp (append_assoc, length-append) at
          (read_params-append left h (pre ++ v ∷ []) old new t (omega arith) (omega arith)
            (omega (arith, length-append pre (v ∷ []))) (rw append_assoc reads)))
    where
      word : dev.ioread64 (param_addr regs (length pre)) t ≡ (v, t)
      word = reads (length pre) (omega arith) ∙ rw get_or-append

  mc_read_response-Answers :
      {t : S} {r : McCommand} (cmd : McCommand)
      → length cmd.params ≡ mc_cmd_num_of_params
      → Answers t r
      → mc_read_response dev regs cmd t
        ≡ ((if read_status r.header == status_ok then r else record cmd { header = r.header }), t)
  unfolding mc_read_response
  mc_read_response-Answers {r} cmd seven a = elim (Bool-cases (read_status r.header == status_ok)) [
    | inl fine ↦ rw a.header (
        rw fine
          (read_params-append 7 r.header [] cmd.params r.params _ seven a.seven refl a.params))
    | inr failed ↦ rw a.header (rw failed)
  ]

  -- At a portal that is not null, a command of seven words that the device answers, after fewer
  -- READY reads than the budget, returns the error code of the response's status; the command
  -- buffer then holds the whole response if the status is OK, and otherwise only its header is
  -- replaced.
  pub mc_send_command-Answers :
      (polls : ℕ) (cmd : McCommand) (s : S) {n : ℕ} {t : S} {r : McCommand}
      → regs ≢ 0
      → length cmd.params ≡ mc_cmd_num_of_params
      → Pending t n (mc_write_command dev regs cmd s)
      → n < polls
      → Answers t r
      → mc_send_command dev polls (some (record { regs = regs })) cmd s
        ≡ done
            (
              mc_status_to_error (read_status r.header),
              if read_status r.header == status_ok then r else record cmd { header = r.header },
            )
            t
  unfolding mc_send_command send_to
  mc_send_command-Answers polls cmd s valid seven p h a =
      rw (==_ne regs 0 valid)
        (rw (poll-Answers polls p h a, send_to) (rw (mc_read_response-Answers cmd seven a)))
