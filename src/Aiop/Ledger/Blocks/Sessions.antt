-- ===== src/Aiop/Ledger/Blocks/Sessions.antt =====
-- The operations that open the AIOP device: the memory that is held afterwards is what was held.
use gpp_aioptool.Base.{
  ℕ, ◌≡◌, refl, ◌==◌, ==_refl, not, Bool, Bool-cases, inl, inr, true, is_zero, ℤ, IfDone, IfDone-if,
  pure, Act, Option, if◌then◌else◌, ◌>>=◌, ◌>>◌, and_then,
}
use gpp_aioptool.Os.{Os, perform}
use gpp_aioptool.Mc.Portal.{FslMcIo}
use gpp_aioptool.Mc.Wire.{McCommand}
use gpp_aioptool.Vfio.{Kernel}
use gpp_aioptool.Aiop.Setup.{Dirs, init_aiop}
use gpp_aioptool.Dpaiop.Types.{to_int, DpaiopLoadCfg, DpaiopRunCfg}
use gpp_aioptool.Dpaiop.Calls.{
  send, query, dpaiop_open, dpaiop_close, dpaiop_reset, dpaiop_load, dpaiop_run,
  dpaiop_get_sl_version, dpaiop_get_state, dpaiop_set_time_of_day, dpaiop_get_time_of_day,
}
use gpp_aioptool.Aiop.Types.{AioptObj, AioptStatus}
use gpp_aioptool.Aiop.Session.{sizeof_mc_io, aiopt_gettod, aiopt_settod, aiopt_status, aiopt_reset}
use gpp_aioptool.Aiop.Load.{load_and_run, perform_dpaiop_load}
use gpp_aioptool.Aiop.Ledger.{ledger_device}
use gpp_aioptool.Aiop.Ledger.Frame.{Same, Same-bind, send-Same, query-Same}
use gpp_aioptool.Aiop.Ledger.Blocks.{Blocks, block_taken, block_freed, blocks_os}

block_taken_null : (ptr : ℕ) (b : Blocks) → (ptr == 0) ≡ true → block_taken ptr b ≡ b
block_taken_null ptr b null = rw null refl

block_freed-block_taken : (ptr : ℕ) (b : Blocks) → block_freed ptr (block_taken ptr b) ≡ b
block_freed-block_taken ptr b = elim (Bool-cases (ptr == 0)) [
  | inl null ↦ rw null refl
  | inr there ↦ rw there (rw (==_refl ptr) refl)
]

module _ {S : Type 0} (os : Os S) (polls : ℕ) (obj : AioptObj) (s : S) (b : Blocks) where
  abbrev ptr : ℕ
  ptr = (os.calloc sizeof_mc_io s).0

  abbrev taken : Blocks
  taken = block_taken ptr b

  freed : block_freed ptr taken ≡ b
  freed = block_freed-block_taken ptr b

  -- The frame of an operation, around what it does with the open device.
  session_lem :
      {A : Type 0} (unopened : A) (refused : ℕ → A) (body : ℕ → Act (S × Blocks) A)
      (io : Option FslMcIo) (flags : ℕ) (id : ℤ) (old : ℕ)
      → ((token : ℕ) (u : S) → IfDone (Same b) (body token (u, taken)))
      → IfDone (Same b) (
          (if ptr == 0 then pure unopened else do
            (ret, token) ← dpaiop_open (ledger_device os.device) polls io flags id old
            if not (is_zero ret)
                then (do perform ((blocks_os os).free ptr); pure (refused token))
                else body token)
            ((os.calloc sizeof_mc_io s).1, taken))
  unfolding dpaiop_open
  session_lem unopened refused body io flags id old rest =
      IfDone-if (Same b) (ptr == 0) _ _ _ (λ null. block_taken_null ptr b null)
        (λ there.
          Same-bind taken (Same b) _ _ (query-Same os.device taken polls _ _ _ _ _)
            (λ (ret, token) u.
              IfDone-if (Same b) (not (is_zero ret)) _ _ _ (λ failed. freed)
                (λ opened. rest token u)))

  -- A request before the rest.
  sent_lem :
      {A : Type 0} (io : Option FslMcIo) (cmd : McCommand) (u : S) (k : ℤ → Act (S × Blocks) A)
      → ((r : ℤ) (v : S) → IfDone (Same b) (k r (v, taken)))
      → IfDone (Same b) (and_then (send (ledger_device os.device) polls io cmd (u, taken)) k)
  sent_lem io cmd u k rest =
      Same-bind taken (Same b) _ k (send-Same os.device taken polls io cmd u) rest

  asked_lem :
      {A C : Type 0} (io : Option FslMcIo) (cmd : McCommand) (read : McCommand → C) (old : C)
      (u : S) (k : ℤ × C → Act (S × Blocks) A)
      → ((r : ℤ × C) (v : S) → IfDone (Same b) (k r (v, taken)))
      → IfDone
          (Same b)
          (and_then (query (ledger_device os.device) polls io cmd read old (u, taken)) k)
  asked_lem io cmd read old u k rest =
      Same-bind taken (Same b) _ k (query-Same os.device taken polls io cmd read old u) rest

  pub aiopt_reset-Same : IfDone (Same b) (aiopt_reset (blocks_os os) polls obj (s, b))
  unfolding aiopt_reset dpaiop_reset dpaiop_close
  aiopt_reset-Same =
      session_lem _ _ _ _ _ _ _
        (λ token u. sent_lem _ _ _ _ (λ ret1 u1. sent_lem _ _ _ _ (λ result u2. freed)))

  pub aiopt_settod-Same :
      (tod : ℕ) → IfDone (Same b) (aiopt_settod (blocks_os os) polls obj tod (s, b))
  unfolding aiopt_settod dpaiop_set_time_of_day dpaiop_close
  aiopt_settod-Same tod =
      session_lem _ _ _ _ _ _ _
        (λ token u. sent_lem _ _ _ _ (λ ret1 u1. sent_lem _ _ _ _ (λ result u2. freed)))

  pub aiopt_gettod-Same :
      (tod : ℕ) → IfDone (Same b) (aiopt_gettod (blocks_os os) polls obj tod (s, b))
  unfolding aiopt_gettod dpaiop_get_time_of_day dpaiop_close
  aiopt_gettod-Same tod =
      session_lem _ _ _ _ _ _ _
        (λ token u. asked_lem _ _ _ _ _ _ (λ ret1 u1. sent_lem _ _ _ _ (λ result u2. freed)))

  pub init_aiop-Same :
      (kernel : Kernel (S × Blocks)) (dirs : Dirs (S × Blocks))
      → IfDone (Same b) (init_aiop (blocks_os os) kernel dirs polls obj (s, b))
  unfolding init_aiop dpaiop_get_sl_version dpaiop_close
  init_aiop-Same kernel dirs =
      session_lem _ _ _ _ _ _ _
        (λ token u. asked_lem _ _ _ _ _ _ (λ ret1 u1. sent_lem _ _ _ _ (λ result u2. freed)))

  state_lem :
      (io : Option FslMcIo) (token : ℕ) (ret1 : ℤ) (st : AioptStatus) (u : S)
      → IfDone {A = ℤ × AioptStatus} (Same taken) (
          (if not (is_zero ret1) then pure (ret1, st) else do
            (e, tile_state) ← dpaiop_get_state (ledger_device os.device) polls io 0 token 0
            pure (e, if is_zero e then record st { state = to_int tile_state } else st))
            (u, taken))
  unfolding dpaiop_get_state
  state_lem io token ret1 st u =
      IfDone-if (Same taken) (not (is_zero ret1)) _ _ _ (λ failed. refl)
        (λ fine.
          Same-bind taken (Same taken) _ _ (query-Same os.device taken polls io _ _ _ _)
            (λ r v. refl))

  pub aiopt_status-Same :
      (st : AioptStatus) → IfDone (Same b) (aiopt_status (blocks_os os) polls obj st (s, b))
  unfolding aiopt_status dpaiop_get_sl_version dpaiop_close
  aiopt_status-Same st = session_lem _ _ _ _ _ _ _ (λ token u.
      asked_lem _ _ _ _ _ _ (λ (ret1, slv) u1.
        Same-bind taken (Same b) _ _ (state_lem _ token ret1 _ u1)
          (λ r u2. sent_lem _ _ _ _ (λ result u3. freed))))

  load_and_run_lem :
      (io : Option FslMcIo) (token : ℕ) (load_cfg : DpaiopLoadCfg) (run_cfg : DpaiopRunCfg)
      (reset : Bool) (u : S)
      → IfDone
          (Same taken)
          (load_and_run (blocks_os os) polls io token load_cfg run_cfg reset (u, taken))
  unfolding load_and_run dpaiop_reset dpaiop_load dpaiop_run
  load_and_run_lem io token load_cfg run_cfg reset u =
      Same-bind taken (Same taken) _ _
        (IfDone-if (Same taken) reset _ _ _ (λ wanted. send-Same os.device taken polls io _ _)
          (λ unwanted. refl))
        (λ ignored u1.
          Same-bind taken (Same taken) _ _ (send-Same os.device taken polls io _ _) (λ ret u2.
            IfDone-if (Same taken) (is_zero ret) _ _ _
              (λ fine. send-Same os.device taken polls io _ _) (λ failed. refl)))

  pub perform_dpaiop_load-Same :
      (addr filesize args_addr args_filesize : ℕ) (reset : Bool) (tpc : ℕ)
      → IfDone (Same b) (
          perform_dpaiop_load
            (blocks_os os)
            polls
            obj
            addr
            filesize
            args_addr
            args_filesize
            reset
            tpc
            (s, b))
  unfolding perform_dpaiop_load dpaiop_close
  perform_dpaiop_load-Same addr filesize args_addr args_filesize reset tpc =
      session_lem _ _ _ _ _ _ _ (λ token u.
        Same-bind taken (Same b) _ _ (load_and_run_lem _ token _ _ reset u)
          (λ ret1 u1. sent_lem _ _ _ _ (λ result u2. freed)))
