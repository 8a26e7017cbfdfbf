-- ===== src/Aiop/Load/Requests.antt =====
-- The requests of `aiopt_load`, beside a ledger.
use gpp_aioptool.Base.{
  ℕ, ◌^◌, ◌<◌, ℤ, ◌≡◌, ◌≢◌, refl, arith, subst, sym, inl, inr, Bool, true, false, Bool-cases,
  is_zero, is_zero-eq, done, ◌==◌, Returns,
}
use gpp_aioptool.Os.{Os}
use gpp_aioptool.Mc.Wire.{McCommand, read_token}
use gpp_aioptool.Dpaiop.Types.{DpaiopLoadCfg, DpaiopRunCfg, IsInt}
use gpp_aioptool.Dpaiop.Calls.{dpaiop_open}
use gpp_aioptool.Dpaiop.Decode.{Request}
use gpp_aioptool.Dpaiop.Server.{Server, Serves, error_of, outcome, dpaiop_open-serves}
use gpp_aioptool.Aiop.Types.{AioptObj}
use gpp_aioptool.Aiop.Session.{sizeof_mc_io, portal_of, cmd_pri_low}
use gpp_aioptool.Aiop.Ledger.{Ledger, ledger_os}
use gpp_aioptool.Aiop.Ledger.Server.{ledger_server, ledger-Serves}
use gpp_aioptool.Aiop.Load.{perform_dpaiop_load}
use gpp_aioptool.Aiop.Load.Outcome.{conversation, perform_dpaiop_load-opened}

conversation-ledger_server :
    {S : Type 0} (serve : Server S) (token : ℕ) (load_cfg : DpaiopLoadCfg) (run_cfg : DpaiopRunCfg)
    (reset : Bool) (s : S) (b : Ledger)
    → (conversation (ledger_server serve) token load_cfg run_cfg reset (s, b)).1.1 ≡ b
conversation-ledger_server serve token load_cfg run_cfg true s b =
    let loaded = serve (serve s (Request.reset_tile token)).1 (Request.load_image token load_cfg) in
    elim (Bool-cases (is_zero (error_of loaded.0))) [ inl e ↦ rw e refl | inr e ↦ rw e refl ]
conversation-ledger_server serve token load_cfg run_cfg false s b =
    let loaded = serve s (Request.load_image token load_cfg) in
    elim (Bool-cases (is_zero (error_of loaded.0))) [ inl e ↦ rw e refl | inr e ↦ rw e refl ]

module _ {S : Type 0} (os : Os S) (polls : ℕ) (serve : Server S) (obj : AioptObj)
    (id : IsInt obj.aiop.id) (serves : Serves os.device polls obj.mcp_addr serve)
    (addr filesize args_addr args_filesize : ℕ) (reset : Bool) (tpc : ℕ) (addr_fits : addr < 2 ^ 64)
    (args_fits : args_addr < 2 ^ 64) (s : S) (b : Ledger) where
  -- The ledger and the handle after the requests.
  abbrev pub Unchanged : ℤ × AioptObj → S × Ledger → Type 0
  Unchanged (ret, obj') (s', b') = (b' ≡ b) × (obj'.vfio_handle ≡ obj.vfio_handle)

  abbrev opening : McCommand × (S × Ledger)
  opening = ledger_server serve ((os.calloc sizeof_mc_io s).1, b) (Request.open_session obj.aiop.id)

  pub perform_dpaiop_load-Unchanged : Returns Unchanged (
      perform_dpaiop_load
        (ledger_os os)
        polls
        obj
        addr
        filesize
        args_addr
        args_filesize
        reset
        tpc
        (s, b))
  unfolding perform_dpaiop_load
  perform_dpaiop_load-Unchanged = elim (Bool-cases ((os.calloc sizeof_mc_io s).0 == 0)) [
    | inl null ↦ rw null (refl, refl)
    | inr there ↦ elim (Bool-cases (is_zero (error_of opening.0))) [
      | inr refused ↦ rw there (rw opening_lem (rw refused (refl, refl)))
      | inl opened ↦
          subst (Returns Unchanged)
            (sym (
              perform_dpaiop_load-opened (ledger_os os) polls (ledger_server serve) obj (s, b)
                ((os.calloc sizeof_mc_io s).1, b) (os.calloc sizeof_mc_io s).0 addr filesize
                args_addr args_filesize reset tpc id ledger_serves refl (not_null there) addr_fits
                args_fits (is_zero-eq _ opened)))
            (conversation-ledger_server serve _ _ _ reset _ b, refl)
    ]
  ]
    where
      ledger_serves : Serves (ledger_os os).device polls obj.mcp_addr (ledger_server serve)
      ledger_serves = ledger-Serves os.device polls obj.mcp_addr serve serves

      not_null : ((os.calloc sizeof_mc_io s).0 == 0) ≡ false → (os.calloc sizeof_mc_io s).0 ≢ 0
      not_null there e = ground (arith, there, e)

      opening_lem :
          dpaiop_open
            (ledger_os os).device
            polls
            (portal_of obj)
            cmd_pri_low
            obj.aiop.id
            obj.aiop.token
            ((os.calloc sizeof_mc_io s).1, b)
          ≡ done (outcome (λ rsp. read_token rsp.header) obj.aiop.token opening.0) opening.1
      opening_lem =
          dpaiop_open-serves (ledger_os os).device polls obj.mcp_addr (ledger_server serve)
            ledger_serves obj.aiop.id obj.aiop.token _ id
