-- ===== src/Aiop/Load/Total.antt =====
-- `perform_dpaiop_load` returns, whatever the server answers.
use gpp_aioptool.Base.{
  ℕ, ◌<◌, ◌^◌, ◌≡◌, ◌≢◌, refl, arith, inl, inr, ◌==◌, Bool, Bool-cases, is_zero, is_zero-eq, ℤ,
  true, false, done, Returns,
}
use gpp_aioptool.Os.{Os}
use gpp_aioptool.Mc.Wire.{McCommand, read_token}
use gpp_aioptool.Dpaiop.Types.{IsInt}
use gpp_aioptool.Dpaiop.Calls.{dpaiop_open}
use gpp_aioptool.Dpaiop.Decode.{Request}
use gpp_aioptool.Dpaiop.Server.{Server, Serves, error_of, outcome, dpaiop_open-serves}
use gpp_aioptool.Aiop.Types.{AioptObj}
use gpp_aioptool.Aiop.Session.{sizeof_mc_io, cmd_pri_low, portal_of}
use gpp_aioptool.Aiop.Session.Total.{IsResult}
use gpp_aioptool.Aiop.Load.{perform_dpaiop_load}
use gpp_aioptool.Aiop.Load.Outcome.{perform_dpaiop_load-opened}

module _ {S : Type 0} (os : Os S) (polls : ℕ) (serve : Server S) (obj : AioptObj)
    (id : IsInt obj.aiop.id) (serves : Serves os.device polls obj.mcp_addr serve)
    (addr filesize args_addr args_filesize : ℕ) (reset : Bool) (tpc : ℕ) (addr_fits : addr < 2 ^ 64)
    (args_fits : args_addr < 2 ^ 64) (s : S) where
  abbrev opening : McCommand × S
  opening = serve (os.calloc sizeof_mc_io s).1 (Request.open_session obj.aiop.id)

  abbrev pub LoadEnds : ℤ × AioptObj → S → Type 0
  LoadEnds (r, obj') t = IsResult r

  not_null : ((os.calloc sizeof_mc_io s).0 == 0) ≡ false → (os.calloc sizeof_mc_io s).0 ≢ 0
  not_null there e = ground (arith, there, e)

  null_lem :
      ((os.calloc sizeof_mc_io s).0 == 0) ≡ true
      → Returns LoadEnds
          (perform_dpaiop_load os polls obj addr filesize args_addr args_filesize reset tpc s)
  unfolding perform_dpaiop_load
  null_lem null = rw null (inr refl)

  refused_lem :
      ((os.calloc sizeof_mc_io s).0 == 0) ≡ false
      → is_zero (error_of opening.0) ≡ false
      → Returns LoadEnds
          (perform_dpaiop_load os polls obj addr filesize args_addr args_filesize reset tpc s)
  unfolding perform_dpaiop_load
  refused_lem there refused = rw there (rw opening_lem (rw refused (inr refl)))
    where
      opening_lem :
          dpaiop_open os.device polls
            (portal_of obj)
            cmd_pri_low
            obj.aiop.id
            obj.aiop.token
            (os.calloc sizeof_mc_io s).1
          ≡ done (outcome (λ rsp. read_token rsp.header) obj.aiop.token opening.0) opening.1
      opening_lem =
          dpaiop_open-serves os.device polls obj.mcp_addr serve serves obj.aiop.id obj.aiop.token _
            id

  pub perform_dpaiop_load-LoadEnds :
      Returns LoadEnds
        (perform_dpaiop_load os polls obj addr filesize args_addr args_filesize reset tpc s)
  perform_dpaiop_load-LoadEnds = elim (Bool-cases ((os.calloc sizeof_mc_io s).0 == 0)) [
    | inl null ↦ null_lem null
    | inr there ↦ elim (Bool-cases (is_zero (error_of opening.0))) [
      | inr refused ↦ refused_lem there refused
      | inl opened ↦
          rw
            (perform_dpaiop_load-opened os polls serve obj s (os.calloc sizeof_mc_io s).1
              (os.calloc sizeof_mc_io s).0 addr filesize args_addr args_filesize reset tpc id serves
              refl (not_null there) addr_fits args_fits (is_zero-eq _ opened))
            (ground arith)
    ]
  ]
