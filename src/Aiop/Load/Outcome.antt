-- ===== src/Aiop/Load/Outcome.antt =====
-- What loading does when the MC behind the portal is a server.
use gpp_aioptool.Base.{
  ℕ, ◌^◌, ◌<◌, ◌≡◌, ◌≢◌, refl, arith, inl, inr, Bool, true, false, Bool-cases, pos, is_zero, some,
  done, ==_ne, if◌then◌else◌,
}
use gpp_aioptool.Os.{Os}
use gpp_aioptool.Mc.Wire.{McCommand, read_token}
use gpp_aioptool.Dpaiop.Types.{DpaiopLoadCfg, DpaiopRunCfg, IsInt}
use gpp_aioptool.Dpaiop.Decode.{Request, IsValid}
use gpp_aioptool.Dpaiop.Server.{
  Server, Serves, error_of, dpaiop_open-serves, dpaiop_close-serves, dpaiop_reset-serves,
  dpaiop_load-serves, dpaiop_run-serves,
}
use gpp_aioptool.Aiop.Types.{AioptObj, with_token}
use gpp_aioptool.Aiop.Session.{sizeof_mc_io, to_result}
use gpp_aioptool.Aiop.Session.Outcome.{read_token-lt}
use gpp_aioptool.Aiop.Load.{load_cfg_of, run_cfg_of, load_and_run, perform_dpaiop_load}

-- The conversation with an open device: the reset if it is wanted, the load, and the run if the
-- load succeeds. The response that decides, and the state after it.
abbrev pub conversation :
    {S : Type 0}
    → Server S
    → (token : ℕ) → DpaiopLoadCfg
    → DpaiopRunCfg
    → (reset : Bool) → S
    → McCommand × S
conversation serve token load_cfg run_cfg reset s =
    let s1 = if reset then (serve s (Request.reset_tile token)).1 else s in
    let loaded = serve s1 (Request.load_image token load_cfg) in
    if is_zero (error_of loaded.0) then serve loaded.1 (Request.run_tile token run_cfg) else loaded

module _ {S : Type 0} (os : Os S) (polls regs : ℕ) (serve : Server S)
    (serves : Serves os.device polls regs serve) (token : ℕ) (fits : token < 2 ^ 16)
    (load_cfg : DpaiopLoadCfg) (run_cfg : DpaiopRunCfg)
    (load_fits : IsValid (Request.load_image token load_cfg))
    (run_fits : IsValid (Request.run_tile token run_cfg)) where
  load_then_run :
      (s : S)
      → load_and_run os polls (some (record { regs = regs })) token load_cfg run_cfg false s
        ≡ done
            (error_of (conversation serve token load_cfg run_cfg false s).0)
            (conversation serve token load_cfg run_cfg false s).1
  unfolding load_and_run
  load_then_run s =
      let loaded = serve s (Request.load_image token load_cfg) in
      rw (dpaiop_load-serves os.device polls regs serve serves token fits s load_cfg load_fits)
        (elim (Bool-cases (is_zero (error_of loaded.0))) [
          | inl fine ↦ rw fine (
              dpaiop_run-serves os.device polls regs serve serves token fits loaded.1 run_cfg
                run_fits)
          | inr failed ↦ rw failed
        ])

  load_and_run-serves :
      (reset : Bool) (s : S)
      → load_and_run os polls (some (record { regs = regs })) token load_cfg run_cfg reset s
        ≡ done
            (error_of (conversation serve token load_cfg run_cfg reset s).0)
            (conversation serve token load_cfg run_cfg reset s).1
  unfolding load_and_run
  load_and_run-serves false s = load_then_run s
  load_and_run-serves true s =
      rw (dpaiop_reset-serves os.device polls regs serve serves token fits s)
        (load_then_run (serve s (Request.reset_tile token)).1)

-- Let the MC behind the portal be a server of requests, the id an `int`, the allocation not null,
-- the addresses below 2 ^ 64, and the device open. The tile is reset first if that is wanted,
-- whatever comes of it; the image is loaded, and run if the load succeeds; the device is closed on
-- every path. The result is a success just if the last request before the closing succeeds.
pub perform_dpaiop_load-opened :
    {S : Type 0} (os : Os S) (polls : ℕ) (serve : Server S) (obj : AioptObj) (s s' : S) (mc_io : ℕ)
    (addr filesize args_addr args_filesize : ℕ) (reset : Bool) (tpc : ℕ)
    → IsInt obj.aiop.id
    → Serves os.device polls obj.mcp_addr serve
    → os.calloc sizeof_mc_io s ≡ (mc_io, s')
    → mc_io ≢ 0
    → addr < 2 ^ 64
    → args_addr < 2 ^ 64
    → error_of (serve s' (Request.open_session obj.aiop.id)).0 ≡ pos 0
    → let opening = serve s' (Request.open_session obj.aiop.id) in
      let token = read_token opening.0.header in
      let last =
        conversation serve token
          (load_cfg_of addr filesize tpc)
          (run_cfg_of args_addr args_filesize)
          reset
          opening.1 in
      perform_dpaiop_load os polls obj addr filesize args_addr args_filesize reset tpc s
      ≡ done
          (to_result (error_of last.0), with_token obj token)
          (os.free mc_io (serve last.1 (Request.close_session token)).1)
unfolding perform_dpaiop_load
perform_dpaiop_load-opened os polls serve obj s s' mc_io addr filesize args_addr args_filesize reset
      tpc id serves allocated not_null a_fits args_fits opened =
    let opening = serve s' (Request.open_session obj.aiop.id) in
    let token = read_token opening.0.header in
    let fits = read_token-lt opening.0.header in
    let load_cfg = load_cfg_of addr filesize tpc in
    let run_cfg = run_cfg_of args_addr args_filesize in
    let load_fits : IsValid (Request.load_image token load_cfg) =
      (fits, omega arith, a_fits, omega arith, omega arith) in
    let run_fits : IsValid (Request.run_tile token run_cfg) =
      (fits, omega arith, omega arith, args_fits, omega arith) in
    let last = conversation serve token load_cfg run_cfg reset opening.1 in
    rw allocated (
      rw (==_ne mc_io 0 not_null) (
        rw
          (dpaiop_open-serves os.device polls obj.mcp_addr serve serves obj.aiop.id obj.aiop.token
            s' id)
          (rw opened (
            rw
              (load_and_run-serves os polls obj.mcp_addr serve serves token fits load_cfg run_cfg
                load_fits run_fits reset opening.1)
              (rw (dpaiop_close-serves os.device polls obj.mcp_addr serve serves token fits last.1)
                refl)))))
