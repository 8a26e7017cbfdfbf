-- ===== src/Aiop/Setup/Start.antt =====
-- `init_aiop`, when the MC behind the portal is a server.
use gpp_aioptool.Base.{
  ℕ, ◌<◌, ◌^◌, ◌≡◌, refl, pos, inl, inr, true, false, Bool-cases, is_zero, is_zero-eq, done, ◌==◌,
  Returns,
}
use gpp_aioptool.Os.{Os}
use gpp_aioptool.Vfio.{Kernel}
use gpp_aioptool.Mc.Wire.{McCommand, read_token}
use gpp_aioptool.Dpaiop.Types.{IsInt}
use gpp_aioptool.Dpaiop.Calls.{dpaiop_open}
use gpp_aioptool.Dpaiop.Decode.{Request}
use gpp_aioptool.Dpaiop.Server.{
  Server, Serves, error_of, outcome, dpaiop_open-serves, dpaiop_close-serves,
  dpaiop_get_sl_version-serves,
}
use gpp_aioptool.Aiop.Types.{AioptObj, with_token, aiopt_failure}
use gpp_aioptool.Aiop.Session.{sizeof_mc_io, cmd_pri_low, portal_of, zero_version}
use gpp_aioptool.Aiop.Session.Outcome.{read_token-lt}
use gpp_aioptool.Aiop.Setup.{Dirs, init_aiop}

module _ {S : Type 0} (os : Os S) (kernel : Kernel S) (dirs : Dirs S) (polls : ℕ) (serve : Server S)
    (obj : AioptObj) (id : IsInt obj.aiop.id) (serves : Serves os.device polls obj.mcp_addr serve)
    (s : S) where
  abbrev mc_io : ℕ
  mc_io = (os.calloc sizeof_mc_io s).0

  -- The response to the request to open the device, and the token.
  abbrev pub opening : McCommand × S
  opening = serve (os.calloc sizeof_mc_io s).1 (Request.open_session obj.aiop.id)

  abbrev pub token : ℕ
  token = read_token opening.0.header

  abbrev pub version : McCommand × S
  version = serve opening.1 (Request.get_sl_version token)

  abbrev pub closed : McCommand × S
  closed = serve version.1 (Request.close_session token)

  fits : token < 2 ^ 16
  fits = read_token-lt opening.0.header

  open_lem :
      dpaiop_open os.device polls
        (portal_of obj)
        cmd_pri_low
        obj.aiop.id
        obj.aiop.token
        (os.calloc sizeof_mc_io s).1
      ≡ done (outcome (λ rsp. read_token rsp.header) obj.aiop.token opening.0) opening.1
  open_lem =
      dpaiop_open-serves os.device polls obj.mcp_addr serve serves obj.aiop.id obj.aiop.token _ id

  init_aiop_null :
      (mc_io == 0) ≡ true
      → init_aiop os kernel dirs polls obj s
        ≡ done (aiopt_failure, obj) (os.calloc sizeof_mc_io s).1
  unfolding init_aiop
  init_aiop_null null = rw null refl

  -- Let the MC behind the portal be a server of requests, the id an `int`, the allocation not
  -- null, and the device open. `init_aiop` requests the version, closes the device and frees what
  -- it allocated. Its result is the error code of the request for the version, whatever comes of
  -- the closing.
  pub init_aiop-opened :
      (mc_io == 0) ≡ false
      → error_of opening.0 ≡ pos 0
      → init_aiop os kernel dirs polls obj s
        ≡ done (error_of version.0, with_token obj token) (os.free mc_io closed.1)
  unfolding init_aiop
  init_aiop-opened present opened = rw present (
      rw open_lem (
        rw opened (
          rw
            (dpaiop_get_sl_version-serves os.device polls obj.mcp_addr serve serves token fits
              opening.1 zero_version)
            (rw (dpaiop_close-serves os.device polls obj.mcp_addr serve serves token fits version.1)
              refl))))

  pub init_aiop-refused :
      (mc_io == 0) ≡ false
      → is_zero (error_of opening.0) ≡ false
      → init_aiop os kernel dirs polls obj s ≡ done (aiopt_failure, obj) (os.free mc_io opening.1)
  unfolding init_aiop
  init_aiop-refused present refused = rw present (rw open_lem (rw refused refl))

  -- The object gains a token at most.
  pub init_aiop_keeps :
      Returns
        (λ (r, obj') t. obj' ≡ with_token obj obj'.aiop.token)
        (init_aiop os kernel dirs polls obj s)
  init_aiop_keeps = elim (Bool-cases (mc_io == 0)) [
    | inl null ↦ rw (init_aiop_null null) refl
    | inr present ↦ elim (Bool-cases (is_zero (error_of opening.0))) [
      | inr refused ↦ rw (init_aiop-refused present refused) refl
      | inl opened ↦ rw (init_aiop-opened present (is_zero-eq _ opened)) refl
    ]
  ]
