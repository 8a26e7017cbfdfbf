-- ===== src/Tool/Report.antt =====
-- What the operations print and what `main` returns, in cases where this may surprise.
use gpp_aioptool.Base.{
  ℕ, ◌≡◌, ◌≢◌, refl, inl, inr, pos, true, false, Bool-cases, Option-cases, List, [], ◌∷◌, is_zero,
  Text, Act, done,
}
use gpp_aioptool.Os.{Os}
use gpp_aioptool.Vfio.{Kernel, VfioTables}
use gpp_aioptool.Mc.Wire.{McCommand, read_token}
use gpp_aioptool.Dpaiop.Types.{IsInt, to_int}
use gpp_aioptool.Dpaiop.Decode.{Request}
use gpp_aioptool.Dpaiop.Responses.{rsp_get_sl_version, rsp_get_state}
use gpp_aioptool.Dpaiop.Server.{Server, Serves, error_of}
use gpp_aioptool.Aiop.Types.{AioptObj, with_token, aiopt_success}
use gpp_aioptool.Aiop.State.{aiopt_get_state_str}
use gpp_aioptool.Aiop.Session.{sizeof_mc_io}
use gpp_aioptool.Aiop.Session.Outcome.{aiopt_status-opened, aiopt_gettod-opened}
use gpp_aioptool.Aiop.Setup.{Dirs}
use gpp_aioptool.Cmd.Types.{Libc}
use gpp_aioptool.Cmd.Handlers.{
  Hndlr, check_for_help_cmd, find_subcmd_hndlr, parse_command_line_args,
}
use gpp_aioptool.Cmd.Handlers.Outcome.{name_of, find_subcmd_hndlr_iff}
use gpp_aioptool.Tool.{Unset, Message, perform_aiop_get_status, perform_aiop_gettod, main}

module _ {S : Type 0} (os : Os S) (kernel : Kernel S) (dirs : Dirs S)
    (select_forever : Act S (Unit {0})) (polls : ℕ) (unset : Unset) where
  -- If the first argument is not the name of a sub-command, `main` returns 0, prints no result,
  -- and leaves the state as it was.
  pub main_unknown :
      (libc : Libc) (prog cmd : Text) (args : List Text) (t : VfioTables) (s : S)
      → ((h : Hndlr) → cmd ≢ name_of h)
      → main os kernel dirs select_forever polls unset libc (prog ∷ cmd ∷ args) t s
        ≡ done (pos 0, []) s
  unfolding main parse_command_line_args
  main_unknown libc prog cmd args t s unknown =
      elim (Bool-cases (is_zero (check_for_help_cmd (cmd ∷ args)))) [
        | inl asked ↦ rw asked refl
        | inr not_asked ↦ rw not_asked (elim (Option-cases (find_subcmd_hndlr cmd)) [
          | inl missing ↦ rw missing refl
          | inr (h, found) ↦ absurd (unknown h ((find_subcmd_hndlr_iff cmd h).0 found))
        ])
      ]

  module _ (serve : Server S) (obj : AioptObj) (id : IsInt obj.aiop.id)
      (serves : Serves os.device polls obj.mcp_addr serve) (t : VfioTables) (s s' : S) (mc_io : ℕ)
      (allocated : os.calloc sizeof_mc_io s ≡ (mc_io, s')) (not_null : mc_io ≢ 0) where
    -- The response to the request to open the device, the state after it, and the token.
    abbrev pub opening : McCommand × S
    opening = serve s' (Request.open_session obj.aiop.id)

    abbrev pub token : ℕ
    token = read_token opening.0.header

    abbrev version : McCommand × S
    version = serve opening.1 (Request.get_sl_version token)

    abbrev tile : McCommand × S
    tile = serve version.1 (Request.get_state token)

    abbrev got : McCommand × S
    got = serve opening.1 (Request.get_time_of_day token)

    -- Let the MC behind the portal be a server of requests, the id an `int`, the allocation not
    -- null, the device open, and the requests for the version and the state successful. The status
    -- is a success; it prints the minor version of the response in the place of the major one, and
    -- the major version in the place of the minor one, then the revision and the state.
    pub perform_aiop_get_status_swapped :
        error_of opening.0 ≡ pos 0
        → is_zero (error_of version.0) ≡ true
        → is_zero (error_of tile.0) ≡ true
        → perform_aiop_get_status os kernel dirs select_forever polls unset obj t s
          ≡ done
              (
                aiopt_success,
                with_token obj token,
                t,
                Message.tile_status
                      (to_int (rsp_get_sl_version version.0).minor)
                      (to_int (rsp_get_sl_version version.0).major)
                      (to_int (rsp_get_sl_version version.0).revision)
                      (aiopt_get_state_str (to_int (rsp_get_state tile.0)))
                    ∷ [],
              )
              (os.free mc_io (serve tile.1 (Request.close_session token)).1)
    unfolding perform_aiop_get_status
    perform_aiop_get_status_swapped opened known found =
        rw
          (aiopt_status-opened os polls serve obj id serves s s' mc_io allocated not_null opened
            unset.status)
          (rw (known, found) refl)

    -- Let the MC behind the portal be a server of requests, the id an `int`, the allocation not
    -- null, the device open, the request for the time refused, and the closing successful. The
    -- operation is a success, and the time it prints is what the variable held before.
    pub perform_aiop_gettod_stale :
        error_of opening.0 ≡ pos 0
        → is_zero (error_of got.0) ≡ false
        → is_zero (error_of (serve got.1 (Request.close_session token)).0) ≡ true
        → perform_aiop_gettod os kernel dirs select_forever polls unset obj t s
          ≡ done
              (aiopt_success, with_token obj token, t, Message.time_of_day unset.tod ∷ [])
              (os.free mc_io (serve got.1 (Request.close_session token)).1)
    unfolding perform_aiop_gettod
    perform_aiop_gettod_stale opened failed closed =
        rw
          (aiopt_gettod-opened os polls serve obj id serves s s' mc_io allocated not_null opened
            unset.tod)
          (rw (failed, closed) refl)
