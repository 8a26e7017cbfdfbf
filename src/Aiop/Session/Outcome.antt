-- ===== src/Aiop/Session/Outcome.antt =====
-- What the operations of `Aiop.Session` return when the MC behind the portal is a server.
use gpp_aioptool.Base.{
  ℕ, ◌^◌, ◌<◌, ◌≡◌, ◌≢◌, arith, pos, inl, inr, false, ◌&&◌, Bool-cases, is_zero, done, ◌==◌, ==_ne,
  if◌then◌else◌,
}
use gpp_aioptool.Os.{Os}
use gpp_aioptool.Mc.Wire.{McCommand, read_token}
use gpp_aioptool.Dpaiop.Types.{IsInt, to_int}
use gpp_aioptool.Dpaiop.Calls.{dpaiop_open, dpaiop_close}
use gpp_aioptool.Dpaiop.Decode.{Request}
use gpp_aioptool.Dpaiop.Responses.{rsp_get_sl_version, rsp_get_state, rsp_get_time_of_day}
use gpp_aioptool.Dpaiop.Server.{
  Server, Serves, error_of, outcome, dpaiop_open-serves, dpaiop_close-serves, dpaiop_reset-serves,
  dpaiop_get_sl_version-serves, dpaiop_get_state-serves, dpaiop_set_time_of_day-serves,
  dpaiop_get_time_of_day-serves,
}
use gpp_aioptool.Aiop.Types.{AioptObj, AioptStatus, with_token, aiopt_success, aiopt_failure}
use gpp_aioptool.Aiop.Session.{
  sizeof_mc_io, cmd_pri_low, portal_of, to_result, aiopt_gettod, aiopt_settod, aiopt_status,
  aiopt_reset, zero_version,
}

pub read_token-lt : (hdr : ℕ) → read_token hdr < 2 ^ 16
unfolding read_token
read_token-lt hdr = omega arith

module _ {S : Type 0} (os : Os S) (polls : ℕ) (serve : Server S) (obj : AioptObj)
    (id : IsInt obj.aiop.id) (serves : Serves os.device polls obj.mcp_addr serve) (s s' : S)
    (mc_io : ℕ) (allocated : os.calloc sizeof_mc_io s ≡ (mc_io, s')) (not_null : mc_io ≢ 0) where
  -- The response to the request to open the device, the state after it, and the token.
  abbrev opening : McCommand × S
  opening = serve s' (Request.open_session obj.aiop.id)

  abbrev token : ℕ
  token = read_token opening.0.header

  fits : token < 2 ^ 16
  fits = read_token-lt opening.0.header

  -- Opening the device, in the state after the allocation.
  open_lem :
      dpaiop_open os.device polls (portal_of obj) cmd_pri_low obj.aiop.id obj.aiop.token s'
      ≡ done (outcome (λ rsp. read_token rsp.header) obj.aiop.token opening.0) opening.1
  open_lem =
      dpaiop_open-serves os.device polls obj.mcp_addr serve serves obj.aiop.id obj.aiop.token s' id

  close_lem :
      (t : S)
      → dpaiop_close os.device polls (portal_of obj) 0 token t
        ≡ done
            (error_of (serve t (Request.close_session token)).0)
            (serve t (Request.close_session token)).1
  close_lem = dpaiop_close-serves os.device polls obj.mcp_addr serve serves token fits

  present : (mc_io == 0) ≡ false
  present = ==_ne mc_io 0 not_null

  -- Let the MC behind the portal be a server of requests, the id an `int`, the allocation not
  -- null. If the MC refuses to open the device, each of the four operations fails, makes no
  -- further request, leaves the object and what the caller passed as it was, and frees what it
  -- allocated.
  pub session-refused :
      (tod : ℕ) (st : AioptStatus)
      → is_zero (error_of opening.0) ≡ false
      → (aiopt_gettod os polls obj tod s ≡ done (aiopt_failure, obj, tod) (os.free mc_io opening.1))
        × (aiopt_settod os polls obj tod s ≡ done (aiopt_failure, obj) (os.free mc_io opening.1))
        × (aiopt_status os polls obj st s ≡ done (aiopt_failure, obj, st) (os.free mc_io opening.1))
        × (aiopt_reset os polls obj s ≡ done (aiopt_failure, obj) (os.free mc_io opening.1))
  unfolding aiopt_gettod aiopt_settod aiopt_status aiopt_reset
  session-refused tod st refused = (
    rw allocated (rw present (rw open_lem (rw refused))),
    rw allocated (rw present (rw open_lem (rw refused))),
    rw allocated (rw present (rw open_lem (rw refused))),
    rw allocated (rw present (rw open_lem (rw refused))),
  )

  module _ (opened : error_of opening.0 ≡ pos 0) where
    -- Let the MC behind the portal be a server of requests, the id an `int`, the allocation not
    -- null, the device open and the time below 2 ^ 64. `aiopt_settod` requests the new time and
    -- closes the device. It fails only if both requests do: an error of the first is replaced by
    -- the result of the second, and an error of the second alone is not reported.
    pub aiopt_settod-opened :
        (tod : ℕ)
        → tod < 2 ^ 64
        → let set = serve opening.1 (Request.set_time_of_day token tod) in
          let closed = serve set.1 (Request.close_session token) in
          aiopt_settod os polls obj tod s
          ≡ done
              (
                (if is_zero (error_of set.0) then aiopt_success else to_result (error_of closed.0)),
                with_token obj token,
              )
              (os.free mc_io closed.1)
    unfolding aiopt_settod
    aiopt_settod-opened tod range =
        let set = serve opening.1 (Request.set_time_of_day token tod) in
        rw allocated (
          rw present (
            rw open_lem (
              rw opened (
                rw
                  (dpaiop_set_time_of_day-serves os.device polls obj.mcp_addr serve serves token
                    fits opening.1 tod range)
                  (rw (close_lem set.1) (elim (Bool-cases (is_zero (error_of set.0))) [
                    | inl fine ↦ rw (fine, fine)
                    | inr failed ↦ rw failed
                  ]))))))

    -- Let the MC behind the portal be a server of requests, the id an `int`, the allocation not
    -- null, and the device open. `aiopt_gettod` requests the time and closes the device. The time
    -- is stored if the first request succeeds; the operation fails only if both requests do.
    pub aiopt_gettod-opened :
        (old : ℕ)
        → let got = serve opening.1 (Request.get_time_of_day token) in
          let closed = serve got.1 (Request.close_session token) in
          aiopt_gettod os polls obj old s
          ≡ done
              (
                (if is_zero (error_of got.0) then aiopt_success else to_result (error_of closed.0)),
                with_token obj token,
                (if is_zero (error_of got.0) then rsp_get_time_of_day got.0 else old),
              )
              (os.free mc_io closed.1)
    unfolding aiopt_gettod
    aiopt_gettod-opened old =
        let got = serve opening.1 (Request.get_time_of_day token) in
        rw allocated (
          rw present (
            rw open_lem (
              rw opened (
                rw
                  (dpaiop_get_time_of_day-serves os.device polls obj.mcp_addr serve serves token
                    fits opening.1 old)
                  (rw (close_lem got.1) (elim (Bool-cases (is_zero (error_of got.0))) [
                    | inl fine ↦ rw (fine, fine)
                    | inr failed ↦ rw failed
                  ]))))))

    -- Let the MC behind the portal be a server of requests, the id an `int`, the allocation not
    -- null, and the device open. `aiopt_reset` requests the reset and closes the device. It
    -- reports the result of the reset; a failure to close is not reported.
    pub aiopt_reset-opened :
        let reset = serve opening.1 (Request.reset_tile token) in
        let closed = serve reset.1 (Request.close_session token) in
        aiopt_reset os polls obj s
        ≡ done (to_result (error_of reset.0), with_token obj token) (os.free mc_io closed.1)
    unfolding aiopt_reset
    aiopt_reset-opened = rw allocated (
        rw present (
          rw open_lem (
            rw opened (
              rw
                (dpaiop_reset-serves os.device polls obj.mcp_addr serve serves token fits opening.1)
                (rw (close_lem (serve opening.1 (Request.reset_tile token)).1))))))

    -- What `aiopt_status` stores of a version and of a tile state.
    abbrev pub stored_version : AioptStatus → McCommand → AioptStatus
    stored_version st rsp = record st {
      sl_major_v = to_int (rsp_get_sl_version rsp).major;
      sl_minor_v = to_int (rsp_get_sl_version rsp).minor;
      sl_revision = to_int (rsp_get_sl_version rsp).revision;
    }

    -- Let the MC behind the portal be a server of requests, the id an `int`, the allocation not
    -- null, and the device open. `aiopt_status` requests the version, if that succeeds the state
    -- of the tile, and closes the device on either path. It stores what it got. It reports success
    -- if both requests succeed, and otherwise the result of the closing.
    pub aiopt_status-opened :
        (st : AioptStatus)
        → let version = serve opening.1 (Request.get_sl_version token) in
          let tile = serve version.1 (Request.get_state token) in
          let read = is_zero (error_of version.0) in
          let complete = read && is_zero (error_of tile.0) in
          let closed = serve (if read then tile.1 else version.1) (Request.close_session token) in
          let st' = if read then stored_version st version.0 else st in
          aiopt_status os polls obj st s
          ≡ done
              (
                (if complete then aiopt_success else to_result (error_of closed.0)),
                with_token obj token,
                (if complete then record st' { state = to_int (rsp_get_state tile.0) } else st'),
              )
              (os.free mc_io closed.1)
    unfolding aiopt_status
    aiopt_status-opened st =
        let version = serve opening.1 (Request.get_sl_version token) in
        let tile = serve version.1 (Request.get_state token) in
        rw allocated (
          rw present (
            rw open_lem (
              rw opened (
                rw
                  (dpaiop_get_sl_version-serves os.device polls obj.mcp_addr serve serves token fits
                    opening.1 zero_version)
                  (elim (Bool-cases (is_zero (error_of version.0))) [
                    | inr failed ↦ rw failed (rw (close_lem version.1) (rw failed))
                    | inl fine ↦ rw fine (
                        rw
                          (dpaiop_get_state-serves os.device polls obj.mcp_addr serve serves token
                            fits version.1 0)
                          (rw (close_lem tile.1) (elim (Bool-cases (is_zero (error_of tile.0))) [
                            | inl got ↦ rw got (rw got)
                            | inr lost ↦ rw lost
                          ])))
                  ])))))
