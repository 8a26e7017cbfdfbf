-- ===== src/Aiop/Session.antt =====
-- src/aiop_lib.c: the operations that open the AIOP device, make one or two requests and close it.
-- The object is valid, as the callers see to. A result is `(ret, obj, …)` with what the operation
-- stores through its pointers.
pub mod Outcome
pub mod Total
use gpp_aioptool.Base.{
  ℕ, ◌==◌, if◌then◌else◌, not, Option, some, ℤ, is_zero, Act, pure, ◌>>=◌, ◌>>◌,
}
use gpp_aioptool.Os.{Os, call, perform}
use gpp_aioptool.Mc.Portal.{FslMcIo}
use gpp_aioptool.Dpaiop.Types.{DpaiopSlVersion, to_int}
use gpp_aioptool.Dpaiop.Calls.{
  dpaiop_open, dpaiop_close, dpaiop_reset, dpaiop_get_sl_version, dpaiop_get_state,
  dpaiop_set_time_of_day, dpaiop_get_time_of_day,
}
use gpp_aioptool.Aiop.Types.{
  AioptObj, AioptStatus, with_token, aiopt_get_aiop_id, aiopt_success, aiopt_failure,
}

-- `sizeof(struct fsl_mc_io)`, one pointer.
abbrev pub sizeof_mc_io : ℕ
sizeof_mc_io = 8

-- `if (ret != 0) return AIOPT_FAILURE; return AIOPT_SUCCESS;`
abbrev pub to_result : ℤ → ℤ
to_result ret = if is_zero ret then aiopt_success else aiopt_failure

-- `dpaiop->regs = obj->mcp_addr`, in the `struct fsl_mc_io` that was allocated.
abbrev pub portal_of : AioptObj → Option FslMcIo
portal_of obj = some (record { regs = obj.mcp_addr })

-- `CMD_PRI_LOW`, and the 0 that the other calls pass.
abbrev pub cmd_pri_low : ℕ
cmd_pri_low = 0

abbrev pub zero_version : DpaiopSlVersion
zero_version = record { major = 0; minor = 0; revision = 0 }

module _ {S : Type 0} (os : Os S) (polls : ℕ) where
  unfoldable pub aiopt_gettod : AioptObj → (tod : ℕ) → Act S (ℤ × AioptObj × ℕ)
  aiopt_gettod obj tod = do
    dpaiop ← call (os.calloc sizeof_mc_io)
    if dpaiop == 0 then pure (aiopt_failure, obj, tod) else do
      let io = portal_of obj
      (ret, token) ←
          dpaiop_open os.device polls io cmd_pri_low (aiopt_get_aiop_id obj) obj.aiop.token
      let obj' = with_token obj token
      if not (is_zero ret)
          then (do perform (os.free dpaiop); pure (aiopt_failure, obj', tod))
          else do
            (ret1, tod') ← dpaiop_get_time_of_day os.device polls io 0 token tod
            result ← dpaiop_close os.device polls io 0 token
            let ret2 = if is_zero ret1 then ret1 else result
            perform (os.free dpaiop)
            pure (to_result ret2, obj', tod')

  unfoldable pub aiopt_settod : AioptObj → (tod : ℕ) → Act S (ℤ × AioptObj)
  aiopt_settod obj tod = do
    dpaiop ← call (os.calloc sizeof_mc_io)
    if dpaiop == 0 then pure (aiopt_failure, obj) else do
      let io = portal_of obj
      (ret, token) ←
          dpaiop_open os.device polls io cmd_pri_low (aiopt_get_aiop_id obj) obj.aiop.token
      let obj' = with_token obj token
      if not (is_zero ret) then (do perform (os.free dpaiop); pure (aiopt_failure, obj')) else do
        ret1 ← dpaiop_set_time_of_day os.device polls io 0 token tod
        result ← dpaiop_close os.device polls io 0 token
        let ret2 = if is_zero ret1 then ret1 else result
        perform (os.free dpaiop)
        pure (to_result ret2, obj')

  unfoldable pub aiopt_status : AioptObj → AioptStatus → Act S (ℤ × AioptObj × AioptStatus)
  aiopt_status obj st = do
    dpaiop ← call (os.calloc sizeof_mc_io)
    if dpaiop == 0 then pure (aiopt_failure, obj, st) else do
      let io = portal_of obj
      (ret, token) ←
          dpaiop_open os.device polls io cmd_pri_low (aiopt_get_aiop_id obj) obj.aiop.token
      let obj' = with_token obj token
      if not (is_zero ret)
          then (do perform (os.free dpaiop); pure (aiopt_failure, obj', st))
          else do
            (ret1, slv) ← dpaiop_get_sl_version os.device polls io 0 token zero_version
            let st1 =
                if is_zero ret1
                then record st {
                  sl_major_v = to_int slv.major;
                  sl_minor_v = to_int slv.minor;
                  sl_revision = to_int slv.revision;
                }
                else st
            (ret2, st2) ←
                (if not (is_zero ret1) then pure (ret1, st1) else do
                  (e, tile_state) ← dpaiop_get_state os.device polls io 0 token 0
                  pure (e, if is_zero e then record st1 { state = to_int tile_state } else st1))
            result ← dpaiop_close os.device polls io 0 token
            let ret3 = if is_zero ret2 then ret2 else result
            perform (os.free dpaiop)
            pure (to_result ret3, obj', st2)

  unfoldable pub aiopt_reset : AioptObj → Act S (ℤ × AioptObj)
  aiopt_reset obj = do
    dpaiop ← call (os.calloc sizeof_mc_io)
    if dpaiop == 0 then pure (aiopt_failure, obj) else do
      let io = portal_of obj
      (ret, token) ←
          dpaiop_open os.device polls io cmd_pri_low (aiopt_get_aiop_id obj) obj.aiop.token
      let obj' = with_token obj token
      if not (is_zero ret) then (do perform (os.free dpaiop); pure (aiopt_failure, obj')) else do
        ret1 ← dpaiop_reset os.device polls io 0 token
        result ← dpaiop_close os.device polls io 0 token
        perform (os.free dpaiop)
        pure (to_result ret1, obj')
