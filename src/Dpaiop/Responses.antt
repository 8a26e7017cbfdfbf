-- ===== src/Dpaiop/Responses.antt =====
-- flib/mc/fsl_dpaiop_cmd.h: what is read out of a response, with the cast to its type.
use gpp_aioptool.Base.{ℕ, ◌%◌, ◌^◌}
use gpp_aioptool.Mc.Wire.{McCommand, mc_rsp_op}
use gpp_aioptool.Dpaiop.Types.{DpaiopAttr, DpaiopSlVersion, ApiVersion, to_int}

-- `CMD_CREATE_RSP_GET_OBJ_ID_PARAM0`, of flib/mc/fsl_mc_cmd.h.
unfoldable pub rsp_obj_id : McCommand → ℕ
unfolding mc_rsp_op
rsp_obj_id cmd = mc_rsp_op cmd 0 0 32 % 2 ^ 32

unfoldable pub rsp_get_irq_enable : McCommand → ℕ
unfolding mc_rsp_op
rsp_get_irq_enable cmd = mc_rsp_op cmd 0 0 8 % 2 ^ 8

unfoldable pub rsp_get_irq_mask : McCommand → ℕ
unfolding mc_rsp_op
rsp_get_irq_mask cmd = mc_rsp_op cmd 0 0 32 % 2 ^ 32

unfoldable pub rsp_get_irq_status : McCommand → ℕ
unfolding mc_rsp_op
rsp_get_irq_status cmd = mc_rsp_op cmd 0 0 32 % 2 ^ 32

unfoldable pub rsp_get_attributes : McCommand → DpaiopAttr
unfolding mc_rsp_op
rsp_get_attributes cmd = record { id = to_int (mc_rsp_op cmd 0 0 32) }

unfoldable pub rsp_get_sl_version : McCommand → DpaiopSlVersion
unfolding mc_rsp_op
rsp_get_sl_version cmd = record {
  major = mc_rsp_op cmd 0 0 32 % 2 ^ 32;
  minor = mc_rsp_op cmd 0 32 32 % 2 ^ 32;
  revision = mc_rsp_op cmd 1 0 32 % 2 ^ 32;
}

unfoldable pub rsp_get_state : McCommand → ℕ
unfolding mc_rsp_op
rsp_get_state cmd = mc_rsp_op cmd 0 0 32 % 2 ^ 32

unfoldable pub rsp_get_time_of_day : McCommand → ℕ
unfolding mc_rsp_op
rsp_get_time_of_day cmd = mc_rsp_op cmd 0 0 64 % 2 ^ 64

unfoldable pub rsp_get_api_version : McCommand → ApiVersion
unfolding mc_rsp_op
rsp_get_api_version cmd = record {
  major_ver = mc_rsp_op cmd 0 0 16 % 2 ^ 16;
  minor_ver = mc_rsp_op cmd 0 16 16 % 2 ^ 16;
}
