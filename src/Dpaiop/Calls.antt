-- ===== src/Dpaiop/Calls.antt =====
-- flib/mc/dpaiop.c: each function sends its command and, if the exchange succeeds, stores what
-- the response holds. Results stored through a pointer are passed in and returned: `(err, out)`.
use gpp_aioptool.Base.{ℕ, Option, ℤ, is_zero, Act, pure, ◌>>=◌, if◌then◌else◌}
use gpp_aioptool.Mc.Wire.{McCommand, read_token}
use gpp_aioptool.Mc.Portal.{Device, FslMcIo, mc_send_command}
use gpp_aioptool.Dpaiop.Types.{
  DpaiopCfg, DpaiopAttr, DpaiopLoadCfg, DpaiopRunCfg, DpaiopSlVersion, ApiVersion,
}
use gpp_aioptool.Dpaiop.Commands.{
  open_command, close_command, create_command, destroy_command, reset_command,
  set_irq_enable_command, get_irq_enable_command, set_irq_mask_command, get_irq_mask_command,
  get_irq_status_command, clear_irq_status_command, get_attributes_command, load_command,
  run_command, get_sl_version_command, get_state_command, set_time_of_day_command,
  get_time_of_day_command, get_api_version_command,
}
use gpp_aioptool.Dpaiop.Responses.{
  rsp_obj_id, rsp_get_irq_enable, rsp_get_irq_mask, rsp_get_irq_status, rsp_get_attributes,
  rsp_get_sl_version, rsp_get_state, rsp_get_time_of_day, rsp_get_api_version,
}

module _ {S : Type 0} (dev : Device S) (polls : ℕ) (mc_io : Option FslMcIo) where
  -- A command without a response, and one whose response is read into `old`.
  unfoldable pub send : McCommand → Act S ℤ
  send cmd = do (err, rsp) ← mc_send_command dev polls mc_io cmd; pure err

  unfoldable pub query : {A : Type 0} → McCommand → (McCommand → A) → (old : A) → Act S (ℤ × A)
  query cmd read old = do
    (err, rsp) ← mc_send_command dev polls mc_io cmd
    pure (err, if is_zero err then read rsp else old)

  unfoldable pub dpaiop_open : (cmd_flags : ℕ) (dpaiop_id : ℤ) (token : ℕ) → Act S (ℤ × ℕ)
  unfolding query
  dpaiop_open cmd_flags dpaiop_id token =
      query (open_command cmd_flags dpaiop_id) (λ rsp. read_token rsp.header) token

  unfoldable pub dpaiop_close : (cmd_flags token : ℕ) → Act S ℤ
  unfolding send
  dpaiop_close cmd_flags token = send (close_command cmd_flags token)

  unfoldable pub dpaiop_create :
      (dprc_token cmd_flags : ℕ) → DpaiopCfg → (obj_id : ℕ) → Act S (ℤ × ℕ)
  unfolding query
  dpaiop_create dprc_token cmd_flags cfg obj_id =
      query (create_command dprc_token cmd_flags cfg) rsp_obj_id obj_id

  unfoldable pub dpaiop_destroy : (dprc_token cmd_flags object_id : ℕ) → Act S ℤ
  unfolding send
  dpaiop_destroy dprc_token cmd_flags object_id =
      send (destroy_command dprc_token cmd_flags object_id)

  unfoldable pub dpaiop_reset : (cmd_flags token : ℕ) → Act S ℤ
  unfolding send
  dpaiop_reset cmd_flags token = send (reset_command cmd_flags token)

  unfoldable pub dpaiop_set_irq_enable : (cmd_flags token irq_index en : ℕ) → Act S ℤ
  unfolding send
  dpaiop_set_irq_enable cmd_flags token irq_index en =
      send (set_irq_enable_command cmd_flags token irq_index en)

  unfoldable pub dpaiop_get_irq_enable : (cmd_flags token irq_index en : ℕ) → Act S (ℤ × ℕ)
  unfolding query
  dpaiop_get_irq_enable cmd_flags token irq_index en =
      query (get_irq_enable_command cmd_flags token irq_index) rsp_get_irq_enable en

  unfoldable pub dpaiop_set_irq_mask : (cmd_flags token irq_index mask : ℕ) → Act S ℤ
  unfolding send
  dpaiop_set_irq_mask cmd_flags token irq_index mask =
      send (set_irq_mask_command cmd_flags token irq_index mask)

  unfoldable pub dpaiop_get_irq_mask : (cmd_flags token irq_index mask : ℕ) → Act S (ℤ × ℕ)
  unfolding query
  dpaiop_get_irq_mask cmd_flags token irq_index mask =
      query (get_irq_mask_command cmd_flags token irq_index) rsp_get_irq_mask mask

  -- `status` is sent too.
  unfoldable pub dpaiop_get_irq_status : (cmd_flags token irq_index status : ℕ) → Act S (ℤ × ℕ)
  unfolding query
  dpaiop_get_irq_status cmd_flags token irq_index status =
      query (get_irq_status_command cmd_flags token irq_index status) rsp_get_irq_status status

  unfoldable pub dpaiop_clear_irq_status : (cmd_flags token irq_index status : ℕ) → Act S ℤ
  unfolding send
  dpaiop_clear_irq_status cmd_flags token irq_index status =
      send (clear_irq_status_command cmd_flags token irq_index status)

  unfoldable pub dpaiop_get_attributes : (cmd_flags token : ℕ) → DpaiopAttr → Act S (ℤ × DpaiopAttr)
  unfolding query
  dpaiop_get_attributes cmd_flags token attr =
      query (get_attributes_command cmd_flags token) rsp_get_attributes attr

  unfoldable pub dpaiop_load : (cmd_flags token : ℕ) → DpaiopLoadCfg → Act S ℤ
  unfolding send
  dpaiop_load cmd_flags token cfg = send (load_command cmd_flags token cfg)

  unfoldable pub dpaiop_run : (cmd_flags token : ℕ) → DpaiopRunCfg → Act S ℤ
  unfolding send
  dpaiop_run cmd_flags token cfg = send (run_command cmd_flags token cfg)

  unfoldable pub dpaiop_get_sl_version :
      (cmd_flags token : ℕ) → DpaiopSlVersion → Act S (ℤ × DpaiopSlVersion)
  unfolding query
  dpaiop_get_sl_version cmd_flags token version =
      query (get_sl_version_command cmd_flags token) rsp_get_sl_version version

  unfoldable pub dpaiop_get_state : (cmd_flags token state : ℕ) → Act S (ℤ × ℕ)
  unfolding query
  dpaiop_get_state cmd_flags token state =
      query (get_state_command cmd_flags token) rsp_get_state state

  unfoldable pub dpaiop_set_time_of_day : (cmd_flags token time_of_day : ℕ) → Act S ℤ
  unfolding send
  dpaiop_set_time_of_day cmd_flags token time_of_day =
      send (set_time_of_day_command cmd_flags token time_of_day)

  unfoldable pub dpaiop_get_time_of_day : (cmd_flags token time_of_day : ℕ) → Act S (ℤ × ℕ)
  unfolding query
  dpaiop_get_time_of_day cmd_flags token time_of_day =
      query (get_time_of_day_command cmd_flags token) rsp_get_time_of_day time_of_day

  unfoldable pub dpaiop_get_api_version : (cmd_flags : ℕ) → ApiVersion → Act S (ℤ × ApiVersion)
  unfolding query
  dpaiop_get_api_version cmd_flags version =
      query (get_api_version_command cmd_flags) rsp_get_api_version version
