-- ===== src/Dpaiop/Commands.antt =====
-- flib/mc/fsl_dpaiop_cmd.h: the command identifiers and the layout of the parameters. Each
-- `…_command` is what the function of flib/mc/dpaiop.c of that name prepares and sends.
use gpp_aioptool.Base.{ℕ, ℤ}
use gpp_aioptool.Mc.Wire.{McCommand, zero_command, mc_cmd_op, mc_encode_cmd_header}
use gpp_aioptool.Dpaiop.Types.{DpaiopCfg, DpaiopLoadCfg, DpaiopRunCfg, to_u64}

abbrev pub cmdid_close : ℕ
cmdid_close = 0x8001

abbrev pub cmdid_open : ℕ
cmdid_open = 0x80a1

abbrev pub cmdid_create : ℕ
cmdid_create = 0x90a1

abbrev pub cmdid_destroy : ℕ
cmdid_destroy = 0x98a1

abbrev pub cmdid_get_api_version : ℕ
cmdid_get_api_version = 0xa0a1

abbrev pub cmdid_get_attr : ℕ
cmdid_get_attr = 0x0041

abbrev pub cmdid_reset : ℕ
cmdid_reset = 0x0051

abbrev pub cmdid_set_irq_enable : ℕ
cmdid_set_irq_enable = 0x0121

abbrev pub cmdid_get_irq_enable : ℕ
cmdid_get_irq_enable = 0x0131

abbrev pub cmdid_set_irq_mask : ℕ
cmdid_set_irq_mask = 0x0141

abbrev pub cmdid_get_irq_mask : ℕ
cmdid_get_irq_mask = 0x0151

abbrev pub cmdid_get_irq_status : ℕ
cmdid_get_irq_status = 0x0161

abbrev pub cmdid_clear_irq_status : ℕ
cmdid_clear_irq_status = 0x0171

abbrev pub cmdid_load : ℕ
cmdid_load = 0x2802

abbrev pub cmdid_run : ℕ
cmdid_run = 0x2811

abbrev pub cmdid_get_sl_version : ℕ
cmdid_get_sl_version = 0x2821

abbrev pub cmdid_get_state : ℕ
cmdid_get_state = 0x2831

abbrev pub cmdid_set_time_of_day : ℕ
cmdid_set_time_of_day = 0x2841

abbrev pub cmdid_get_time_of_day : ℕ
cmdid_get_time_of_day = 0x2851

-- `struct mc_command cmd = { 0 }` with its header set.
abbrev pub headed : (cmd_id cmd_flags token : ℕ) → McCommand
headed cmd_id cmd_flags token = record zero_command {
  header = mc_encode_cmd_header cmd_id cmd_flags token;
}

unfoldable pub open_command : (cmd_flags : ℕ) → ℤ → McCommand
unfolding mc_cmd_op
open_command cmd_flags dpaiop_id =
    mc_cmd_op (headed cmdid_open cmd_flags 0) 0 0 32 (to_u64 dpaiop_id)

unfoldable pub close_command : (cmd_flags token : ℕ) → McCommand
close_command cmd_flags token = headed cmdid_close cmd_flags token

unfoldable pub create_command : (dprc_token cmd_flags : ℕ) → DpaiopCfg → McCommand
unfolding mc_cmd_op
create_command dprc_token cmd_flags cfg =
    let cmd = headed cmdid_create cmd_flags dprc_token in
    let cmd' = mc_cmd_op cmd 0 0 32 (to_u64 cfg.aiop_id) in
    mc_cmd_op cmd' 0 32 32 (to_u64 cfg.aiop_container_id)

unfoldable pub destroy_command : (dprc_token cmd_flags object_id : ℕ) → McCommand
unfolding mc_cmd_op
destroy_command dprc_token cmd_flags object_id =
    mc_cmd_op (headed cmdid_destroy cmd_flags dprc_token) 0 0 32 object_id

unfoldable pub reset_command : (cmd_flags token : ℕ) → McCommand
reset_command cmd_flags token = headed cmdid_reset cmd_flags token

unfoldable pub set_irq_enable_command : (cmd_flags token irq_index en : ℕ) → McCommand
unfolding mc_cmd_op
set_irq_enable_command cmd_flags token irq_index en =
    let cmd = headed cmdid_set_irq_enable cmd_flags token in
    mc_cmd_op (mc_cmd_op cmd 0 0 8 en) 0 32 8 irq_index

unfoldable pub get_irq_enable_command : (cmd_flags token irq_index : ℕ) → McCommand
unfolding mc_cmd_op
get_irq_enable_command cmd_flags token irq_index =
    mc_cmd_op (headed cmdid_get_irq_enable cmd_flags token) 0 32 8 irq_index

unfoldable pub set_irq_mask_command : (cmd_flags token irq_index mask : ℕ) → McCommand
unfolding mc_cmd_op
set_irq_mask_command cmd_flags token irq_index mask =
    let cmd = headed cmdid_set_irq_mask cmd_flags token in
    mc_cmd_op (mc_cmd_op cmd 0 0 32 mask) 0 32 8 irq_index

unfoldable pub get_irq_mask_command : (cmd_flags token irq_index : ℕ) → McCommand
unfolding mc_cmd_op
get_irq_mask_command cmd_flags token irq_index =
    mc_cmd_op (headed cmdid_get_irq_mask cmd_flags token) 0 32 8 irq_index

unfoldable pub get_irq_status_command : (cmd_flags token irq_index status : ℕ) → McCommand
unfolding mc_cmd_op
get_irq_status_command cmd_flags token irq_index status =
    let cmd = headed cmdid_get_irq_status cmd_flags token in
    mc_cmd_op (mc_cmd_op cmd 0 0 32 status) 0 32 8 irq_index

unfoldable pub clear_irq_status_command : (cmd_flags token irq_index status : ℕ) → McCommand
unfolding mc_cmd_op
clear_irq_status_command cmd_flags token irq_index status =
    let cmd = headed cmdid_clear_irq_status cmd_flags token in
    mc_cmd_op (mc_cmd_op cmd 0 0 32 status) 0 32 8 irq_index

unfoldable pub get_attributes_command : (cmd_flags token : ℕ) → McCommand
get_attributes_command cmd_flags token = headed cmdid_get_attr cmd_flags token

unfoldable pub load_command : (cmd_flags token : ℕ) → DpaiopLoadCfg → McCommand
unfolding mc_cmd_op
load_command cmd_flags token cfg =
    let cmd = headed cmdid_load cmd_flags token in
    let cmd' = mc_cmd_op (mc_cmd_op cmd 0 0 32 cfg.img_size) 0 32 8 cfg.tpc in
    mc_cmd_op (mc_cmd_op cmd' 1 0 64 cfg.img_iova) 2 0 64 cfg.options

unfoldable pub run_command : (cmd_flags token : ℕ) → DpaiopRunCfg → McCommand
unfolding mc_cmd_op
run_command cmd_flags token cfg =
    let cmd = headed cmdid_run cmd_flags token in
    let cmd' = mc_cmd_op (mc_cmd_op cmd 0 32 32 cfg.args_size) 1 0 64 cfg.cores_mask in
    mc_cmd_op (mc_cmd_op cmd' 2 0 64 cfg.options) 3 0 64 cfg.args_iova

unfoldable pub get_sl_version_command : (cmd_flags token : ℕ) → McCommand
get_sl_version_command cmd_flags token = headed cmdid_get_sl_version cmd_flags token

unfoldable pub get_state_command : (cmd_flags token : ℕ) → McCommand
get_state_command cmd_flags token = headed cmdid_get_state cmd_flags token

unfoldable pub set_time_of_day_command : (cmd_flags token time_of_day : ℕ) → McCommand
unfolding mc_cmd_op
set_time_of_day_command cmd_flags token time_of_day =
    mc_cmd_op (headed cmdid_set_time_of_day cmd_flags token) 0 0 64 time_of_day

unfoldable pub get_time_of_day_command : (cmd_flags token : ℕ) → McCommand
get_time_of_day_command cmd_flags token = headed cmdid_get_time_of_day cmd_flags token

unfoldable pub get_api_version_command : (cmd_flags : ℕ) → McCommand
get_api_version_command cmd_flags = headed cmdid_get_api_version cmd_flags 0
