-- ===== src/Mc/Wire.antt =====
-- flib/mc/fsl_mc_cmd.h: bit fields of 64-bit words, the MC command and its header. A word is a
-- number below 2 ^ 64; a shift to the left cuts off what it moves past bit 63.
pub mod Fields
pub mod Header
use Prim.Native.Nat.{bit_and, bit_or}
use gpp_aioptool.Base.{ℕ, ◌-◌, ◌*◌, ◌/◌, ◌%◌, ◌^◌, List, ltb, if◌then◌else◌, get_or, set, replicate}

-- `MAKE_UMASK64`.
pub make_umask64 : ℕ → ℕ
make_umask64 width = if ltb width 64 then 2 ^ width - 1 else 2 ^ 64 - 1

unfoldable pub mc_enc : (lsoffset width val : ℕ) → ℕ
unfolding make_umask64
mc_enc lsoffset width val = bit_and val (make_umask64 width) * 2 ^ lsoffset % 2 ^ 64

unfoldable pub mc_dec : (val lsoffset width : ℕ) → ℕ
unfolding make_umask64
mc_dec val lsoffset width = bit_and (val / 2 ^ lsoffset) (make_umask64 width)

abbrev pub mc_cmd_num_of_params : ℕ
mc_cmd_num_of_params = 7

-- `struct mc_command`; `params` has seven words.
pub record McCommand : Type 0 where
  pub header : ℕ
  pub params : List ℕ

-- `struct mc_command cmd = { 0 }`.
abbrev pub zero_command : McCommand
zero_command = record { header = 0; params = replicate mc_cmd_num_of_params 0 }

-- The values of `enum mc_cmd_status`.
abbrev pub status_ok : ℕ
status_ok = 0x0

abbrev pub status_ready : ℕ
status_ready = 0x1

abbrev pub status_auth_err : ℕ
status_auth_err = 0x3

abbrev pub status_no_privilege : ℕ
status_no_privilege = 0x4

abbrev pub status_dma_err : ℕ
status_dma_err = 0x5

abbrev pub status_config_err : ℕ
status_config_err = 0x6

abbrev pub status_timeout : ℕ
status_timeout = 0x7

abbrev pub status_no_resource : ℕ
status_no_resource = 0x8

abbrev pub status_no_memory : ℕ
status_no_memory = 0x9

abbrev pub status_busy : ℕ
status_busy = 0xA

abbrev pub status_unsupported_op : ℕ
status_unsupported_op = 0xB

abbrev pub status_invalid_state : ℕ
status_invalid_state = 0xC

-- Offset and size of the fields of a header, and the mask of the flags that a caller may set.
abbrev pub cmdid_o : ℕ
cmdid_o = 48

abbrev pub cmdid_s : ℕ
cmdid_s = 16

abbrev pub token_o : ℕ
token_o = 32

abbrev pub token_s : ℕ
token_s = 16

abbrev pub status_o : ℕ
status_o = 16

abbrev pub status_s : ℕ
status_s = 8

abbrev pub flags_o : ℕ
flags_o = 0

abbrev pub flags_s : ℕ
flags_s = 32

abbrev pub flags_mask : ℕ
flags_mask = 0xFF00FF00

-- `MC_CMD_HDR_READ_STATUS`.
unfoldable pub read_status : ℕ → ℕ
unfolding mc_dec
read_status hdr = mc_dec hdr status_o status_s

-- `MC_CMD_HDR_READ_TOKEN`.
unfoldable pub read_token : ℕ → ℕ
unfolding mc_dec
read_token hdr = mc_dec hdr token_o token_s % 2 ^ 16

-- `MC_CMD_OP`, which ors the field into the parameter.
unfoldable pub mc_cmd_op : McCommand → (param offset width arg : ℕ) → McCommand
unfolding mc_enc
mc_cmd_op cmd param offset width arg = record cmd {
  params = set cmd.params param (bit_or (get_or cmd.params param 0) (mc_enc offset width arg));
}

-- `MC_RSP_OP`, without the cast to the type of the argument.
unfoldable pub mc_rsp_op : McCommand → (param offset width : ℕ) → ℕ
unfolding mc_dec
mc_rsp_op cmd param offset width = mc_dec (get_or cmd.params param 0) offset width

unfoldable pub mc_encode_cmd_header : (cmd_id cmd_flags token : ℕ) → ℕ
unfolding mc_enc
mc_encode_cmd_header cmd_id cmd_flags token =
    let hdr = mc_enc cmdid_o cmdid_s cmd_id in
    let hdr' = bit_or hdr (mc_enc flags_o flags_s (bit_and cmd_flags flags_mask)) in
    let hdr'' = bit_or hdr' (mc_enc token_o token_s token) in
    bit_or hdr'' (mc_enc status_o status_s status_ready)
