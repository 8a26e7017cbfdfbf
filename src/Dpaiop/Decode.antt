-- ===== src/Dpaiop/Decode.antt =====
-- The other side of the interface: what a command says, read off its words with no regard to how
-- flib/mc/dpaiop.c builds it. A specification of the wire format.
pub mod Roundtrip
use gpp_aioptool.Base.{ℕ, ◌^◌, ◌<◌, ◌==◌, if◌then◌else◌, List, Option, none, some, ℤ, get_or}
use gpp_aioptool.Mc.Wire.{McCommand, mc_dec, read_token}
use gpp_aioptool.Dpaiop.Types.{DpaiopCfg, DpaiopLoadCfg, DpaiopRunCfg, IsInt, to_int}
use gpp_aioptool.Dpaiop.Commands.{
  open_command, close_command, create_command, destroy_command, reset_command,
  set_irq_enable_command, get_irq_enable_command, set_irq_mask_command, get_irq_mask_command,
  get_irq_status_command, clear_irq_status_command, get_attributes_command, load_command,
  run_command, get_sl_version_command, get_state_command, set_time_of_day_command,
  get_time_of_day_command, get_api_version_command,
}

-- A request with the arguments of its function. The first number is the token, if there is one.
pub data Request : Type 0 where
  open_session : ℤ → Request
  close_session : ℕ → Request
  create_object : ℕ → DpaiopCfg → Request
  destroy_object : (token object_id : ℕ) → Request
  reset_tile : ℕ → Request
  set_irq_enable : (token irq_index en : ℕ) → Request
  get_irq_enable : (token irq_index : ℕ) → Request
  set_irq_mask : (token irq_index mask : ℕ) → Request
  get_irq_mask : (token irq_index : ℕ) → Request
  get_irq_status : (token irq_index status : ℕ) → Request
  clear_irq_status : (token irq_index status : ℕ) → Request
  get_attributes : ℕ → Request
  load_image : ℕ → DpaiopLoadCfg → Request
  run_tile : ℕ → DpaiopRunCfg → Request
  get_sl_version : ℕ → Request
  get_state : ℕ → Request
  set_time_of_day : (token time : ℕ) → Request
  get_time_of_day : ℕ → Request
  get_api_version : Request

-- What the functions of flib/mc/dpaiop.c send.
unfoldable pub command_of : (cmd_flags : ℕ) → Request → McCommand
command_of flags (open_session id) = open_command flags id
command_of flags (close_session token) = close_command flags token
command_of flags (create_object token cfg) = create_command token flags cfg
command_of flags (destroy_object token object_id) = destroy_command token flags object_id
command_of flags (reset_tile token) = reset_command flags token
command_of flags (set_irq_enable token irq en) = set_irq_enable_command flags token irq en
command_of flags (get_irq_enable token irq) = get_irq_enable_command flags token irq
command_of flags (set_irq_mask token irq mask) = set_irq_mask_command flags token irq mask
command_of flags (get_irq_mask token irq) = get_irq_mask_command flags token irq
command_of flags (get_irq_status token irq st) = get_irq_status_command flags token irq st
command_of flags (clear_irq_status token irq st) = clear_irq_status_command flags token irq st
command_of flags (get_attributes token) = get_attributes_command flags token
command_of flags (load_image token cfg) = load_command flags token cfg
command_of flags (run_tile token cfg) = run_command flags token cfg
command_of flags (get_sl_version token) = get_sl_version_command flags token
command_of flags (get_state token) = get_state_command flags token
command_of flags (set_time_of_day token time) = set_time_of_day_command flags token time
command_of flags (get_time_of_day token) = get_time_of_day_command flags token
command_of flags get_api_version = get_api_version_command flags

-- Every argument is in the range of its C type.
abbrev pub IsValid : Request → Type 0
IsValid (open_session id) = IsInt id
IsValid (close_session token) = token < 2 ^ 16
IsValid (create_object token cfg) =
    (token < 2 ^ 16) × IsInt cfg.aiop_id × IsInt cfg.aiop_container_id
IsValid (destroy_object token object_id) = (token < 2 ^ 16) × (object_id < 2 ^ 32)
IsValid (reset_tile token) = token < 2 ^ 16
IsValid (set_irq_enable token irq en) = (token < 2 ^ 16) × (irq < 2 ^ 8) × (en < 2 ^ 8)
IsValid (get_irq_enable token irq) = (token < 2 ^ 16) × (irq < 2 ^ 8)
IsValid (set_irq_mask token irq mask) = (token < 2 ^ 16) × (irq < 2 ^ 8) × (mask < 2 ^ 32)
IsValid (get_irq_mask token irq) = (token < 2 ^ 16) × (irq < 2 ^ 8)
IsValid (get_irq_status token irq st) = (token < 2 ^ 16) × (irq < 2 ^ 8) × (st < 2 ^ 32)
IsValid (clear_irq_status token irq st) = (token < 2 ^ 16) × (irq < 2 ^ 8) × (st < 2 ^ 32)
IsValid (get_attributes token) = token < 2 ^ 16
IsValid (load_image token cfg) =
    (token < 2 ^ 16)
    × (cfg.options < 2 ^ 64)
    × (cfg.img_iova < 2 ^ 64)
    × (cfg.img_size < 2 ^ 32)
    × (cfg.tpc < 2 ^ 8)
IsValid (run_tile token cfg) =
    (token < 2 ^ 16)
    × (cfg.cores_mask < 2 ^ 64)
    × (cfg.options < 2 ^ 64)
    × (cfg.args_iova < 2 ^ 64)
    × (cfg.args_size < 2 ^ 32)
IsValid (get_sl_version token) = token < 2 ^ 16
IsValid (get_state token) = token < 2 ^ 16
IsValid (set_time_of_day token time) = (token < 2 ^ 16) × (time < 2 ^ 64)
IsValid (get_time_of_day token) = token < 2 ^ 16
IsValid get_api_version = Unit {0}

-- The request with identifier `id` and token `t`, over the parameters `ps`.
unfoldable pub request_of : (id t : ℕ) → List ℕ → Option Request
request_of id t ps =
    let field = λ (i o w : ℕ). mc_dec (get_or ps i 0) o w in
    if id == 0x80a1
    then some (open_session (to_int (field 0 0 32)))
    else if id == 0x8001
    then some (close_session t)
    else if id == 0x90a1
    then some (
        create_object t
          (record { aiop_id = to_int (field 0 0 32); aiop_container_id = to_int (field 0 32 32) }))
    else if id == 0x98a1
    then some (destroy_object t (field 0 0 32))
    else if id == 0x0051
    then some (reset_tile t)
    else if id == 0x0121
    then some (set_irq_enable t (field 0 32 8) (field 0 0 8))
    else if id == 0x0131
    then some (get_irq_enable t (field 0 32 8))
    else if id == 0x0141
    then some (set_irq_mask t (field 0 32 8) (field 0 0 32))
    else if id == 0x0151
    then some (get_irq_mask t (field 0 32 8))
    else if id == 0x0161
    then some (get_irq_status t (field 0 32 8) (field 0 0 32))
    else if id == 0x0171
    then some (clear_irq_status t (field 0 32 8) (field 0 0 32))
    else if id == 0x0041
    then some (get_attributes t)
    else if id == 0x2802
    then some (
        load_image t (record {
          options = field 2 0 64;
          img_iova = field 1 0 64;
          img_size = field 0 0 32;
          tpc = field 0 32 8;
        }))
    else if id == 0x2811
    then some (
        run_tile t (record {
          cores_mask = field 1 0 64;
          options = field 2 0 64;
          args_iova = field 3 0 64;
          args_size = field 0 32 32;
        }))
    else if id == 0x2821
    then some (get_sl_version t)
    else if id == 0x2831
    then some (get_state t)
    else if id == 0x2841
    then some (set_time_of_day t (field 0 0 64))
    else if id == 0x2851
    then some (get_time_of_day t)
    else if id == 0xa0a1
    then some get_api_version
    else none

unfoldable pub decode : McCommand → Option Request
unfolding request_of
decode cmd = request_of (mc_dec cmd.header 48 16) (read_token cmd.header) cmd.params
