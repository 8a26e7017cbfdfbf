-- ===== src/Mc/Portal.antt =====
-- flib/mc/mc_sys.c and the portal access of flib/mc/fsl_mc_cmd.h: a command is written to the
-- portal's registers, the status is polled until it is no longer READY, and the response is read.
pub mod Status
pub mod Exchange
use gpp_aioptool.Base.{
  ℕ, zero, suc, ◌+◌, ◌*◌, ◌%◌, ◌^◌, Option, none, some, ℤ, pos, neg, Run, done, spinning, Act, ◌==◌,
  if◌then◌else◌, get_or, set,
}
use gpp_aioptool.Mc.Wire.{
  McCommand, mc_dec, mc_cmd_num_of_params, read_status, status_ok, status_ready, status_auth_err,
  status_no_privilege, status_dma_err, status_config_err, status_timeout, status_no_resource,
  status_no_memory, status_busy, status_unsupported_op, status_invalid_state,
}

-- Error numbers of errno.h, on Linux.
abbrev pub eperm : ℕ
eperm = 1

abbrev pub eio : ℕ
eio = 5

abbrev pub enomem : ℕ
enomem = 12

abbrev pub eacces : ℕ
eacces = 13

abbrev pub ebusy : ℕ
ebusy = 16

abbrev pub enodev : ℕ
enodev = 19

abbrev pub einval : ℕ
einval = 22

abbrev pub enotsup : ℕ
enotsup = 95

abbrev pub etimedout : ℕ
etimedout = 110

abbrev pub enavail : ℕ
enavail = 119

-- The `switch`, in the order of its cases. A status is any byte, named by the enum or not.
unfoldable pub mc_status_to_error : ℕ → ℤ
mc_status_to_error status =
    if status == status_ok
    then pos 0
    else if status == status_auth_err
    then neg eacces
    else if status == status_no_privilege
    then neg eperm
    else if status == status_dma_err
    then neg eio
    else if status == status_config_err
    then neg einval
    else if status == status_timeout
    then neg etimedout
    else if status == status_no_resource
    then neg enavail
    else if status == status_no_memory
    then neg enomem
    else if status == status_busy
    then neg ebusy
    else if status == status_unsupported_op
    then neg enotsup
    else if status == status_invalid_state
    then neg enodev
    else neg einval

-- The memory-mapped registers: the hardware is not part of the program. A read may change the
-- state of the device too. Reads are `(address, state)`, writes `(value, address, state)`.
pub record Device (S : Type 0) : Type 0 where
  pub ioread64 : ℕ → S → ℕ × S
  pub iowrite64 : ℕ → ℕ → S → S
  pub iowrite32 : ℕ → ℕ → S → S

-- `struct fsl_mc_io`; address 0 is NULL.
pub record FslMcIo : Type 0 where
  pub regs : ℕ

-- `&portal->params[i]`: the header takes the first eight bytes.
abbrev pub param_addr : (regs i : ℕ) → ℕ
param_addr regs i = regs + 8 + 8 * i

module _ {S : Type 0} (dev : Device S) where
  unfoldable pub write_params : (left i regs : ℕ) → McCommand → S → S
  write_params zero i regs cmd s = s
  write_params (suc left) i regs cmd s =
      write_params left (i + 1) regs cmd
        (dev.iowrite64 (get_or cmd.params i 0) (param_addr regs i) s)

  -- The parameters, the upper half of the header, and last its lower half, which submits.
  unfoldable pub mc_write_command : (regs : ℕ) → McCommand → S → S
  unfolding write_params
  mc_write_command regs cmd s =
      let s' = write_params mc_cmd_num_of_params 0 regs cmd s in
      let s'' = dev.iowrite32 (mc_dec cmd.header 32 32 % 2 ^ 32) (regs + 4) s' in
      dev.iowrite32 (mc_dec cmd.header 0 32 % 2 ^ 32) regs s''

  unfoldable pub read_params : (left i regs : ℕ) → McCommand → S → McCommand × S
  read_params zero i regs resp s = (resp, s)
  read_params (suc left) i regs resp s =
      let (v, s') = dev.ioread64 (param_addr regs i) s in
      read_params left (i + 1) regs (record resp { params = set resp.params i v }) s'

  -- The parameters are read only if the status of the header that was read is OK.
  unfoldable pub mc_read_response : (regs : ℕ) → McCommand → S → McCommand × S
  unfolding read_params
  mc_read_response regs resp s =
      let (hdr, s') = dev.ioread64 regs s in
      let resp' = record resp { header = hdr } in
      if read_status hdr == status_ok
      then read_params mc_cmd_num_of_params 0 regs resp' s'
      else (resp', s')

  -- The busy-wait loop, with a budget of reads.
  unfoldable pub poll : (budget regs : ℕ) → Act S ℕ
  poll zero regs s = spinning
  poll (suc budget) regs s =
      let (hdr, s') = dev.ioread64 regs s in
      let again = poll budget regs s' in
      if read_status hdr == status_ready then again else done (read_status hdr) s'

  unfoldable pub send_to : (polls regs : ℕ) → McCommand → Act S (ℤ × McCommand)
  unfolding mc_write_command mc_read_response poll
  send_to polls regs cmd s = elim (poll polls regs (mc_write_command regs cmd s)) [
    | done status s' ↦
        let (resp, s'') = mc_read_response regs cmd s' in done (mc_status_to_error status, resp) s''
    | other ↦ spinning
  ]

  -- `none` is a null `mc_io`. The command buffer is overwritten by the response.
  unfoldable pub mc_send_command : (polls : ℕ) → Option FslMcIo → McCommand → Act S (ℤ × McCommand)
  unfolding send_to
  mc_send_command polls none cmd s = done (neg eacces, cmd) s
  mc_send_command polls (some io) cmd s =
      if io.regs == 0 then done (neg eacces, cmd) s else send_to polls io.regs cmd s
