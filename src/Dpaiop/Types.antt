-- ===== src/Dpaiop/Types.antt =====
-- flib/mc/fsl_dpaiop.h: the structures, and the states of a tile. Also the casts between `int`
-- and the 64-bit words of a command.
use gpp_aioptool.Base.{ℕ, ◌-◌, ◌%◌, ◌^◌, ◌<◌, ◌≡◌, arith, ltb, if◌then◌else◌, ℤ, pos, negsuc}

pub record DpaiopCfg : Type 0 where
  pub aiop_id : ℤ
  pub aiop_container_id : ℤ

pub record DpaiopAttr : Type 0 where
  pub id : ℤ

pub record DpaiopLoadCfg : Type 0 where
  pub options : ℕ
  pub img_iova : ℕ
  pub img_size : ℕ
  pub tpc : ℕ

pub record DpaiopRunCfg : Type 0 where
  pub cores_mask : ℕ
  pub options : ℕ
  pub args_iova : ℕ
  pub args_size : ℕ

pub record DpaiopSlVersion : Type 0 where
  pub major : ℕ
  pub minor : ℕ
  pub revision : ℕ

-- The version of the interface, which the C code returns through two pointers.
pub record ApiVersion : Type 0 where
  pub major_ver : ℕ
  pub minor_ver : ℕ

abbrev pub state_reset_done : ℕ
state_reset_done = 0x00

abbrev pub state_reset_ongoing : ℕ
state_reset_ongoing = 0x01

abbrev pub state_load_done : ℕ
state_load_done = 0x02

abbrev pub state_load_ongoing : ℕ
state_load_ongoing = 0x04

abbrev pub state_load_error : ℕ
state_load_error = 0x08

abbrev pub state_boot_ongoing : ℕ
state_boot_ongoing = 0x10

abbrev pub state_boot_error : ℕ
state_boot_error = 0x20

abbrev pub state_running : ℕ
state_running = 0x40

-- `(uint64_t)` of an `int`, and `(int)` of a `uint64_t`.
unfoldable pub to_u64 : ℤ → ℕ
to_u64 (pos n) = n
to_u64 (negsuc n) = 2 ^ 64 - 1 - n

unfoldable pub to_int : ℕ → ℤ
to_int v = let w = v % 2 ^ 32 in if ltb w (2 ^ 31) then pos w else negsuc (2 ^ 32 - 1 - w)

-- The values of an `int`.
abbrev pub IsInt : ℤ → Type 0
IsInt (pos n) = n < 2 ^ 31
IsInt (negsuc n) = n < 2 ^ 31

-- The lower 32 bits of an `int` in a word give the `int` back.
pub to_int-to_u64 : (z : ℤ) → IsInt z → to_int (to_u64 z % 2 ^ 32) ≡ z
unfolding to_int to_u64
to_int-to_u64 (pos n) h = ground arith
to_int-to_u64 (negsuc n) h = ground arith
