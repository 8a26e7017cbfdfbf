-- ===== src/Cmd/Types.antt =====
-- include/aiop_cmd.h: the limits, and the structure that the options are collected in. Also the
-- functions of the C library on text and options, which the program only calls.
use gpp_aioptool.Base.{
  ℕ, ◌-◌, ◌^◌, Bool, false, List, [], Option, ℤ, Text, codes, Act, done, fault, ltb, length,
  if◌then◌else◌,
}

abbrev pub default_dprc_name : Text
default_dprc_name = codes "dprc.5"

abbrev pub container_env_var : Text
container_env_var = codes "DPRC"

abbrev pub max_container_name_len : ℕ
max_container_name_len = 10

abbrev pub max_path_len : ℕ
max_path_len = 256

abbrev pub max_thread_per_core : ℕ
max_thread_per_core = 16

abbrev pub default_thread_per_core : ℕ
default_thread_per_core = 0

abbrev pub container_def : ℕ
container_def = 1

abbrev pub container_env : ℕ
container_env = 2

abbrev pub container_usr : ℕ
container_usr = 3

-- `struct global_args`. A buffer is given by the text in it; a flag that is only 0 or 1 is a
-- `Bool`.
pub record GlobalArgs : Type 0 where
  pub image_file_flag : Bool
  pub image_file : Text
  pub args_file_flag : Bool
  pub args_file : Text
  pub tpc_flag : Bool
  pub tpc : ℕ
  pub container_name_flag : ℕ
  pub container_name : Text
  pub reset_flag : Bool
  pub tod_flag : Bool
  pub tod_val : ℕ
  pub status_flag : Bool
  pub debug_flag : Bool
  pub verbose_flag : Bool

-- `gvars` before `main`: zero.
abbrev pub zero_args : GlobalArgs
zero_args = record {
  image_file_flag = false;
  image_file = [];
  args_file_flag = false;
  args_file = [];
  tpc_flag = false;
  tpc = 0;
  container_name_flag = 0;
  container_name = [];
  reset_flag = false;
  tod_flag = false;
  tod_val = 0;
  status_flag = false;
  debug_flag = false;
  verbose_flag = false;
}

-- One result of `getopt_long`: the character, and `optarg`, `none` if it is NULL.
pub record OptEvent : Type 0 where
  pub opt : ℕ
  pub optarg : Option Text

-- What `strtoul` leaves behind: the value, whether `*endptr` is NUL, and `errno`.
pub record Strtoul : Type 0 where
  pub value : ℕ
  pub at_end : Bool
  pub err : ℕ

-- `getopt_long` is given by the results of the successive calls, up to the -1, for the option
-- table of the program.
pub record Libc : Type 0 where
  pub atoi : Text → ℤ
  pub strtoul : Text → Strtoul
  pub getopt_long : List Text → List OptEvent

abbrev pub erange : ℕ
erange = 34

-- The limits of `long`, converted to `uint64_t`.
abbrev pub long_max : ℕ
long_max = 2 ^ 63 - 1

abbrev pub long_min : ℕ
long_min = 2 ^ 63

-- `strcpy` into a buffer of `cap` bytes: the text and its NUL must fit.
abbrev pub strcpy : {S : Type 0} → (cap : ℕ) → Text → Act S Text
strcpy cap src s = if ltb (length src) cap then done src s else fault
