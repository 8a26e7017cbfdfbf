-- ===== src/Logger.antt =====
-- src/aiop_logger.c and include/aiop_logger.h: the flags of the logger, and what its macros print.
use gpp_aioptool.Base.{ℕ, ◌-◌, ◌%◌, ◌^◌, ◌==◌, [], ◌++◌, ℤ, pos, negsuc, Text, codes, if◌then◌else◌}

-- `_debug_flag` and `_verbose_flag`, of 16 bits.
pub record LoggerFlags : Type 0 where
  pub debug_flag : ℕ
  pub verbose_flag : ℕ

-- An `int` converted to `unsigned short int`.
abbrev pub to_u16 : ℤ → ℕ
to_u16 (pos n) = n % 2 ^ 16
to_u16 (negsuc n) = 2 ^ 16 - 1 - n % 2 ^ 16

unfoldable pub init_aiopt_logger : (d v : ℤ) → LoggerFlags
init_aiopt_logger d v = record { debug_flag = to_u16 d; verbose_flag = to_u16 v }

-- The macros, without the `AIOPT_` of their names.
pub data LogMacro : Type 0 where
  info print err debug dev lib_info : LogMacro

-- What is printed before the text; `func` and `line` are `__func__` and `__LINE__`, as text.
abbrev pub prefix_of : LogMacro → (func line : Text) → Text
prefix_of LogMacro.info func line = codes "INFO: "
prefix_of LogMacro.print func line = []
prefix_of LogMacro.err func line = codes "ERROR: (L" ++ (line ++ codes "): ")
prefix_of LogMacro.debug func line =
    codes "DEBUG: (" ++ (func ++ (codes ")(L" ++ (line ++ codes "): ")))
prefix_of LogMacro.dev func line =
    codes "DEBUG_DEV: (" ++ (func ++ (codes ")(L" ++ (line ++ codes "): ")))
prefix_of LogMacro.lib_info func line = codes "INFO: "

-- What a macro prints for a text; `break` leaves it without output.
unfoldable pub log : LoggerFlags → LogMacro → (func line text : Text) → Text
log flags LogMacro.info func line text =
    if flags.verbose_flag == 0 then [] else prefix_of LogMacro.info func line ++ text
log flags LogMacro.print func line text = prefix_of LogMacro.print func line ++ text
log flags LogMacro.err func line text = prefix_of LogMacro.err func line ++ text
log flags LogMacro.debug func line text =
    if flags.debug_flag == 0 then [] else prefix_of LogMacro.debug func line ++ text
log flags LogMacro.dev func line text =
    if flags.debug_flag == 0 then [] else prefix_of LogMacro.dev func line ++ text
log flags LogMacro.lib_info func line text =
    if flags.verbose_flag == 0 then [] else prefix_of LogMacro.lib_info func line ++ text
