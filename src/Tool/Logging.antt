-- ===== src/Tool/Logging.antt =====
-- The logger as `main` sets it up from the command line.
use gpp_aioptool.Base.{
  ◌≡◌, ◌⊎◌, inl, inr, refl, arith, ◌||◌, ◌++◌, ◌==◌, Bool, true, false, List, [], ◌∷◌, Option, ℤ,
  pos, is_zero, Text, Returns, Returns-mono, if◌then◌else◌,
}
use gpp_aioptool.Os.{Os}
use gpp_aioptool.Logger.{LoggerFlags, LogMacro, to_u16, init_aiopt_logger, prefix_of, log}
use gpp_aioptool.Cmd.Types.{GlobalArgs, Libc, OptEvent, zero_args, container_env_var}
use gpp_aioptool.Cmd.Options.Valid.{flags_of}
use gpp_aioptool.Cmd.Options.Loop.{AllUsable, gives}
use gpp_aioptool.Cmd.Handlers.{Hndlr, parse_command_line_args}
use gpp_aioptool.Cmd.Handlers.Parsed.{ParsePost, flags_given, parse_command_line_args_lem}
use gpp_aioptool.Tool.{AiopToolConf, create_conf_inst}

-- A flag as the `int` that is passed.
abbrev pub int_of : Bool → ℤ
int_of b = if b then pos 1 else pos 0

-- `init_aiopt_logger(conf.debug_flag, conf.verbose_flag)`.
abbrev pub logger_of : AiopToolConf → LoggerFlags
logger_of conf = init_aiopt_logger (int_of conf.debug_flag) (int_of conf.verbose_flag)

-- The messages that a command line asks for.
abbrev pub is_wanted : LogMacro → List OptEvent → Bool
is_wanted LogMacro.info es = gives b'd' es || gives b'v' es
is_wanted LogMacro.print es = true
is_wanted LogMacro.err es = true
is_wanted LogMacro.debug es = gives b'd' es
is_wanted LogMacro.dev es = gives b'd' es
is_wanted LogMacro.lib_info es = gives b'd' es || gives b'v' es

shown_if :
    (b c : Bool) (xs : Text)
    → b ≡ c
    → (if to_u16 (int_of b) == 0 then [] else xs) ≡ (if c then xs else [])
shown_if true c xs e = ground (arith, e)
shown_if false c xs e = ground (arith, e)

log_lem :
    (d v : Bool) (es : List OptEvent)
    → d ≡ gives b'd' es
    → v ≡ (gives b'd' es || gives b'v' es)
    → (m : LogMacro) (func line text : Text)
    → log (init_aiopt_logger (int_of d) (int_of v)) m func line text
      ≡ (if is_wanted m es then prefix_of m func line ++ text else [])
unfolding log init_aiopt_logger
log_lem d v es is_d is_v LogMacro.info func line text = shown_if v _ _ is_v
log_lem d v es is_d is_v LogMacro.print func line text = refl
log_lem d v es is_d is_v LogMacro.err func line text = refl
log_lem d v es is_d is_v LogMacro.debug func line text = shown_if d _ _ is_d
log_lem d v es is_d is_v LogMacro.dev func line text = shown_if d _ _ is_d
log_lem d v es is_d is_v LogMacro.lib_info func line text = shown_if v _ _ is_v

module _ {S : Type 0} (os : Os S) (libc : Libc) (verbose : Bool) where
  -- A refused command line, or messages as it asks for them.
  abbrev pub Logs : List OptEvent → ℤ × GlobalArgs × Option Text → S → Type 0
  Logs es (r, g, name) s =
      (is_zero r ≡ false)
      ⊎ ((m : LogMacro) (func line text : Text)
          → log (logger_of (create_conf_inst name g)) m func line text
            ≡ (if is_wanted m es then prefix_of m func line ++ text else []))

  flags_split :
      (h : Hndlr) (g : GlobalArgs) (es : List OptEvent)
      → flags_of g ≡ flags_given h es
      → (g.debug_flag ≡ gives b'd' es) × (g.verbose_flag ≡ (gives b'd' es || gives b'v' es))
  flags_split Hndlr.help g es e = ground (arith, e)
  flags_split Hndlr.load g es e = ground (arith, e)
  flags_split Hndlr.reset g es e = ground (arith, e)
  flags_split Hndlr.status g es e = ground (arith, e)
  flags_split Hndlr.gettod g es e = ground (arith, e)
  flags_split Hndlr.settod g es e = ground (arith, e)

  -- If `-g` and `-c` come with their arguments and all arguments are shorter than 256 bytes,
  -- parsing from the zero structure returns. It fails, or the logger that is set up from the
  -- results prints errors and plain messages always, information if `-d` or `-v` was given, and
  -- debug messages if `-d` was given, each behind its prefix, and nothing else.
  pub parse_command_line_args-Logs :
      (prog cmd : Text) (args : List Text) (s : S)
      → AllUsable (libc.getopt_long (cmd ∷ args))
      → Returns
          (Logs (libc.getopt_long (cmd ∷ args)))
          (parse_command_line_args os libc verbose (prog ∷ cmd ∷ args) zero_args s)
  unfolding create_conf_inst
  parse_command_line_args-Logs prog cmd args s usable =
      let es = libc.getopt_long (cmd ∷ args) in
      Returns-mono (ParsePost os libc verbose cmd (cmd ∷ args) (os.getenv container_env_var s))
        (Logs es) _
        (λ (r, g, name) s' p. elim p.1 [
          | inl refused ↦ inl refused
          | inr parsed ↦
              let flags = flags_split parsed.hndlr g es parsed.flags in
              inr (log_lem g.debug_flag g.verbose_flag es flags.0 flags.1)
        ])
        (parse_command_line_args_lem os libc verbose prog cmd args s usable)
