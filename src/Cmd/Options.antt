-- ===== src/Cmd/Options.antt =====
-- src/aiop_cmd.c: `generic_cmd_hndlr`, the loop over the options of a sub-command.
pub mod Valid
pub mod Contract
pub mod Loop
use gpp_aioptool.Base.{
  ℕ, not, List, [], ◌∷◌, Option, none, some, ℤ, is_zero, Text, Act, pure, fault, ◌>>=◌, ◌==◌,
  if◌then◌else◌,
}
use gpp_aioptool.Os.{Os}
use gpp_aioptool.Aiop.Types.{aiopt_success, aiopt_failure}
use gpp_aioptool.Cmd.Types.{GlobalArgs, Libc, OptEvent}
use gpp_aioptool.Cmd.Args.{
  check_if_valid_arg, container_name_from_args, image_file_from_args, args_file_from_args,
  thread_per_core_from_args, reset_flag_from_args, debug_flag_from_args, verbose_flag_from_args,
  timeofday_from_args,
}

-- `-g`: `strlen` of a null argument is undefined.
unfoldable pub container_option : {S : Type 0} → Option Text → GlobalArgs → Act S (ℤ × GlobalArgs)
container_option none gvars = λ _. fault
container_option (some arg) gvars = do
  gvars' ← container_name_from_args arg gvars
  pure (aiopt_success, gvars')

module _ {S : Type 0} (os : Os S) (libc : Libc) (valid_args : Text) where
  -- A case that first asks whether the sub-command takes the option.
  unfoldable pub guarded : ℕ → GlobalArgs → Act S (ℤ × GlobalArgs) → Act S (ℤ × GlobalArgs)
  guarded c gvars body =
      if is_zero (check_if_valid_arg (some valid_args) c) then body else pure (aiopt_failure, gvars)

  -- The body of the `switch`. The result of `timeofday_from_args` is not looked at.
  unfoldable pub handle_option : OptEvent → GlobalArgs → Act S (ℤ × GlobalArgs)
  unfolding guarded container_option
  handle_option e gvars =
      if e.opt == b'g'
      then guarded b'g' gvars (container_option e.optarg gvars)
      else if e.opt == b'f'
      then guarded b'f' gvars (image_file_from_args os e.optarg gvars)
      else if e.opt == b'a'
      then guarded b'a' gvars (args_file_from_args os e.optarg gvars)
      else if e.opt == b'r'
      then guarded b'r' gvars (pure (aiopt_success, reset_flag_from_args gvars))
      else if e.opt == b't'
      then guarded b't' gvars (pure (aiopt_success, (timeofday_from_args libc e.optarg gvars).1))
      else if e.opt == b'd'
      then guarded b'd' gvars (pure (aiopt_success, debug_flag_from_args gvars))
      else if e.opt == b'v'
      then guarded b'v' gvars (pure (aiopt_success, verbose_flag_from_args gvars))
      else if e.opt == b'c'
      then guarded b'c' gvars
          (do gvars' ← thread_per_core_from_args libc e.optarg gvars; pure (aiopt_success, gvars'))
      else pure (aiopt_failure, gvars)

  -- The loop ends with the options, or at the first that fails.
  unfoldable pub options_loop : List OptEvent → GlobalArgs → Act S (ℤ × GlobalArgs)
  options_loop [] gvars = pure (aiopt_success, gvars)
  options_loop (e ∷ es) gvars = do
    (ret, gvars') ← handle_option e gvars
    if not (is_zero ret) then pure (ret, gvars') else options_loop es gvars'

  unfoldable pub generic_cmd_hndlr : (argv : List Text) → GlobalArgs → Act S (ℤ × GlobalArgs)
  unfolding options_loop
  generic_cmd_hndlr argv gvars = do
    (ret, gvars') ← options_loop (libc.getopt_long argv) gvars
    pure (if not (is_zero ret) then aiopt_failure else aiopt_success, gvars')
