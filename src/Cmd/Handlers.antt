-- ===== src/Cmd/Handlers.antt =====
-- src/aiop_cmd.c: the table of sub-commands, their handlers and `parse_command_line_args`. What
-- `usage` and the messages print is left out.
pub mod Outcome
pub mod Parsed
pub mod Quiet
pub mod Time
use gpp_aioptool.Base.{
  ◌-◌, Bool, true, not, ◌&&◌, ◌||◌, List, [], ◌∷◌, Option, none, some, ℤ, is_zero, Text, codes,
  str_eq, Act, pure, fault, ◌>>=◌, ◌>>◌, ltb, ◌==◌, if◌then◌else◌,
}
use gpp_aioptool.Os.{Os}
use gpp_aioptool.Aiop.Types.{aiopt_success, aiopt_failure}
use gpp_aioptool.Cmd.Types.{GlobalArgs, Libc}
use gpp_aioptool.Cmd.Args.{reset_flag_from_args, get_container_from_env}
use gpp_aioptool.Cmd.Options.{generic_cmd_hndlr}

-- The handlers that a table entry can point to.
pub data Hndlr : Type 0 where
  help load reset status gettod settod : Hndlr

-- `cmd_table`, up to the entry that ends it.
abbrev pub cmd_table : List (Text × Hndlr)
cmd_table =
    (codes "help", Hndlr.help)
    ∷ (codes "load", Hndlr.load)
    ∷ (codes "reset", Hndlr.reset)
    ∷ (codes "status", Hndlr.status)
    ∷ (codes "gettod", Hndlr.gettod)
    ∷ (codes "settod", Hndlr.settod)
    ∷ []

unfoldable pub search_table : List (Text × Hndlr) → Text → Option Hndlr
search_table [] cmd = none
search_table ((name, h) ∷ rest) cmd = if str_eq name cmd then some h else search_table rest cmd

-- The handler, which the C code leaves in `sub_cmd_hndlr`; `sub_cmd_name` becomes the text that
-- was searched for.
unfoldable pub find_subcmd_hndlr : Text → Option Hndlr
unfolding search_table
find_subcmd_hndlr cmd = search_table cmd_table cmd

abbrev pub is_help_text : Text → Bool
is_help_text arg =
    str_eq arg (codes "-h")
    || str_eq arg (codes "--help")
    || str_eq arg (codes "-help")
    || str_eq arg (codes "-version")
    || str_eq arg (codes "--version")
    || str_eq arg (codes "--?")
    || str_eq arg (codes "-?")

unfoldable pub check_for_help_cmd : List Text → ℤ
check_for_help_cmd [] = aiopt_failure
check_for_help_cmd (arg ∷ argv) =
    if is_help_text arg then aiopt_success else check_for_help_cmd argv

-- The part of `dump_cmdline_args` that can go wrong: with verbose output it reads entry
-- `container_name_flag - 1` of a table of three names, behind a test against the table's 24 bytes.
unfoldable pub dump_cmdline_args : {S : Type 0} → (verbose : Bool) → GlobalArgs → Act S (Unit {0})
dump_cmdline_args verbose gvars =
    if ltb 0 gvars.container_name_flag && ltb gvars.container_name_flag 24 && verbose
    then (if ltb (gvars.container_name_flag - 1) 3 then pure tt else λ _. fault)
    else pure tt

module _ {S : Type 0} (os : Os S) (libc : Libc) (verbose : Bool) where
  -- A handler that passes its options to `generic_cmd_hndlr`, then tests for the mandatory ones,
  -- makes its own changes and prints the result.
  unfoldable pub hndlr_with :
      (valid_args : Text)
      → (missing : GlobalArgs → Bool) → (finish : GlobalArgs → GlobalArgs) → (argv : List Text)
      → GlobalArgs
      → Act S (ℤ × GlobalArgs)
  hndlr_with valid_args missing finish argv gvars = do
    (ret, gvars') ← generic_cmd_hndlr os libc valid_args argv gvars
    if not (is_zero ret)
        then pure (aiopt_failure, gvars')
        else if missing gvars'
        then pure (aiopt_failure, gvars')
        else do dump_cmdline_args verbose (finish gvars'); pure (aiopt_success, finish gvars')

  unfoldable pub help_cmd_hndlr : List Text → GlobalArgs → Act S (ℤ × GlobalArgs)
  help_cmd_hndlr argv gvars = pure (aiopt_failure, gvars)

  unfoldable pub load_cmd_hndlr : List Text → GlobalArgs → Act S (ℤ × GlobalArgs)
  unfolding hndlr_with
  load_cmd_hndlr =
      hndlr_with (codes "gafrdvc") (λ g. g.container_name_flag == 0 || not g.image_file_flag)
        (λ g. g)

  unfoldable pub reset_cmd_hndlr : List Text → GlobalArgs → Act S (ℤ × GlobalArgs)
  unfolding hndlr_with
  reset_cmd_hndlr = hndlr_with (codes "gdv") (λ g. g.container_name_flag == 0) reset_flag_from_args

  unfoldable pub gettod_cmd_hndlr : List Text → GlobalArgs → Act S (ℤ × GlobalArgs)
  unfolding hndlr_with
  gettod_cmd_hndlr = hndlr_with (codes "gdv") (λ g. g.container_name_flag == 0) (λ g. g)

  unfoldable pub settod_cmd_hndlr : List Text → GlobalArgs → Act S (ℤ × GlobalArgs)
  unfolding hndlr_with
  settod_cmd_hndlr =
      hndlr_with (codes "gtdv") (λ g. g.container_name_flag == 0 || not g.tod_flag) (λ g. g)

  unfoldable pub status_cmd_hndlr : List Text → GlobalArgs → Act S (ℤ × GlobalArgs)
  unfolding hndlr_with
  status_cmd_hndlr =
      hndlr_with (codes "gdv") (λ g. g.container_name_flag == 0)
        (λ g. record g { status_flag = true })

  -- The call through `sub_cmd_hndlr`. A handler passes `argv + 1` on, so the sub-command stands in
  -- the place of the program's name.
  unfoldable pub call_hndlr : Hndlr → List Text → GlobalArgs → Act S (ℤ × GlobalArgs)
  unfolding help_cmd_hndlr load_cmd_hndlr reset_cmd_hndlr status_cmd_hndlr gettod_cmd_hndlr
      settod_cmd_hndlr
  call_hndlr Hndlr.help = help_cmd_hndlr
  call_hndlr Hndlr.load = load_cmd_hndlr
  call_hndlr Hndlr.reset = reset_cmd_hndlr
  call_hndlr Hndlr.status = status_cmd_hndlr
  call_hndlr Hndlr.gettod = gettod_cmd_hndlr
  call_hndlr Hndlr.settod = settod_cmd_hndlr

  -- The result, `gvars` and `sub_cmd_name`.
  unfoldable pub parse_command_line_args :
      (argv : List Text) → GlobalArgs → Act S (ℤ × GlobalArgs × Option Text)
  unfolding find_subcmd_hndlr check_for_help_cmd get_container_from_env call_hndlr
  parse_command_line_args [] gvars = pure (aiopt_failure, gvars, none)
  parse_command_line_args (prog ∷ []) gvars = pure (aiopt_failure, gvars, none)
  parse_command_line_args (prog ∷ cmd ∷ args) gvars =
      if is_zero (check_for_help_cmd (cmd ∷ args))
      then pure (aiopt_failure, gvars, none)
      else elim (find_subcmd_hndlr cmd) [
        | none ↦ pure (aiopt_failure, gvars, none)
        | some h ↦ (do
          gvars' ← get_container_from_env os gvars
          (ret, gvars'') ← call_hndlr h (cmd ∷ args) gvars'
          pure ((if not (is_zero ret) then aiopt_failure else aiopt_success), gvars'', some cmd))
      ]
