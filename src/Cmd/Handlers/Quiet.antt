-- ===== src/Cmd/Handlers/Quiet.antt =====
-- The command lines that cannot fail: a sub-command with no mandatory option, and options that
-- check nothing.
use gpp_aioptool.Base.{
  ◌≤◌, ◌==◌, ◌≡◌, refl, Bool, true, false, not, List, [], ◌∷◌, some, Option, ℤ, is_zero, arith,
  Text, codes, pure, ◌>>◌, Returns, Returns-bind, if◌then◌else◌,
}
use gpp_aioptool.Os.{Os}
use gpp_aioptool.Aiop.Types.{aiopt_success, aiopt_failure}
use gpp_aioptool.Cmd.Types.{GlobalArgs, Libc, OptEvent}
use gpp_aioptool.Cmd.Args.{
  has_char, check_if_valid_arg, container_name_from_args, debug_flag_from_args,
  verbose_flag_from_args, get_container_from_env, container_name_from_env, reset_flag_from_args,
}
use gpp_aioptool.Cmd.Options.{
  container_option, guarded, handle_option, options_loop, generic_cmd_hndlr,
}
use gpp_aioptool.Cmd.Handlers.{
  Hndlr, check_for_help_cmd, dump_cmdline_args, hndlr_with, reset_cmd_hndlr, status_cmd_hndlr,
  gettod_cmd_hndlr, call_hndlr, parse_command_line_args,
}
use gpp_aioptool.Cmd.Handlers.Outcome.{name_of, find_subcmd_hndlr_iff}

-- `-g` with an argument, `-d`, or `-v`.
pub data IsQuiet : OptEvent → Type 0 where
  container : (arg : Text) → IsQuiet (record { opt = b'g'; optarg = some arg })
  debug : (arg : Option Text) → IsQuiet (record { opt = b'd'; optarg = arg })
  verbose : (arg : Option Text) → IsQuiet (record { opt = b'v'; optarg = arg })

abbrev pub AllQuiet : List OptEvent → Type 0
AllQuiet [] = Unit {0}
AllQuiet (e ∷ es) = IsQuiet e × AllQuiet es

-- The sub-commands whose only options are these.
pub data IsSimple : Hndlr → Type 0 where
  reset_simple : IsSimple Hndlr.reset
  status_simple : IsSimple Hndlr.status
  gettod_simple : IsSimple Hndlr.gettod

-- The container has a name.
abbrev IsNamed : GlobalArgs → Type 0
IsNamed g = (1 ≤ g.container_name_flag) × (g.container_name_flag ≤ 3)

abbrev Fine : {S : Type 0} → ℤ × GlobalArgs → S → Type 0
Fine (r, g) s = (r ≡ aiopt_success) × IsNamed g

module _ {S : Type 0} (os : Os S) (libc : Libc) where
  handle_option-IsQuiet :
      (e : OptEvent) (g : GlobalArgs) (s : S)
      → IsQuiet e
      → IsNamed g
      → Returns Fine (handle_option os libc (codes "gdv") e g s)
  unfolding handle_option guarded container_option container_name_from_args debug_flag_from_args
      verbose_flag_from_args check_if_valid_arg has_char
  handle_option-IsQuiet _ g s (container arg) named = ground arith
  handle_option-IsQuiet _ g s (debug arg) named = (refl, named)
  handle_option-IsQuiet _ g s (verbose arg) named = (refl, named)

  options_loop-AllQuiet :
      (es : List OptEvent) (g : GlobalArgs) (s : S)
      → AllQuiet es
      → IsNamed g
      → Returns Fine (options_loop os libc (codes "gdv") es g s)
  unfolding options_loop
  options_loop-AllQuiet [] g s quiet named = (refl, named)
  options_loop-AllQuiet (e ∷ es) g s (q, quiet) named =
      Returns-bind Fine Fine _ _ (handle_option-IsQuiet e g s q named)
        (λ (r, g') s' (ok, named'). rw ok (options_loop-AllQuiet es g' s' quiet named'))

  module _ (verbose : Bool) where
    hndlr_with-AllQuiet :
        (finish : GlobalArgs → GlobalArgs) (argv : List Text) (g : GlobalArgs) (s : S)
        → ((g' : GlobalArgs) → (finish g').container_name_flag ≡ g'.container_name_flag)
        → AllQuiet (libc.getopt_long argv)
        → IsNamed g
        → Returns Fine (
            hndlr_with os libc verbose
              (codes "gdv")
              (λ g'. g'.container_name_flag == 0)
              finish
              argv
              g
              s)
    unfolding hndlr_with generic_cmd_hndlr dump_cmdline_args
    hndlr_with-AllQuiet finish argv g s keeps quiet named =
        Returns-bind Fine Fine _ _
          (Returns-bind Fine Fine _
            (λ (r, g'). pure ((if not (is_zero r) then aiopt_failure else aiopt_success), g'))
            (options_loop-AllQuiet (libc.getopt_long argv) g s quiet named)
            (λ (r, g') s' (ok, named'). rw ok (refl, named')))
          (λ (r, g') s' (ok, named'). rw ok (finishing g' s' named'))
      where
        finishing :
            (g' : GlobalArgs) (s' : S)
            → IsNamed g'
            → Returns Fine (
                (if g'.container_name_flag == 0
                    then pure (aiopt_failure, g')
                    else do dump_cmdline_args verbose (finish g'); pure (aiopt_success, finish g'))
                  s')
        finishing g' s' named' = ground (arith, keeps g')

    call_hndlr-IsSimple :
        (h : Hndlr) (argv : List Text) (g : GlobalArgs) (s : S)
        → IsSimple h
        → AllQuiet (libc.getopt_long argv)
        → IsNamed g
        → Returns Fine (call_hndlr os libc verbose h argv g s)
    unfolding call_hndlr reset_cmd_hndlr status_cmd_hndlr gettod_cmd_hndlr reset_flag_from_args
    call_hndlr-IsSimple _ argv g s reset_simple quiet named =
        hndlr_with-AllQuiet reset_flag_from_args argv g s (λ g'. refl) quiet named
    call_hndlr-IsSimple _ argv g s status_simple quiet named =
        hndlr_with-AllQuiet (λ g'. record g' { status_flag = true }) argv g s (λ g'. refl) quiet
          named
    call_hndlr-IsSimple _ argv g s gettod_simple quiet named =
        hndlr_with-AllQuiet (λ g'. g') argv g s (λ g'. refl) quiet named

    from_env-IsNamed :
        (g : GlobalArgs) (s : S) → Returns (λ g' s'. IsNamed g') (get_container_from_env os g s)
    unfolding get_container_from_env container_name_from_env
    from_env-IsNamed g s = ground arith

    -- A command line succeeds if its sub-command is `reset`, `status` or `gettod`, no help is
    -- asked for, and its options are `-g` with an argument, `-d` and `-v` only, whatever the
    -- environment holds.
    pub parse_command_line_args-AllQuiet :
        (prog : Text) (h : Hndlr) (args : List Text) (g : GlobalArgs) (s : S)
        → IsSimple h
        → is_zero (check_for_help_cmd (name_of h ∷ args)) ≡ false
        → AllQuiet (libc.getopt_long (name_of h ∷ args))
        → Returns
            (λ (r, g', name) s'. r ≡ aiopt_success)
            (parse_command_line_args os libc verbose (prog ∷ name_of h ∷ args) g s)
    unfolding parse_command_line_args
    parse_command_line_args-AllQuiet prog h args g s simple no_help quiet = rw no_help (
        rw ((find_subcmd_hndlr_iff (name_of h) h).1 refl) (
          Returns-bind (λ g' s'. IsNamed g') (λ (r, g', name) s'. r ≡ aiopt_success) _ _
            (from_env-IsNamed g s)
            (λ g' s' named.
              Returns-bind Fine (λ (r, g', name) s'. r ≡ aiopt_success) _
                (λ (ret, g''). pure (
                  (if not (is_zero ret) then aiopt_failure else aiopt_success),
                  g'',
                  some (name_of h),
                ))
                (call_hndlr-IsSimple h (name_of h ∷ args) g' s' simple quiet named)
                (λ (r, g'') s'' (ok, named'). rw ok refl))))
