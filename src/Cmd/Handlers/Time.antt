-- ===== src/Cmd/Handlers/Time.antt =====
-- The time that the command line leaves, if `strtoul` returns values of 64 bits. An invariant `I` of
-- the state is carried along, which the look at a file keeps.
use gpp_aioptool.Base.{
  ◌<◌, ◌^◌, arith, not, is_zero, ◌||◌, ltb, leb, length, List, [], ◌∷◌, Option, none, some, ℤ, Text,
  true, inl, inr, IfDone, IfDone-if, IfDone-bind, Bool, Option-cases,
}
use gpp_aioptool.Os.{Os}
use gpp_aioptool.Cmd.Types.{GlobalArgs, Libc, OptEvent, max_path_len}
use gpp_aioptool.Cmd.Args.{
  container_name_from_args, image_file_from_args, args_file_from_args, thread_per_core_from_args,
  reset_flag_from_args, debug_flag_from_args, verbose_flag_from_args, timeofday_from_args, file_ok,
  get_container_from_env, container_name_from_env,
}
use gpp_aioptool.Cmd.Options.{
  container_option, guarded, handle_option, options_loop, generic_cmd_hndlr,
}
use gpp_aioptool.Cmd.Handlers.{
  Hndlr, hndlr_with, help_cmd_hndlr, load_cmd_hndlr, reset_cmd_hndlr, gettod_cmd_hndlr,
  settod_cmd_hndlr, status_cmd_hndlr, call_hndlr, parse_command_line_args, find_subcmd_hndlr,
  check_for_help_cmd, dump_cmdline_args,
}

abbrev pub TimeFits : GlobalArgs → Type 0
TimeFits g = g.tod_val < 2 ^ 64

module _ {S : Type 0} (os : Os S) (libc : Libc)
    (fits : (text : Text) → (libc.strtoul text).value < 2 ^ 64) (I : S → Type 0)
    (access_keeps : (path : Text) (s : S) → I s → I (os.access path s).1)
    (stat_keeps : (path : Text) (s : S) → I s → I (os.stat path s).1) where
  abbrev Fits : ℤ × GlobalArgs → S → Type 0
  Fits (r, g) s = TimeFits g × I s

  time_lem :
      (arg : Option Text) (g : GlobalArgs)
      → TimeFits g
      → TimeFits (timeofday_from_args libc arg g).1
  unfolding timeofday_from_args
  time_lem none g v = v
  time_lem (some text) g v = ground (arith, v, fits text)

  file_lem : (file : Text) (s : S) → I s → IfDone (λ r s'. I s') (file_ok os file s)
  unfolding file_ok
  file_lem file s i =
      let accessed = os.access file s in
      let looked = os.stat file accessed.1 in
      let i1 = access_keeps file s i in
      let i2 = stat_keeps file accessed.1 i1 in
      IfDone-if (λ r s'. I s') (leb (length file) 0 || ltb max_path_len (length file)) _ _ _
        (λ bad. i)
        (λ fine.
          IfDone-if (λ r s'. I s') (not (is_zero accessed.0)) _ _ _ (λ missing. i1)
            (λ there.
              IfDone-if (λ r s'. I s') (not (is_zero looked.0.0)) _ _ _ (λ failed. i2)
                (λ known. i2)))

  image_lem :
      (arg : Option Text) (g : GlobalArgs) (s : S)
      → TimeFits g × I s
      → IfDone Fits (image_file_from_args os arg g s)
  unfolding image_file_from_args
  image_lem none g s v = v
  image_lem (some file) g s v =
      IfDone-bind (λ r s'. I s') Fits _ _ (file_lem file s v.1)
        (λ valid s' i. ground (arith, v.0, i))

  args_lem :
      (arg : Option Text) (g : GlobalArgs) (s : S)
      → TimeFits g × I s
      → IfDone Fits (args_file_from_args os arg g s)
  unfolding args_file_from_args
  args_lem none g s v = v
  args_lem (some file) g s v =
      IfDone-bind (λ r s'. I s') Fits _ _ (file_lem file s v.1)
        (λ valid s' i. ground (arith, v.0, i))

  handle_option_lem :
      (valid_args : Text) (e : OptEvent) (g : GlobalArgs) (s : S)
      → TimeFits g × I s
      → IfDone Fits (handle_option os libc valid_args e g s)
  unfolding handle_option guarded container_option container_name_from_args
      thread_per_core_from_args reset_flag_from_args debug_flag_from_args verbose_flag_from_args
  handle_option_lem valid_args e g s v =
      ground (arith, v, time_lem e.optarg g v.0, image_lem e.optarg g s v, args_lem e.optarg g s v)

  options_loop_lem :
      (valid_args : Text) (es : List OptEvent) (g : GlobalArgs) (s : S)
      → TimeFits g × I s
      → IfDone Fits (options_loop os libc valid_args es g s)
  unfolding options_loop
  options_loop_lem valid_args [] g s v = v
  options_loop_lem valid_args (e ∷ es) g s v =
      IfDone-bind Fits Fits _ _ (handle_option_lem valid_args e g s v) (λ (ret, g') s' v'.
        IfDone-if Fits (not (is_zero ret)) _ _ _ (λ failed. v')
          (λ fine. options_loop_lem valid_args es g' s' v'))

  hndlr_with_lem :
      (verbose : Bool) (valid_args : Text) (missing : GlobalArgs → Bool)
      (finish : GlobalArgs → GlobalArgs) (argv : List Text) (g : GlobalArgs) (s : S)
      → TimeFits g × I s
      → ((g' : GlobalArgs) → TimeFits g' → TimeFits (finish g'))
      → IfDone Fits (hndlr_with os libc verbose valid_args missing finish argv g s)
  unfolding hndlr_with generic_cmd_hndlr dump_cmdline_args
  hndlr_with_lem verbose valid_args missing finish argv g s v keeps =
      IfDone-bind Fits Fits _ _
        (IfDone-bind Fits Fits _ _ (options_loop_lem valid_args (libc.getopt_long argv) g s v)
          (λ (ret, g') s' v'. v'))
        (λ (ret, g') s' v'.
          IfDone-if Fits (not (is_zero ret)) _ _ _ (λ failed. v')
            (λ fine.
              IfDone-if Fits (missing g') _ _ _ (λ lacks. v')
                (λ complete. ground (arith, keeps g' v'.0, v'))))

  call_hndlr_lem :
      (verbose : Bool) (h : Hndlr) (argv : List Text) (g : GlobalArgs) (s : S)
      → TimeFits g × I s
      → IfDone Fits (call_hndlr os libc verbose h argv g s)
  unfolding call_hndlr help_cmd_hndlr load_cmd_hndlr reset_cmd_hndlr status_cmd_hndlr
      gettod_cmd_hndlr settod_cmd_hndlr reset_flag_from_args
  call_hndlr_lem verbose Hndlr.help argv g s v = v
  call_hndlr_lem verbose Hndlr.load argv g s v =
      hndlr_with_lem verbose _ _ (λ g'. g') argv g s v (λ g' w. w)
  call_hndlr_lem verbose Hndlr.reset argv g s v =
      hndlr_with_lem verbose _ _ reset_flag_from_args argv g s v (λ g' w. w)
  call_hndlr_lem verbose Hndlr.status argv g s v =
      hndlr_with_lem verbose _ _ (λ g'. record g' { status_flag = true }) argv g s v (λ g' w. w)
  call_hndlr_lem verbose Hndlr.gettod argv g s v =
      hndlr_with_lem verbose _ _ (λ g'. g') argv g s v (λ g' w. w)
  call_hndlr_lem verbose Hndlr.settod argv g s v =
      hndlr_with_lem verbose _ _ (λ g'. g') argv g s v (λ g' w. w)

  env_lem :
      (g : GlobalArgs) (s : S)
      → TimeFits g × I s
      → IfDone (λ g' s'. TimeFits g' × I s') (get_container_from_env os g s)
  unfolding get_container_from_env container_name_from_env
  env_lem g s v = ground (arith, v)

  abbrev pub ParsedTime : ℤ × GlobalArgs × Option Text → S → Type 0
  ParsedTime (r, g, name) s = TimeFits g × I s

  pub parse_command_line_args-TimeFits :
      (verbose : Bool) (argv : List Text) (g : GlobalArgs) (s : S)
      → TimeFits g × I s
      → IfDone ParsedTime (parse_command_line_args os libc verbose argv g s)
  unfolding parse_command_line_args
  parse_command_line_args-TimeFits verbose [] g s v = v
  parse_command_line_args-TimeFits verbose (prog ∷ []) g s v = v
  parse_command_line_args-TimeFits verbose (prog ∷ cmd ∷ args) g s v =
      IfDone-if ParsedTime (is_zero (check_for_help_cmd (cmd ∷ args))) _ _ s (λ help. v)
        (λ no_help. elim (Option-cases (find_subcmd_hndlr cmd)) [
          | inl unknown ↦ rw unknown v
          | inr (h, e) ↦ rw e (
              IfDone-bind (λ g' s'. TimeFits g' × I s') ParsedTime _ _ (env_lem g s v)
                (λ g' s' v'.
                  IfDone-bind Fits ParsedTime _ _ (call_hndlr_lem verbose h (cmd ∷ args) g' s' v')
                    (λ (ret, g'') s'' v''. v'')))
        ])
