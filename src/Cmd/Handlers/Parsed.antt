-- ===== src/Cmd/Handlers/Parsed.antt =====
-- The whole command line.
use gpp_aioptool.Base.{
  ◌≡◌, ◌≢◌, refl, ap, ◌∙◌, inl, inr, ◌⊎◌, Bool, true, false, not, ◌||◌, [], ◌∷◌, List, Option, some,
  ℤ, is_zero, arith, Text, codes, str_eq, str_eq_iff, pure, ◌>>=◌, Returns, Returns-bind,
  if◌then◌else◌, Bool-cases, Option-cases,
}
use gpp_aioptool.Os.{Os}
use gpp_aioptool.Aiop.Types.{aiopt_success, aiopt_failure}
use gpp_aioptool.Cmd.Types.{GlobalArgs, Libc, OptEvent, zero_args, container_env_var}
use gpp_aioptool.Cmd.Options.Valid.{IsValid, container_of, flags_of, Values, values_of}
use gpp_aioptool.Cmd.Options.Loop.{
  container_from, flags_from, flags_from-gives, values_from, gives, gives_image, AllAllowed,
  AllUsable,
}
use gpp_aioptool.Cmd.Handlers.{
  Hndlr, find_subcmd_hndlr, check_for_help_cmd, call_hndlr, parse_command_line_args,
}
use gpp_aioptool.Cmd.Handlers.Outcome.{
  name_of, options_of, container_of_env, finished, FromEnv, Ran, HndlrPost, find_subcmd_hndlr_iff,
  get_container_from_env_lem, call_hndlr_lem,
}

-- The flags of an accepted command line: `-r`, or the sub-command `reset`, asks for a reset, `-d`
-- for debug messages, `-d` and `-v` for verbose ones.
abbrev pub flags_given : Hndlr → List OptEvent → Bool × Bool × Bool
flags_given Hndlr.reset es = (true, gives b'd' es, gives b'd' es || gives b'v' es)
flags_given other es = (gives b'r' es, gives b'd' es, gives b'd' es || gives b'v' es)

-- No argument asks for help, or for the version.
abbrev pub NoHelp : List Text → Type 0
NoHelp [] = Unit {0}
NoHelp (arg ∷ argv) =
    (arg ≢ codes "-h")
    × (arg ≢ codes "--help")
    × (arg ≢ codes "-help")
    × (arg ≢ codes "-version")
    × (arg ≢ codes "--version")
    × (arg ≢ codes "--?")
    × (arg ≢ codes "-?")
    × NoHelp argv

not_text : (arg text : Text) → str_eq arg text ≡ false → arg ≢ text
not_text arg text differs same = absurd (ground (arith, differs, (str_eq_iff arg text).1 same))

check_for_help_cmd-NoHelp :
    (argv : List Text) → is_zero (check_for_help_cmd argv) ≡ false → NoHelp argv
unfolding check_for_help_cmd
check_for_help_cmd-NoHelp [] none_asked = tt
check_for_help_cmd-NoHelp (arg ∷ argv) none_asked = (
  not_text arg _ (ground (arith, none_asked)),
  not_text arg _ (ground (arith, none_asked)),
  not_text arg _ (ground (arith, none_asked)),
  not_text arg _ (ground (arith, none_asked)),
  not_text arg _ (ground (arith, none_asked)),
  not_text arg _ (ground (arith, none_asked)),
  not_text arg _ (ground (arith, none_asked)),
  check_for_help_cmd-NoHelp argv (ground (arith, none_asked)),
)

-- No files, no threads per core and no time.
abbrev pub no_values : Values
no_values = ([], [], (false, 0), (false, 0))

module _ {S : Type 0} (os : Os S) (libc : Libc) (verbose : Bool) where
  -- What it means that the arguments `argv`, from the sub-command on, are accepted.
  pub record Parsed (cmd : Text) (argv : List Text) (env : Option Text) (g : GlobalArgs)
      (sub_cmd_name : Option Text) : Type 0 where
    pub hndlr : Hndlr
    pub named : cmd ≡ name_of hndlr
    pub recorded : sub_cmd_name ≡ some cmd
    pub not_help : hndlr ≢ Hndlr.help
    pub no_help_asked : NoHelp argv
    pub allowed : AllAllowed (options_of hndlr) (libc.getopt_long argv)
    pub container : container_of g ≡ container_from (libc.getopt_long argv) (container_of_env env)
    pub image : hndlr ≡ Hndlr.load → gives_image (libc.getopt_long argv) ≡ true
    pub flags : flags_of g ≡ flags_given hndlr (libc.getopt_long argv)
    pub values : values_of g ≡ values_from libc (libc.getopt_long argv) no_values

  abbrev pub ParsePost : Text → List Text → Option Text → ℤ × GlobalArgs × Option Text → S → Type 0
  ParsePost cmd argv env (r, g, name) s =
      IsValid g × ((is_zero r ≡ false) ⊎ Parsed cmd argv env g name)

  container_of-finished :
      (h : Hndlr) (g : GlobalArgs) → container_of (finished h g) ≡ container_of g
  container_of-finished Hndlr.help g = refl
  container_of-finished Hndlr.load g = refl
  container_of-finished Hndlr.reset g = refl
  container_of-finished Hndlr.status g = refl
  container_of-finished Hndlr.gettod g = refl
  container_of-finished Hndlr.settod g = refl

  values_of-finished : (h : Hndlr) (g : GlobalArgs) → values_of (finished h g) ≡ values_of g
  values_of-finished Hndlr.help g = refl
  values_of-finished Hndlr.load g = refl
  values_of-finished Hndlr.reset g = refl
  values_of-finished Hndlr.status g = refl
  values_of-finished Hndlr.gettod g = refl
  values_of-finished Hndlr.settod g = refl

  Ran-flags :
      (h : Hndlr) (argv : List Text) (g g' : GlobalArgs)
      → flags_of g ≡ (false, false, false)
      → Ran os libc verbose h argv g g'
      → flags_of g' ≡ flags_given h (libc.getopt_long argv)
  Ran-flags h argv g g' start ran =
      let es = libc.getopt_long argv in
      let given =
        ran.accepted.flags ∙ ap (flags_from es) start ∙ flags_from-gives es false false false in
      ap flags_of ran.changed ∙ by_hndlr h es ran.after_options given
    where
      by_hndlr :
          (h : Hndlr) (es : List OptEvent) (g' : GlobalArgs)
          → flags_of g' ≡ (gives b'r' es, gives b'd' es, gives b'd' es || gives b'v' es)
          → flags_of (finished h g') ≡ flags_given h es
      by_hndlr Hndlr.reset es g' given = ground (arith, given)
      by_hndlr Hndlr.help es g' given = given
      by_hndlr Hndlr.load es g' given = given
      by_hndlr Hndlr.status es g' given = given
      by_hndlr Hndlr.gettod es g' given = given
      by_hndlr Hndlr.settod es g' given = given

  Ran-image :
      (h : Hndlr) (argv : List Text) (g g' : GlobalArgs)
      → g.image_file_flag ≡ false
      → Ran os libc verbose h argv g g'
      → h ≡ Hndlr.load
      → gives_image (libc.getopt_long argv) ≡ true
  Ran-image Hndlr.load argv g g' start ran e =
      ground (arith, start, ran.complete, ran.accepted.image)
  Ran-image Hndlr.help argv g g' start ran e = ground (arith, e)
  Ran-image Hndlr.reset argv g g' start ran e = ground (arith, e)
  Ran-image Hndlr.status argv g g' start ran e = ground (arith, e)
  Ran-image Hndlr.gettod argv g g' start ran e = ground (arith, e)
  Ran-image Hndlr.settod argv g g' start ran e = ground (arith, e)

  zero_args-IsValid : IsValid zero_args
  zero_args-IsValid = record {
    container_fits = ground arith;
    container_from = ground arith;
    image_fits = ground arith;
    args_fits = ground arith;
    tpc_range = ground arith;
  }

  -- The sub-command, in the structure `g` that the environment has prepared.
  call_hndlr-parsed :
      (cmd : Text) (argv : List Text) (env : Option Text) (h : Hndlr) (g : GlobalArgs) (s : S)
      → is_zero (check_for_help_cmd argv) ≡ false
      → cmd ≡ name_of h
      → AllUsable (libc.getopt_long argv)
      → IsValid g
      → container_of g ≡ container_of_env env
      → g.image_file_flag ≡ false
      → flags_of g ≡ (false, false, false)
      → values_of g ≡ no_values
      → Returns (ParsePost cmd argv env) (
          (do
            (ret, g') ← call_hndlr os libc verbose h argv g
            pure ((if not (is_zero ret) then aiopt_failure else aiopt_success), g', some cmd))
            s)
  call_hndlr-parsed cmd argv env h g s no_help named u v start image flags values =
      Returns-bind (HndlrPost os libc verbose h argv g) (ParsePost cmd argv env) _ _
        (call_hndlr_lem os libc verbose h argv g s u v) (λ (r, g') s' p. (p.0, decided r g' p.1))
    where
      parsed :
          (r : ℤ) (g' : GlobalArgs)
          → (is_zero r ≡ true → (h ≢ Hndlr.help) × Ran os libc verbose h argv g g')
          → is_zero r ≡ true
          → Parsed cmd argv env g' (some cmd)
      parsed r g' p z =
          let (not_help, ran) = p z in
          record {
            hndlr = h;
            named = named;
            recorded = refl;
            not_help = not_help;
            no_help_asked = check_for_help_cmd-NoHelp argv no_help;
            allowed = ran.accepted.allowed;
            container =
                ap container_of ran.changed
                ∙ container_of-finished h ran.after_options
                ∙ ran.accepted.container
                ∙ ap (container_from (libc.getopt_long argv)) start;
            image = Ran-image h argv g g' image ran;
            flags = Ran-flags h argv g g' flags ran;
            values =
                ap values_of ran.changed
                ∙ values_of-finished h ran.after_options
                ∙ ran.accepted.values
                ∙ ap (values_from libc (libc.getopt_long argv)) values;
          }

      decided :
          (r : ℤ) (g' : GlobalArgs)
          → (is_zero r ≡ true → (h ≢ Hndlr.help) × Ran os libc verbose h argv g g')
          → (is_zero (if not (is_zero r) then aiopt_failure else aiopt_success) ≡ false)
            ⊎ Parsed cmd argv env g' (some cmd)
      decided r g' p = elim (Bool-cases (is_zero r)) [
        | inl ok ↦ inr (parsed r g' p ok)
        | inr failed ↦ inl (rw failed refl)
      ]

  -- From the zero structure, if `-g` and `-c` come with their arguments and all arguments are
  -- shorter than 256 bytes, parsing returns, without an error of memory, and every text fits its
  -- buffer. Either it fails, or: the sub-command is a named one other than help, no argument asks
  -- for help or the version, the sub-command takes each of the options, the container is the last
  -- `-g` of 1 to 9 bytes, or else that of the environment, or else the default, a load was given
  -- an image, the flags for a reset, for debug messages and for verbose ones are those that `-r`
  -- or the sub-command `reset`, `-d`, and `-d` or `-v` ask for, the two files are those of the
  -- last `-f` and the last `-a`, the threads per core are the number of the last `-c`, or 0 if it
  -- is not between 1 and 16, and the time is that of the last `-t` whose text `strtoul` reads to
  -- its end, without an error, or with one that comes with a value other than 0 and is not
  -- `ERANGE` with the largest or the smallest `long`.
  pub parse_command_line_args_lem :
      (prog cmd : Text) (args : List Text) (s : S)
      → AllUsable (libc.getopt_long (cmd ∷ args))
      → Returns
          (ParsePost cmd (cmd ∷ args) (os.getenv container_env_var s))
          (parse_command_line_args os libc verbose (prog ∷ cmd ∷ args) zero_args s)
  unfolding parse_command_line_args
  parse_command_line_args_lem prog cmd args s u =
      elim (Bool-cases (is_zero (check_for_help_cmd (cmd ∷ args)))) [
        | inl asked ↦ rw asked (zero_args-IsValid, inl refl)
        | inr no_help ↦ rw no_help (elim (Option-cases (find_subcmd_hndlr cmd)) [
          | inl unknown ↦ rw unknown (zero_args-IsValid, inl refl)
          | inr (h, found) ↦ rw found (
              Returns-bind (FromEnv os zero_args s)
                (ParsePost cmd (cmd ∷ args) (os.getenv container_env_var s)) _ _
                (get_container_from_env_lem os zero_args s zero_args-IsValid)
                (λ g s' (v, start, image, flags, values, same).
                  call_hndlr-parsed cmd (cmd ∷ args) _ h g s' no_help
                    ((find_subcmd_hndlr_iff cmd h).0 found) u v start image flags values))
        ])
      ]
