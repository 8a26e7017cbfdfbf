-- ===== src/Cmd/Handlers/Outcome.antt =====
-- What a command line that is accepted means.
use gpp_aioptool.Base.{
  ℕ, ◌≡◌, refl, sym, subst, inl, inr, ◌↔◌, ◌≢◌, Bool, true, false, not, ◌||◌, List, [], ◌∷◌, Option,
  none, some, ℤ, is_zero, arith, Text, codes, str_eq, str_eq_iff, done, pure, ◌>>◌, Returns,
  Returns-bind, leb, length, ◌==◌, if◌then◌else◌, Bool-cases,
}
use gpp_aioptool.Os.{Os}
use gpp_aioptool.Aiop.Types.{aiopt_success, aiopt_failure}
use gpp_aioptool.Cmd.Types.{GlobalArgs, Libc, container_env_var, default_dprc_name}
use gpp_aioptool.Cmd.Args.{container_name_from_env, get_container_from_env, reset_flag_from_args}
use gpp_aioptool.Cmd.Options.{generic_cmd_hndlr}
use gpp_aioptool.Cmd.Options.Valid.{IsValid, container_of, flags_of, values_of}
use gpp_aioptool.Cmd.Options.Loop.{AllUsable, AllAccepted, LoopPost, options_loop_lem}
use gpp_aioptool.Cmd.Handlers.{
  Hndlr, cmd_table, find_subcmd_hndlr, search_table, dump_cmdline_args, hndlr_with, help_cmd_hndlr,
  load_cmd_hndlr, reset_cmd_hndlr, status_cmd_hndlr, gettod_cmd_hndlr, settod_cmd_hndlr, call_hndlr,
}

-- The name of a sub-command, and the options that it takes.
abbrev pub name_of : Hndlr → Text
name_of Hndlr.help = codes "help"
name_of Hndlr.load = codes "load"
name_of Hndlr.reset = codes "reset"
name_of Hndlr.status = codes "status"
name_of Hndlr.gettod = codes "gettod"
name_of Hndlr.settod = codes "settod"

abbrev pub options_of : Hndlr → Text
options_of Hndlr.help = []
options_of Hndlr.load = codes "gafrdvc"
options_of Hndlr.reset = codes "gdv"
options_of Hndlr.status = codes "gdv"
options_of Hndlr.gettod = codes "gdv"
options_of Hndlr.settod = codes "gtdv"

-- Each entry of a table stands under the name of its handler.
abbrev NamesAgree : List (Text × Hndlr) → Type 0
NamesAgree [] = Unit {0}
NamesAgree ((name, h) ∷ rest) = (name ≡ name_of h) × NamesAgree rest

search_table_sound :
    (table : List (Text × Hndlr)) (cmd : Text) (h : Hndlr)
    → NamesAgree table
    → search_table table cmd ≡ some h
    → cmd ≡ name_of h
unfolding search_table
search_table_sound [] cmd h agree found = ground (arith, found)
search_table_sound ((name, h') ∷ rest) cmd h (here, there) found =
    elim (Bool-cases (str_eq name cmd)) [
      | inl hit ↦ cc (here, found_here hit, (str_eq_iff name cmd).0 hit)
      | inr miss ↦ search_table_sound rest cmd h there (rw miss at found)
    ]
  where
    found_here : str_eq name cmd ≡ true → h' ≡ h
    found_here hit = ground (arith, rw hit at found)

-- A sub-command is found by its name and by no other text.
pub find_subcmd_hndlr_iff :
    (cmd : Text) (h : Hndlr) → (find_subcmd_hndlr cmd ≡ some h) ↔ (cmd ≡ name_of h)
unfolding find_subcmd_hndlr search_table
find_subcmd_hndlr_iff cmd h = (
  search_table_sound cmd_table cmd h (refl, (refl, (refl, (refl, (refl, (refl, tt)))))),
  λ named. subst (λ t. find_subcmd_hndlr t ≡ some h) (sym named) (each h),
)
  where
    each : (h : Hndlr) → find_subcmd_hndlr (name_of h) ≡ some h
    each Hndlr.help = refl
    each Hndlr.load = refl
    each Hndlr.reset = refl
    each Hndlr.status = refl
    each Hndlr.gettod = refl
    each Hndlr.settod = refl

-- The container before the options: the variable `DPRC` if it is set to at most 9 bytes, and
-- otherwise `dprc.5`.
abbrev pub container_of_env : Option Text → ℕ × Text
container_of_env none = (1, default_dprc_name)
container_of_env (some name) = if leb (length name) 9 then (2, name) else (1, default_dprc_name)

abbrev pub FromEnv : {S : Type 0} → Os S → GlobalArgs → S → GlobalArgs → S → Type 0
FromEnv os g s g' s' =
    IsValid g'
    × (container_of g' ≡ container_of_env (os.getenv container_env_var s))
    × (g'.image_file_flag ≡ g.image_file_flag)
    × (flags_of g' ≡ flags_of g)
    × (values_of g' ≡ values_of g)
    × (s' ≡ s)

pub get_container_from_env_lem :
    {S : Type 0} (os : Os S) (g : GlobalArgs) (s : S)
    → IsValid g
    → Returns (FromEnv os g s) (get_container_from_env os g s)
unfolding get_container_from_env container_name_from_env
get_container_from_env_lem os g s v = ground arith

pub dump_cmdline_args_lem :
    {S : Type 0} (verbose : Bool) (g : GlobalArgs) (s : S)
    → IsValid g
    → dump_cmdline_args verbose g s ≡ done tt s
unfolding dump_cmdline_args
dump_cmdline_args_lem verbose g s v = ground arith

-- What a sub-command finds missing after its options, and what it changes before it returns.
abbrev pub is_missing : Hndlr → GlobalArgs → Bool
is_missing Hndlr.load g = g.container_name_flag == 0 || not g.image_file_flag
is_missing Hndlr.settod g = g.container_name_flag == 0 || not g.tod_flag
is_missing other g = g.container_name_flag == 0

abbrev pub finished : Hndlr → GlobalArgs → GlobalArgs
finished Hndlr.reset g = record g { reset_flag = true }
finished Hndlr.status g = record g { status_flag = true }
finished other g = g

module _ {S : Type 0} (os : Os S) (libc : Libc) (verbose : Bool) where
  -- What an accepted sub-command has done to the global structure.
  pub record Ran (h : Hndlr) (argv : List Text) (g g' : GlobalArgs) : Type 0 where
    pub after_options : GlobalArgs
    pub accepted : AllAccepted libc (options_of h) (libc.getopt_long argv) g after_options
    pub complete : is_missing h after_options ≡ false
    pub changed : g' ≡ finished h after_options

  abbrev pub HndlrPost : Hndlr → List Text → GlobalArgs → ℤ × GlobalArgs → S → Type 0
  HndlrPost h argv g (r, g') s' =
      IsValid g' × (is_zero r ≡ true → (h ≢ Hndlr.help) × Ran h argv g g')

  generic_cmd_hndlr_lem :
      (valid_args : Text) (argv : List Text) (g : GlobalArgs) (s : S)
      → AllUsable (libc.getopt_long argv)
      → IsValid g
      → Returns
          (LoopPost os libc valid_args (libc.getopt_long argv) g)
          (generic_cmd_hndlr os libc valid_args argv g s)
  unfolding generic_cmd_hndlr
  generic_cmd_hndlr_lem valid_args argv g s u v =
      Returns-bind _ (LoopPost os libc valid_args (libc.getopt_long argv) g) _
        (λ (r, g'). pure ((if not (is_zero r) then aiopt_failure else aiopt_success), g'))
        (options_loop_lem os libc valid_args (libc.getopt_long argv) g s u v)
        (λ (r, g') s' p. (p.0, λ z. p.1 (was_zero r z)))
    where
      was_zero :
          (r : ℤ)
          → is_zero (if not (is_zero r) then aiopt_failure else aiopt_success) ≡ true
          → is_zero r ≡ true
      was_zero r z = ground (arith, z)

  hndlr_with_lem :
      (h : Hndlr) (argv : List Text) (g : GlobalArgs) (s : S)
      → h ≢ Hndlr.help
      → ((g' : GlobalArgs) → IsValid g' → IsValid (finished h g'))
      → AllUsable (libc.getopt_long argv)
      → IsValid g
      → Returns
          (HndlrPost h argv g)
          (hndlr_with os libc verbose (options_of h) (is_missing h) (finished h) argv g s)
  unfolding hndlr_with
  hndlr_with_lem h argv g s no_help keeps u v =
      Returns-bind (LoopPost os libc (options_of h) (libc.getopt_long argv) g) (HndlrPost h argv g)
        _ _ (generic_cmd_hndlr_lem (options_of h) argv g s u v) (λ (r, g') s' p. finish r g' s' p)
    where
      finish :
          (r : ℤ) (g' : GlobalArgs) (s' : S)
          → LoopPost os libc (options_of h) (libc.getopt_long argv) g (r, g') s'
          → Returns (HndlrPost h argv g) (
              (if not (is_zero r)
                  then pure (aiopt_failure, g')
                  else if is_missing h g'
                  then pure (aiopt_failure, g')
                  else do
                    dump_cmdline_args verbose (finished h g')
                    pure (aiopt_success, finished h g'))
                s')
      finish r g' s' p = elim (Bool-cases (is_zero r)) [
        | inr failed ↦ rw failed (p.0, λ z. ground (arith, z))
        | inl ok ↦ rw ok (elim (Bool-cases (is_missing h g')) [
          | inl missing ↦ rw missing (p.0, λ z. ground (arith, z))
          | inr complete ↦
              rw (complete, dump_cmdline_args_lem verbose (finished h g') s' (keeps g' p.0))
                (
                  keeps g' p.0,
                  λ z. (
                    no_help,
                    record {
                      after_options = g';
                      accepted = p.1 ok;
                      complete = complete;
                      changed = refl;
                    },
                  ),
                )
        ])
      ]

  pub call_hndlr_lem :
      (h : Hndlr) (argv : List Text) (g : GlobalArgs) (s : S)
      → AllUsable (libc.getopt_long argv)
      → IsValid g
      → Returns (HndlrPost h argv g) (call_hndlr os libc verbose h argv g s)
  unfolding call_hndlr help_cmd_hndlr load_cmd_hndlr reset_cmd_hndlr status_cmd_hndlr
      gettod_cmd_hndlr settod_cmd_hndlr reset_flag_from_args
  call_hndlr_lem Hndlr.help argv g s u v = (v, λ z. ground (arith, z))
  call_hndlr_lem Hndlr.load argv g s u v =
      hndlr_with_lem Hndlr.load argv g s (λ e. ground (arith, e)) (λ g' v'. v') u v
  call_hndlr_lem Hndlr.reset argv g s u v =
      hndlr_with_lem Hndlr.reset argv g s (λ e. ground (arith, e)) (λ g' v'. ground arith) u v
  call_hndlr_lem Hndlr.status argv g s u v =
      hndlr_with_lem Hndlr.status argv g s (λ e. ground (arith, e)) (λ g' v'. ground arith) u v
  call_hndlr_lem Hndlr.gettod argv g s u v =
      hndlr_with_lem Hndlr.gettod argv g s (λ e. ground (arith, e)) (λ g' v'. v') u v
  call_hndlr_lem Hndlr.settod argv g s u v =
      hndlr_with_lem Hndlr.settod argv g s (λ e. ground (arith, e)) (λ g' v'. v') u v
