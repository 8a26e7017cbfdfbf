-- ===== src/Tool/Dummy.antt =====
-- src/aiop_tool_dummy.c, and src/aiop_tool.c as the macro `AIOP_CMDSYS_UNIT_TEST` builds it.
use gpp_aioptool.Base.{
  ℕ, ◌≡◌, refl, arith, ap, ◌∙◌, inl, inr, not, List, [], ◌∷◌, Option, none, some, ℤ, pos, is_zero,
  Text, codes, Act, pure, ◌>>=◌, ◌>>◌, true, false, is_zero-eq, Returns, Returns-bind, Returns-if,
  if◌then◌else◌, ◌≢◌,
}
use gpp_aioptool.Os.{Os}
use gpp_aioptool.Aiop.Types.{aiopt_success, aiopt_failure}
use gpp_aioptool.Cmd.Types.{GlobalArgs, Libc, zero_args, container_env_var}
use gpp_aioptool.Cmd.Options.Valid.{IsValid}
use gpp_aioptool.Cmd.Options.Loop.{AllUsable}
use gpp_aioptool.Cmd.Handlers.{Hndlr, parse_command_line_args, dump_cmdline_args}
use gpp_aioptool.Cmd.Handlers.Outcome.{name_of, dump_cmdline_args_lem}
use gpp_aioptool.Cmd.Handlers.Parsed.{ParsePost, parse_command_line_args_lem}
use gpp_aioptool.Tool.{AiopToolConf, search_ops, create_conf_inst}

-- The functions that the table of this build points to, and what they return.
pub data DummyOp : Type 0 where
  dummy_perform_aiop_load dummy_perform_aiop_reset dummy_perform_aiop_get_status : DummyOp
  dummy_perform_aiop_gettod dummy_perform_aiop_settod : DummyOp

abbrev pub call_dummy : DummyOp → (handle : Option ℕ) → AiopToolConf → ℤ
call_dummy DummyOp.dummy_perform_aiop_load handle conf = aiopt_success
call_dummy DummyOp.dummy_perform_aiop_reset handle conf = aiopt_success
call_dummy DummyOp.dummy_perform_aiop_get_status handle conf = aiopt_success
call_dummy DummyOp.dummy_perform_aiop_gettod handle conf = aiopt_success
call_dummy DummyOp.dummy_perform_aiop_settod handle conf = aiopt_success

abbrev pub dummy_ops : List (Text × Option DummyOp)
dummy_ops =
    (codes "help", none)
    ∷ (codes "load", some DummyOp.dummy_perform_aiop_load)
    ∷ (codes "reset", some DummyOp.dummy_perform_aiop_reset)
    ∷ (codes "status", some DummyOp.dummy_perform_aiop_get_status)
    ∷ (codes "gettod", some DummyOp.dummy_perform_aiop_gettod)
    ∷ (codes "settod", some DummyOp.dummy_perform_aiop_settod)
    ∷ []

unfoldable pub get_dummy_handler : Option Text → Option DummyOp
unfolding search_ops
get_dummy_handler none = none
get_dummy_handler (some cmd_name) = search_ops dummy_ops cmd_name

module _ {S : Type 0} (os : Os S) (libc : Libc) where
  -- `main` of this build: `ret` is still the result of the parsing at the end.
  unfoldable pub unit_test_conf : (ret : ℤ) → GlobalArgs → AiopToolConf → Act S ℤ
  unit_test_conf ret gvars conf = do
    dump_cmdline_args conf.verbose_flag gvars
    elim (get_dummy_handler conf.command) [ none ↦ pure aiopt_failure | some op ↦ pure ret ]

  unfoldable pub unit_test_main : (argv : List Text) → Act S ℤ
  unfolding unit_test_conf
  unit_test_main argv = do
    (ret, gvars, sub_cmd_name) ← parse_command_line_args os libc false argv zero_args
    if not (is_zero ret)
        then pure (pos 0)
        else unit_test_conf ret gvars (create_conf_inst sub_cmd_name gvars)

  abbrev pub IsNought : ℤ → S → Type 0
  IsNought exit s = exit ≡ pos 0

  dummy_found :
      (h : Hndlr)
      → h ≢ Hndlr.help
      → (op : DummyOp) × (get_dummy_handler (some (name_of h)) ≡ some op)
  unfolding get_dummy_handler
  dummy_found Hndlr.help other = absurd (other refl)
  dummy_found Hndlr.load other = (DummyOp.dummy_perform_aiop_load, refl)
  dummy_found Hndlr.reset other = (DummyOp.dummy_perform_aiop_reset, refl)
  dummy_found Hndlr.status other = (DummyOp.dummy_perform_aiop_get_status, refl)
  dummy_found Hndlr.gettod other = (DummyOp.dummy_perform_aiop_gettod, refl)
  dummy_found Hndlr.settod other = (DummyOp.dummy_perform_aiop_settod, refl)

  conf_lem :
      (ret : ℤ) (gvars : GlobalArgs) (conf : AiopToolConf) (op : DummyOp) (s : S)
      → is_zero ret ≡ true
      → IsValid gvars
      → get_dummy_handler conf.command ≡ some op
      → Returns IsNought (unit_test_conf ret gvars conf s)
  unfolding unit_test_conf
  conf_lem ret gvars conf op s fine valid is_op =
      rw (dump_cmdline_args_lem conf.verbose_flag gvars s valid) (rw is_op (is_zero-eq ret fine))

  -- If `-g` and `-c` come with their arguments and all arguments are shorter than 256 bytes,
  -- `main` as it is built for the unit test returns 0, whether the command line is accepted or
  -- not.
  pub unit_test_main_blind :
      (prog cmd : Text) (args : List Text) (s : S)
      → AllUsable (libc.getopt_long (cmd ∷ args))
      → Returns IsNought (unit_test_main (prog ∷ cmd ∷ args) s)
  unfolding unit_test_main create_conf_inst
  unit_test_main_blind prog cmd args s usable =
      Returns-bind (ParsePost os libc false cmd (cmd ∷ args) (os.getenv container_env_var s))
        IsNought _ _ (parse_command_line_args_lem os libc false prog cmd args s usable)
        (λ (ret, gvars, name) s1 p.
          Returns-if IsNought (not (is_zero ret)) _ _ s1 (λ refused. refl)
            (λ accepted. elim p.1 [
              | inl failed ↦ absurd (ground (arith, accepted, failed))
              | inr parsed ↦
                  let (op, is_op) = dummy_found parsed.hndlr parsed.not_help in
                  conf_lem ret gvars (create_conf_inst name gvars) op s1 (ground (arith, accepted))
                    p.0
                    (ap get_dummy_handler parsed.recorded
                      ∙ ap (λ t. get_dummy_handler (some t)) parsed.named
                      ∙ is_op)
            ]))
