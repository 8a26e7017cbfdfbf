-- ===== src/Tool/Main.antt =====
-- `main` from the command line to the exit status.
use gpp_aioptool.Base.{
  ℕ, ◌<◌, ◌≤◌, ◌^◌, ◌≡◌, ◌≢◌, inl, inr, refl, arith, ap, ◌∙◌, not, false, List, [], pos, ◌∷◌, some,
  ℤ, is_zero, length, Text, Act, Returns, Returns-if, Returns-bind, Returns-IfDone, Option,
}
use gpp_aioptool.Os.{Os}
use gpp_aioptool.Vfio.Device.{map_region}
use gpp_aioptool.Vfio.{Kernel, VfioTables, vfio_path_max}
use gpp_aioptool.Vfio.Tables.{IsConsistent}
use gpp_aioptool.Dpaiop.Types.{IsInt}
use gpp_aioptool.Dpaiop.Server.{Server, Serves}
use gpp_aioptool.Aiop.Setup.{Dirs}
use gpp_aioptool.Aiop.Setup.Found.{AllNumbered}
use gpp_aioptool.Aiop.Setup.Ready.{listed}
use gpp_aioptool.Cmd.Types.{GlobalArgs, Libc, container_env_var, zero_args}
use gpp_aioptool.Cmd.Options.Valid.{IsValid}
use gpp_aioptool.Cmd.Options.Loop.{AllUsable}
use gpp_aioptool.Cmd.Handlers.{Hndlr}
use gpp_aioptool.Cmd.Handlers.Outcome.{name_of, find_subcmd_hndlr_iff, dump_cmdline_args_lem}
use gpp_aioptool.Cmd.Handlers.Parsed.{ParsePost, parse_command_line_args_lem}
use gpp_aioptool.Cmd.Handlers.Time.{TimeFits, ParsedTime, parse_command_line_args-TimeFits}
use gpp_aioptool.Tool.{
  AiopToolConf, AioptOp, Unset, Message, run_op, create_conf_inst, get_ops_handler, run_conf, main,
}
use gpp_aioptool.Tool.Dispatch.{op_of, op_of_found, get_ops_handler-find_subcmd_hndlr}
use gpp_aioptool.Tool.Lifecycle.{Exits}
use gpp_aioptool.Tool.Exit.{run_op-Exits}

-- A handler that is not for help or `load` has an operation that is not for loading.
quick_op :
    (h : Hndlr)
    → h ≢ Hndlr.help
    → h ≢ Hndlr.load
    → (op : AioptOp) × (op_of h ≡ some op) × (op ≢ AioptOp.perform_load)
quick_op Hndlr.help no_help no_load = absurd (no_help refl)
quick_op Hndlr.load no_help no_load = absurd (no_load refl)
quick_op Hndlr.reset no_help no_load = (AioptOp.perform_reset, refl, λ e. ground (arith, e))
quick_op Hndlr.status no_help no_load = (AioptOp.perform_get_status, refl, λ e. ground (arith, e))
quick_op Hndlr.gettod no_help no_load = (AioptOp.perform_gettod, refl, λ e. ground (arith, e))
quick_op Hndlr.settod no_help no_load = (AioptOp.perform_settod, refl, λ e. ground (arith, e))

module _ {S : Type 0} (os : Os S) (kernel : Kernel S) (dirs : Dirs S)
    (select_forever : Act S (Unit {0})) (polls : ℕ) (unset : Unset) (libc : Libc)
    (fits64 : (text : Text) → (libc.strtoul text).value < 2 ^ 64) (I : S → Type 0)
    (access_keeps : (path : Text) (s : S) → I s → I (os.access path s).1)
    (stat_keeps : (path : Text) (s : S) → I s → I (os.stat path s).1)
    (P : ℤ × List Message → S → Type 0) (t : VfioTables) where
  -- What is owed from the operation on, for one that is not loading.
  abbrev pub OwesOp : Type 0
  OwesOp =
      (op : AioptOp) (conf : AiopToolConf) (s : S)
      → op ≢ AioptOp.perform_load
      → conf.tod < 2 ^ 64
      → length conf.container < 76
      → I s
      → Returns P (run_op os kernel dirs select_forever polls unset op t conf s)

  conf_lem :
      (gvars : GlobalArgs) (conf : AiopToolConf) (op : AioptOp) (s : S)
      → OwesOp
      → IsValid gvars
      → get_ops_handler conf.command ≡ some op
      → op ≢ AioptOp.perform_load
      → conf.tod < 2 ^ 64
      → length conf.container < 76
      → I s
      → Returns P (run_conf os kernel dirs select_forever polls unset gvars conf t s)
  unfolding run_conf
  conf_lem gvars conf op s owed valid is_op no_load range named i =
      rw (dump_cmdline_args_lem conf.verbose_flag gvars s valid)
        (rw is_op (owed op conf s no_load range named i))

  abbrev Timed : ℤ × GlobalArgs × Option Text → S → Type 0
  Timed = ParsedTime os libc fits64 I access_keeps stat_keeps

  -- `main` fails at the command line, or comes to an operation.
  pub main_lem :
      (prog cmd : Text) (args : List Text) (s : S)
      → AllUsable (libc.getopt_long (cmd ∷ args))
      → cmd ≢ name_of Hndlr.load
      → I s
      → ((u : S) → I u → P (pos 0, []) u)
      → OwesOp
      → Returns P (main os kernel dirs select_forever polls unset libc (prog ∷ cmd ∷ args) t s)
  unfolding main create_conf_inst
  main_lem prog cmd args s usable no_load i refused_case owed =
      Returns-bind (λ r s1. ParsePost os libc false cmd (cmd ∷ args) env r s1 × Timed r s1) P _ _
        (Returns-IfDone (ParsePost os libc false cmd (cmd ∷ args) env) Timed _
          (parse_command_line_args_lem os libc false prog cmd args s usable)
          (parse_command_line_args-TimeFits os libc fits64 I access_keeps stat_keeps false
            (prog ∷ cmd ∷ args) zero_args s (zero_fits, i)))
        (λ (r, gvars, name) s1 p.
          Returns-if P (not (is_zero r)) _ _ s1 (λ refused. refused_case s1 p.1.1)
            (λ accepted. elim p.0.1 [
              | inl failed ↦ absurd (ground (arith, accepted, failed))
              | inr parsed ↦
                  let (op, is_op, other) =
                    quick_op parsed.hndlr parsed.not_help
                      (λ e. no_load (parsed.named ∙ ap name_of e)) in
                  let found = (find_subcmd_hndlr_iff cmd parsed.hndlr).1 parsed.named in
                  conf_lem gvars (create_conf_inst name gvars) op s1 owed p.0.0
                    (ap get_ops_handler parsed.recorded
                      ∙ get_ops_handler-find_subcmd_hndlr cmd
                      ∙ ap op_of_found found
                      ∙ is_op)
                    other p.1.0 (ground (arith, p.0.0.container_fits)) p.1.1
            ]))
    where
      env : Option Text
      env = os.getenv container_env_var s

      zero_fits : TimeFits zero_args
      zero_fits = omega arith

module _ {S : Type 0} (os : Os S) (kernel : Kernel S) (dirs : Dirs S)
    (select_forever : Act S (Unit {0})) (polls : ℕ) (unset : Unset) (serve : Server S)
    (portal : (fd : ℤ) (u s : S) (addr : ℕ)
      → (map_region kernel fd (kernel.device_get_region_info fd u).0.1 s).0 ≡ some addr
      → Serves os.device polls addr serve)
    (unset_fits : IsInt unset.id)
    (fits : (text : Text) (n : ℤ) → kernel.scan_int text ≡ some n → IsInt n)
    (short : (z : ℤ) → length (dirs.print_int z) ≤ 11)
    (numbered : (path : Text) (u : S) → AllNumbered (listed (dirs.opendir path u).0))
    (linked : (path : Text) (u : S)
      → length (kernel.readlink path vfio_path_max u).0.1 < vfio_path_max) where
  -- Let the kernel map the region of a device only where a server of requests answers, the numbers
  -- in the names of devices fit an `int` and their names have two parts, the texts of paths fit
  -- their buffers, the tables be consistent, and the unset time and what `strtoul` returns below 2
  -- ^ 64. If `-g` and `-c` come with their arguments and all arguments are shorter than 256 bytes,
  -- `main` returns, for every sub-command but `load`, and its exit status is 0 or -1.
  pub main-Exits :
      (libc : Libc) (prog cmd : Text) (args : List Text) (t : VfioTables) (s : S)
      → AllUsable (libc.getopt_long (cmd ∷ args))
      → IsConsistent t
      → unset.tod < 2 ^ 64
      → ((text : Text) → (libc.strtoul text).value < 2 ^ 64)
      → cmd ≢ name_of Hndlr.load
      → Returns
          (Exits os kernel dirs select_forever polls unset)
          (main os kernel dirs select_forever polls unset libc (prog ∷ cmd ∷ args) t s)
  main-Exits libc prog cmd args t s usable consistent old fits64 no_load =
      main_lem os kernel dirs select_forever polls unset libc fits64 (λ u. Unit {0})
        (λ path u i. tt) (λ path u i. tt) (Exits os kernel dirs select_forever polls unset) t prog
        cmd args s usable no_load tt (λ u i. inl refl)
        (λ op conf u other range named i.
          run_op-Exits os kernel dirs select_forever polls unset serve portal unset_fits fits short
            numbered linked op t conf u named consistent other old (λ e. range))
