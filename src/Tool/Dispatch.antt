-- ===== src/Tool/Dispatch.antt =====
-- The table of sub-commands and the table of operations.
use gpp_aioptool.Base.{
  ◌≡◌, refl, arith, inl, inr, ap, ◌∙◌, Bool, false, Bool-cases, List, [], ◌∷◌, Option, none, some,
  ℤ, is_zero, Text, str_eq, Returns, Returns-mono, ◌⊎◌, ◌≢◌,
}
use gpp_aioptool.Os.{Os}
use gpp_aioptool.Cmd.Types.{GlobalArgs, Libc, zero_args, container_env_var}
use gpp_aioptool.Cmd.Handlers.{
  Hndlr, cmd_table, search_table, find_subcmd_hndlr, parse_command_line_args,
}
use gpp_aioptool.Cmd.Options.Loop.{AllUsable}
use gpp_aioptool.Cmd.Handlers.Outcome.{find_subcmd_hndlr_iff}
use gpp_aioptool.Cmd.Handlers.Parsed.{ParsePost, parse_command_line_args_lem}
use gpp_aioptool.Tool.{AioptOp, search_ops, get_ops_handler, create_conf_inst}

-- The operation of a sub-command; `help` has none.
abbrev pub op_of : Hndlr → Option AioptOp
op_of Hndlr.help = none
op_of Hndlr.load = some AioptOp.perform_load
op_of Hndlr.reset = some AioptOp.perform_reset
op_of Hndlr.status = some AioptOp.perform_get_status
op_of Hndlr.gettod = some AioptOp.perform_gettod
op_of Hndlr.settod = some AioptOp.perform_settod

abbrev pub op_of_found : Option Hndlr → Option AioptOp
op_of_found none = none
op_of_found (some h) = op_of h

abbrev ops_for : List (Text × Hndlr) → List (Text × Option AioptOp)
ops_for [] = []
ops_for ((name, h) ∷ rest) = (name, op_of h) ∷ ops_for rest

str_eq_comm : (a b : Text) → str_eq a b ≡ str_eq b a
str_eq_comm [] [] = refl
str_eq_comm [] (y ∷ ys) = refl
str_eq_comm (x ∷ xs) [] = refl
str_eq_comm (x ∷ xs) (y ∷ ys) = ground (arith, str_eq_comm xs ys)

search_ops-ops_for :
    (table : List (Text × Hndlr)) (cmd : Text)
    → search_ops (ops_for table) cmd ≡ op_of_found (search_table table cmd)
unfolding search_ops search_table
search_ops-ops_for [] cmd = refl
search_ops-ops_for ((name, h) ∷ rest) cmd = elim (Bool-cases (str_eq name cmd)) [
  | inl same ↦ rw (str_eq_comm cmd name, same) refl
  | inr other ↦ rw (str_eq_comm cmd name, other) (search_ops-ops_for rest cmd)
]

-- For every text, the table of operations gives the operation of the handler that the table of
-- sub-commands gives, and none if that is the one for help or there is none.
pub get_ops_handler-find_subcmd_hndlr :
    (cmd : Text) → get_ops_handler (some cmd) ≡ op_of_found (find_subcmd_hndlr cmd)
unfolding get_ops_handler find_subcmd_hndlr
get_ops_handler-find_subcmd_hndlr cmd = search_ops-ops_for cmd_table cmd

module _ {S : Type 0} (os : Os S) (libc : Libc) (verbose : Bool) where
  -- If the command line is accepted, its sub-command has an operation in the table.
  abbrev pub Dispatched : Text → ℤ × GlobalArgs × Option Text → S → Type 0
  Dispatched cmd (r, g, name) s =
      (is_zero r ≡ false)
      ⊎ ((name ≡ some cmd)
          × (op : AioptOp) × (get_ops_handler (create_conf_inst name g).command ≡ some op))

  op_of_named : (h : Hndlr) → h ≢ Hndlr.help → (op : AioptOp) × (op_of h ≡ some op)
  op_of_named Hndlr.help other = absurd (other refl)
  op_of_named Hndlr.load other = (AioptOp.perform_load, refl)
  op_of_named Hndlr.reset other = (AioptOp.perform_reset, refl)
  op_of_named Hndlr.status other = (AioptOp.perform_get_status, refl)
  op_of_named Hndlr.gettod other = (AioptOp.perform_gettod, refl)
  op_of_named Hndlr.settod other = (AioptOp.perform_settod, refl)

  -- If `-g` and `-c` come with their arguments and all arguments are shorter than 256 bytes,
  -- parsing from the zero structure returns. It fails, or it records the sub-command as it was
  -- typed, and the table of operations has an operation for the command of the configuration that
  -- is made of the results.
  pub parse_command_line_args-Dispatched :
      (prog cmd : Text) (args : List Text) (s : S)
      → AllUsable (libc.getopt_long (cmd ∷ args))
      → Returns
          (Dispatched cmd)
          (parse_command_line_args os libc verbose (prog ∷ cmd ∷ args) zero_args s)
  unfolding create_conf_inst
  parse_command_line_args-Dispatched prog cmd args s usable =
      Returns-mono (ParsePost os libc verbose cmd (cmd ∷ args) (os.getenv container_env_var s))
        (Dispatched cmd) _
        (λ (r, g, name) s' p. elim p.1 [
          | inl refused ↦ inl refused
          | inr parsed ↦
              let found = (find_subcmd_hndlr_iff cmd parsed.hndlr).1 parsed.named in
              let (op, is_op) = op_of_named parsed.hndlr parsed.not_help in
              inr (
                parsed.recorded,
                op,
                ap get_ops_handler parsed.recorded
                    ∙ get_ops_handler-find_subcmd_hndlr cmd
                    ∙ ap op_of_found found
                    ∙ is_op,
              )
        ])
        (parse_command_line_args_lem os libc verbose prog cmd args s usable)
