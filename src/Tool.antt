-- ===== src/Tool.antt =====
-- src/aiop_tool.c and include/aiop_tool.h: the operations behind the sub-commands, and `main`. Of
-- the flags of the logger, `dump_cmdline_args` alone depends on one in more than its output; `main`
-- passes it on, and Logging sets up the logger itself.
pub mod Dispatch
pub mod Report
pub mod Lifecycle
pub mod Exit
pub mod Main
pub mod Memory
pub mod Logging
pub mod Dummy
use gpp_aioptool.Base.{
  ℕ, ◌^◌, ◌%◌, if◌then◌else◌, not, ◌&&◌, Bool, false, List, [], ◌∷◌, Option, none, some, ℤ, pos,
  is_zero, Text, codes, str_eq, Act, pure, ◌>>=◌, ◌>>◌,
}
use gpp_aioptool.Os.{Os}
use gpp_aioptool.Vfio.{Kernel, VfioTables}
use gpp_aioptool.Aiop.Types.{AioptObj, AioptStatus, aiopt_success, aiopt_failure}
use gpp_aioptool.Aiop.Session.{aiopt_gettod, aiopt_settod, aiopt_status, aiopt_reset}
use gpp_aioptool.Aiop.State.{aiopt_get_state_str}
use gpp_aioptool.Aiop.Load.Image.{aiopt_load}
use gpp_aioptool.Aiop.Setup.{Dirs}
use gpp_aioptool.Aiop.Setup.Devices.{aiopt_init, aiopt_deinit}
use gpp_aioptool.Cmd.Types.{GlobalArgs, Libc, default_thread_per_core, zero_args}
use gpp_aioptool.Cmd.Handlers.{parse_command_line_args, dump_cmdline_args}

-- `struct aiop_tool_conf`. `none` is NULL.
pub record AiopToolConf : Type 0 where
  pub command : Option Text
  pub container : Text
  pub image_file : Text
  pub args_file : Option Text
  pub reset_flag : Bool
  pub debug_flag : Bool
  pub verbose_flag : Bool
  pub tpc : ℕ
  pub tpc_flag : Bool
  pub tod : ℕ

-- `gvars.args_file[0] ? gvars.args_file : NULL`.
abbrev pub file_or_null : Text → Option Text
file_or_null [] = none
file_or_null (c ∷ cs) = some (c ∷ cs)

unfoldable pub create_conf_inst : (sub_cmd_name : Option Text) → GlobalArgs → AiopToolConf
create_conf_inst sub_cmd_name gvars = record {
  command = sub_cmd_name;
  container = gvars.container_name;
  image_file = gvars.image_file;
  args_file = file_or_null gvars.args_file;
  reset_flag = gvars.reset_flag;
  debug_flag = gvars.debug_flag;
  verbose_flag = gvars.verbose_flag;
  tpc = gvars.tpc;
  tpc_flag = gvars.tpc_flag;
  tod = gvars.tod_val;
}

-- The functions that `aiopt_ops` points to.
pub data AioptOp : Type 0 where
  perform_load perform_reset perform_get_status perform_gettod perform_settod : AioptOp

-- `aiopt_ops`, up to the entry that ends it.
abbrev pub aiopt_ops : List (Text × Option AioptOp)
aiopt_ops =
    (codes "help", none)
    ∷ (codes "load", some AioptOp.perform_load)
    ∷ (codes "reset", some AioptOp.perform_reset)
    ∷ (codes "status", some AioptOp.perform_get_status)
    ∷ (codes "gettod", some AioptOp.perform_gettod)
    ∷ (codes "settod", some AioptOp.perform_settod)
    ∷ []

unfoldable pub search_ops : {A : Type 0} → List (Text × Option A) → (cmd_name : Text) → Option A
search_ops [] cmd_name = none
search_ops ((command, op) ∷ rest) cmd_name =
    if str_eq cmd_name command then op else search_ops rest cmd_name

unfoldable pub get_ops_handler : Option Text → Option AioptOp
unfolding search_ops
get_ops_handler none = none
get_ops_handler (some cmd_name) = search_ops aiopt_ops cmd_name

-- The results that the operations print, by the values that the formats take in their order. Error
-- messages are left out.
pub data Message : Type 0 where
  loaded : (image_file : Text) (args_file : Option Text) → Message
  load_failed : (image_file : Text) (args_file : Option Text) (err : ℤ) → Message
  reset_successful : Message
  reset_failed : (err : ℤ) → Message
  tile_status : (major minor revision : ℤ) (tile_state : Text) → Message
  time_of_day : ℕ → Message
  time_unsuccessful : (err : ℤ) → Message

-- Variables that are read though nothing may have been stored in them.
pub record Unset : Type 0 where
  pub args_fd : ℤ
  pub id : ℤ
  pub status : AioptStatus
  pub tod : ℕ

-- The result, the object, the tables and the output.
abbrev pub Performed : Type 0
Performed = ℤ × AioptObj × VfioTables × List Message

module _ {S : Type 0} (os : Os S) (kernel : Kernel S) (dirs : Dirs S)
    (select_forever : Act S (Unit {0})) (polls : ℕ) (unset : Unset) where
  -- `select(1, NULL, NULL, NULL, NULL)` follows, on success and on failure.
  unfoldable pub perform_aiop_load : AioptObj → VfioTables → AiopToolConf → Act S Performed
  perform_aiop_load obj t conf = do
    (ret, obj', t') ←
        aiopt_load os kernel polls conf.reset_flag
          (if conf.tpc_flag then conf.tpc else default_thread_per_core) unset.args_fd obj t
          (some conf.image_file) conf.args_file
    select_forever
    pure (
      ret,
      obj',
      t',
      (if is_zero ret
            then Message.loaded conf.image_file conf.args_file
            else Message.load_failed conf.image_file conf.args_file ret)
          ∷ [],
    )

  unfoldable pub perform_aiop_reset : AioptObj → VfioTables → Act S Performed
  perform_aiop_reset obj t = do
    (ret, obj') ← aiopt_reset os polls obj
    pure (
      ret,
      obj',
      t,
      (if is_zero ret then Message.reset_successful else Message.reset_failed ret) ∷ [],
    )

  -- The format says "Major Version", then "Minor Version"; the arguments come in the other order.
  unfoldable pub perform_aiop_get_status : AioptObj → VfioTables → Act S Performed
  perform_aiop_get_status obj t = do
    (ret, obj', status) ← aiopt_status os polls obj unset.status
    pure (
      ret,
      obj',
      t,
      (if is_zero ret
          then Message.tile_status status.sl_minor_v status.sl_major_v status.sl_revision
              (aiopt_get_state_str status.state)
            ∷ []
          else []),
    )

  unfoldable pub perform_aiop_gettod : AioptObj → VfioTables → Act S Performed
  perform_aiop_gettod obj t = do
    (ret, obj', tod) ← aiopt_gettod os polls obj unset.tod
    pure (
      ret,
      obj',
      t,
      (if is_zero ret then Message.time_of_day tod else Message.time_unsuccessful ret) ∷ [],
    )

  unfoldable pub perform_aiop_settod : AioptObj → VfioTables → AiopToolConf → Act S Performed
  perform_aiop_settod obj t conf = do
    (ret, obj') ← aiopt_settod os polls obj conf.tod
    pure (ret, obj', t, [])

  -- The call through `op`.
  unfoldable pub call_op : AioptOp → AioptObj → VfioTables → AiopToolConf → Act S Performed
  unfolding perform_aiop_load perform_aiop_reset perform_aiop_get_status perform_aiop_gettod
      perform_aiop_settod
  call_op AioptOp.perform_load obj t conf = perform_aiop_load obj t conf
  call_op AioptOp.perform_reset obj t conf = perform_aiop_reset obj t
  call_op AioptOp.perform_get_status obj t conf = perform_aiop_get_status obj t
  call_op AioptOp.perform_gettod obj t conf = perform_aiop_gettod obj t
  call_op AioptOp.perform_settod obj t conf = perform_aiop_settod obj t conf

  -- `main` from the operation on: the exit status, and the output.
  unfoldable pub run_op : AioptOp → VfioTables → AiopToolConf → Act S (ℤ × List Message)
  unfolding call_op
  run_op op t conf = do
    (handle, t1) ← aiopt_init os kernel dirs polls unset.id conf.container t
    elim handle [
      | none ↦ pure (aiopt_failure, [])
      | some obj ↦ (do
        (ret, obj1, t2, printed) ← call_op op obj t1 conf
        (ret_2, obj2) ← aiopt_deinit os kernel dirs polls unset.id obj1
        pure ((if is_zero ret && not (is_zero ret_2) then ret_2 else ret), printed))
    ]

  -- `main` from the configuration on.
  unfoldable pub run_conf : GlobalArgs → AiopToolConf → VfioTables → Act S (ℤ × List Message)
  unfolding run_op
  run_conf gvars conf t = do
    dump_cmdline_args conf.verbose_flag gvars
    elim (get_ops_handler conf.command) [
      | none ↦ pure (aiopt_failure, [])
      | some op ↦ run_op op t conf
    ]

  -- While the command line is parsed the flags of the logger are 0.
  unfoldable pub main : Libc → (argv : List Text) → VfioTables → Act S (ℤ × List Message)
  unfolding run_conf
  main libc argv t = do
    (ret, gvars, sub_cmd_name) ← parse_command_line_args os libc false argv zero_args
    if not (is_zero ret)
        then pure (pos 0, [])
        else run_conf gvars (create_conf_inst sub_cmd_name gvars) t
