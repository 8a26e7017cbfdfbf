-- ===== src/Tool/Memory.antt =====
-- The memory that `main` holds at its end.
mod Ops
pub mod Run
use gpp_aioptool.Base.{
  ℕ, ◌<◌, ◌≤◌, ◌≡◌, ◌≢◌, ◌⊎◌, inl, inr, ◌^◌, refl, sym, subst, ap, arith, not, ◌&&◌, none, some,
  Option, ℤ, List, [], ◌∷◌, ◌++◌, and_then, is_zero, length, Text, Act, pure, ◌>>=◌, if◌then◌else◌,
  IfDone, IfDone-bind, IfDone-both, IfDone-Returns, Returns,
}
use gpp_aioptool.Os.{Os}
use gpp_aioptool.Vfio.{Kernel, VfioTables, vfio_path_max}
use gpp_aioptool.Vfio.Device.{map_region}
use gpp_aioptool.Vfio.Tables.{IsConsistent}
use gpp_aioptool.Dpaiop.Types.{IsInt}
use gpp_aioptool.Dpaiop.Server.{Server, Serves}
use gpp_aioptool.Aiop.Types.{AioptObj, aiopt_failure}
use gpp_aioptool.Aiop.Session.{aiopt_gettod, aiopt_settod, aiopt_status, aiopt_reset}
use gpp_aioptool.Aiop.Setup.{Dirs}
use gpp_aioptool.Aiop.Setup.Found.{AllNumbered}
use gpp_aioptool.Aiop.Setup.Ready.{listed}
use gpp_aioptool.Aiop.Setup.Devices.{aiopt_deinit}
use gpp_aioptool.Aiop.Ledger.Server.{ledger_server, ledger-Serves}
use gpp_aioptool.Aiop.Ledger.Frame.{Same}
use gpp_aioptool.Aiop.Ledger.Blocks.{Blocks, blocks_os, beside_kernel, beside_dirs}
use gpp_aioptool.Aiop.Ledger.Blocks.Gains.{Gains, Gains-bag, bag}
use gpp_aioptool.Aiop.Ledger.Blocks.Sessions.{
  aiopt_gettod-Same, aiopt_settod-Same, aiopt_status-Same, aiopt_reset-Same,
}
use gpp_aioptool.Aiop.Ledger.Blocks.Setup.{name_block, with_names, Gained, cleanup_aiopt_obj_lem}
use gpp_aioptool.Aiop.Ledger.Blocks.Init.{GainsObject, aiopt_init-GainsObject}
use gpp_aioptool.Tool.{
  AiopToolConf, AioptOp, Unset, Message, Performed, perform_aiop_reset, perform_aiop_get_status,
  perform_aiop_gettod, perform_aiop_settod, call_op, run_op, main,
}
use gpp_aioptool.Cmd.Types.{Libc}
use gpp_aioptool.Cmd.Options.Loop.{AllUsable}
use gpp_aioptool.Cmd.Handlers.{Hndlr}
use gpp_aioptool.Cmd.Handlers.Outcome.{name_of}
use gpp_aioptool.Tool.Exit.{run_op-Exits}
use gpp_aioptool.Tool.Main.{main_lem}
use gpp_aioptool.Tool.Memory.Ops.{SameNames, call_op_names, call_op-Same, deinit_lem}
use gpp_aioptool.Tool.Memory.Run.{Leaves, run_op-Leaves}

module _ {S : Type 0} (os : Os S) (kernel : Kernel S) (dirs : Dirs S)
    (select_forever : Act (S × Blocks) (Unit {0})) (polls : ℕ) (unset : Unset) (serve : Server S)
    (portal : (fd : ℤ) (u s : S) (addr : ℕ)
      → (map_region kernel fd (kernel.device_get_region_info fd u).0.1 s).0 ≡ some addr
      → Serves os.device polls addr serve)
    (unset_fits : IsInt unset.id)
    (fits : (text : Text) (n : ℤ) → kernel.scan_int text ≡ some n → IsInt n)
    (short : (z : ℤ) → length (dirs.print_int z) ≤ 11)
    (numbered : (path : Text) (u : S) → AllNumbered (listed (dirs.opendir path u).0))
    (linked : (path : Text) (u : S)
      → length (kernel.readlink path vfio_path_max u).0.1 < vfio_path_max) where
  run_op_lem :
      (op : AioptOp) (t : VfioTables) (conf : AiopToolConf) (s : S) (b : Blocks)
      → length conf.container < 76
      → IsConsistent t
      → op ≢ AioptOp.perform_load
      → unset.tod < 2 ^ 64
      → (op ≡ AioptOp.perform_settod → conf.tod < 2 ^ 64)
      → Returns (Leaves os kernel dirs select_forever polls unset b) (
          run_op
            (blocks_os os)
            (beside_kernel kernel)
            (beside_dirs dirs)
            select_forever
            polls
            unset
            op
            t
            conf
            (s, b))
  run_op_lem op t conf s b named consistent other old range =
      IfDone-Returns _ (Leaves os kernel dirs select_forever polls unset b) _
        (run_op-Exits (blocks_os os) (beside_kernel kernel) (beside_dirs dirs) select_forever polls
          unset (ledger_server serve)
          (λ fd u v addr e. ledger-Serves os.device polls addr serve (portal fd u.0 v.0 addr e))
          unset_fits fits short (λ path u. numbered path u.0) (λ path u. linked path u.0) op t conf
          (s, b) named consistent other old range)
        (run_op-Leaves os kernel dirs select_forever polls unset op t conf s b other)

  -- Let the kernel map the region of a device only where a server of requests answers, the numbers
  -- in the names of devices fit an `int` and their names have two parts, the texts of paths fit
  -- their buffers, the tables be consistent, and the unset time and what `strtoul` returns below 2
  -- ^ 64. If `-g` and `-c` come with their arguments and all arguments are shorter than 256 bytes,
  -- `main` returns, for every sub-command but `load`. The blocks of memory that are held, written
  -- down beside the state, are then as a bag either those held before, and nothing is printed, or
  -- those and one more: the object of the library is not freed. No block was freed that was not
  -- held.
  pub main-Leaves :
      (libc : Libc) (prog cmd : Text) (args : List Text) (t : VfioTables) (s : S) (b : Blocks)
      → AllUsable (libc.getopt_long (cmd ∷ args))
      → IsConsistent t
      → unset.tod < 2 ^ 64
      → ((text : Text) → (libc.strtoul text).value < 2 ^ 64)
      → cmd ≢ name_of Hndlr.load
      → Returns (Leaves os kernel dirs select_forever polls unset b) (
          main
            (blocks_os os)
            (beside_kernel kernel)
            (beside_dirs dirs)
            select_forever
            polls
            unset
            libc
            (prog ∷ cmd ∷ args)
            t
            (s, b))
  main-Leaves libc prog cmd args t s b usable consistent old fits64 no_load =
      main_lem (blocks_os os) (beside_kernel kernel) (beside_dirs dirs) select_forever polls unset
        libc fits64 (λ (u, c). c ≡ b) (λ path (u, c) e. e) (λ path (u, c) e. e)
        (Leaves os kernel dirs select_forever polls unset b) t prog cmd args (s, b) usable no_load
        refl
        (λ (u, c) e.
          (ap (λ (d : Blocks). d.strays) e, inl (refl, ap (λ (d : Blocks). bag d.live) e)))
        (λ op conf (u, c) other range named e.
          subst
            (λ d. Returns (Leaves os kernel dirs select_forever polls unset b) (
              run_op (blocks_os os) (beside_kernel kernel) (beside_dirs dirs) select_forever polls
                unset op t conf (u, d)))
            (sym e) (run_op_lem op t conf u b named consistent other old (λ e. range)))
