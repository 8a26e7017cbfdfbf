-- ===== src/Tests/Memory.antt =====
-- The memory that is held, with the library of `Tests.Setup` and nothing held at first, and the
-- logger and the build for the unit test.
use gpp_aioptool.Base.{pos, codes, spinning, arith, true, refl, [], ◌∷◌, Act, Returns}
use gpp_aioptool.Aiop.Load.{perform_dpaiop_load}
use gpp_aioptool.Aiop.Ledger.Frame.{Same}
use gpp_aioptool.Aiop.Setup.Devices.{aiopt_init}
use gpp_aioptool.Aiop.Ledger.Blocks.{Blocks, blocks_os, beside_kernel, beside_dirs}
use gpp_aioptool.Aiop.Ledger.Blocks.Freed.{
  SessionFrees, session-SessionFrees, HoldsObject, aiopt_init-HoldsObject,
}
use gpp_aioptool.Cmd.Types.{zero_args}
use gpp_aioptool.Cmd.Handlers.{Hndlr, parse_command_line_args}
use gpp_aioptool.Tool.{main}
use gpp_aioptool.Tool.Memory.{main-Leaves}
use gpp_aioptool.Tool.Memory.Run.{Leaves}
use gpp_aioptool.Tool.Logging.{Logs, parse_command_line_args-Logs}
use gpp_aioptool.Tool.Dummy.{IsNought, unit_test_main, unit_test_main_blind}
use gpp_aioptool.Tests.World.{World, os, server, serves, willing, stubborn}
use gpp_aioptool.Tests.Groups.{empty_tables, empty_tables-IsConsistent}
use gpp_aioptool.Tests.Sessions.{object, in_range, no_status}
use gpp_aioptool.Tests.CommandLine.{libc, load_line, options, usable, status_libc, status_usable}
use gpp_aioptool.Tests.Setup.{
  mapping, directories, mapping_served, mapping_fits, zero_fits, short, numbered, linked,
}
use gpp_aioptool.Tests.Program.{unset, other_text}

-- One block is held that is not the library's.
abbrev other_block : Blocks
other_block = record { live = 8 ∷ []; strays = [] }

abbrev blocked_select : Act (World × Blocks) (Unit {0})
blocked_select = λ s. spinning

session-SessionFrees_example :
    SessionFrees os 3 server object in_range serves stubborn other_block 5 no_status
    × Returns (Same other_block) (
        perform_dpaiop_load
          (blocks_os os)
          3
          object
          8192
          100
          8192
          100
          true
          4
          (stubborn, other_block))
session-SessionFrees_example =
    session-SessionFrees os 3 server object in_range serves stubborn other_block 5 no_status 8192
      100 8192 100 true 4 (omega arith) (omega arith) (omega arith)

aiopt_init-HoldsObject_example : Returns (HoldsObject {S = World} other_block) (
    aiopt_init
      (blocks_os os)
      (beside_kernel mapping)
      (beside_dirs directories)
      3
      (pos 0)
      (codes "dprc.2")
      empty_tables
      (willing, other_block))
aiopt_init-HoldsObject_example =
    aiopt_init-HoldsObject os mapping directories 3 (pos 0) server mapping_served zero_fits
      mapping_fits short numbered linked (codes "dprc.2") empty_tables willing other_block
      (omega arith) empty_tables-IsConsistent

main-Leaves_example : Returns (Leaves os mapping directories blocked_select 3 unset other_block) (
    main
      (blocks_os os)
      (beside_kernel mapping)
      (beside_dirs directories)
      blocked_select
      3
      unset
      status_libc
      (codes "aiop_tool" ∷ codes "status" ∷ codes "-g" ∷ codes "dprc.2" ∷ codes "-v" ∷ [])
      empty_tables
      (willing, other_block))
main-Leaves_example =
    main-Leaves os mapping directories blocked_select 3 unset server mapping_served zero_fits
      mapping_fits short numbered linked status_libc (codes "aiop_tool") (codes "status")
      (codes "-g" ∷ codes "dprc.2" ∷ codes "-v" ∷ []) empty_tables willing other_block status_usable
      empty_tables-IsConsistent (omega arith) (λ text. omega arith) (other_text Hndlr.load refl)

parse_command_line_args-Logs_example :
    Returns
      (Logs {S = World} os libc true options)
      (parse_command_line_args os libc true (codes "aiop_tool" ∷ load_line) zero_args willing)
parse_command_line_args-Logs_example =
    parse_command_line_args-Logs os libc true (codes "aiop_tool") (codes "load")
      (codes "-g" ∷ codes "dprc.2" ∷ codes "-f" ∷ codes "/tmp/a.elf" ∷ []) willing usable

unit_test_main_blind_example :
    Returns
      (IsNought {S = World} os libc)
      (unit_test_main os libc (codes "aiop_tool" ∷ load_line) willing)
unit_test_main_blind_example =
    unit_test_main_blind os libc (codes "aiop_tool") (codes "load")
      (codes "-g" ∷ codes "dprc.2" ∷ codes "-f" ∷ codes "/tmp/a.elf" ∷ []) willing usable
