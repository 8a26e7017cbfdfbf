-- ===== src/Tests/Program.antt =====
-- The main program, with the library of `Tests.Setup`.
use gpp_aioptool.Base.{
  ◌≡◌, ◌≢◌, refl, ap, ◌∙◌, str_eq, arith, true, false, some, none, pos, neg, codes, spinning, done,
  Act, Returns, [], ◌∷◌,
}
use gpp_aioptool.Mc.Wire.{read_token, read_status, mc_dec}
use gpp_aioptool.Mc.Portal.{mc_status_to_error}
use gpp_aioptool.Dpaiop.Responses.{rsp_get_sl_version, rsp_get_state, rsp_get_time_of_day}
use gpp_aioptool.Dpaiop.Types.{to_int}
use gpp_aioptool.Dpaiop.Server.{error_of}
use gpp_aioptool.Aiop.Types.{with_token}
use gpp_aioptool.Aiop.State.{aiopt_get_state_str}
use gpp_aioptool.Aiop.Setup.Devices.{aiopt_init}
use gpp_aioptool.Aiop.Session.Total.{SessionReturns, session-Returns}
use gpp_aioptool.Cmd.Types.{zero_args}
use gpp_aioptool.Cmd.Handlers.{Hndlr, find_subcmd_hndlr}
use gpp_aioptool.Cmd.Handlers.Outcome.{name_of}
use gpp_aioptool.Tool.{
  AiopToolConf, Unset, Message, get_ops_handler, create_conf_inst, perform_aiop_get_status,
  perform_aiop_gettod, main,
}
use gpp_aioptool.Tool.Dispatch.{op_of_found, get_ops_handler-find_subcmd_hndlr}
use gpp_aioptool.Tool.Report.{
  main_unknown, perform_aiop_get_status_swapped, perform_aiop_gettod_stale,
}
use gpp_aioptool.Tool.Lifecycle.{Exits}
use gpp_aioptool.Tool.Exit.{LoadsCleanly, aiopt_init-aiopt_load}
use gpp_aioptool.Tool.Main.{main-Exits}
use gpp_aioptool.Tests.World.{World, os, server, serves, willing, stubborn, full_tables}
use gpp_aioptool.Tests.Groups.{empty_tables, empty_tables-IsConsistent}
use gpp_aioptool.Tests.Sessions.{object, in_range, after, no_status}
use gpp_aioptool.Tests.Loading.{os-IsPosix}
use gpp_aioptool.Tests.CommandLine.{libc, status_libc, status_usable}
use gpp_aioptool.Tests.Setup.{
  mapping, directories, mapping_served, mapping_fits, zero_fits, short, numbered, linked,
}

-- `select` blocks.
abbrev blocked : Act World (Unit {0})
blocked = λ s. spinning

abbrev pub unset : Unset
unset = record { args_fd = neg 1; id = pos 0; status = no_status; tod = 77 }

abbrev conf : AiopToolConf
conf = create_conf_inst (some (codes "status")) zero_args

get_ops_handler-find_subcmd_hndlr_example :
    get_ops_handler (some (codes "reset")) ≡ op_of_found (find_subcmd_hndlr (codes "reset"))
get_ops_handler-find_subcmd_hndlr_example = get_ops_handler-find_subcmd_hndlr (codes "reset")

other_name : (h : Hndlr) → codes "lod" ≢ name_of h
other_name Hndlr.help e = absurd (cc)
other_name Hndlr.load e = absurd (cc)
other_name Hndlr.reset e = absurd (cc)
other_name Hndlr.status e = absurd (cc)
other_name Hndlr.gettod e = absurd (cc)
other_name Hndlr.settod e = absurd (cc)

main_unknown_example :
    main os mapping directories blocked 3 unset libc
      (codes "aiop_tool" ∷ codes "lod" ∷ [])
      empty_tables
      willing
    ≡ done (pos 0, []) willing
main_unknown_example =
    main_unknown os mapping directories blocked 3 unset libc (codes "aiop_tool") (codes "lod") []
      empty_tables willing other_name

session-Returns_example : SessionReturns os 3 server object in_range serves stubborn 5 no_status
session-Returns_example =
    session-Returns os 3 server object in_range serves stubborn 5 no_status (omega arith)

pub other_text :
    (h : Hndlr) → str_eq (codes "status") (name_of h) ≡ false → codes "status" ≢ name_of h
other_text h apart e =
    let same : true ≡ false = ap (str_eq (codes "status")) e ∙ apart in absurd (cc (same))

main-Exits_example : Returns (Exits os mapping directories blocked 3 unset) (
    main os mapping directories blocked 3 unset status_libc
      (codes "aiop_tool" ∷ codes "status" ∷ codes "-g" ∷ codes "dprc.2" ∷ codes "-v" ∷ [])
      empty_tables
      willing)
main-Exits_example =
    main-Exits os mapping directories blocked 3 unset server mapping_served zero_fits mapping_fits
      short numbered linked status_libc (codes "aiop_tool") (codes "status")
      (codes "-g" ∷ codes "dprc.2" ∷ codes "-v" ∷ []) empty_tables willing status_usable
      empty_tables-IsConsistent (omega arith) (λ text. omega arith) (other_text Hndlr.load refl)

aiopt_init-aiopt_load_example :
    Returns
      (LoadsCleanly os mapping directories blocked 3 unset server mapping_served zero_fits
        mapping_fits short numbered linked
        (4, true)
        (some (codes "aiop.elf"), none))
      (aiopt_init os mapping directories 3 (pos 0) (codes "dprc.2") empty_tables willing)
aiopt_init-aiopt_load_example =
    aiopt_init-aiopt_load os mapping directories blocked 3 unset server mapping_served zero_fits
      mapping_fits short numbered linked (codes "dprc.2") (some (codes "aiop.elf")) none 4 true
      empty_tables willing (omega arith) empty_tables-IsConsistent os-IsPosix refl

-- The version is 7.0.8, and "0.7" is printed.
perform_aiop_get_status_swapped_example :
    perform_aiop_get_status os mapping directories blocked 3 unset object full_tables willing
    ≡ done
        (
          pos 0,
          with_token object 5,
          full_tables,
          Message.tile_status (pos 0) (pos 7) (pos 8) (codes "Invalid MC State") ∷ [],
        )
        (after 4 0)
unfolding error_of mc_status_to_error read_status read_token mc_dec rsp_get_sl_version rsp_get_state
    to_int aiopt_get_state_str
perform_aiop_get_status_swapped_example =
    perform_aiop_get_status_swapped os mapping directories blocked 3 unset server object in_range
      serves full_tables willing willing 64 refl (λ e. ground (arith, e)) refl refl refl

perform_aiop_gettod_stale_example :
    perform_aiop_gettod os mapping directories blocked 3 unset object full_tables stubborn
    ≡ done (pos 0, with_token object 5, full_tables, Message.time_of_day 77 ∷ []) (after 3 2)
unfolding error_of mc_status_to_error read_status read_token mc_dec rsp_get_time_of_day
perform_aiop_gettod_stale_example =
    perform_aiop_gettod_stale os mapping directories blocked 3 unset server object in_range serves
      full_tables stubborn stubborn 64 refl (λ e. ground (arith, e)) refl refl refl
