-- ===== src/Tests/CommandLine.antt =====
-- The command line, with the operating system of `Tests.World`.
use gpp_aioptool.Base.{
  ◌≡◌, ◌<◌, subst, refl, arith, true, List, [], ◌∷◌, Option, none, some, pos, fault, Text, codes,
  replicate, length, Returns,
}
use gpp_aioptool.Cmd.Types.{Libc, OptEvent, zero_args}
use gpp_aioptool.Cmd.Args.{image_file_from_args, args_file_from_args}
use gpp_aioptool.Cmd.Args.Paths.{IsReadable, path_from_args-bounds}
use gpp_aioptool.Cmd.Options.Loop.{AllUsable}
use gpp_aioptool.Cmd.Handlers.{Hndlr, check_for_help_cmd, parse_command_line_args}
use gpp_aioptool.Cmd.Handlers.Parsed.{ParsePost, parse_command_line_args_lem}
use gpp_aioptool.Cmd.Handlers.Quiet.{IsQuiet, IsSimple, parse_command_line_args-AllQuiet}
use gpp_aioptool.Aiop.Types.{aiopt_success}
use gpp_aioptool.Tests.World.{World, os, willing}

abbrev pub options : List OptEvent
options =
    record { opt = b'g'; optarg = some (codes "dprc.2") }
    ∷ record { opt = b'f'; optarg = some (codes "/tmp/a.elf") }
    ∷ []

abbrev pub libc : Libc
libc = record {
  atoi = λ t. pos 4;
  strtoul = λ t. record { value = 0; at_end = true; err = 0 };
  getopt_long = λ argv. options;
}

still_short :
    (t arg : Text) → length t < 256 → ◌≡◌ {A = Option Text} (some t) (some arg) → length arg < 256
still_short t arg h e = subst (λ u. length u < 256) (ground (arith, e)) h

pub usable : AllUsable options
usable = (
  record {
    has_container = λ e. (codes "dprc.2", refl);
    has_tpc = λ e. absurd (omega (arith, e));
    short = λ arg e. still_short (codes "dprc.2") arg (omega arith) e;
  },
  (
    record {
      has_container = λ e. absurd (omega (arith, e));
      has_tpc = λ e. absurd (omega (arith, e));
      short = λ arg e. still_short (codes "/tmp/a.elf") arg (omega arith) e;
    },
    tt,
  ),
)

abbrev pub load_line : List Text
load_line = codes "load" ∷ codes "-g" ∷ codes "dprc.2" ∷ codes "-f" ∷ codes "/tmp/a.elf" ∷ []

parse_command_line_args_lem_example :
    Returns
      (ParsePost {S = World} os libc true (codes "load") load_line none)
      (parse_command_line_args os libc true (codes "aiop_tool" ∷ load_line) zero_args willing)
parse_command_line_args_lem_example =
    parse_command_line_args_lem os libc true (codes "aiop_tool") (codes "load")
      (codes "-g" ∷ codes "dprc.2" ∷ codes "-f" ∷ codes "/tmp/a.elf" ∷ []) willing usable

abbrev long_path : Text
long_path = replicate 256 b'a'

readable : IsReadable os long_path willing
readable = record { accessible = refl; statable = refl; regular = refl }

-- The path of 256 bytes overruns both buffers.
path_from_args-bounds_example :
    (image_file_from_args os (some long_path) zero_args willing ≡ fault)
    × (args_file_from_args os (some long_path) zero_args willing ≡ fault)
path_from_args-bounds_example =
    path_from_args-bounds os long_path zero_args willing readable (omega arith) (omega arith)

abbrev pub status_libc : Libc
status_libc = record libc {
  getopt_long = λ argv.
      record { opt = b'g'; optarg = some (codes "dprc.2") }
      ∷ record { opt = b'v'; optarg = none }
      ∷ [];
}

pub status_usable : AllUsable (
    record { opt = b'g'; optarg = some (codes "dprc.2") }
    ∷ record { opt = b'v'; optarg = none }
    ∷ [])
status_usable = (
  record {
    has_container = λ e. (codes "dprc.2", refl);
    has_tpc = λ e. absurd (omega (arith, e));
    short = λ arg e. still_short (codes "dprc.2") arg (omega arith) e;
  },
  (
    record {
      has_container = λ e. absurd (omega (arith, e));
      has_tpc = λ e. absurd (omega (arith, e));
      short = λ arg e. absurd (cc);
    },
    tt,
  ),
)

parse_command_line_args-AllQuiet_example :
    Returns
      (λ (r, g, name) s. r ≡ aiopt_success)
      (parse_command_line_args os status_libc true
        (codes "aiop_tool" ∷ codes "status" ∷ codes "-g" ∷ codes "dprc.2" ∷ codes "-v" ∷ [])
        zero_args
        willing)
unfolding check_for_help_cmd
parse_command_line_args-AllQuiet_example =
    parse_command_line_args-AllQuiet os status_libc true (codes "aiop_tool") Hndlr.status
      (codes "-g" ∷ codes "dprc.2" ∷ codes "-v" ∷ []) zero_args willing IsSimple.status_simple refl
      (IsQuiet.container (codes "dprc.2"), (IsQuiet.verbose none, tt))
