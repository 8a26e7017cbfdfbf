-- ===== src/Tests/Loading.antt =====
-- `aiopt_load`, with the device of `Tests.World` and a ledger beside it.
use gpp_aioptool.Base.{refl, arith, true, false, some, none, neg, pos, codes, Returns, []}
use gpp_aioptool.Aiop.Ledger.{holding, ledger_os, ledger_kernel}
use gpp_aioptool.Aiop.Load.Image.{aiopt_load}
use gpp_aioptool.Aiop.Load.Held.{Released}
use gpp_aioptool.Aiop.Load.Cleanup.{IsSetUp}
use gpp_aioptool.Aiop.Load.Posix.{IsPosix}
use gpp_aioptool.Aiop.Load.Released.{aiopt_load-Released}
use gpp_aioptool.Aiop.Load.Unset.{ClosesUnset, aiopt_load_stray}
use gpp_aioptool.Os.{Os}
use gpp_aioptool.Tests.World.{World, os, server, serves, stubborn, granting, full_tables}
use gpp_aioptool.Tests.Sessions.{object, in_range}

pub os-IsPosix : IsPosix os
os-IsPosix = record {
  opens = λ file s. refl;
  maps = λ len fd s. refl;
  fits = λ len fd s. omega arith;
}

object-IsSetUp : IsSetUp 0 object full_tables
object-IsSetUp = record { handled = refl; connected = refl }

-- The request to load is refused.
aiopt_load-Released_example : Returns (Released granting) (
    aiopt_load
      (ledger_os os)
      (ledger_kernel granting)
      3
      true
      4
      (neg 1)
      object
      full_tables
      (some (codes "aiop.elf"))
      (some (codes "args"))
      (stubborn, holding [] [] []))
aiopt_load-Released_example =
    aiopt_load-Released os granting os-IsPosix 3 server object in_range serves 0 true 4 (neg 1)
      full_tables (some (codes "aiop.elf")) (some (codes "args")) stubborn object-IsSetUp refl

-- No file can be looked at.
abbrev bare : Os World
bare = record os { stat = λ path w. ((neg 1, record { st_size = 0; is_reg = false }), w) }

aiopt_load_stray_example : Returns (ClosesUnset (pos 9)) (
    aiopt_load
      (ledger_os bare)
      (ledger_kernel granting)
      3
      true
      4
      (pos 9)
      object
      full_tables
      (some (codes "aiop.elf"))
      none
      (stubborn, holding [] [] []))
aiopt_load_stray_example =
    aiopt_load_stray bare granting 3 true 4 (pos 9) object full_tables (codes "aiop.elf") none
      stubborn refl refl
