-- ===== src/Tests/Setup.antt =====
-- The library from `aiopt_init` on, with the device of `Tests.World` and a group of two devices.
use gpp_aioptool.Base.{
  ℕ, refl, ap, subst, arith, true, false, some, pos, neg, ℤ, Text, codes, done, Returns, [], ◌∷◌,
  List, ◌≡◌, ◌≤◌, ◌<◌, length,
}
use gpp_aioptool.Dpaiop.Types.{IsInt}
use gpp_aioptool.Vfio.Device.{map_region, address_of}
use gpp_aioptool.Vfio.{Kernel, vfio_path_max}
use gpp_aioptool.Mc.Wire.{read_token, read_status, mc_dec}
use gpp_aioptool.Mc.Portal.{mc_status_to_error}
use gpp_aioptool.Dpaiop.Server.{Serves, error_of}
use gpp_aioptool.Aiop.Types.{with_token}
use gpp_aioptool.Aiop.Setup.{Dirs, Dirent, fresh_obj, init_aiop, scanned_or}
use gpp_aioptool.Aiop.Setup.Found.{AllNumbered}
use gpp_aioptool.Aiop.Setup.Devices.{setup_aiopt_device, aiopt_init}
use gpp_aioptool.Aiop.Setup.Used.{SetsUp}
use gpp_aioptool.Aiop.Setup.Ready.{listed, setup_aiopt_device-SetsUp}
use gpp_aioptool.Aiop.Setup.Start.{init_aiop-opened}
use gpp_aioptool.Aiop.Setup.Init.{HandsOut, aiopt_init-HandsOut}
use gpp_aioptool.Tests.World.{World, os, server, serves, willing, stubborn, granting, full_tables}
use gpp_aioptool.Tests.Sessions.{object, in_range, after}
use gpp_aioptool.Tests.Groups.{empty_tables, empty_tables-IsConsistent}

-- The portal is mapped where the device has it.
abbrev pub mapping : Kernel World
mapping = record granting { mmap_shared = λ len fd offset s. (some 4096, s) }

abbrev entries : List Dirent
entries =
    record { is_link = false; d_name = codes "." }
    ∷ record { is_link = true; d_name = codes "dpmcp.1" }
    ∷ record { is_link = true; d_name = codes "dpaiop.0" }
    ∷ record { is_link = true; d_name = codes "dpmcp.2" }
    ∷ []

abbrev pub directories : Dirs World
directories = record {
  opendir = λ path s. (some (1, entries), s);
  closedir = λ d s. s;
  print_int = λ z. codes "7";
}

entries-AllNumbered : AllNumbered entries
entries-AllNumbered = (
  λ e. ground (arith, e),
  λ e. ground (arith, e),
  (
    λ e. (codes "1", refl),
    λ e. ground (arith, e),
    (
      λ e. ground (arith, e),
      λ e. (codes "0", refl),
      (λ e. (codes "2", refl), λ e. ground (arith, e), tt),
    ),
  ),
)

pub mapping_served :
    (fd : ℤ) (u s : World) (addr : ℕ)
    → (map_region mapping fd (mapping.device_get_region_info fd u).0.1 s).0 ≡ some addr
    → Serves os.device 3 addr server
mapping_served fd u s addr e = subst (λ a. Serves os.device 3 a server) (ap address_of e) serves

pub mapping_fits : (text : Text) (n : ℤ) → mapping.scan_int text ≡ some n → IsInt n
mapping_fits text n e = subst IsInt (ap (scanned_or (pos 0)) e) seven
  where
    seven : IsInt (pos 7)
    seven = omega arith

pub zero_fits : IsInt (pos 0)
zero_fits = omega arith

pub short : (z : ℤ) → length (directories.print_int z) ≤ 11
short z = omega arith

pub numbered : (path : Text) (u : World) → AllNumbered (listed (directories.opendir path u).0)
numbered path u = entries-AllNumbered

pub linked :
    (path : Text) (u : World) → length (mapping.readlink path vfio_path_max u).0.1 < vfio_path_max
linked path u = omega arith

setup_aiopt_device-SetsUp_example :
    Returns
      (SetsUp os mapping directories 3
        (pos 0)
        server
        mapping_served
        (some 0)
        (some (codes "dpmcp.1"))
        (some (codes "dpaiop.0")))
      (setup_aiopt_device os mapping directories 3 (pos 0) (fresh_obj (some 0)) full_tables willing)
setup_aiopt_device-SetsUp_example =
    setup_aiopt_device-SetsUp os mapping directories 3 (pos 0) server mapping_served zero_fits
      mapping_fits short numbered (some 0) full_tables willing

aiopt_init-HandsOut_example :
    Returns
      (HandsOut os mapping directories 3
        (pos 0)
        server
        mapping_served
        zero_fits
        mapping_fits
        short
        numbered
        linked)
      (aiopt_init os mapping directories 3 (pos 0) (codes "dprc.2") empty_tables willing)
aiopt_init-HandsOut_example =
    aiopt_init-HandsOut os mapping directories 3 (pos 0) server mapping_served zero_fits
      mapping_fits short numbered linked (codes "dprc.2") empty_tables willing (omega arith)
      empty_tables-IsConsistent

-- The request for the version is refused, and the initialization fails.
init_aiop-opened_example :
    init_aiop os mapping directories 3 object stubborn
    ≡ done (neg 22, with_token object 5) (after 3 2)
unfolding error_of mc_status_to_error read_status read_token mc_dec
init_aiop-opened_example =
    init_aiop-opened os mapping directories 3 server object in_range serves stubborn refl refl
