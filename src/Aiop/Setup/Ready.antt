-- ===== src/Aiop/Setup/Ready.antt =====
-- `setup_aiopt_device`: the object is ready for the operations of the library, or the names of its
-- devices are given up.
use gpp_aioptool.Base.{
  ℕ, ◌≤◌, ◌≡◌, inr, refl, arith, true, Option, none, some, ℤ, List, [], ◌++◌, length, length-append,
  ltb, Text, codes, Returns, Returns-bind,
}
use gpp_aioptool.Os.{Os}
use gpp_aioptool.Vfio.{Kernel, VfioTables, vfio_path_max}
use gpp_aioptool.Vfio.Device.{map_region, fsl_vfio_get_group_id}
use gpp_aioptool.Dpaiop.Types.{IsInt}
use gpp_aioptool.Dpaiop.Server.{Server, Serves}
use gpp_aioptool.Aiop.Setup.{Dirent, Dirs, dpmcp, dpaiop, fresh_obj}
use gpp_aioptool.Aiop.Setup.Found.{first_named, AllNumbered, Finds}
use gpp_aioptool.Aiop.Setup.Search.{search_devices-Finds}
use gpp_aioptool.Aiop.Setup.Devices.{Search, fresh_search, with_stream, setup_aiopt_device}
use gpp_aioptool.Aiop.Setup.Used.{SetsUp, use_devices-SetsUp}

-- The entries of a stream, none if the directory cannot be opened.
abbrev pub listed : Option (ℕ × List Dirent) → List Dirent
listed none = []
listed (some (d, entries)) = entries

module _ {S : Type 0} (os : Os S) (kernel : Kernel S) (dirs : Dirs S) (polls : ℕ) (unset : ℤ)
    (serve : Server S)
    (portal : (fd : ℤ) (u s : S) (addr : ℕ)
      → (map_region kernel fd (kernel.device_get_region_info fd u).0.1 s).0 ≡ some addr
      → Serves os.device polls addr serve) where
  -- The directory that is read for a group.
  abbrev pub devices_path : Option ℕ → VfioTables → Text
  devices_path handle t =
      codes "/sys/kernel/iommu_groups/"
      ++ (dirs.print_int (fsl_vfio_get_group_id handle t) ++ codes "/devices")

  path_fits :
      (handle : Option ℕ) (t : VfioTables)
      → ((z : ℤ) → length (dirs.print_int z) ≤ 11)
      → ltb (length (devices_path handle t)) vfio_path_max ≡ true
  path_fits handle t short =
      let number = dirs.print_int (fsl_vfio_get_group_id handle t) in
      ground
        (arith, short (fsl_vfio_get_group_id handle t), length-append number (codes "/devices"))

  module _ (unset_fits : IsInt unset)
      (fits : (text : Text) (n : ℤ) → kernel.scan_int text ≡ some n → IsInt n)
      (short : (z : ℤ) → length (dirs.print_int z) ≤ 11)
      (numbered : (path : Text) (u : S) → AllNumbered (listed (dirs.opendir path u).0)) where
    -- From the opening of the directory on.
    opened_lem :
        (handle : Option ℕ) (t : VfioTables) (opened : Option (ℕ × List Dirent)) (s : S)
        → AllNumbered (listed opened)
        → Returns
            (SetsUp os kernel dirs polls unset serve portal handle
              (first_named dpmcp (listed opened))
              (first_named dpaiop (listed opened)))
            (with_stream os kernel dirs polls unset opened (fresh_obj handle) t s)
    unfolding with_stream
    opened_lem handle t none s all = inr (refl, (refl, refl))
    opened_lem handle t (some (d, entries)) s all =
        let mcp = first_named dpmcp entries in
        let aiop = first_named dpaiop entries in
        let w : Search = fresh_search (fresh_obj handle) in
        Returns-bind (Finds mcp aiop w)
          (SetsUp os kernel dirs polls unset serve portal handle mcp aiop) _ _
          (search_devices-Finds os kernel dirs polls unset unset_fits fits t entries w s all refl
            (record { mcp = refl; aiop = refl; id = λ e. absurd (ground (arith, e)) }))
          (λ w' s' found.
            use_devices-SetsUp os kernel dirs polls unset serve portal d t mcp aiop w w' s'
              (refl, refl) found)

    -- Let the kernel map the region of a device only where a server of requests answers, the
    -- numbers in the names of devices fit an `int` and their names have two parts, the texts of
    -- paths fit their buffers. `setup_aiopt_device` returns, for a fresh object with any handle.
    -- Either it succeeds, and then the directory of the group lists links to both kinds of device,
    -- and the object has the name of the first link that begins with `dpmcp` and of the first that
    -- begins with `dpaiop`, its handle, an id that is an `int`, and a portal where the server
    -- answers; or it fails, and both names are given up.
    pub setup_aiopt_device-SetsUp :
        (handle : Option ℕ) (t : VfioTables) (s : S)
        → let entries = listed (dirs.opendir (devices_path handle t) s).0 in
          Returns
            (SetsUp os kernel dirs polls unset serve portal handle
              (first_named dpmcp entries)
              (first_named dpaiop entries))
            (setup_aiopt_device os kernel dirs polls unset (fresh_obj handle) t s)
    unfolding setup_aiopt_device
    setup_aiopt_device-SetsUp handle t s = rw (path_fits handle t short) (
        opened_lem handle t (dirs.opendir (devices_path handle t) s).0
          (dirs.opendir (devices_path handle t) s).1 (numbered (devices_path handle t) s))
