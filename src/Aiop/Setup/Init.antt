-- ===== src/Aiop/Setup/Init.antt =====
-- `aiopt_init`: a handle is handed out only with a group that is in use and devices that were found.
use gpp_aioptool.Base.{
  ℕ, ◌<◌, ◌≤◌, ◌≡◌, ◌⊎◌, inl, inr, arith, sym, subst, ◌∙◌, ◌==◌, not, true, Bool-cases, Option,
  none, some, ℤ, List, [], ◌∷◌, length, is_zero, Text, Returns, Returns-if, Returns-bind,
}
use gpp_aioptool.Os.{Os}
use gpp_aioptool.Vfio.Device.{map_region}
use gpp_aioptool.Vfio.{Kernel, VfioTables, vfio_path_max}
use gpp_aioptool.Vfio.Tables.{IsConsistent}
use gpp_aioptool.Vfio.Setup.{SetUp, fsl_vfio_setup-SetUp}
use gpp_aioptool.Dpaiop.Types.{IsInt}
use gpp_aioptool.Dpaiop.Server.{Server, Serves}
use gpp_aioptool.Aiop.Types.{AioptObj}
use gpp_aioptool.Aiop.Setup.{Dirent, Dirs, begins, dpmcp, dpaiop, sizeof_aiopt_obj}
use gpp_aioptool.Aiop.Setup.Found.{first_named, AllNumbered}
use gpp_aioptool.Aiop.Setup.Portal.{IsReady}
use gpp_aioptool.Aiop.Setup.Used.{SetsUp}
use gpp_aioptool.Aiop.Setup.Ready.{listed, devices_path, setup_aiopt_device-SetsUp}
use gpp_aioptool.Aiop.Setup.Devices.{with_handle, aiopt_init}

first_named-begins :
    (prefix : Text) (entries : List Dirent) (name : Text)
    → first_named prefix entries ≡ some name
    → begins prefix name ≡ true
first_named-begins prefix [] name e = ground (arith, e)
first_named-begins prefix (dir ∷ rest) name e = elim (Bool-cases (begins prefix dir.d_name)) [
  | inl fits ↦ ground (arith, e, fits, first_named-begins prefix rest name)
  | inr other ↦ ground (arith, e, other, first_named-begins prefix rest name)
]

module _ {S : Type 0} (os : Os S) (kernel : Kernel S) (dirs : Dirs S) (polls : ℕ) (unset : ℤ)
    (serve : Server S)
    (portal : (fd : ℤ) (u s : S) (addr : ℕ)
      → (map_region kernel fd (kernel.device_get_region_info fd u).0.1 s).0 ≡ some addr
      → Serves os.device polls addr serve)
    (unset_fits : IsInt unset)
    (fits : (text : Text) (n : ℤ) → kernel.scan_int text ≡ some n → IsInt n)
    (short : (z : ℤ) → length (dirs.print_int z) ≤ 11)
    (numbered : (path : Text) (u : S) → AllNumbered (listed (dirs.opendir path u).0))
    (linked : (path : Text) (u : S)
      → length (kernel.readlink path vfio_path_max u).0.1 < vfio_path_max) where
  -- The object that is handed out, and the tables.
  abbrev pub IsHandedOut : AioptObj → VfioTables → Type 0
  IsHandedOut obj t =
      (t.group.connected ≡ true)
      × (m : Text) × (a : Text) × (begins dpmcp m ≡ true)
      × (begins dpaiop a ≡ true)
      × IsReady os polls serve (some 0) m a obj

  abbrev pub HandsOut : Option AioptObj × VfioTables → S → Type 0
  HandsOut (none, t') s' = IsConsistent t'
  HandsOut (some obj, t') s' = IsConsistent t' × IsHandedOut obj t'

  handle_lem :
      (p : ℕ) (handle : Option ℕ) (t : VfioTables) (s : S)
      → IsConsistent t
      → (handle ≡ none) ⊎ ((handle ≡ some 0) × (t.group.used ≡ true))
      → Returns HandsOut (with_handle os kernel dirs polls unset p handle t s)
  unfolding with_handle
  handle_lem p none t s consistent set = consistent
  handle_lem p (some group) t s consistent (inl e) = absurd (cc (e))
  handle_lem p (some group) t s consistent (inr (e, used)) =
      let entries =
        listed
          (dirs.opendir (devices_path os kernel dirs polls unset serve portal (some group) t)
            s).0 in
      let mcp = first_named dpmcp entries in
      let aiop = first_named dpaiop entries in
      Returns-bind (SetsUp os kernel dirs polls unset serve portal (some group) mcp aiop) HandsOut _
        _
        (setup_aiopt_device-SetsUp os kernel dirs polls unset serve portal unset_fits fits short
          numbered (some group) t s)
        (λ (ret, obj) s1 p1.
          Returns-if HandsOut (not (is_zero ret)) _ _ s1 (λ failed. consistent)
            (λ worked. elim p1 [
              | inr (failed, nameless) ↦ absurd (ground (arith, worked, failed))
              | inl (ok, m, a, mcp_is, aiop_is, ready) ↦ (
                consistent,
                (
                  sym consistent.in_use ∙ used,
                  m,
                  a,
                  first_named-begins dpmcp entries m mcp_is,
                  first_named-begins dpaiop entries a aiop_is,
                  subst (λ h. IsReady os polls serve h m a obj) e ready,
                ),
              )
            ]))

  -- Let the kernel map the region of a device only where a server of requests answers, the numbers
  -- in the names of devices fit an `int` and their names have two parts, the texts of paths fit
  -- their buffers, the name of the container have fewer than 76 bytes, and the tables be
  -- consistent. `aiopt_init` returns, and the tables are consistent. If it returns an object, the
  -- group is connected and the object's handle is the group's, its devices have names that begin
  -- with `dpmcp` and `dpaiop`, its id is an `int`, and the server answers at its portal.
  pub aiopt_init-HandsOut :
      (container_name : Text) (t : VfioTables) (s : S)
      → length container_name < 76
      → IsConsistent t
      → Returns HandsOut (aiopt_init os kernel dirs polls unset container_name t s)
  unfolding aiopt_init
  aiopt_init-HandsOut container_name t s named consistent =
      Returns-if HandsOut ((os.calloc sizeof_aiopt_obj s).0 == 0) _ _ _ (λ null. consistent)
        (λ there.
          Returns-bind (SetUp kernel) HandsOut _ _
            (fsl_vfio_setup-SetUp kernel container_name t _ named linked consistent)
            (λ (handle, t1) s1 p. handle_lem _ handle t1 s1 p.0 p.1))
