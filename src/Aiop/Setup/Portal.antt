-- ===== src/Aiop/Setup/Portal.antt =====
-- Mapping the portal, and giving up the names of the devices.
use gpp_aioptool.Base.{
  ℕ, ◌≡◌, ◌⊎◌, inl, inr, refl, arith, ◌==◌, true, false, Option, none, some, ℤ, is_neg, Text,
  Bool-cases, Returns, Returns-if, Returns-bind, if◌then◌else◌,
}
use gpp_aioptool.Os.{Os, map_failed}
use gpp_aioptool.Vfio.{Kernel, VfioTables}
use gpp_aioptool.Vfio.Device.{map_region, fsl_vfio_map_mcp_obj, address_of}
use gpp_aioptool.Dpaiop.Types.{IsInt}
use gpp_aioptool.Dpaiop.Server.{Server, Serves}
use gpp_aioptool.Aiop.Types.{AioptObj, aiopt_success, aiopt_failure}
use gpp_aioptool.Aiop.Setup.{Dirs, cleanup_aiopt_obj, free_name, setup_mc_portal}
use gpp_aioptool.Aiop.Setup.Filled.{text_of}
use gpp_aioptool.Aiop.Setup.Devices.{give_up_device}

-- What the object needs for the operations of the library, with the names of its devices.
pub record IsReady {S : Type 0} (os : Os S) (polls : ℕ) (serve : Server S) (handle : Option ℕ)
    (mcp aiop : Text) (obj : AioptObj) : Type 0 where
  pub handled : obj.vfio_handle ≡ handle
  pub mcp_name : text_of obj.mcp.name ≡ some mcp
  pub aiop_name : text_of obj.aiop.name ≡ some aiop
  pub id : IsInt obj.aiop.id
  pub served : Serves os.device polls obj.mcp_addr serve

-- The names are given up.
abbrev pub IsNameless : AioptObj → Type 0
IsNameless obj = (obj.mcp.name ≡ none) × (obj.aiop.name ≡ none)

module _ {S : Type 0} (os : Os S) (kernel : Kernel S) (dirs : Dirs S) (polls : ℕ) (unset : ℤ)
    (serve : Server S)
    (portal : (fd : ℤ) (u s : S) (addr : ℕ)
      → (map_region kernel fd (kernel.device_get_region_info fd u).0.1 s).0 ≡ some addr
      → Serves os.device polls addr serve) where
  pub give_up_device-IsNameless :
      (obj : AioptObj) (s : S)
      → Returns
          (λ (r, obj') s'. (r ≡ aiopt_failure) × IsNameless obj')
          (give_up_device os kernel dirs polls unset obj s)
  unfolding give_up_device cleanup_aiopt_obj free_name
  give_up_device-IsNameless obj s = ground arith

  -- The address at which the portal is mapped.
  abbrev IsPortal : ℕ → S → Type 0
  IsPortal addr s = (addr ≡ map_failed) ⊎ Serves os.device polls addr serve

  address_of-IsPortal :
      (fd : ℤ) (u s : S) (mapped : Option ℕ)
      → (map_region kernel fd (kernel.device_get_region_info fd u).0.1 s).0 ≡ mapped
      → IsPortal (address_of mapped) s
  address_of-IsPortal fd u s none e = inl refl
  address_of-IsPortal fd u s (some addr) e = inr (portal fd u s addr e)

  fsl_vfio_map_mcp_obj-IsPortal :
      (handle : Option ℕ) (mcp_obj : Text) (t : VfioTables) (s : S)
      → Returns IsPortal (fsl_vfio_map_mcp_obj kernel handle mcp_obj t s)
  unfolding fsl_vfio_map_mcp_obj
  fsl_vfio_map_mcp_obj-IsPortal none mcp_obj t s = inl refl
  fsl_vfio_map_mcp_obj-IsPortal (some handle) mcp_obj t s =
      let fd = kernel.group_get_device_fd t.group.fd mcp_obj s in
      let info = kernel.device_get_info fd.0 fd.1 in
      let region = kernel.device_get_region_info fd.0 info.1 in
      Returns-if IsPortal (is_neg fd.0) _ _ _ (λ missing. inl refl)
        (λ there.
          Returns-if IsPortal (is_neg info.0.0) _ _ _ (λ failed. inl refl)
            (λ known.
              Returns-if IsPortal (is_neg region.0.0) _ _ _ (λ failed. inl refl)
                (λ found. address_of-IsPortal fd.0 info.1 region.1 _ refl)))

  -- Mapping the portal changes the address only.
  abbrev pub Maps : AioptObj → ℤ × AioptObj → S → Type 0
  Maps obj (r, obj') s =
      (obj' ≡ record obj { mcp_addr = obj'.mcp_addr })
      × (((r ≡ aiopt_success) × Serves os.device polls obj'.mcp_addr serve) ⊎ (r ≡ aiopt_failure))

  portal_result :
      (addr : ℕ)
      → (((addr == map_failed) ≡ true) ⊎ ((addr == map_failed) ≡ false))
      → (addr ≡ map_failed) ⊎ Serves os.device polls addr serve
      → (((if addr == map_failed then aiopt_failure else aiopt_success) ≡ aiopt_success)
          × Serves os.device polls addr serve)
        ⊎ ((if addr == map_failed then aiopt_failure else aiopt_success) ≡ aiopt_failure)
  portal_result addr (inl failed) at = inr (rw failed refl)
  portal_result addr (inr fine) (inr served) = inl (rw fine refl, served)
  portal_result addr (inr fine) (inl e) = absurd (ground (arith, e, fine))

  pub setup_mc_portal-Maps :
      (obj : AioptObj) (t : VfioTables) (s : S) (name : Option (ℕ × Text))
      → obj.mcp.name ≡ name
      → Returns (Maps obj) (setup_mc_portal os kernel dirs polls obj t s)
  unfolding setup_mc_portal
  setup_mc_portal-Maps obj t s none e = rw e (refl, inr refl)
  setup_mc_portal-Maps obj t s (some (p, mcp_obj)) e = simp (e) (
      Returns-bind IsPortal (Maps obj) _ _
        (fsl_vfio_map_mcp_obj-IsPortal obj.vfio_handle mcp_obj t s)
        (λ addr s' at. (refl, portal_result addr (Bool-cases (addr == map_failed)) at)))
