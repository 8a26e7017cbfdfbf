-- ===== src/Vfio/Device.antt =====
-- src/vfio/fsl_vfio.c: the devices of a group, by their names.
use gpp_aioptool.Base.{
  ℕ, if◌then◌else◌, not, Option, none, some, ℤ, is_zero, is_neg, is_positive, Text, Act, pure,
  ◌>>=◌, ◌>>◌,
}
use gpp_aioptool.Os.{call, perform, map_failed}
use gpp_aioptool.Vfio.{
  Kernel, VfioTables, VfioDeviceInfo, VfioRegionInfo, vfio_success, vfio_failure,
}

unfoldable pub fsl_vfio_get_group_id : (handle : Option ℕ) → VfioTables → ℤ
fsl_vfio_get_group_id none t = vfio_failure
fsl_vfio_get_group_id (some handle) t = t.group.groupid

unfoldable pub fsl_vfio_get_group_fd : (handle : Option ℕ) → VfioTables → ℤ
fsl_vfio_get_group_fd none t = vfio_failure
fsl_vfio_get_group_fd (some handle) t = t.group.fd

-- The address of a mapping, `MAP_FAILED` if there is none.
abbrev pub address_of : Option ℕ → ℕ
address_of none = map_failed
address_of (some addr) = addr

-- The `mmap` of a region.
abbrev pub map_region : {S : Type 0} → Kernel S → (fd : ℤ) → VfioRegionInfo → S → Option ℕ × S
map_region kernel fd reg_info = kernel.mmap_shared reg_info.size fd reg_info.offset

module _ {S : Type 0} (kernel : Kernel S) where
  -- The label `mcp_failure` of `fsl_vfio_map_mcp_obj`.
  abbrev close_mcp : (mcp_fd : ℤ) → (v_addr : ℕ) → Act S ℕ
  close_mcp mcp_fd v_addr = do perform (kernel.close mcp_fd); pure v_addr

  -- The descriptor is closed on success too; the mapping stays.
  unfoldable pub fsl_vfio_map_mcp_obj :
      (handle : Option ℕ) → (mcp_obj : Text) → VfioTables → Act S ℕ
  fsl_vfio_map_mcp_obj none mcp_obj t = pure map_failed
  fsl_vfio_map_mcp_obj (some handle) mcp_obj t = do
    mcp_fd ← call (kernel.group_get_device_fd t.group.fd mcp_obj)
    if is_neg mcp_fd then pure map_failed else do
      (ret, d_info) ← call (kernel.device_get_info mcp_fd)
      if is_neg ret then close_mcp mcp_fd map_failed else do
        (ret1, reg_info) ← call (kernel.device_get_region_info mcp_fd)
        if is_neg ret1 then close_mcp mcp_fd map_failed else do
          v_addr ← call (map_region kernel mcp_fd reg_info)
          close_mcp mcp_fd (address_of v_addr)

  -- The name is not NULL where the function is called.
  unfoldable pub fsl_vfio_get_dev_fd :
      (handle : Option ℕ) → (dev_name : Text) → VfioTables → Act S ℤ
  fsl_vfio_get_dev_fd none dev_name t = pure vfio_failure
  fsl_vfio_get_dev_fd (some handle) dev_name t = do
    dev_fd ← call (kernel.group_get_device_fd t.group.fd dev_name)
    pure (if is_neg dev_fd then vfio_failure else dev_fd)

  -- The result, and the structure, which starts as `dev_info`.
  unfoldable pub fsl_vfio_get_device_info :
      (handle : Option ℕ)
      → (dev_name : Text) → (dev_info : VfioDeviceInfo) → VfioTables
      → Act S (ℤ × VfioDeviceInfo)
  fsl_vfio_get_device_info handle dev_name dev_info t = do
    dev_fd ← fsl_vfio_get_dev_fd handle dev_name t
    if not (is_positive dev_fd) then pure (vfio_failure, dev_info) else do
      (ret, info) ← call (kernel.device_get_info dev_fd)
      pure (if is_zero ret then (vfio_success, info) else (vfio_failure, dev_info))
