-- ===== src/Vfio.antt =====
-- src/vfio/fsl_vfio.c: the tables of VFIO groups and containers, each with one entry
-- (`VFIO_MAX_GRP` and `VFIO_MAX_CONTAINERS`), and the functions that set a group up and destroy it.
pub mod Tables
pub mod Setup
pub mod Dma
pub mod Device
use gpp_aioptool.Base.{
  ℕ, ◌+◌, ◌-◌, ◌==◌, if◌then◌else◌, not, Bool, true, false, Option, none, some, ℤ, pos, neg,
  is_zero, is_neg, same_int, Text, codes, ◌++◌, length, take, ltb, Act, pure, fault, ◌>>=◌, ◌>>◌,
}
use gpp_aioptool.Os.{call, perform}

abbrev pub vfio_path_max : ℕ
vfio_path_max = 100

-- `strncat(path, suffix, sizeof(path) - strlen(path) - 1)`, for a text that fits the buffer.
abbrev pub path_with : (path suffix : Text) → Text
path_with path suffix = path ++ take (vfio_path_max - length path - 1) suffix

abbrev pub vfio_max_grp : ℕ
vfio_max_grp = 1

abbrev pub vfio_success : ℤ
vfio_success = pos 0

abbrev pub vfio_failure : ℤ
vfio_failure = neg 1

-- The fields of `struct vfio_device_info` of linux/vfio.h that the program reads, and of
-- `struct vfio_region_info`.
pub record VfioDeviceInfo : Type 0 where
  pub num_regions : ℕ
  pub num_irqs : ℕ

pub record VfioRegionInfo : Type 0 where
  pub size : ℕ
  pub offset : ℕ

-- What the code calls: the `ioctl` requests of linux/vfio.h by name, files, and the functions of
-- the C library on paths.
pub record Kernel (S : Type 0) : Type 0 where
  pub open_group : (groupid : ℤ) → S → ℤ × S
  pub open_vfio : S → ℤ × S
  pub close : ℤ → S → S
  pub stat : Text → S → ℤ × S
  -- The result is the length, or -1, with the bytes that are stored.
  pub readlink : Text → (cap : ℕ) → S → (ℤ × Text) × S
  pub basename : Text → Text
  -- `sscanf` with `%d`.
  pub scan_int : Text → Option ℤ
  pub group_set_container : (group_fd container_fd : ℤ) → S → ℤ × S
  pub group_unset_container : (group_fd container_fd : ℤ) → S → ℤ × S
  -- The result, and whether the group is viable.
  pub group_get_status : (group_fd : ℤ) → S → (ℤ × Bool) × S
  pub group_get_device_fd : (group_fd : ℤ) → Text → S → ℤ × S
  -- The result, and the structure if the result is 0.
  pub device_get_info : (device_fd : ℤ) → S → (ℤ × VfioDeviceInfo) × S
  pub device_get_region_info : (device_fd : ℤ) → S → (ℤ × VfioRegionInfo) × S
  pub get_api_version : (fd : ℤ) → S → ℤ × S
  pub check_extension : (fd : ℤ) → S → ℤ × S
  pub set_iommu : (fd : ℤ) → S → ℤ × S
  pub iommu_map_dma : (fd : ℤ) (vaddr iova size : ℕ) → S → ℤ × S
  pub iommu_unmap_dma : (fd : ℤ) (iova size : ℕ) → S → ℤ × S
  -- `mmap` of a shared region for reading and writing; `none` is `MAP_FAILED`.
  pub mmap_shared : (len : ℕ) (fd : ℤ) (offset : ℕ) → S → Option ℕ × S
  pub errno : S → ℕ

-- `struct vfio_group`; `connected` says whether `container` points to the container.
pub record VfioGroup : Type 0 where
  pub fd : ℤ
  pub groupid : ℤ
  pub used : Bool
  pub connected : Bool

-- `struct vfio_container`, less `group_list`, which is only written.
pub record VfioContainer : Type 0 where
  pub fd : ℤ
  pub used : Bool
  pub index : ℕ

-- The global variables of the file.
pub record VfioTables : Type 0 where
  pub group : VfioGroup
  pub container : VfioContainer
  pub container_device_fd : ℤ
  -- 0 is NULL.
  pub msi_intr_vaddr : ℕ

-- `VFIO_API_VERSION` of linux/vfio.h is 0.
abbrev pub is_api_version : ℤ → Bool
is_api_version ret = is_zero ret

abbrev pub connected_to : VfioTables → VfioContainer → VfioTables
connected_to t c = record t { group = record (t.group) { connected = true }; container = c }

module _ {S : Type 0} (kernel : Kernel S) where
  -- The container that was opened is refused and closed.
  give_up : (fd : ℤ) → VfioTables → Act S (ℤ × VfioTables)
  give_up fd t = do perform (kernel.close fd); pure (vfio_failure, t)

  -- `group_list[index] = group`, at the container's index, which must lie in the array.
  unfoldable pub take_container : (fd : ℤ) → VfioTables → Act S (ℤ × VfioTables)
  unfolding give_up
  take_container fd t =
      if t.container.used
      then give_up fd t
      else if not (ltb t.container.index vfio_max_grp)
      then (λ _. fault)
      else pure (
        vfio_success,
        connected_to t (record { fd = fd; used = true; index = t.container.index + 1 }),
      )

  unfoldable pub vfio_connect_container : VfioTables → Act S (ℤ × VfioTables)
  unfolding give_up take_container
  vfio_connect_container t = do
    existing ← call (kernel.group_set_container t.group.fd t.container.fd)
    if is_zero existing then pure (vfio_success, connected_to t t.container) else do
      fd ← call kernel.open_vfio
      if is_neg fd then pure (vfio_failure, t) else do
        version ← call (kernel.get_api_version fd)
        if not (is_api_version version) then give_up fd t else do
          smmu ← call (kernel.check_extension fd)
          if is_zero smmu then give_up fd t else do
            set ← call (kernel.group_set_container t.group.fd fd)
            if not (is_zero set) then give_up fd t else do
              iommu ← call (kernel.set_iommu fd)
              if not (is_zero iommu) then give_up fd t else take_container fd t

  unfoldable pub vfio_disconnect_container : VfioTables → Act S VfioTables
  vfio_disconnect_container t = if not t.group.connected then pure t else do
    ignored ← call (kernel.group_unset_container t.group.fd t.container.fd)
    perform (kernel.close t.container.fd)
    pure (record t {
      group = record (t.group) { connected = false };
      container = record (t.container) { fd = pos 0 };
    })

  abbrev pub with_group_fd : VfioTables → ℤ → VfioTables
  with_group_fd t fd = record t { group = record (t.group) { fd = fd } }

  -- The label `fail` of `vfio_set_group`.
  unfoldable pub fail_group : VfioTables → Act S (ℤ × VfioTables)
  fail_group t = do perform (kernel.close t.group.fd); pure (vfio_failure, with_group_fd t (pos 0))

  unfoldable pub vfio_set_group : (groupid : ℤ) → VfioTables → Act S (ℤ × VfioTables)
  unfolding fail_group vfio_connect_container
  vfio_set_group groupid t = do
    fd ← call (kernel.open_group groupid)
    let t1 = with_group_fd t fd
    if is_neg fd then pure (vfio_failure, t1) else do
      (ret, viable) ← call (kernel.group_get_status fd)
      if not (is_zero ret) then fail_group t1 else if not viable then fail_group t1 else do
        (err, t2) ←
            vfio_connect_container (record t1 { group = record (t1.group) { groupid = groupid } })
        if not (is_zero err)
            then fail_group t2
            else pure (vfio_success, record t2 { group = record (t2.group) { used = true } })

  unfoldable pub vfio_put_group : VfioTables → Act S VfioTables
  unfolding vfio_disconnect_container
  vfio_put_group t = do
    t1 ← vfio_disconnect_container t
    t2 ←
        (if is_zero t1.group.fd
          then pure t1
          else do perform (kernel.close t1.group.fd); pure (with_group_fd t1 (pos 0)))
    pure (record t2 { group = record (t2.group) { used = false } })

  -- The number of the IOMMU group. The path that `sprintf` writes must fit its buffer, and
  -- `iommu_group_path[len] = 0` must lie in the other.
  unfoldable pub find_group : (vfio_container : Text) → Act S (Option ℤ)
  find_group vfio_container = do
    let path = codes "/sys/bus/fsl-mc/devices/" ++ vfio_container
    if not (ltb (length path) vfio_path_max) then (λ _. fault) else do
      st ← call (kernel.stat path)
      if is_neg st then pure none else do
        (len, link) ← call (kernel.readlink (path_with path (codes "/iommu_group")) vfio_path_max)
        if is_neg len
            then pure none
            else if not (ltb (length link) vfio_path_max)
            then (λ _. fault)
            else pure (kernel.scan_int (kernel.basename link))

  -- The label `cleanup` of `fsl_vfio_setup`.
  unfoldable pub clean_up : VfioTables → Act S (Option ℕ × VfioTables)
  clean_up t = do t' ← vfio_put_group t; pure (none, t')

  -- `fsl_vfio_setup` from the group's number on; `none` is a failure to find it.
  unfoldable pub setup_found :
      (vfio_container : Text) → VfioTables → Option ℤ → Act S (Option ℕ × VfioTables)
  setup_found vfio_container t none = pure (none, t)
  setup_found vfio_container t (some groupid) =
      if t.group.used
      then (if same_int t.group.groupid groupid then pure (some 0, t) else clean_up t)
      else (do
        (err, t1) ← vfio_set_group groupid t
        if not (is_zero err) then clean_up t1 else do
          ret ← call (kernel.group_get_device_fd t1.group.fd vfio_container)
          if is_neg ret
              then clean_up t1
              else pure (some 0, record t1 { container_device_fd = ret }))

  -- The handle is the index of the group, `none` if it is `FSL_VFIO_INVALID_HANDLE`.
  unfoldable pub fsl_vfio_setup :
      (vfio_container : Text) → VfioTables → Act S (Option ℕ × VfioTables)
  unfolding find_group setup_found
  fsl_vfio_setup vfio_container t = do
    found ← find_group vfio_container
    setup_found vfio_container t found

  unfoldable pub fsl_vfio_destroy : Option ℕ → VfioTables → Act S (ℤ × VfioTables)
  unfolding vfio_put_group
  fsl_vfio_destroy none t = pure (vfio_failure, t)
  fsl_vfio_destroy (some handle) t = do t' ← vfio_put_group t; pure (vfio_success, t')
