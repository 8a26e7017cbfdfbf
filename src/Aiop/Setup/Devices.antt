-- ===== src/Aiop/Setup/Devices.antt =====
-- src/aiop_lib.c: the search of `setup_aiopt_device` through the devices of the group, and
-- `aiopt_init` and `aiopt_deinit`.
use gpp_aioptool.Base.{
  ℕ, ◌==◌, ◌&&◌, ◌||◌, if◌then◌else◌, not, Bool, true, false, Option, none, some, ℤ, is_zero, List,
  [], ◌∷◌, ◌++◌, length, ltb, Text, codes, Act, pure, fault, ◌>>=◌, ◌>>◌,
}
use gpp_aioptool.Os.{Os, call, perform}
use gpp_aioptool.Vfio.{Kernel, VfioTables, vfio_path_max, fsl_vfio_setup}
use gpp_aioptool.Vfio.Device.{fsl_vfio_get_group_id}
use gpp_aioptool.Aiop.Types.{AioptObj, aiopt_success, aiopt_failure}
use gpp_aioptool.Aiop.Setup.{
  Dirent, Dirs, DpobjTypeList, fresh_obj, begins, dpmcp, dpaiop, sizeof_aiopt_obj,
  cleanup_aiopt_obj, setup_mc_portal, fill_obj_info, init_aiop,
}

-- The variables of the loop: `ret` is false once a device could not be filled in.
pub record Search : Type 0 where
  pub ok : Bool
  pub mcp_avail : Bool
  pub aiop_avail : Bool
  pub obj : AioptObj

abbrev pub fresh_search : AioptObj → Search
fresh_search obj = record { ok = true; mcp_avail = false; aiop_avail = false; obj = obj }

module _ {S : Type 0} (os : Os S) (kernel : Kernel S) (dirs : Dirs S) (polls : ℕ) (unset : ℤ) where
  -- `fill_mcp_obj_info` and `fill_aiop_obj_info`.
  abbrev fill_mcp_obj_info : AioptObj → (dir_name : Text) → VfioTables → Act S (ℤ × AioptObj)
  fill_mcp_obj_info obj dir_name t =
      fill_obj_info os kernel dirs polls unset obj DpobjTypeList.mcp_type dir_name t

  abbrev fill_aiop_obj_info : AioptObj → (dir_name : Text) → VfioTables → Act S (ℤ × AioptObj)
  fill_aiop_obj_info obj dir_name t =
      fill_obj_info os kernel dirs polls unset obj DpobjTypeList.aiop_type dir_name t

  -- A test of the loop's body and what it guards.
  unfoldable pub try_mcp : Dirent → VfioTables → Search → Act S Search
  try_mcp dir t w =
      if begins dpmcp dir.d_name && not w.mcp_avail
      then (do
        (ret, obj) ← fill_mcp_obj_info w.obj dir.d_name t
        pure (
            if is_zero ret
            then record w { mcp_avail = true; obj = obj }
            else record w { ok = false; obj = obj }))
      else pure w

  unfoldable pub try_aiop : Dirent → VfioTables → Search → Act S Search
  try_aiop dir t w =
      if begins dpaiop dir.d_name && not w.aiop_avail
      then (do
        (ret, obj) ← fill_aiop_obj_info w.obj dir.d_name t
        pure (
            if is_zero ret
            then record w { aiop_avail = true; obj = obj }
            else record w { ok = false; obj = obj }))
      else pure w

  -- The loop, which a failure leaves.
  unfoldable pub search_devices : List Dirent → VfioTables → Search → Act S Search
  search_devices [] t w = pure w
  search_devices (dir ∷ rest) t w =
      let go_on = search_devices rest t in
      if not dir.is_link then go_on w else do
        w1 ← try_mcp dir t w
        if not w1.ok
            then pure w1
            else do w2 ← try_aiop dir t w1; if not w2.ok then pure w2 else go_on w2

  -- The label `err_cleanup`.
  unfoldable pub give_up_device : AioptObj → Act S (ℤ × AioptObj)
  give_up_device obj = do
    obj' ← cleanup_aiopt_obj os kernel dirs polls obj
    pure (aiopt_failure, obj')

  -- After the loop. The stream is closed unless a device could not be filled in.
  unfoldable pub use_devices : (d : ℕ) → VfioTables → Search → Act S (ℤ × AioptObj)
  unfolding give_up_device
  use_devices d t w = if not w.ok then give_up_device w.obj else do
    perform (dirs.closedir d)
    if not w.mcp_avail || not w.aiop_avail then give_up_device w.obj else do
      (ret, obj1) ← setup_mc_portal os kernel dirs polls w.obj t
      if not (is_zero ret) then give_up_device obj1 else do
        (ret1, obj2) ← init_aiop os kernel dirs polls obj1
        if not (is_zero ret1) then give_up_device obj2 else pure (aiopt_success, obj2)

  -- From the opened stream on.
  unfoldable pub with_stream :
      Option (ℕ × List Dirent) → AioptObj → VfioTables → Act S (ℤ × AioptObj)
  unfolding search_devices use_devices
  with_stream none obj t = pure (aiopt_failure, obj)
  with_stream (some (d, entries)) obj t = do
    w ← search_devices entries t (fresh_search obj)
    use_devices d t w

  -- `sprintf` writes the path into `path`, where it must fit.
  unfoldable pub setup_aiopt_device : AioptObj → VfioTables → Act S (ℤ × AioptObj)
  unfolding with_stream
  setup_aiopt_device obj t = do
    let path =
        codes "/sys/kernel/iommu_groups/"
        ++ (dirs.print_int (fsl_vfio_get_group_id obj.vfio_handle t) ++ codes "/devices")
    if not (ltb (length path) vfio_path_max)
        then (λ _. fault)
        else do opened ← call (dirs.opendir path); with_stream opened obj t

  -- `none` is `AIOPT_INVALID_HANDLE`; `p` is the memory of the object.
  unfoldable pub with_handle :
      (p : ℕ) (handle : Option ℕ) → VfioTables → Act S (Option AioptObj × VfioTables)
  with_handle p none t = do perform (os.free p); pure (none, t)
  with_handle p (some group) t = do
    (ret, obj) ← setup_aiopt_device (fresh_obj (some group)) t
    if not (is_zero ret) then (do perform (os.free p); pure (none, t)) else pure (some obj, t)

  unfoldable pub aiopt_init :
      (container_name : Text) → VfioTables → Act S (Option AioptObj × VfioTables)
  unfolding with_handle
  aiopt_init container_name t = do
    p ← call (os.calloc sizeof_aiopt_obj)
    if p == 0
        then pure (none, t)
        else do (handle, t1) ← fsl_vfio_setup kernel container_name t; with_handle p handle t1

  unfoldable pub aiopt_deinit : AioptObj → Act S (ℤ × AioptObj)
  aiopt_deinit obj = do
    obj' ← cleanup_aiopt_obj os kernel dirs polls obj
    pure (aiopt_success, obj')
