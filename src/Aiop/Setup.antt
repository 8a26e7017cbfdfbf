-- ===== src/Aiop/Setup.antt =====
-- src/aiop_lib.c: finding the two devices of a container, and setting up and giving up the object
-- of the library. What the code prints is left out; an object is never NULL where it is passed on.
pub mod Devices
pub mod Filled
pub mod Found
pub mod Search
pub mod Start
pub mod Portal
pub mod Used
pub mod Ready
pub mod Init
use gpp_aioptool.Base.{
  ℕ, ◌+◌, ◌==◌, ◌&&◌, if◌then◌else◌, not, Bool, true, false, Option, none, some, ℤ, pos, is_zero,
  is_neg, List, [], ◌∷◌, ◌++◌, length, ltb, Text, codes, Act, pure, fault, ◌>>=◌, ◌>>◌,
}
use gpp_aioptool.Os.{Os, call, perform, map_failed}
use gpp_aioptool.Vfio.{Kernel, VfioTables, VfioDeviceInfo, vfio_path_max, fsl_vfio_setup}
use gpp_aioptool.Vfio.Device.{
  fsl_vfio_get_group_id, fsl_vfio_map_mcp_obj, fsl_vfio_get_dev_fd, fsl_vfio_get_device_info,
}
use gpp_aioptool.Dpaiop.Calls.{dpaiop_open, dpaiop_close, dpaiop_get_sl_version}
use gpp_aioptool.Aiop.Types.{AioptObj, DpobjType, with_token, aiopt_success, aiopt_failure}
use gpp_aioptool.Aiop.Session.{sizeof_mc_io, cmd_pri_low, portal_of, zero_version}

-- An entry of a directory: whether it is a symbolic link, and its name.
pub record Dirent : Type 0 where
  pub is_link : Bool
  pub d_name : Text

-- What the C library offers on directories: a stream is given by the entries that it will return.
pub record Dirs (S : Type 0) : Type 0 where
  pub opendir : Text → S → Option (ℕ × List Dirent) × S
  pub closedir : ℕ → S → S
  -- `sprintf` with `%d`.
  pub print_int : ℤ → Text

-- `enum dpobj_type_list`.
pub data DpobjTypeList : Type 0 where
  mcp_type aiop_type : DpobjTypeList

abbrev pub device_of : DpobjTypeList → AioptObj → DpobjType
device_of DpobjTypeList.mcp_type obj = obj.mcp
device_of DpobjTypeList.aiop_type obj = obj.aiop

abbrev pub with_device : DpobjTypeList → DpobjType → AioptObj → AioptObj
with_device DpobjTypeList.mcp_type device obj = record obj { mcp = device }
with_device DpobjTypeList.aiop_type device obj = record obj { aiop = device }

abbrev pub no_info : VfioDeviceInfo
no_info = record { num_regions = 0; num_irqs = 0 }

abbrev no_device : DpobjType
no_device = record { name = none; token = 0; id = pos 0; fd = pos 0; di = no_info }

-- The object that `calloc` returns, with a handle.
abbrev pub fresh_obj : (handle : Option ℕ) → AioptObj
fresh_obj handle = record { vfio_handle = handle; mcp_addr = 0; mcp = no_device; aiop = no_device }

-- `strtok` with ".": delimiters are skipped, and the token ends before the next one.
abbrev pub skip_dots : Text → Text
skip_dots [] = []
skip_dots (c ∷ cs) = if c == b'.' then skip_dots cs else c ∷ cs

abbrev pub split_dot : Text → Text × Text
split_dot [] = ([], [])
split_dot (c ∷ cs) =
    let (token, rest) = split_dot cs in if c == b'.' then ([], cs) else (c ∷ token, rest)

abbrev pub strtok : Text → Option (Text × Text)
strtok s = elim (skip_dots s) [ [] ↦ none | c ∷ cs ↦ some (split_dot (c ∷ cs)) ]

-- The second of two calls of `strtok`.
abbrev pub second_token : Text → Option Text
second_token s = elim (strtok s) [
  | none ↦ none
  | some (token, rest) ↦ elim (strtok rest) [ none ↦ none | some (second, after) ↦ some second ]
]

-- A variable that `sscanf` may write.
abbrev pub scanned_or : (unset : ℤ) → Option ℤ → ℤ
scanned_or unset none = unset
scanned_or unset (some n) = n

-- `!strncmp(prefix, name, n)`, `n` the length of the prefix.
abbrev pub begins : (prefix name : Text) → Bool
begins [] name = true
begins (c ∷ prefix) [] = false
begins (c ∷ prefix) (d ∷ name) = c == d && begins prefix name

abbrev pub dpmcp : Text
dpmcp = codes "dpmcp"

abbrev pub dpaiop : Text
dpaiop = codes "dpaiop"

-- `sizeof(aiopt_obj_t)`, with pointers of 64 bits.
abbrev pub sizeof_aiopt_obj : ℕ
sizeof_aiopt_obj = 96

module _ {S : Type 0} (os : Os S) (kernel : Kernel S) (dirs : Dirs S) (polls : ℕ) where
  -- The body of the loop of `cleanup_aiopt_obj`.
  unfoldable pub free_name : DpobjType → Act S DpobjType
  free_name dp = elim dp.name [
    | none ↦ pure dp
    | some (p, text) ↦ do perform (os.free p); pure (record dp { name = none })
  ]

  unfoldable pub cleanup_aiopt_obj : AioptObj → Act S AioptObj
  unfolding free_name
  cleanup_aiopt_obj obj = do
    mcp ← free_name obj.mcp
    aiop ← free_name obj.aiop
    pure (record obj { mcp = mcp; aiop = aiop })

  -- The call with a NULL name fails.
  unfoldable pub setup_mc_portal : AioptObj → VfioTables → Act S (ℤ × AioptObj)
  setup_mc_portal obj t = do
    v_addr ← elim obj.mcp.name [
      | none ↦ pure map_failed
      | some (p, mcp_obj) ↦ fsl_vfio_map_mcp_obj kernel obj.vfio_handle mcp_obj t
    ]
    let obj' = record obj { mcp_addr = v_addr }
    pure ((if v_addr == map_failed then aiopt_failure else aiopt_success), obj')

  -- `err_cleanup` of `fill_obj_info` after both allocations, and the end on success.
  unfoldable pub drop_name : (dir_c p : ℕ) → DpobjTypeList → AioptObj → Act S (ℤ × AioptObj)
  drop_name dir_c p type obj = do
    perform (os.free dir_c)
    perform (os.free p)
    pure (aiopt_failure, with_device type (record (device_of type obj) { name = none }) obj)

  unfoldable pub keep_name : (dir_c : ℕ) → AioptObj → Act S (ℤ × AioptObj)
  keep_name dir_c obj = do perform (os.free dir_c); pure (aiopt_success, obj)

  -- The descriptor and the information of the AIOP device, whose name is set.
  unfoldable pub fill_aiop_device :
      (dir_c p : ℕ) → (dir_name : Text) → AioptObj → VfioTables → Act S (ℤ × AioptObj)
  unfolding drop_name keep_name
  fill_aiop_device dir_c p dir_name obj t = do
    fd ← fsl_vfio_get_dev_fd kernel obj.vfio_handle dir_name t
    let obj1 = record obj { aiop = record (obj.aiop) { di = no_info; fd = fd } }
    if is_neg fd then drop_name dir_c p DpobjTypeList.aiop_type obj1 else do
      (ret, di) ← fsl_vfio_get_device_info kernel obj.vfio_handle dir_name no_info t
      let obj2 = record obj1 { aiop = record (obj1.aiop) { di = di } }
      if not (is_zero ret)
          then drop_name dir_c p DpobjTypeList.aiop_type obj2
          else keep_name dir_c obj2

  -- `sscanf` reads the second part of the name, which must be there; if it is no number the
  -- variable `id` stays as it is, `unset`.
  unfoldable pub fill_obj_info :
      (unset : ℤ) → AioptObj → DpobjTypeList → (dir_name : Text) → VfioTables → Act S (ℤ × AioptObj)
  unfolding keep_name fill_aiop_device
  fill_obj_info unset obj type dir_name t = do
    dir_c ← call (os.calloc (length dir_name + 1))
    if dir_c == 0 then pure (aiopt_failure, obj) else do
      p ← call (os.calloc (length dir_name + 1))
      if p == 0
          then (do perform (os.free dir_c); pure (aiopt_failure, obj))
          else elim (second_token dir_name) [
            | none ↦ (λ _. fault)
            | some number ↦
                let id = scanned_or unset (kernel.scan_int number) in
                let obj' =
                  with_device type
                    (record (device_of type obj) { name = some (p, dir_name); id = id }) obj in
                elim type [
                  | DpobjTypeList.mcp_type ↦ keep_name dir_c obj'
                  | DpobjTypeList.aiop_type ↦ fill_aiop_device dir_c p dir_name obj' t
                ]
          ]

  -- The result of `dpaiop_close` is only reported; that of `dpaiop_get_sl_version` is returned.
  unfoldable pub init_aiop : AioptObj → Act S (ℤ × AioptObj)
  init_aiop obj = do
    dpaiop ← call (os.calloc sizeof_mc_io)
    if dpaiop == 0 then pure (aiopt_failure, obj) else do
      let io = portal_of obj
      (ret, token) ← dpaiop_open os.device polls io cmd_pri_low obj.aiop.id obj.aiop.token
      let obj' = with_token obj token
      if not (is_zero ret) then (do perform (os.free dpaiop); pure (aiopt_failure, obj')) else do
        (ret1, slv) ← dpaiop_get_sl_version os.device polls io cmd_pri_low token zero_version
        ret2 ← dpaiop_close os.device polls io cmd_pri_low token
        perform (os.free dpaiop)
        pure (ret1, obj')
