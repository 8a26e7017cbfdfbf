-- ===== src/Aiop/Ledger/Blocks/Search.antt =====
-- The search for the devices: a name is filled in only where there was none, so no block is lost.
use gpp_aioptool.Base.{
  ℕ, ◌≡◌, ap, ◌∙◌, arith, ◌&&◌, not, Bool-cases, inl, inr, true, false, none, is_zero, ℤ, List, [],
  ◌∷◌, Text, IfDone, IfDone-if, IfDone-bind, IfDone-both, if◌then◌else◌,
}
use gpp_aioptool.Os.{Os}
use gpp_aioptool.Vfio.{Kernel, VfioTables}
use gpp_aioptool.Vfio.Device.{fsl_vfio_get_dev_fd, fsl_vfio_get_device_info}
use gpp_aioptool.Aiop.Types.{AioptObj, DpobjType}
use gpp_aioptool.Aiop.Setup.{
  Dirent, Dirs, begins, dpmcp, dpaiop, DpobjTypeList, drop_name, keep_name, fill_aiop_device,
  fill_obj_info,
}
use gpp_aioptool.Aiop.Setup.Devices.{Search, try_mcp, try_aiop, search_devices}
use gpp_aioptool.Aiop.Ledger.Blocks.{Blocks, blocks_os, beside_kernel, beside_dirs}
use gpp_aioptool.Aiop.Ledger.Blocks.Gains.{Gains}
use gpp_aioptool.Aiop.Ledger.Blocks.Setup.{with_names, Owns}
use gpp_aioptool.Aiop.Ledger.Blocks.Fill.{fill_mcp_lem, fill_aiop_lem}

-- `fill_obj_info` leaves the other device alone.
module _ {S : Type 0} (os : Os S) (kernel : Kernel S) (dirs : Dirs S) (polls : ℕ) (unset : ℤ)
    (obj : AioptObj) (dir_name : Text) (t : VfioTables) (s : S) where
  fill_mcp_aiop :
      IfDone
        (λ (r, obj') s'. obj'.aiop ≡ obj.aiop)
        (fill_obj_info os kernel dirs polls unset obj DpobjTypeList.mcp_type dir_name t s)
  unfolding fill_obj_info keep_name
  fill_mcp_aiop = ground arith

  fill_aiop_mcp :
      IfDone
        (λ (r, obj') s'. obj'.mcp ≡ obj.mcp)
        (fill_obj_info os kernel dirs polls unset obj DpobjTypeList.aiop_type dir_name t s)
  unfolding fill_obj_info fill_aiop_device drop_name keep_name fsl_vfio_get_device_info
      fsl_vfio_get_dev_fd
  fill_aiop_mcp = ground arith

-- A device that was not found has no name yet.
abbrev pub IsOpen : Search → Type 0
IsOpen w =
    (w.mcp_avail ≡ false → w.obj.mcp.name ≡ none) × (w.aiop_avail ≡ false → w.obj.aiop.name ≡ none)

module _ {S : Type 0} (os : Os S) (kernel : Kernel S) (dirs : Dirs S) (polls : ℕ) (unset : ℤ)
    (b : Blocks) (xs : List ℕ) (t : VfioTables) where
  -- The state of the loop: the blocks are those of the names.
  abbrev pub Searches : Search → S × Blocks → Type 0
  Searches w (s, c) = Gains (with_names w.obj xs) b c × (w.ok ≡ true → IsOpen w)

  try_mcp_lem :
      (dir : Dirent) (w : Search) (s : S) (c : Blocks)
      → w.ok ≡ true
      → Searches w (s, c)
      → IfDone Searches (
          try_mcp
            (blocks_os os)
            (beside_kernel kernel)
            (beside_dirs dirs)
            polls
            unset
            dir
            t
            w
            (s, c))
  unfolding try_mcp
  try_mcp_lem dir w s c fine (g, open_if) =
      IfDone-if Searches (begins dpmcp dir.d_name && not w.mcp_avail) _ _ (s, c)
        (λ wanted.
          IfDone-bind Filled Searches _ _
            (IfDone-both (Owns xs b) (λ (r, obj') v. obj'.aiop ≡ w.obj.aiop) _
              (fill_mcp_lem os kernel dirs polls b xs unset w.obj dir.d_name t s c
                ((open_if fine).0 (ground (arith, wanted))) g)
              (fill_mcp_aiop (blocks_os os) (beside_kernel kernel) (beside_dirs dirs) polls unset
                w.obj dir.d_name t (s, c)))
            (λ (ret, obj) (s1, c1) (g1, other). filled ret obj c1 s1 g1 other))
        (λ unwanted. (g, open_if))
    where
      Filled : ℤ × AioptObj → S × Blocks → Type 0
      Filled (ret, obj') v = Owns xs b (ret, obj') v × (obj'.aiop ≡ w.obj.aiop)

      filled :
          (ret : ℤ) (obj : AioptObj) (c1 : Blocks) (s1 : S)
          → Gains (with_names obj xs) b c1
          → obj.aiop ≡ w.obj.aiop
          → Searches
              (if is_zero ret
                then record w { mcp_avail = true; obj = obj }
                else record w { ok = false; obj = obj })
              (s1, c1)
      filled ret obj c1 s1 g1 other = elim (Bool-cases (is_zero ret)) [
        | inl worked ↦ rw worked (
          g1,
          λ ok. (
            λ e. ground (arith, e),
            λ e. ap (λ (dp : DpobjType). dp.name) other ∙ (open_if fine).1 e,
          ),
        )
        | inr failed ↦ rw failed (g1, λ ok. ground (arith, ok))
      ]

  try_aiop_lem :
      (dir : Dirent) (w : Search) (s : S) (c : Blocks)
      → w.ok ≡ true
      → Searches w (s, c)
      → IfDone Searches (
          try_aiop
            (blocks_os os)
            (beside_kernel kernel)
            (beside_dirs dirs)
            polls
            unset
            dir
            t
            w
            (s, c))
  unfolding try_aiop
  try_aiop_lem dir w s c fine (g, open_if) =
      IfDone-if Searches (begins dpaiop dir.d_name && not w.aiop_avail) _ _ (s, c)
        (λ wanted.
          IfDone-bind Filled Searches _ _
            (IfDone-both (Owns xs b) (λ (r, obj') v. obj'.mcp ≡ w.obj.mcp) _
              (fill_aiop_lem os kernel dirs polls b xs unset w.obj dir.d_name t s c
                ((open_if fine).1 (ground (arith, wanted))) g)
              (fill_aiop_mcp (blocks_os os) (beside_kernel kernel) (beside_dirs dirs) polls unset
                w.obj dir.d_name t (s, c)))
            (λ (ret, obj) (s1, c1) (g1, other). filled ret obj c1 s1 g1 other))
        (λ unwanted. (g, open_if))
    where
      Filled : ℤ × AioptObj → S × Blocks → Type 0
      Filled (ret, obj') v = Owns xs b (ret, obj') v × (obj'.mcp ≡ w.obj.mcp)

      filled :
          (ret : ℤ) (obj : AioptObj) (c1 : Blocks) (s1 : S)
          → Gains (with_names obj xs) b c1
          → obj.mcp ≡ w.obj.mcp
          → Searches
              (if is_zero ret
                then record w { aiop_avail = true; obj = obj }
                else record w { ok = false; obj = obj })
              (s1, c1)
      filled ret obj c1 s1 g1 other = elim (Bool-cases (is_zero ret)) [
        | inl worked ↦ rw worked (
          g1,
          λ ok. (
            λ e. ap (λ (dp : DpobjType). dp.name) other ∙ (open_if fine).0 e,
            λ e. ground (arith, e),
          ),
        )
        | inr failed ↦ rw failed (g1, λ ok. ground (arith, ok))
      ]

  pub search_devices_lem :
      (entries : List Dirent) (w : Search) (s : S) (c : Blocks)
      → w.ok ≡ true
      → Searches w (s, c)
      → IfDone Searches (
          search_devices
            (blocks_os os)
            (beside_kernel kernel)
            (beside_dirs dirs)
            polls
            unset
            entries
            t
            w
            (s, c))
  unfolding search_devices
  search_devices_lem [] w s c fine p = p
  search_devices_lem (dir ∷ rest) w s c fine p =
      let ih = search_devices_lem rest in
      IfDone-if Searches (not dir.is_link) _ _ _ (λ other. ih w s c fine p)
        (λ link. IfDone-bind Searches Searches _ _ (try_mcp_lem dir w s c fine p) (λ w1 (s1, c1) p1.
          IfDone-if Searches (not w1.ok) _ _ _ (λ failed. p1)
            (λ passed.
              let fine1 : w1.ok ≡ true = ground (arith, passed) in
              IfDone-bind Searches Searches _ _ (try_aiop_lem dir w1 s1 c1 fine1 p1)
                (λ w2 (s2, c2) p2.
                  IfDone-if Searches (not w2.ok) _ _ _ (λ failed. p2)
                    (λ passed2. ih w2 s2 c2 (ground (arith, passed2)) p2)))))
