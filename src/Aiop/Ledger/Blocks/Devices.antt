-- ===== src/Aiop/Ledger/Blocks/Devices.antt =====
-- `setup_aiopt_device`: on success the memory of the two names is held, on failure nothing of it.
use gpp_aioptool.Base.{
  ℕ, ◌≡◌, ◌⊎◌, inl, inr, subst, sym, refl, arith, ◌||◌, ◌++◌, ltb, not, Option, none, some, is_zero,
  length, codes, ℤ, List, IfDone, IfDone-if, IfDone-bind, IfDone-both, IfDone-mono,
}
use gpp_aioptool.Os.{Os}
use gpp_aioptool.Vfio.{Kernel, VfioTables, vfio_path_max}
use gpp_aioptool.Vfio.Device.{fsl_vfio_get_group_id}
use gpp_aioptool.Aiop.Types.{AioptObj, DpobjType, aiopt_success, aiopt_failure}
use gpp_aioptool.Aiop.Setup.{Dirent, Dirs, fresh_obj, setup_mc_portal, init_aiop}
use gpp_aioptool.Aiop.Setup.Devices.{
  Search, fresh_search, give_up_device, use_devices, with_stream, setup_aiopt_device,
}
use gpp_aioptool.Aiop.Ledger.Frame.{Same}
use gpp_aioptool.Aiop.Ledger.Blocks.{Blocks, blocks_os, beside_kernel, beside_dirs}
use gpp_aioptool.Aiop.Ledger.Blocks.Gains.{Gains}
use gpp_aioptool.Aiop.Ledger.Blocks.Sessions.{init_aiop-Same}
use gpp_aioptool.Aiop.Ledger.Blocks.Setup.{
  name_block, with_names, Gained, Owns, cleanup_aiopt_obj_lem, setup_mc_portal_lem,
}
use gpp_aioptool.Aiop.Ledger.Blocks.Search.{Searches, search_devices_lem}

module _ {S : Type 0} (os : Os S) (kernel : Kernel S) (dirs : Dirs S) (polls : ℕ) (unset : ℤ)
    (b : Blocks) (xs : List ℕ) (t : VfioTables) where
  abbrev pub SetsUpBlocks : ℤ × AioptObj → S × Blocks → Type 0
  SetsUpBlocks (r, obj) (s, c) =
      ((r ≡ aiopt_success) × Gains (with_names obj xs) b c) ⊎ ((r ≡ aiopt_failure) × Gains xs b c)

  give_up_lem :
      (obj : AioptObj) (s : S) (c : Blocks)
      → Gains (with_names obj xs) b c
      → IfDone SetsUpBlocks (
          give_up_device
            (blocks_os os)
            (beside_kernel kernel)
            (beside_dirs dirs)
            polls
            unset
            obj
            (s, c))
  unfolding give_up_device
  give_up_lem obj s c g =
      IfDone-bind (Gained xs b) SetsUpBlocks _ _
        (cleanup_aiopt_obj_lem os kernel dirs polls b xs obj s c g)
        (λ obj' (s', c') g'. inr (refl, g'))

  -- The names stay, and so do their blocks.
  portal_lem :
      (obj : AioptObj) (s : S) (c : Blocks)
      → Gains (with_names obj xs) b c
      → IfDone (Owns xs b) (
          setup_mc_portal
            (blocks_os os)
            (beside_kernel kernel)
            (beside_dirs dirs)
            polls
            obj
            t
            (s, c))
  portal_lem obj s c g =
      IfDone-mono (λ (r, obj') (s', c'). (obj'.mcp ≡ obj.mcp) × (obj'.aiop ≡ obj.aiop) × (c' ≡ c))
        (Owns xs b) _
        (λ (r, obj') (s', c') (mcp, aiop, same).
          subst (λ d. Gains (with_names obj' xs) b d) (sym same)
            (subst
              (λ (dp : DpobjType).
                Gains (name_block obj'.mcp.name ++ (name_block dp.name ++ xs)) b c)
              (sym aiop)
              (subst
                (λ (dp : DpobjType).
                  Gains (name_block dp.name ++ (name_block obj.aiop.name ++ xs)) b c)
                (sym mcp) g)))
        (setup_mc_portal_lem os kernel dirs polls b xs obj t s c)

  init_keeps_names :
      (obj : AioptObj) (s : S) (c : Blocks)
      → IfDone
          (λ (r, obj') v. with_names obj' xs ≡ with_names obj xs)
          (init_aiop (blocks_os os) (beside_kernel kernel) (beside_dirs dirs) polls obj (s, c))
  unfolding init_aiop
  init_keeps_names obj s c = ground arith

  init_lem :
      (obj : AioptObj) (s : S) (c : Blocks)
      → Gains (with_names obj xs) b c
      → IfDone
          (Owns xs b)
          (init_aiop (blocks_os os) (beside_kernel kernel) (beside_dirs dirs) polls obj (s, c))
  init_lem obj s c g =
      IfDone-mono (λ r v. Same c r v × (with_names (r.1) xs ≡ with_names obj xs)) (Owns xs b) _
        (λ (r, obj') (s', c') (same, names).
          subst (λ d. Gains (with_names obj' xs) b d) (sym same)
            (subst (λ ys. Gains ys b c) (sym names) g))
        (IfDone-both (Same c) (λ (r, obj') v. with_names obj' xs ≡ with_names obj xs) _
          (init_aiop-Same os polls obj s c (beside_kernel kernel) (beside_dirs dirs))
          (init_keeps_names obj s c))

  use_devices_lem :
      (d : ℕ) (w : Search) (s : S) (c : Blocks)
      → Gains (with_names w.obj xs) b c
      → IfDone SetsUpBlocks (
          use_devices
            (blocks_os os)
            (beside_kernel kernel)
            (beside_dirs dirs)
            polls
            unset
            d
            t
            w
            (s, c))
  unfolding use_devices
  use_devices_lem d w s c g =
      IfDone-if SetsUpBlocks (not w.ok) _ _ _ (λ failed. give_up_lem w.obj s c g)
        (λ passed.
          IfDone-if SetsUpBlocks (not w.mcp_avail || not w.aiop_avail) _ _ _
            (λ missing. give_up_lem w.obj _ c g)
            (λ found.
              IfDone-bind (Owns xs b) SetsUpBlocks _ _ (portal_lem w.obj _ c g)
                (λ (ret, obj1) (s1, c1) g1.
                  IfDone-if SetsUpBlocks (not (is_zero ret)) _ _ _
                    (λ failed. give_up_lem obj1 s1 c1 g1)
                    (λ mapped.
                      IfDone-bind (Owns xs b) SetsUpBlocks _ _ (init_lem obj1 s1 c1 g1)
                        (λ (ret1, obj2) (s2, c2) g2.
                          IfDone-if SetsUpBlocks (not (is_zero ret1)) _ _ _
                            (λ failed. give_up_lem obj2 s2 c2 g2) (λ started. inl (refl, g2)))))))

  stream_lem :
      (opened : Option (ℕ × List Dirent)) (handle : Option ℕ) (s : S) (c : Blocks)
      → Gains xs b c
      → IfDone SetsUpBlocks (
          with_stream
            (blocks_os os)
            (beside_kernel kernel)
            (beside_dirs dirs)
            polls
            unset
            opened
            (fresh_obj handle)
            t
            (s, c))
  unfolding with_stream
  stream_lem none handle s c g = inr (refl, g)
  stream_lem (some (d, entries)) handle s c g =
      IfDone-bind (Searches os kernel dirs polls unset b xs t) SetsUpBlocks _ _
        (search_devices_lem os kernel dirs polls unset b xs t entries
          (fresh_search (fresh_obj handle)) s c refl (g, λ ok. (λ e. refl, λ e. refl)))
        (λ w (s1, c1) (g1, open_if). use_devices_lem d w s1 c1 g1)

  pub setup_aiopt_device_lem :
      (handle : Option ℕ) (s : S) (c : Blocks)
      → Gains xs b c
      → IfDone SetsUpBlocks (
          setup_aiopt_device
            (blocks_os os)
            (beside_kernel kernel)
            (beside_dirs dirs)
            polls
            unset
            (fresh_obj handle)
            t
            (s, c))
  unfolding setup_aiopt_device
  setup_aiopt_device_lem handle s c g =
      let path =
        codes "/sys/kernel/iommu_groups/"
        ++ (dirs.print_int (fsl_vfio_get_group_id handle t) ++ codes "/devices") in
      IfDone-if SetsUpBlocks (not (ltb (length path) vfio_path_max)) _ _ _ (λ long. tt)
        (λ short. stream_lem (dirs.opendir path s).0 handle (dirs.opendir path s).1 c g)
