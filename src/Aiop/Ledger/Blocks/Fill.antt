-- ===== src/Aiop/Ledger/Blocks/Fill.antt =====
-- Filling in a device: its name is the only memory that it takes.
use gpp_aioptool.Base.{
  ℕ, ◌≡◌, sym, subst, refl, arith, ◌+◌, ◌==◌, not, true, Option, none, some, is_zero, is_neg, ℤ,
  List, ◌++◌, length, Text, IfDone, IfDone-if, fault, Act,
}
use gpp_aioptool.Os.{Os}
use gpp_aioptool.Vfio.{Kernel, VfioTables}
use gpp_aioptool.Vfio.Device.{fsl_vfio_get_dev_fd, fsl_vfio_get_device_info}
use gpp_aioptool.Aiop.Types.{AioptObj}
use gpp_aioptool.Aiop.Setup.{
  Dirs, DpobjTypeList, second_token, scanned_or, no_info, drop_name, keep_name, fill_aiop_device,
  fill_obj_info,
}
use gpp_aioptool.Aiop.Ledger.Frame.{Same, Same-bind}
use gpp_aioptool.Aiop.Ledger.Blocks.{
  Blocks, block_taken, block_freed, blocks_os, beside_kernel, beside_dirs,
}
use gpp_aioptool.Aiop.Ledger.Blocks.Gains.{
  Gains, block_of, Gains-block_freed, Gains-block_taken, Gains-swap, Gains-swap_after,
}
use gpp_aioptool.Aiop.Ledger.Blocks.Setup.{name_block, with_names, Owns}

module _ {S : Type 0} (os : Os S) (kernel : Kernel S) (dirs : Dirs S) (polls : ℕ) (b : Blocks)
    (xs : List ℕ) where
  -- The two ends of `fill_obj_info`, for the AIOP device.
  drop_name_lem :
      (dir_c p : ℕ) (obj : AioptObj) (s : S) (c : Blocks)
      → Gains (block_of dir_c ++ (block_of p ++ (name_block obj.mcp.name ++ xs))) b c
      → IfDone (Owns xs b) (
          drop_name
            (blocks_os os)
            (beside_kernel kernel)
            (beside_dirs dirs)
            polls
            dir_c
            p
            DpobjTypeList.aiop_type
            obj
            (s, c))
  unfolding drop_name
  drop_name_lem dir_c p obj s c g = Gains-block_freed p _ b _ (Gains-block_freed dir_c _ b c g)

  keep_name_lem :
      (dir_c : ℕ) (obj : AioptObj) (s : S) (c : Blocks)
      → Gains (block_of dir_c ++ with_names obj xs) b c
      → IfDone (Owns xs b) (
          keep_name (blocks_os os) (beside_kernel kernel) (beside_dirs dirs) polls dir_c obj (s, c))
  unfolding keep_name
  keep_name_lem dir_c obj s c g = Gains-block_freed dir_c _ b c g

  fsl_vfio_get_dev_fd-Same :
      (handle : Option ℕ) (dir_name : Text) (t : VfioTables) (s : S) (c : Blocks)
      → IfDone (Same c) (fsl_vfio_get_dev_fd (beside_kernel kernel) handle dir_name t (s, c))
  unfolding fsl_vfio_get_dev_fd
  fsl_vfio_get_dev_fd-Same handle dir_name t s c = ground arith

  fsl_vfio_get_device_info-Same :
      (handle : Option ℕ) (dir_name : Text) (t : VfioTables) (s : S) (c : Blocks)
      → IfDone
          (Same c)
          (fsl_vfio_get_device_info (beside_kernel kernel) handle dir_name no_info t (s, c))
  unfolding fsl_vfio_get_device_info fsl_vfio_get_dev_fd
  fsl_vfio_get_device_info-Same handle dir_name t s c = ground arith

  fill_aiop_device_lem :
      (dir_c p : ℕ) (dir_name : Text) (obj : AioptObj) (t : VfioTables) (s : S) (c : Blocks)
      → obj.aiop.name ≡ some (p, dir_name)
      → Gains (block_of dir_c ++ (block_of p ++ (name_block obj.mcp.name ++ xs))) b c
      → IfDone (Owns xs b) (
          fill_aiop_device
            (blocks_os os)
            (beside_kernel kernel)
            (beside_dirs dirs)
            polls
            dir_c
            p
            dir_name
            obj
            t
            (s, c))
  unfolding fill_aiop_device
  fill_aiop_device_lem dir_c p dir_name obj t s c named g =
      Same-bind c (Owns xs b) _ _ (fsl_vfio_get_dev_fd-Same obj.vfio_handle dir_name t s c)
        (λ fd s1.
          let obj1 = record obj { aiop = record (obj.aiop) { di = no_info; fd = fd } } in
          IfDone-if (Owns xs b) (is_neg fd) _ _ _ (λ missing. drop_name_lem dir_c p obj1 s1 c g)
            (λ there.
              Same-bind c (Owns xs b) _ _
                (fsl_vfio_get_device_info-Same obj.vfio_handle dir_name t s1 c)
                (λ (ret, di) s2.
                  let obj2 = record obj1 { aiop = record (obj1.aiop) { di = di } } in
                  IfDone-if (Owns xs b) (not (is_zero ret)) _ _ _
                    (λ failed. drop_name_lem dir_c p obj2 s2 c g)
                    (λ known. keep_name_lem dir_c obj2 s2 c kept))))
    where
      kept : Gains (block_of dir_c ++ with_names obj xs) b c
      kept =
          subst
            (λ n. Gains (block_of dir_c ++ (name_block obj.mcp.name ++ (name_block n ++ xs))) b c)
            (sym named)
            (Gains-swap_after (block_of dir_c) (block_of p) (name_block obj.mcp.name) xs b c g)

  module _ (unset : ℤ) (obj : AioptObj) (dir_name : Text) (t : VfioTables) (s : S)
      (c : Blocks) where
    abbrev dir_c : ℕ
    dir_c = (os.calloc (length dir_name + 1) s).0

    abbrev p : ℕ
    p = (os.calloc (length dir_name + 1) (os.calloc (length dir_name + 1) s).1).0

    -- Both blocks are allocated.
    both_lem :
        (ys : List ℕ)
        → Gains ys b c
        → Gains (block_of dir_c ++ (block_of p ++ ys)) b (block_taken p (block_taken dir_c c))
    both_lem ys g =
        Gains-swap (block_of p) (block_of dir_c) ys b _
          (Gains-block_taken p _ b _ (Gains-block_taken dir_c _ b c g))

    -- Only the first block is allocated.
    one_lem :
        Gains (with_names obj xs) b c
        → (p == 0) ≡ true
        → Gains (with_names obj xs) b (block_freed dir_c (block_taken p (block_taken dir_c c)))
    one_lem g null = rw null (Gains-block_freed dir_c _ b _ (Gains-block_taken dir_c _ b c g))

    numbered_lem :
        (second : Option Text) (f : Text → Act (S × Blocks) (ℤ × AioptObj)) (v : S × Blocks)
        → ((number : Text) → IfDone (Owns xs b) (f number v))
        → IfDone (Owns xs b) (
            (elim second as (λ _. Act (S × Blocks) (ℤ × AioptObj)) [
              | none ↦ (λ _. fault)
              | some number ↦ f number
            ])
              v)
    numbered_lem none f v rest = tt
    numbered_lem (some number) f v rest = rest number

    -- A name is set only where there was none.
    pub fill_mcp_lem :
        obj.mcp.name ≡ none
        → Gains (with_names obj xs) b c
        → IfDone (Owns xs b) (
            fill_obj_info
              (blocks_os os)
              (beside_kernel kernel)
              (beside_dirs dirs)
              polls
              unset
              obj
              DpobjTypeList.mcp_type
              dir_name
              t
              (s, c))
    unfolding fill_obj_info
    fill_mcp_lem unnamed g =
        IfDone-if (Owns xs b) (dir_c == 0) _ _ _ (λ null. rw null g)
          (λ there.
            IfDone-if (Owns xs b) (p == 0) _ _ _ (λ null. one_lem g null)
              (λ both. numbered_lem (second_token dir_name) _ _ (λ number.
                keep_name_lem dir_c
                  (record obj { mcp = record (obj.mcp) { name = some (p, dir_name) } })
                  (os.calloc (length dir_name + 1) (os.calloc (length dir_name + 1) s).1).1 _
                  (both_lem (name_block obj.aiop.name ++ xs) (
                    subst (λ n. Gains (name_block n ++ (name_block obj.aiop.name ++ xs)) b c)
                      unnamed g)))))

    pub fill_aiop_lem :
        obj.aiop.name ≡ none
        → Gains (with_names obj xs) b c
        → IfDone (Owns xs b) (
            fill_obj_info
              (blocks_os os)
              (beside_kernel kernel)
              (beside_dirs dirs)
              polls
              unset
              obj
              DpobjTypeList.aiop_type
              dir_name
              t
              (s, c))
    unfolding fill_obj_info
    fill_aiop_lem unnamed g =
        IfDone-if (Owns xs b) (dir_c == 0) _ _ _ (λ null. rw null g)
          (λ there.
            IfDone-if (Owns xs b) (p == 0) _ _ _ (λ null. one_lem g null)
              (λ both. numbered_lem (second_token dir_name) _ _ (λ number.
                fill_aiop_device_lem dir_c p dir_name
                  (record obj {
                    aiop = record (obj.aiop) {
                      name = some (p, dir_name);
                      id = scanned_or unset (kernel.scan_int number);
                    };
                  })
                  t _ _ refl
                  (both_lem (name_block obj.mcp.name ++ xs) (
                    subst (λ n. Gains (name_block obj.mcp.name ++ (name_block n ++ xs)) b c) unnamed
                      g)))))
