-- ===== src/Aiop/Ledger/Blocks/Setup.antt =====
-- Finding and filling in the devices: the memory that is held is that of the names of the object.
use gpp_aioptool.Base.{
  ℕ, ◌≡◌, refl, arith, Option, none, some, List, [], ◌++◌, Text, IfDone, IfDone-bind,
}
use gpp_aioptool.Os.{Os}
use gpp_aioptool.Vfio.{Kernel, VfioTables}
use gpp_aioptool.Vfio.Device.{fsl_vfio_map_mcp_obj}
use gpp_aioptool.Aiop.Types.{AioptObj, DpobjType}
use gpp_aioptool.Aiop.Setup.{Dirs, free_name, cleanup_aiopt_obj, setup_mc_portal}
use gpp_aioptool.Aiop.Ledger.Blocks.{Blocks, blocks_os, beside_kernel, beside_dirs}
use gpp_aioptool.Aiop.Ledger.Blocks.Gains.{Gains, block_of, Gains-block_freed}

-- The blocks of the names of an object, before other blocks.
abbrev pub name_block : Option (ℕ × Text) → List ℕ
name_block none = []
name_block (some (p, text)) = block_of p

abbrev pub with_names : AioptObj → List ℕ → List ℕ
with_names obj xs = name_block obj.mcp.name ++ (name_block obj.aiop.name ++ xs)

-- The blocks gained are those of the names of the object, and `xs`.
abbrev pub Owns : {S A : Type 0} → List ℕ → Blocks → A × AioptObj → S × Blocks → Type 0
Owns xs b (r, obj) (s, c) = Gains (with_names obj xs) b c

abbrev pub Gained : {S A : Type 0} → List ℕ → Blocks → A → S × Blocks → Type 0
Gained xs b r (s, c) = Gains xs b c

module _ {S : Type 0} (os : Os S) (kernel : Kernel S) (dirs : Dirs S) (polls : ℕ) (b : Blocks)
    (xs : List ℕ) where
  free_name_lem :
      (dp : DpobjType) (name : Option (ℕ × Text)) (ys : List ℕ) (s : S) (c : Blocks)
      → dp.name ≡ name
      → Gains (name_block name ++ ys) b c
      → IfDone
          (Gained ys b)
          (free_name (blocks_os os) (beside_kernel kernel) (beside_dirs dirs) polls dp (s, c))
  unfolding free_name
  free_name_lem dp none ys s c e g = rw e g
  free_name_lem dp (some (p, text)) ys s c e g = rw e (Gains-block_freed p ys b c g)

  -- Both names are given up.
  pub cleanup_aiopt_obj_lem :
      (obj : AioptObj) (s : S) (c : Blocks)
      → Gains (with_names obj xs) b c
      → IfDone (Gained xs b) (
          cleanup_aiopt_obj
            (blocks_os os)
            (beside_kernel kernel)
            (beside_dirs dirs)
            polls
            obj
            (s, c))
  unfolding cleanup_aiopt_obj
  cleanup_aiopt_obj_lem obj s c g =
      IfDone-bind (Gained (name_block obj.aiop.name ++ xs) b) (Gained xs b) _ _
        (free_name_lem obj.mcp obj.mcp.name _ s c refl g)
        (λ mcp (s1, c1) g1.
          IfDone-bind (Gained xs b) (Gained xs b) _ _
            (free_name_lem obj.aiop obj.aiop.name xs s1 c1 refl g1) (λ aiop (s2, c2) g2. g2))

  pub setup_mc_portal_lem :
      (obj : AioptObj) (t : VfioTables) (s : S) (c : Blocks)
      → IfDone
          (λ (r, obj') (s', c'). (obj'.mcp ≡ obj.mcp) × (obj'.aiop ≡ obj.aiop) × (c' ≡ c))
          (setup_mc_portal
            (blocks_os os)
            (beside_kernel kernel)
            (beside_dirs dirs)
            polls
            obj
            t
            (s, c))
  unfolding setup_mc_portal fsl_vfio_map_mcp_obj
  setup_mc_portal_lem obj t s c = ground arith
