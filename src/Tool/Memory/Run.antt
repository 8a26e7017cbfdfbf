-- ===== src/Tool/Memory/Run.antt =====
-- The memory that the run of one operation holds at its end, if the run returns.
use gpp_aioptool.Base.{
  ℕ, ◌≡◌, ◌≢◌, ◌⊎◌, inl, inr, refl, sym, subst, not, ◌&&◌, none, some, Option, ℤ, List, [], ◌∷◌,
  ◌++◌, and_then, is_zero, Act, pure, ◌>>=◌, if◌then◌else◌, IfDone, IfDone-bind, IfDone-both,
}
use gpp_aioptool.Os.{Os}
use gpp_aioptool.Vfio.{Kernel, VfioTables}
use gpp_aioptool.Aiop.Types.{AioptObj, aiopt_failure}
use gpp_aioptool.Aiop.Setup.{Dirs}
use gpp_aioptool.Aiop.Setup.Devices.{aiopt_deinit}
use gpp_aioptool.Aiop.Ledger.Frame.{Same}
use gpp_aioptool.Aiop.Ledger.Blocks.{Blocks, blocks_os, beside_kernel, beside_dirs}
use gpp_aioptool.Aiop.Ledger.Blocks.Gains.{Gains, Gains-bag, bag}
use gpp_aioptool.Aiop.Ledger.Blocks.Setup.{name_block, with_names, Gained}
use gpp_aioptool.Aiop.Ledger.Blocks.Init.{GainsObject, aiopt_init-GainsObject}
use gpp_aioptool.Tool.{AiopToolConf, AioptOp, Unset, Message, call_op, run_op}
use gpp_aioptool.Tool.Memory.Ops.{SameNames, call_op_names, call_op-Same, deinit_lem}

module _ {S : Type 0} (os : Os S) (kernel : Kernel S) (dirs : Dirs S)
    (select_forever : Act (S × Blocks) (Unit {0})) (polls : ℕ) (unset : Unset) where
  -- No output and nothing gained, or the block of an object.
  abbrev pub Leaves : Blocks → ℤ × List Message → S × Blocks → Type 0
  Leaves b (exit, printed) (s, c) =
      (c.strays ≡ b.strays)
      × (((printed ≡ []) × (bag c.live ≡ bag b.live))
          ⊎ ((p : ℕ) × (p ≢ 0) × (bag c.live ≡ bag (p ∷ b.live))))

  -- From the object on.
  finish_lem :
      (op : AioptOp) (obj : AioptObj) (t : VfioTables) (conf : AiopToolConf) (s : S) (b c : Blocks)
      (p : ℕ)
      → op ≢ AioptOp.perform_load
      → p ≢ 0
      → Gains (with_names obj (p ∷ [])) b c
      → IfDone (Leaves b) (
          and_then
            (call_op
              (blocks_os os)
              (beside_kernel kernel)
              (beside_dirs dirs)
              select_forever
              polls
              unset
              op
              obj
              t
              conf
              (s, c))
            (λ (ret, obj1, t2, printed). do
              (ret_2, obj2) ←
                  aiopt_deinit
                    (blocks_os os)
                    (beside_kernel kernel)
                    (beside_dirs dirs)
                    polls
                    unset.id
                    obj1
              pure ((if is_zero ret && not (is_zero ret_2) then ret_2 else ret), printed)))
  finish_lem op obj t conf s b c p other there g =
      IfDone-bind (λ r v. SameNames obj r v × Same c r v) (Leaves b) _ _
        (IfDone-both (SameNames obj) (Same c) _
          (call_op_names (blocks_os os) (beside_kernel kernel) (beside_dirs dirs) select_forever
            polls unset obj t conf (s, c) op other)
          (call_op-Same os kernel dirs select_forever polls unset op obj t conf s c other))
        (λ (ret, obj1, t2, printed) (s1, c1) kept.
          IfDone-bind (Gained (p ∷ []) b) (Leaves b) _ _
            (deinit_lem os kernel dirs select_forever polls unset obj1 s1 b c1 p
              (named obj1 c1 kept.0.0 kept.0.1 kept.1))
            (λ (ret_2, obj2) (s2, c2) g2. (g2.strays, inr (p, there, Gains-bag (p ∷ []) b c2 g2))))
    where
      named :
          (obj1 : AioptObj) (c1 : Blocks)
          → obj1.mcp.name ≡ obj.mcp.name
          → obj1.aiop.name ≡ obj.aiop.name
          → c1 ≡ c
          → Gains (with_names obj1 (p ∷ [])) b c1
      named obj1 c1 mcp aiop same =
          subst (λ d. Gains (with_names obj1 (p ∷ [])) b d) (sym same)
            (subst (λ n. Gains (name_block obj1.mcp.name ++ (name_block n ++ (p ∷ []))) b c)
              (sym aiop)
              (subst (λ n. Gains (name_block n ++ (name_block obj.aiop.name ++ (p ∷ []))) b c)
                (sym mcp) g))

  pub run_op-Leaves :
      (op : AioptOp) (t : VfioTables) (conf : AiopToolConf) (s : S) (b : Blocks)
      → op ≢ AioptOp.perform_load
      → IfDone (Leaves b) (
          run_op
            (blocks_os os)
            (beside_kernel kernel)
            (beside_dirs dirs)
            select_forever
            polls
            unset
            op
            t
            conf
            (s, b))
  unfolding run_op
  run_op-Leaves op t conf s b other =
      IfDone-bind (GainsObject b) (Leaves b) _ _
        (aiopt_init-GainsObject os kernel dirs polls unset.id b conf.container t s)
        (λ (handle, t1) (s1, c1) g. by_handle handle t1 s1 c1 g)
    where
      by_handle :
          (handle : Option AioptObj) (t1 : VfioTables) (s1 : S) (c1 : Blocks)
          → GainsObject b (handle, t1) (s1, c1)
          → IfDone (Leaves b) (
              (elim handle as (λ _. Act (S × Blocks) (ℤ × List Message)) [
                | none ↦ pure (aiopt_failure, [])
                | some obj ↦ (do
                  (ret, obj1, t2, printed) ←
                      call_op
                        (blocks_os os)
                        (beside_kernel kernel)
                        (beside_dirs dirs)
                        select_forever
                        polls
                        unset
                        op
                        obj
                        t1
                        conf
                  (ret_2, obj2) ←
                      aiopt_deinit
                        (blocks_os os)
                        (beside_kernel kernel)
                        (beside_dirs dirs)
                        polls
                        unset.id
                        obj1
                  pure ((if is_zero ret && not (is_zero ret_2) then ret_2 else ret), printed))
              ])
                (s1, c1))
      by_handle none t1 s1 c1 g = (g.strays, inl (refl, Gains-bag [] b c1 g))
      by_handle (some obj) t1 s1 c1 (p, there, g) =
          finish_lem op obj t1 conf s1 b c1 p other there g
