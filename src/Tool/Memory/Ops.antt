-- ===== src/Tool/Memory/Ops.antt =====
-- The operations and `aiopt_deinit`: the memory that they leave.
use gpp_aioptool.Base.{ℕ, ◌≡◌, ◌≢◌, refl, arith, [], ◌∷◌, Act, IfDone, IfDone-bind}
use gpp_aioptool.Os.{Os}
use gpp_aioptool.Vfio.{Kernel, VfioTables}
use gpp_aioptool.Aiop.Types.{AioptObj}
use gpp_aioptool.Aiop.Session.{aiopt_gettod, aiopt_settod, aiopt_status, aiopt_reset}
use gpp_aioptool.Aiop.Setup.{Dirs}
use gpp_aioptool.Aiop.Setup.Devices.{aiopt_deinit}
use gpp_aioptool.Aiop.Ledger.Frame.{Same}
use gpp_aioptool.Aiop.Ledger.Blocks.{Blocks, blocks_os, beside_kernel, beside_dirs}
use gpp_aioptool.Aiop.Ledger.Blocks.Gains.{Gains}
use gpp_aioptool.Aiop.Ledger.Blocks.Sessions.{
  aiopt_gettod-Same, aiopt_settod-Same, aiopt_status-Same, aiopt_reset-Same,
}
use gpp_aioptool.Aiop.Ledger.Blocks.Setup.{with_names, Gained, cleanup_aiopt_obj_lem}
use gpp_aioptool.Tool.{
  AiopToolConf, AioptOp, Unset, Performed, perform_aiop_reset, perform_aiop_get_status,
  perform_aiop_gettod, perform_aiop_settod, call_op,
}

-- An operation other than loading changes no name.
abbrev pub SameNames : {S : Type 0} → AioptObj → Performed → S → Type 0
SameNames obj (ret, obj', t', printed) s =
    (obj'.mcp.name ≡ obj.mcp.name) × (obj'.aiop.name ≡ obj.aiop.name)

module _ {S : Type 0} (os : Os S) (kernel : Kernel S) (dirs : Dirs S)
    (select_forever : Act S (Unit {0})) (polls : ℕ) (unset : Unset) (obj : AioptObj)
    (t : VfioTables) (conf : AiopToolConf) (s : S) where
  pub call_op_names :
      (op : AioptOp)
      → op ≢ AioptOp.perform_load
      → IfDone (SameNames obj) (call_op os kernel dirs select_forever polls unset op obj t conf s)
  unfolding call_op perform_aiop_reset perform_aiop_get_status perform_aiop_gettod
      perform_aiop_settod aiopt_reset aiopt_status aiopt_gettod aiopt_settod
  call_op_names AioptOp.perform_load other = absurd (other refl)
  call_op_names AioptOp.perform_reset other = ground arith
  call_op_names AioptOp.perform_get_status other = ground arith
  call_op_names AioptOp.perform_gettod other = ground arith
  call_op_names AioptOp.perform_settod other = ground arith

module _ {S : Type 0} (os : Os S) (kernel : Kernel S) (dirs : Dirs S)
    (select_forever : Act (S × Blocks) (Unit {0})) (polls : ℕ) (unset : Unset) where
  pub call_op-Same :
      (op : AioptOp) (obj : AioptObj) (t : VfioTables) (conf : AiopToolConf) (s : S) (b : Blocks)
      → op ≢ AioptOp.perform_load
      → IfDone (Same b) (
          call_op
            (blocks_os os)
            (beside_kernel kernel)
            (beside_dirs dirs)
            select_forever
            polls
            unset
            op
            obj
            t
            conf
            (s, b))
  unfolding call_op perform_aiop_reset perform_aiop_get_status perform_aiop_gettod
      perform_aiop_settod
  call_op-Same AioptOp.perform_load obj t conf s b other = absurd (other refl)
  call_op-Same AioptOp.perform_reset obj t conf s b other =
      IfDone-bind (Same b) (Same b) _ _ (aiopt_reset-Same os polls obj s b) (λ r (u, c) e. e)
  call_op-Same AioptOp.perform_get_status obj t conf s b other =
      IfDone-bind (Same b) (Same b) _ _ (aiopt_status-Same os polls obj s b unset.status)
        (λ r (u, c) e. e)
  call_op-Same AioptOp.perform_gettod obj t conf s b other =
      IfDone-bind (Same b) (Same b) _ _ (aiopt_gettod-Same os polls obj s b unset.tod)
        (λ r (u, c) e. e)
  call_op-Same AioptOp.perform_settod obj t conf s b other =
      IfDone-bind (Same b) (Same b) _ _ (aiopt_settod-Same os polls obj s b conf.tod)
        (λ r (u, c) e. e)

  pub deinit_lem :
      (obj : AioptObj) (s : S) (b c : Blocks) (p : ℕ)
      → Gains (with_names obj (p ∷ [])) b c
      → IfDone (Gained (p ∷ []) b) (
          aiopt_deinit
            (blocks_os os)
            (beside_kernel kernel)
            (beside_dirs dirs)
            polls
            unset.id
            obj
            (s, c))
  unfolding aiopt_deinit
  deinit_lem obj s b c p g =
      IfDone-bind (Gained (p ∷ []) b) (Gained (p ∷ []) b) _ _
        (cleanup_aiopt_obj_lem os kernel dirs polls b (p ∷ []) obj s c g) (λ obj2 (s2, c2) g2. g2)
