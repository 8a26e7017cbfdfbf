-- ===== src/Tool/Lifecycle.antt =====
-- From the handle to the exit status.
use gpp_aioptool.Base.{
  ℕ, ◌<◌, ◌^◌, ◌≡◌, ◌≢◌, refl, arith, not, ◌&&◌, none, ℤ, is_zero, List, Act, pure, and_then, ◌>>=◌,
  Returns, Returns-bind, if◌then◌else◌,
}
use gpp_aioptool.Os.{Os}
use gpp_aioptool.Vfio.{Kernel, VfioTables}
use gpp_aioptool.Dpaiop.Types.{IsInt}
use gpp_aioptool.Dpaiop.Server.{Server, Serves}
use gpp_aioptool.Aiop.Types.{AioptObj, aiopt_success}
use gpp_aioptool.Aiop.Session.Total.{IsResult, Ends, session-Returns}
use gpp_aioptool.Aiop.Setup.{Dirs, free_name, cleanup_aiopt_obj}
use gpp_aioptool.Aiop.Setup.Devices.{aiopt_deinit}
use gpp_aioptool.Tool.{
  AiopToolConf, AioptOp, Unset, Message, Performed, perform_aiop_reset, perform_aiop_get_status,
  perform_aiop_gettod, perform_aiop_settod, call_op,
}

module _ {S : Type 0} (os : Os S) (kernel : Kernel S) (dirs : Dirs S)
    (select_forever : Act S (Unit {0})) (polls : ℕ) (unset : Unset) where
  abbrev Freed : ℤ × AioptObj → S → Type 0
  Freed (r, obj') s' = (r ≡ aiopt_success) × (obj'.mcp.name ≡ none) × (obj'.aiop.name ≡ none)

  aiopt_deinit_lem :
      (obj : AioptObj) (s : S) → Returns Freed (aiopt_deinit os kernel dirs polls unset.id obj s)
  unfolding aiopt_deinit cleanup_aiopt_obj free_name
  aiopt_deinit_lem obj s = ground arith

  abbrev ReturnsResult : Performed → S → Type 0
  ReturnsResult (r, obj', t', printed) s' = IsResult r

  -- An operation other than loading.
  call_op_lem :
      (op : AioptOp) (obj : AioptObj) (t : VfioTables) (conf : AiopToolConf) (s : S)
      (serve : Server S)
      → op ≢ AioptOp.perform_load
      → IsInt obj.aiop.id
      → Serves os.device polls obj.mcp_addr serve
      → unset.tod < 2 ^ 64
      → (op ≡ AioptOp.perform_settod → conf.tod < 2 ^ 64)
      → Returns ReturnsResult (call_op os kernel dirs select_forever polls unset op obj t conf s)
  unfolding call_op perform_aiop_reset perform_aiop_get_status perform_aiop_gettod
      perform_aiop_settod
  call_op_lem AioptOp.perform_load obj t conf s serve other id serves old range =
      absurd (other refl)
  call_op_lem AioptOp.perform_reset obj t conf s serve other id serves old range =
      Returns-bind (λ (r, obj') u. Ends os polls serve obj id serves s r obj') ReturnsResult _ _
        (session-Returns os polls serve obj id serves s unset.tod unset.status old).3
        (λ (r, obj') u ends. ends.0)
  call_op_lem AioptOp.perform_get_status obj t conf s serve other id serves old range =
      Returns-bind (λ (r, obj', st) u. Ends os polls serve obj id serves s r obj') ReturnsResult _ _
        (session-Returns os polls serve obj id serves s unset.tod unset.status old).2
        (λ (r, obj', st) u ends. ends.0)
  call_op_lem AioptOp.perform_gettod obj t conf s serve other id serves old range =
      Returns-bind (λ (r, obj', got) u. Ends os polls serve obj id serves s r obj') ReturnsResult _
        _ (session-Returns os polls serve obj id serves s unset.tod unset.status old).0
        (λ (r, obj', got) u ends. ends.0)
  call_op_lem AioptOp.perform_settod obj t conf s serve other id serves old range =
      Returns-bind (λ (r, obj') u. Ends os polls serve obj id serves s r obj') ReturnsResult _ _
        (session-Returns os polls serve obj id serves s conf.tod unset.status (range refl)).1
        (λ (r, obj') u ends. ends.0)

  -- The exit status is 0 or -1, which the shell sees as 255.
  abbrev pub Exits : ℤ × List Message → S → Type 0
  Exits (exit, printed) s = IsResult exit

  -- From the operation to the exit status.
  pub finish_lem :
      (op : AioptOp) (obj : AioptObj) (t : VfioTables) (conf : AiopToolConf) (s : S)
      (serve : Server S)
      → op ≢ AioptOp.perform_load
      → IsInt obj.aiop.id
      → Serves os.device polls obj.mcp_addr serve
      → unset.tod < 2 ^ 64
      → (op ≡ AioptOp.perform_settod → conf.tod < 2 ^ 64)
      → Returns Exits (
          and_then
            (call_op os kernel dirs select_forever polls unset op obj t conf s)
            (λ (ret, obj1, t2, printed). do
              (ret_2, obj2) ← aiopt_deinit os kernel dirs polls unset.id obj1
              pure ((if is_zero ret && not (is_zero ret_2) then ret_2 else ret), printed)))
  finish_lem op obj t conf s serve other id serves old range =
      Returns-bind ReturnsResult Exits _ _
        (call_op_lem op obj t conf s serve other id serves old range)
        (λ (ret, obj1, t2, printed) s1 result.
          Returns-bind Freed Exits _ _ (aiopt_deinit_lem obj1 s1)
            (λ (ret_2, obj2) s2 done_. exit_lem ret ret_2 result done_.0))
    where
      exit_lem :
          (ret ret_2 : ℤ)
          → IsResult ret
          → ret_2 ≡ aiopt_success
          → IsResult (if is_zero ret && not (is_zero ret_2) then ret_2 else ret)
      exit_lem ret ret_2 result ok = ground (arith, result, ok)
