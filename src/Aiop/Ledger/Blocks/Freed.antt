-- ===== src/Aiop/Ledger/Blocks/Freed.antt =====
-- The memory that the operations of the library hold when they return.
use gpp_aioptool.Base.{
  ℕ, ◌<◌, ◌≤◌, ◌≡◌, ◌≢◌, ◌^◌, arith, ◌++◌, Bool, Option, none, some, ℤ, [], ◌∷◌, length, Text,
  IfDone-mono, IfDone-Returns, Returns,
}
use gpp_aioptool.Os.{Os}
use gpp_aioptool.Vfio.{Kernel, VfioTables, vfio_path_max}
use gpp_aioptool.Vfio.Device.{map_region}
use gpp_aioptool.Vfio.Tables.{IsConsistent}
use gpp_aioptool.Dpaiop.Types.{IsInt}
use gpp_aioptool.Dpaiop.Server.{Server, Serves}
use gpp_aioptool.Aiop.Types.{AioptObj, AioptStatus}
use gpp_aioptool.Aiop.Session.{aiopt_gettod, aiopt_settod, aiopt_status, aiopt_reset}
use gpp_aioptool.Aiop.Session.Total.{session-Returns}
use gpp_aioptool.Aiop.Load.{perform_dpaiop_load}
use gpp_aioptool.Aiop.Load.Total.{perform_dpaiop_load-LoadEnds}
use gpp_aioptool.Aiop.Setup.{Dirs}
use gpp_aioptool.Aiop.Setup.Found.{AllNumbered}
use gpp_aioptool.Aiop.Setup.Ready.{listed}
use gpp_aioptool.Aiop.Setup.Init.{aiopt_init-HandsOut}
use gpp_aioptool.Aiop.Setup.Devices.{aiopt_init}
use gpp_aioptool.Aiop.Ledger.Server.{ledger_server, ledger-Serves}
use gpp_aioptool.Aiop.Ledger.Frame.{Same}
use gpp_aioptool.Aiop.Ledger.Blocks.{Blocks, blocks_os, beside_kernel, beside_dirs}
use gpp_aioptool.Aiop.Ledger.Blocks.Gains.{Gains-bag, bag, bag-SameBlocks, times, times-append}
use gpp_aioptool.Aiop.Ledger.Blocks.Sessions.{
  aiopt_gettod-Same, aiopt_settod-Same, aiopt_status-Same, aiopt_reset-Same,
  perform_dpaiop_load-Same,
}
use gpp_aioptool.Aiop.Ledger.Blocks.Setup.{name_block, with_names}
use gpp_aioptool.Aiop.Ledger.Blocks.Init.{GainsObject, aiopt_init-GainsObject}

module _ {S : Type 0} (os : Os S) (polls : ℕ) (serve : Server S) (obj : AioptObj)
    (id : IsInt obj.aiop.id) (serves : Serves os.device polls obj.mcp_addr serve) (s : S)
    (b : Blocks) where
  -- The four operations, with the memory that is held written beside the state.
  abbrev pub SessionFrees : (tod : ℕ) → AioptStatus → Type 0
  SessionFrees tod st =
      Returns (Same b) (aiopt_gettod (blocks_os os) polls obj tod (s, b))
      × Returns (Same b) (aiopt_settod (blocks_os os) polls obj tod (s, b))
      × Returns (Same b) (aiopt_status (blocks_os os) polls obj st (s, b))
      × Returns (Same b) (aiopt_reset (blocks_os os) polls obj (s, b))

  -- Let the MC behind the portal be a server of requests, the id an `int`, and the time and the
  -- addresses below 2 ^ 64. With the blocks of memory that are held written down beside the state,
  -- each of the four operations, and also the requests that load and run an image, returns, and
  -- the record of the blocks is what it was before.
  pub session-SessionFrees :
      (tod : ℕ) (st : AioptStatus) (addr filesize args_addr args_filesize : ℕ) (reset : Bool)
      (tpc : ℕ)
      → tod < 2 ^ 64
      → addr < 2 ^ 64
      → args_addr < 2 ^ 64
      → SessionFrees tod st
        × Returns (Same b) (
            perform_dpaiop_load
              (blocks_os os)
              polls
              obj
              addr
              filesize
              args_addr
              args_filesize
              reset
              tpc
              (s, b))
  session-SessionFrees tod st addr filesize args_addr args_filesize reset tpc range fits args_fits =
      let served = ledger-Serves os.device polls obj.mcp_addr serve serves in
      let total =
        session-Returns (blocks_os os) polls (ledger_server serve) obj id served (s, b) tod st
          range in
      (
        (
          IfDone-Returns _ (Same b) _ total.0 (aiopt_gettod-Same os polls obj s b tod),
          IfDone-Returns _ (Same b) _ total.1 (aiopt_settod-Same os polls obj s b tod),
          IfDone-Returns _ (Same b) _ total.2 (aiopt_status-Same os polls obj s b st),
          IfDone-Returns _ (Same b) _ total.3 (aiopt_reset-Same os polls obj s b),
        ),
        IfDone-Returns _ (Same b) _
            (perform_dpaiop_load-LoadEnds (blocks_os os) polls (ledger_server serve) obj id served
              addr filesize args_addr args_filesize reset tpc fits args_fits (s, b))
            (perform_dpaiop_load-Same os polls obj s b addr filesize args_addr args_filesize reset
              tpc),
      )

-- Without an object no memory more is held; with one, that of the object and of its two names.
abbrev pub HoldsObject : {S : Type 0} → Blocks → Option AioptObj × VfioTables → S × Blocks → Type 0
HoldsObject b (none, t) (s, c) = (bag c.live ≡ bag b.live) × (c.strays ≡ b.strays)
HoldsObject b (some obj, t) (s, c) =
    (p : ℕ) × (p ≢ 0) × (bag c.live ≡ bag (with_names obj (p ∷ b.live))) × (c.strays ≡ b.strays)

GainsObject-HoldsObject :
    {S : Type 0} (b : Blocks) (got : Option AioptObj) (t : VfioTables) (s : S) (c : Blocks)
    → GainsObject b (got, t) (s, c)
    → HoldsObject b (got, t) (s, c)
GainsObject-HoldsObject b none t s c g = (Gains-bag [] b c g, g.strays)
GainsObject-HoldsObject b (some obj) t s c (p, there, g) =
    (p, there, bag-SameBlocks _ _ same, g.strays)
  where
    same : (a : ℕ) → times c.live a ≡ times (with_names obj (p ∷ b.live)) a
    same a =
        let m = name_block obj.mcp.name in
        let n = name_block obj.aiop.name in
        omega (
          arith,
          g.held a,
          times-append m (n ++ (p ∷ [])) a,
          times-append n (p ∷ []) a,
          times-append m (n ++ (p ∷ b.live)) a,
          times-append n (p ∷ b.live) a,
        )

module _ {S : Type 0} (os : Os S) (kernel : Kernel S) (dirs : Dirs S) (polls : ℕ) (unset : ℤ)
    (serve : Server S)
    (portal : (fd : ℤ) (u s : S) (addr : ℕ)
      → (map_region kernel fd (kernel.device_get_region_info fd u).0.1 s).0 ≡ some addr
      → Serves os.device polls addr serve)
    (unset_fits : IsInt unset)
    (fits : (text : Text) (n : ℤ) → kernel.scan_int text ≡ some n → IsInt n)
    (short : (z : ℤ) → length (dirs.print_int z) ≤ 11)
    (numbered : (path : Text) (u : S) → AllNumbered (listed (dirs.opendir path u).0))
    (linked : (path : Text) (u : S)
      → length (kernel.readlink path vfio_path_max u).0.1 < vfio_path_max) where
  -- Let the kernel map the region of a device only where a server of requests answers, the numbers
  -- in the names of devices fit an `int` and their names have two parts, the texts of paths fit
  -- their buffers, the name of the container have fewer than 76 bytes, and the tables be
  -- consistent. With the blocks of memory that are held written down beside the state,
  -- `aiopt_init` returns. If it returns no object, the blocks held are, as a bag, those held
  -- before; if it returns one, they are those, one more that is not NULL, and those of the names
  -- of the object's two devices. No block was freed that was not held.
  pub aiopt_init-HoldsObject :
      (container_name : Text) (t : VfioTables) (s : S) (b : Blocks)
      → length container_name < 76
      → IsConsistent t
      → Returns (HoldsObject b) (
          aiopt_init
            (blocks_os os)
            (beside_kernel kernel)
            (beside_dirs dirs)
            polls
            unset
            container_name
            t
            (s, b))
  aiopt_init-HoldsObject container_name t s b named consistent =
      IfDone-Returns _ (HoldsObject b) _
        (aiopt_init-HandsOut (blocks_os os) (beside_kernel kernel) (beside_dirs dirs) polls unset
          (ledger_server serve)
          (λ fd u v addr e. ledger-Serves os.device polls addr serve (portal fd u.0 v.0 addr e))
          unset_fits fits short (λ path u. numbered path u.0) (λ path u. linked path u.0)
          container_name t (s, b) named consistent)
        (IfDone-mono (GainsObject b) (HoldsObject b) _
          (λ (got, t2) (s2, c2) g. GainsObject-HoldsObject b got t2 s2 c2 g)
          (aiopt_init-GainsObject os kernel dirs polls unset b container_name t s))
