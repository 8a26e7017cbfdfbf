-- ===== src/Tool/Exit.antt =====
-- `main` from the handle on, when the MC is a server: what it returns, and what a load leaves.
use gpp_aioptool.Base.{
  ℕ, ◌<◌, ◌≤◌, ◌^◌, ◌≡◌, ◌≢◌, inr, refl, not, ◌&&◌, false, Bool, Option, none, some, ℤ, is_zero,
  is_positive, List, [], length, Text, Act, pure, ◌>>=◌, Returns, Returns-bind, Returns-mono,
  if◌then◌else◌,
}
use gpp_aioptool.Os.{Os}
use gpp_aioptool.Vfio.Device.{map_region}
use gpp_aioptool.Vfio.{Kernel, VfioTables, vfio_path_max}
use gpp_aioptool.Vfio.Tables.{IsConsistent}
use gpp_aioptool.Dpaiop.Types.{IsInt}
use gpp_aioptool.Dpaiop.Server.{Server, Serves}
use gpp_aioptool.Aiop.Types.{AioptObj, aiopt_failure}
use gpp_aioptool.Aiop.Setup.{Dirs}
use gpp_aioptool.Aiop.Setup.Found.{AllNumbered}
use gpp_aioptool.Aiop.Setup.Ready.{listed}
use gpp_aioptool.Aiop.Setup.Init.{HandsOut, aiopt_init-HandsOut}
use gpp_aioptool.Aiop.Setup.Devices.{aiopt_init, aiopt_deinit}
use gpp_aioptool.Aiop.Ledger.{holding, ledger_os, ledger_kernel}
use gpp_aioptool.Aiop.Load.Image.{aiopt_load}
use gpp_aioptool.Aiop.Load.Held.{Released}
use gpp_aioptool.Aiop.Load.Posix.{IsPosix}
use gpp_aioptool.Aiop.Load.Released.{aiopt_load-Released}
use gpp_aioptool.Tool.{AiopToolConf, AioptOp, Unset, Message, call_op, run_op}
use gpp_aioptool.Tool.Lifecycle.{Exits, finish_lem}

module _ {S : Type 0} (os : Os S) (kernel : Kernel S) (dirs : Dirs S)
    (select_forever : Act S (Unit {0})) (polls : ℕ) (unset : Unset) (serve : Server S)
    (portal : (fd : ℤ) (u s : S) (addr : ℕ)
      → (map_region kernel fd (kernel.device_get_region_info fd u).0.1 s).0 ≡ some addr
      → Serves os.device polls addr serve)
    (unset_fits : IsInt unset.id)
    (fits : (text : Text) (n : ℤ) → kernel.scan_int text ≡ some n → IsInt n)
    (short : (z : ℤ) → length (dirs.print_int z) ≤ 11)
    (numbered : (path : Text) (u : S) → AllNumbered (listed (dirs.opendir path u).0))
    (linked : (path : Text) (u : S)
      → length (kernel.readlink path vfio_path_max u).0.1 < vfio_path_max) where
  -- Let the kernel map the region of a device only where a server of requests answers, the numbers
  -- in the names of devices fit an `int` and their names have two parts, the texts of paths fit
  -- their buffers, the tables be consistent, and the unset time below 2 ^ 64, as also the time of
  -- the configuration if the operation is to set it. From `aiopt_init` on, `main` returns for each
  -- operation but loading, and its exit status is 0 or -1.
  pub run_op-Exits :
      (op : AioptOp) (t : VfioTables) (conf : AiopToolConf) (s : S)
      → length conf.container < 76
      → IsConsistent t
      → op ≢ AioptOp.perform_load
      → unset.tod < 2 ^ 64
      → (op ≡ AioptOp.perform_settod → conf.tod < 2 ^ 64)
      → Returns
          (Exits os kernel dirs select_forever polls unset)
          (run_op os kernel dirs select_forever polls unset op t conf s)
  unfolding run_op
  run_op-Exits op t conf s named consistent other old range =
      Returns-bind
        (HandsOut os kernel dirs polls unset.id serve portal unset_fits fits short numbered linked)
        (Exits os kernel dirs select_forever polls unset) _ _
        (aiopt_init-HandsOut os kernel dirs polls unset.id serve portal unset_fits fits short
          numbered linked conf.container t s named consistent)
        (λ (handle, t1) s1 p. by_handle handle t1 s1 p)
    where
      by_handle :
          (handle : Option AioptObj) (t1 : VfioTables) (s1 : S)
          → HandsOut os kernel dirs polls unset.id serve portal unset_fits fits short numbered
              linked
              (handle, t1)
              s1
          → Returns (Exits os kernel dirs select_forever polls unset) (
              (elim handle as (λ _. Act S (ℤ × List Message)) [
                | none ↦ pure (aiopt_failure, [])
                | some obj ↦ (do
                  (ret, obj1, t2, printed) ←
                      call_op os kernel dirs select_forever polls unset op obj t1 conf
                  (ret_2, obj2) ← aiopt_deinit os kernel dirs polls unset.id obj1
                  pure ((if is_zero ret && not (is_zero ret_2) then ret_2 else ret), printed))
              ])
                s1)
      by_handle none t1 s1 p = inr refl
      by_handle (some obj) t1 s1 (c, (connected, m, a, mm, aa, ready)) =
          finish_lem os kernel dirs select_forever polls unset op obj t1 conf s1 serve other
            ready.id ready.served old range

  -- A handle that `aiopt_init` hands out is fit for `aiopt_load`.
  abbrev pub LoadsCleanly :
      ℕ × Bool → Option Text × Option Text → Option AioptObj × VfioTables → S → Type 0
  LoadsCleanly (tpc, reset) (ifile, afile) (none, t) s = Unit {0}
  LoadsCleanly (tpc, reset) (ifile, afile) (some obj, t) s = Returns (Released kernel) (
      aiopt_load (ledger_os os) (ledger_kernel kernel) polls reset tpc unset.args_fd obj t ifile
        afile (s, holding [] [] []))

  -- Let the kernel map the region of a device only where a server of requests answers, the numbers
  -- in the names of devices fit an `int` and their names have two parts, the texts of paths fit
  -- their buffers, the name of the container have fewer than 76 bytes, the tables be consistent,
  -- `open` return no 0, `mmap` addresses below 2 ^ 64 other than NULL, and the unset descriptor
  -- hold nothing positive. `aiopt_init` returns; if it returns a handle, then `aiopt_load` with
  -- that handle, from the tables and the state at that point, returns and gives back what it took,
  -- each mapping with its whole size, as an empty ledger beside the state shows; only a mapping
  -- for the device that the kernel refuses to unmap is left.
  pub aiopt_init-aiopt_load :
      (container_name : Text) (ifile afile : Option Text) (tpc : ℕ) (reset : Bool) (t : VfioTables)
      (s : S)
      → length container_name < 76
      → IsConsistent t
      → IsPosix os
      → is_positive unset.args_fd ≡ false
      → Returns
          (LoadsCleanly (tpc, reset) (ifile, afile))
          (aiopt_init os kernel dirs polls unset.id container_name t s)
  aiopt_init-aiopt_load container_name ifile afile tpc reset t s named consistent posix not_open =
      Returns-mono
        (HandsOut os kernel dirs polls unset.id serve portal unset_fits fits short numbered linked)
        (LoadsCleanly (tpc, reset) (ifile, afile)) _ (λ (handle, t1) s1 p. by_handle handle t1 s1 p)
        (aiopt_init-HandsOut os kernel dirs polls unset.id serve portal unset_fits fits short
          numbered linked container_name t s named consistent)
    where
      by_handle :
          (handle : Option AioptObj) (t1 : VfioTables) (s1 : S)
          → HandsOut os kernel dirs polls unset.id serve portal unset_fits fits short numbered
              linked
              (handle, t1)
              s1
          → LoadsCleanly (tpc, reset) (ifile, afile) (handle, t1) s1
      by_handle none t1 s1 p = tt
      by_handle (some obj) t1 s1 (c, (connected, m, a, mm, aa, ready)) =
          aiopt_load-Released os kernel posix polls serve obj ready.id ready.served 0 reset tpc
            unset.args_fd t1 ifile afile s1
            (record { handled = ready.handled; connected = connected }) not_open
