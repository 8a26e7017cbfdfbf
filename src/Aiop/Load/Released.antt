-- ===== src/Aiop/Load/Released.antt =====
-- `aiopt_load` beside a ledger: the memory and the files that it took are given back, on each of
-- its paths.
use gpp_aioptool.Base.{
  inl, ℕ, ◌≤◌, ◌≡◌, refl, ap, sym, ◌∙◌, arith, Bool, true, false, not, [], ◌∷◌, Option, some, none,
  ℤ, is_positive, Text, Returns, Returns-bind, Returns-if, if◌then◌else◌,
}
use gpp_aioptool.Os.{Os}
use gpp_aioptool.Vfio.{Kernel, VfioTables}
use gpp_aioptool.Dpaiop.Types.{IsInt}
use gpp_aioptool.Dpaiop.Server.{Server, Serves}
use gpp_aioptool.Aiop.Types.{AioptObj, aiopt_failure}
use gpp_aioptool.Aiop.Load.{get_aiop_image_fd, get_aiop_args_fd}
use gpp_aioptool.Aiop.Ledger.{Ledger, holding, ledger_os, ledger_kernel}
use gpp_aioptool.Aiop.Ledger.Entries.{files_if}
use gpp_aioptool.Aiop.Load.Held.{files_of, Released, IsWhole}
use gpp_aioptool.Aiop.Load.Cleanup.{IsSetUp, err_out-Released}
use gpp_aioptool.Aiop.Load.Image.{LoadVars, vars_of, open_args, aiopt_load}
use gpp_aioptool.Aiop.Load.Posix.{IsPosix, is_true, Gained, open_sized-Gained}
use gpp_aioptool.Aiop.Load.FileMaps.{map_image-Released}

module _ {S : Type 0} (os : Os S) (kernel : Kernel S) (posix : IsPosix os) (polls : ℕ)
    (serve : Server S) (obj : AioptObj) (id : IsInt obj.aiop.id)
    (serves : Serves os.device polls obj.mcp_addr serve) (handle : ℕ) (reset : Bool) (tpc : ℕ) where
  open_args-Released :
      (afile : Option Text) (fd : ℤ) (size : ℕ) (unset : ℤ) (t : VfioTables) (s : S) (b : Ledger)
      → IsSetUp handle obj t
      → 1 ≤ size
      → is_positive unset ≡ false
      → b ≡ holding (files_if fd []) [] []
      → Returns (Released kernel) (
          open_args
            (ledger_os os)
            (ledger_kernel kernel)
            polls
            reset
            tpc
            afile
            (vars_of unset fd size)
            obj
            t
            (s, b))
  unfolding open_args get_aiop_args_fd
  open_args-Released none fd size unset t s b setup some_bytes not_open agrees =
      map_image-Released os kernel posix polls serve obj id serves handle reset tpc
        (vars_of unset fd size) t s b setup some_bytes refl (λ given. ground (arith, given))
        (agrees
          ∙ ap (λ c. holding (if c then unset ∷ files_if fd [] else files_if fd []) [] [])
              (sym not_open))
  open_args-Released (some afile) fd size unset t s b setup some_bytes not_open agrees =
      Returns-bind (Gained os posix _ b) (Released kernel) _ _
        (open_sized-Gained os posix _ (some afile) s b)
        (λ (args_fd, args_size) (s', b') gained.
          let v : LoadVars = record (vars_of unset fd size) {
            with_args = true;
            args_fd = args_fd;
            args_filesize = args_size;
          } in
          let unmapped_whole : IsWhole v = record {
            image = λ there. ground (arith, there);
            args = λ there. ground (arith, there);
          } in
          let agrees' : b' ≡ holding (files_of v) [] [] =
            gained.0 ∙ ap (λ (c : Ledger). record c { files = files_if args_fd c.files }) agrees in
          Returns-if (Released kernel) (not (is_positive args_fd)) _ _ (s', b')
            (λ failed.
              err_out-Released os kernel polls reset tpc v aiopt_failure obj t s' b' [] (inl refl)
                unmapped_whole agrees')
            (λ opened.
              map_image-Released os kernel posix polls serve obj id serves handle reset tpc v t s'
                b' setup some_bytes refl (λ _. gained.1 (is_true (is_positive args_fd) opened))
                agrees'))

  -- Let the MC behind the portal be a server of requests, the id an `int`, the object's group
  -- connected; let `open` return no 0, `mmap` addresses below 2 ^ 64 other than NULL, and the
  -- unset descriptor hold nothing positive. With a ledger beside the state, empty at first,
  -- `aiopt_load` returns on every path, for any files and whatever fails on the way. The ledger
  -- then holds no file, no mapping of memory, which counts as released only with all its pages,
  -- and no mapping for the device, except those whose unmapping was asked for with their whole
  -- size and refused by the kernel; if there are any, the kernel does refuse such requests.
  -- Nothing was released that was not held, except that `munmap` may have been called on
  -- `MAP_FAILED`. The region of the interrupts, which VFIO maps by itself, is not written down.
  pub aiopt_load-Released :
      (unset : ℤ) (t : VfioTables) (ifile afile : Option Text) (s : S)
      → IsSetUp handle obj t
      → is_positive unset ≡ false
      → Returns (Released kernel) (
          aiopt_load
            (ledger_os os)
            (ledger_kernel kernel)
            polls
            reset
            tpc
            unset
            obj
            t
            ifile
            afile
            (s, holding [] [] []))
  unfolding aiopt_load get_aiop_image_fd
  aiopt_load-Released unset t ifile afile s setup not_open =
      Returns-bind (Gained os posix _ (holding [] [] [])) (Released kernel) _ _
        (open_sized-Gained os posix _ ifile s (holding [] [] []))
        (λ (fd, size) (s', b') gained.
          Returns-if (Released kernel) (not (is_positive fd)) _ _ (s', b')
            (λ failed.
              err_out-Released os kernel polls reset tpc (vars_of unset fd size) aiopt_failure obj t
                s' b' [] (inl refl)
                (record {
                  image = λ there. ground (arith, there);
                  args = λ there. ground (arith, there);
                })
                (gained.0
                  ∙ ap (λ c. holding (if c then unset ∷ files_if fd [] else files_if fd []) [] [])
                      (sym not_open)))
            (λ opened.
              open_args-Released afile fd size unset t s' b' setup
                (gained.1 (is_true (is_positive fd) opened)).0 not_open gained.0))
