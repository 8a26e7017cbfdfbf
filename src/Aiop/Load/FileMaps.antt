-- ===== src/Aiop/Load/FileMaps.antt =====
-- `aiopt_load` beside a ledger, from the open files on: they are mapped into memory.
use gpp_aioptool.Base.{
  inl, ℕ, ◌<◌, ◌≤◌, ◌^◌, ◌≡◌, refl, ap, sym, ◌∙◌, arith, Bool, true, not, ◌==◌, [], Returns,
  Returns-if, if◌then◌else◌,
}
use gpp_aioptool.Os.{Os, map_failed}
use gpp_aioptool.Vfio.{Kernel, VfioTables}
use gpp_aioptool.Dpaiop.Types.{IsInt}
use gpp_aioptool.Dpaiop.Server.{Server, Serves}
use gpp_aioptool.Aiop.Types.{AioptObj, aiopt_enomem, max_aiop_args_file_sz}
use gpp_aioptool.Aiop.Ledger.{Ledger, pages_of, holding, ledger_os, ledger_kernel}
use gpp_aioptool.Aiop.Ledger.Entries.{maps_if}
use gpp_aioptool.Aiop.Load.Held.{files_of, Released, IsWhole, ledger_of}
use gpp_aioptool.Aiop.Load.Cleanup.{IsSetUp, IsAt, err_out-Released}
use gpp_aioptool.Aiop.Load.Image.{
  LoadVars, err_out, add_page, align_page, map_image_dma, map_args, map_image,
}
use gpp_aioptool.Aiop.Load.Posix.{
  IsPosix, is_true, align_page_whole, add_page_whole, add_page_sized, align_page_sized, mmap-gains,
}
use gpp_aioptool.Aiop.Load.Mapped.{map_image_dma-Released}

module _ {S : Type 0} (os : Os S) (kernel : Kernel S) (posix : IsPosix os) (polls : ℕ)
    (serve : Server S) (obj : AioptObj) (id : IsInt obj.aiop.id)
    (serves : Serves os.device polls obj.mcp_addr serve) (handle : ℕ) (reset : Bool) (tpc : ℕ) where
  abbrev pub IsArgsSize : ℕ → Type 0
  IsArgsSize size = (1 ≤ size) × (size ≤ max_aiop_args_file_sz)

  args_whole :
      (v : LoadVars)
      → IsArgsSize v.args_filesize
      → pages_of (add_page v.args_filesize) ≡ pages_of v.args_filesize
  args_whole v (some_bytes, short) = add_page_whole v.args_filesize some_bytes short

  map_args-Released :
      (v : LoadVars) (t : VfioTables) (s : S) (b : Ledger)
      → IsSetUp handle obj t
      → IsAt v.addr v.aligned_size
      → v.addr < 2 ^ 64
      → v.args_addr ≡ 0
      → pages_of v.aligned_size ≡ pages_of v.filesize
      → (v.with_args ≡ true → IsArgsSize v.args_filesize)
      → b ≡ holding (files_of v) (maps_if v.addr v.aligned_size []) []
      → Returns
          (Released kernel)
          (map_args (ledger_os os) (ledger_kernel kernel) polls reset tpc v obj t (s, b))
  unfolding map_args
  map_args-Released v t s b setup image fits unmapped whole sized agrees =
      Returns-if (Released kernel) (not v.with_args) _ _ (s, b)
        (λ without.
          map_image_dma-Released os kernel posix polls serve obj id serves handle reset tpc v t s b
            setup
            (record {
              whole = record {
                image = λ _. whole;
                args = λ there. ground (arith, there, unmapped);
              };
              image = image;
              image_fits = fits;
              args = λ given. ground (arith, given, without);
              args_fit = ground (arith, unmapped);
            })
            (agrees
              ∙ ap
                  (λ a.
                    holding (files_of v)
                      (maps_if a v.args_aligned_size (maps_if v.addr v.aligned_size [])) [])
                  (sym unmapped)))
        (λ given.
          mmap-gains os posix (Released kernel) (add_page v.args_filesize) v.args_fd s b
            (λ args_addr.
              let v' = record v {
                args_aligned_size = add_page v.args_filesize;
                args_addr = args_addr;
              } in
              if args_addr == map_failed
              then err_out (ledger_os os) (ledger_kernel kernel) polls reset tpc v' aiopt_enomem obj
                  t
              else map_image_dma (ledger_os os) (ledger_kernel kernel) polls reset tpc v' obj t)
            (λ args_addr s' b' there args_fit gained.
              let v' : LoadVars = record v {
                args_aligned_size = add_page v.args_filesize;
                args_addr = args_addr;
              } in
              let agrees' : b' ≡ ledger_of v' [] [] =
                gained
                ∙ ap
                    (λ (c : Ledger). record c {
                      maps = maps_if args_addr (add_page v.args_filesize) c.maps;
                    })
                    agrees in
              let whole' : IsWhole v' = record {
                image = λ _. whole;
                args = λ _. args_whole v (sized (is_true v.with_args given));
              } in
              Returns-if (Released kernel) (args_addr == map_failed) _ _ (s', b')
                (λ failed.
                  err_out-Released os kernel polls reset tpc v' aiopt_enomem obj t s' b' []
                    (inl refl) whole' agrees')
                (λ fine.
                  map_image_dma-Released os kernel posix polls serve obj id serves handle reset tpc
                    v' t s' b' setup
                    (record {
                      whole = whole';
                      image = image;
                      image_fits = fits;
                      args = λ _. (there, add_page_sized v.args_filesize);
                      args_fit = args_fit;
                    })
                    agrees')))

  pub map_image-Released :
      (v : LoadVars) (t : VfioTables) (s : S) (b : Ledger)
      → IsSetUp handle obj t
      → 1 ≤ v.filesize
      → v.args_addr ≡ 0
      → (v.with_args ≡ true → IsArgsSize v.args_filesize)
      → b ≡ holding (files_of v) [] []
      → Returns
          (Released kernel)
          (map_image (ledger_os os) (ledger_kernel kernel) polls reset tpc v obj t (s, b))
  unfolding map_image
  map_image-Released v t s b setup some_bytes unmapped sized agrees =
      mmap-gains os posix (Released kernel) (align_page v.filesize) v.fd s b
        (λ addr.
          let v' = record v { aligned_size = align_page v.filesize; addr = addr } in
          if addr == map_failed
          then err_out (ledger_os os) (ledger_kernel kernel) polls reset tpc v' aiopt_enomem obj t
          else map_args (ledger_os os) (ledger_kernel kernel) polls reset tpc v' obj t)
        (λ addr s' b' there fits gained.
          let v' : LoadVars = record v { aligned_size = align_page v.filesize; addr = addr } in
          let agrees' : b' ≡ holding (files_of v) (maps_if addr (align_page v.filesize) []) [] =
            gained
            ∙ ap (λ (c : Ledger). record c { maps = maps_if addr (align_page v.filesize) c.maps })
                agrees in
          let whole' : IsWhole v' = record {
            image = λ _. align_page_whole v.filesize;
            args = λ there. ground (arith, there, unmapped);
          } in
          Returns-if (Released kernel) (addr == map_failed) _ _ (s', b')
            (λ failed.
              err_out-Released os kernel polls reset tpc v' aiopt_enomem obj t s' b' [] (inl refl)
                whole'
                (agrees'
                  ∙ ap
                      (λ a.
                        holding (files_of v)
                          (maps_if a v.args_aligned_size (maps_if addr (align_page v.filesize) []))
                          [])
                      (sym unmapped)))
            (λ fine.
              map_args-Released v' t s' b' setup (there, align_page_sized v.filesize some_bytes)
                fits unmapped (align_page_whole v.filesize) sized agrees'))
