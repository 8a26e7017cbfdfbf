-- ===== src/Aiop/Load/Mapped.antt =====
-- `aiopt_load` beside a ledger, once the files are mapped into memory.
use gpp_aioptool.Base.{
  ℕ, ◌<◌, ◌^◌, ◌≡◌, refl, ap, sym, subst, ◌∙◌, inl, inr, Bool, true, ◌==◌, Bool-cases, List, [], ℤ,
  Returns, Returns-bind, Act, and_then,
}
use gpp_aioptool.Os.{Os}
use gpp_aioptool.Vfio.Dma.{irq_region, fsl_vfio_setup_dmamap}
use gpp_aioptool.Vfio.{Kernel, VfioTables, vfio_success, vfio_failure, VfioGroup}
use gpp_aioptool.Dpaiop.Types.{IsInt}
use gpp_aioptool.Dpaiop.Server.{Server, Serves}
use gpp_aioptool.Aiop.Types.{AioptObj}
use gpp_aioptool.Aiop.Load.Requests.{Unchanged, perform_dpaiop_load-Unchanged}
use gpp_aioptool.Aiop.Ledger.{Ledger, ledger_os, ledger_kernel, dma_added}
use gpp_aioptool.Aiop.Ledger.Dma.{SetUpDone, setup_dmamap_ledger}
use gpp_aioptool.Aiop.Ledger.Entries.{dmas_if}
use gpp_aioptool.Aiop.Load.Held.{Released, IsWhole, ledger_of}
use gpp_aioptool.Aiop.Load.Cleanup.{
  IsSetUp, IsAt, args_dmas, args_dmas_some, args_dmas_none, err_out-Released,
  err_cleanup_elf-Released, err_cleanup_args-Released,
}
use gpp_aioptool.Aiop.Load.Image.{LoadVars, Loaded, load_mapped, map_args_dma, map_image_dma}
use gpp_aioptool.Aiop.Load.Posix.{IsPosix}

dma_added-dmas_if :
    (iova size : ℕ) (dmas : List (ℕ × ℕ)) (v : LoadVars)
    → dma_added iova size (ledger_of v dmas []) ≡ ledger_of v (dmas_if iova size dmas) []
dma_added-dmas_if iova size dmas v = elim (Bool-cases (iova == irq_region)) [
  | inl irq ↦ rw irq refl
  | inr memory ↦ rw memory refl
]

-- What the cleanup needs of the variables: the files that are mapped have a size.
pub record IsReady (v : LoadVars) : Type 0 where
  pub whole : IsWhole v
  pub image : IsAt v.addr v.aligned_size
  pub image_fits : v.addr < 2 ^ 64
  pub args : v.with_args ≡ true → IsAt v.args_addr v.args_aligned_size
  pub args_fit : v.args_addr < 2 ^ 64

module _ {S : Type 0} (os : Os S) (kernel : Kernel S) (posix : IsPosix os) (polls : ℕ)
    (serve : Server S) (obj : AioptObj) (id : IsInt obj.aiop.id)
    (serves : Serves os.device polls obj.mcp_addr serve) (handle : ℕ) (reset : Bool) (tpc : ℕ) where
  load_mapped-Released :
      (v : LoadVars) (t : VfioTables) (s : S) (b : Ledger)
      → IsSetUp handle obj t
      → IsReady v
      → b ≡ ledger_of v (args_dmas v (dmas_if v.addr v.aligned_size [])) []
      → Returns
          (Released kernel)
          (load_mapped (ledger_os os) (ledger_kernel kernel) polls reset tpc v obj t (s, b))
  unfolding load_mapped
  load_mapped-Released v t s b setup ready agrees =
      Returns-bind
        (Unchanged os polls serve obj id serves v.addr v.filesize v.args_addr v.args_filesize reset
          tpc ready.image_fits ready.args_fit s b)
        (Released kernel) _ _
        (perform_dpaiop_load-Unchanged os polls serve obj id serves v.addr v.filesize v.args_addr
          v.args_filesize reset tpc ready.image_fits ready.args_fit s b)
        (λ (ret, obj') (s', b') p.
          err_cleanup_args-Released os kernel polls reset tpc v ret handle obj' t s' b'
            (record { handled = p.1 ∙ setup.handled; connected = setup.connected }) ready.whole
            ready.image ready.args (p.0 ∙ agrees))

  -- Memory is mapped for the device at `addr`, and the cleanup goes on with the tables after it.
  setup_dmamap-Released :
      (v : LoadVars) (addr len : ℕ) (dmas : List (ℕ × ℕ)) (t : VfioTables) (s : S) (b : Ledger)
      (k : ℤ × VfioTables → Act (S × Ledger) Loaded)
      → IsSetUp handle obj t
      → b ≡ ledger_of v dmas []
      → ((t' : VfioTables) (s' : S) (b' : Ledger)
          → IsSetUp handle obj t'
          → b' ≡ ledger_of v (dmas_if addr len dmas) []
          → Returns (Released kernel) (k (vfio_success, t') (s', b')))
      → ((t' : VfioTables) (s' : S) (b' : Ledger)
          → IsSetUp handle obj t'
          → b' ≡ ledger_of v dmas []
          → Returns (Released kernel) (k (vfio_failure, t') (s', b')))
      → Returns (Released kernel) (
          and_then
            (fsl_vfio_setup_dmamap (ledger_kernel kernel) obj.vfio_handle addr len t (s, b))
            k)
  setup_dmamap-Released v addr len dmas t s b k setup agrees worked failed =
      Returns-bind
        (SetUpDone kernel obj.vfio_handle addr len t s b handle setup.handled setup.connected)
        (Released kernel) _ _
        (setup_dmamap_ledger kernel obj.vfio_handle addr len t s b handle setup.handled
          setup.connected)
        (λ (ret, t') (s', b') p.
          let still : IsSetUp handle obj t' = record {
            handled = setup.handled;
            connected = ap (λ (g : VfioGroup). g.connected) p.0 ∙ setup.connected;
          } in
          elim p.1 [
            | inl (e, eb) ↦
                subst (λ r. Returns (Released kernel) (k (r, t') (s', b'))) (sym e)
                  (worked t' s' b' still
                    (eb ∙ ap (dma_added addr len) agrees ∙ dma_added-dmas_if addr len dmas v))
            | inr (e, eb) ↦
                subst (λ r. Returns (Released kernel) (k (r, t') (s', b'))) (sym e)
                  (failed t' s' b' still (eb ∙ agrees))
          ])

  map_args_dma-Released :
      (v : LoadVars) (t : VfioTables) (s : S) (b : Ledger)
      → IsSetUp handle obj t
      → IsReady v
      → b ≡ ledger_of v (dmas_if v.addr v.aligned_size []) []
      → Returns
          (Released kernel)
          (map_args_dma (ledger_os os) (ledger_kernel kernel) polls reset tpc v obj t (s, b))
  unfolding map_args_dma
  map_args_dma-Released v t s b setup ready agrees = elim (Bool-cases v.with_args) [
    | inr without ↦ simp (without) (
        load_mapped-Released v t s b setup ready
          (agrees ∙ ap (λ dmas. ledger_of v dmas []) (sym (args_dmas_none v _ without))))
    | inl given ↦ simp (given) (
        setup_dmamap-Released v v.args_addr v.args_aligned_size (dmas_if v.addr v.aligned_size []) t
          s b _ setup agrees
          (λ t' s' b' setup' agrees'.
            load_mapped-Released v t' s' b' setup' ready
              (agrees' ∙ ap (λ dmas. ledger_of v dmas []) (sym (args_dmas_some v _ given))))
          (λ t' s' b' setup' agrees'.
            err_cleanup_elf-Released os kernel polls reset tpc v vfio_failure handle obj t' s' b' []
              (inl refl) setup' ready.whole ready.image agrees'))
  ]

  pub map_image_dma-Released :
      (v : LoadVars) (t : VfioTables) (s : S) (b : Ledger)
      → IsSetUp handle obj t
      → IsReady v
      → b ≡ ledger_of v [] []
      → Returns
          (Released kernel)
          (map_image_dma (ledger_os os) (ledger_kernel kernel) polls reset tpc v obj t (s, b))
  unfolding map_image_dma
  map_image_dma-Released v t s b setup ready agrees =
      setup_dmamap-Released v v.addr v.aligned_size [] t s b _ setup agrees
        (λ t' s' b' setup' agrees'. map_args_dma-Released v t' s' b' setup' ready agrees')
        (λ t' s' b' setup' agrees'.
          err_out-Released os kernel polls reset tpc v vfio_failure obj t' s' b' [] (inl refl)
            ready.whole agrees')
