-- ===== src/Aiop/Ledger/Dma.antt =====
-- The DMA mappings of VFIO beside a ledger.
use gpp_aioptool.Base.{
  ℕ, ℤ, ◌≡◌, Bool, ◌⊎◌, true, false, Option, some, arith, Returns, Bool-cases, refl, inl, inr,
  is_zero, ◌==◌,
}
use gpp_aioptool.Vfio.{Kernel, VfioTables, vfio_success, vfio_failure}
use gpp_aioptool.Vfio.Dma.{
  fsl_vfio_setup_dmamap, fsl_vfio_destroy_dmamap, vfio_map_irq_region, vfio_unmap_irq_region,
}
use gpp_aioptool.Aiop.Ledger.{Ledger, ledger_kernel, dma_added, dma_removed}

-- The kernel refuses some request to unmap.
abbrev pub Refuses : {S : Type 0} → Kernel S → Type 0
Refuses {S = S} kernel =
    (fd : ℤ) × (iova : ℕ) × (size : ℕ) × (s : S) × (is_zero
        (kernel.iommu_unmap_dma fd iova size s).0
      ≡ false)

module _ {S : Type 0} (kernel : Kernel S) (handle : Option ℕ) (addr len : ℕ) (t : VfioTables)
    (s : S) (b : Ledger) (group : ℕ) (handled : handle ≡ some group)
    (connected : t.group.connected ≡ true) where
  abbrev pub SetUpDone : ℤ × VfioTables → S × Ledger → Type 0
  SetUpDone (r, t') (s', b') =
      (t'.group ≡ t.group)
      × (((r ≡ vfio_success) × (b' ≡ dma_added addr len b)) ⊎ ((r ≡ vfio_failure) × (b' ≡ b)))

  abbrev pub DestroyDone : VfioTables → S × Ledger → Type 0
  DestroyDone t' (s', b') =
      (t'.group ≡ t.group)
      × ((granted : Bool) × ((granted ≡ true) ⊎ Refuses kernel)
          × (b' ≡ dma_removed granted addr len b))

  pub setup_dmamap_ledger :
      Returns SetUpDone (fsl_vfio_setup_dmamap (ledger_kernel kernel) handle addr len t (s, b))
  unfolding fsl_vfio_setup_dmamap vfio_map_irq_region
  setup_dmamap_ledger = rw handled (ground (arith, connected))

  pub destroy_dmamap_ledger :
      Returns DestroyDone (fsl_vfio_destroy_dmamap (ledger_kernel kernel) handle addr len t (s, b))
  unfolding fsl_vfio_destroy_dmamap vfio_unmap_irq_region
  destroy_dmamap_ledger =
      rw (handled, connected)
        (elim (Bool-cases (t.msi_intr_vaddr == 0)) [
          | inl idle ↦
              rw idle (
                refl,
                (is_zero (kernel.iommu_unmap_dma t.container.fd addr len s).0, answered, refl),
              )
          | inr mapped ↦
              rw mapped (
                refl,
                (is_zero (kernel.iommu_unmap_dma t.container.fd addr len s).0, answered, refl),
              )
        ])
    where
      answered :
          (is_zero (kernel.iommu_unmap_dma t.container.fd addr len s).0 ≡ true) ⊎ Refuses kernel
      answered = elim (Bool-cases (is_zero (kernel.iommu_unmap_dma t.container.fd addr len s).0)) [
        | inl granted ↦ inl granted
        | inr refused ↦ inr (t.container.fd, addr, len, s, refused)
      ]
