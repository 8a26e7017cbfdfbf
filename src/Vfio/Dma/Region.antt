-- ===== src/Vfio/Dma/Region.antt =====
-- The region of the interrupts over the life of a mapping.
use gpp_aioptool.Base.{ℕ, ◌+◌, ◌≡◌, ◌⊎◌, true, false, some, ℤ, pos, is_zero, arith, done, Returns}
use gpp_aioptool.Vfio.{Kernel, VfioTables, vfio_success, vfio_failure}
use gpp_aioptool.Vfio.Dma.{
  fsl_vfio_setup_dmamap, fsl_vfio_destroy_dmamap, vfio_map_irq_region, vfio_unmap_irq_region,
  with_msi, irq_region, irq_region_size,
}

module _ {S : Type 0} (kernel : Kernel S) (handle : ℕ) (t : VfioTables) where
  -- For a group that is connected, with no region of interrupts mapped, setting a DMA mapping up
  -- succeeds, or fails and leaves the tables as they were; either way, destroying the mapping
  -- after it returns and gives back the tables from before.
  pub fsl_vfio_destroy_dmamap-fsl_vfio_setup_dmamap :
      (addr len : ℕ) (s : S)
      → t.group.connected ≡ true
      → t.msi_intr_vaddr ≡ 0
      → Returns
          (λ (r, t1) s1.
            ((r ≡ vfio_success) ⊎ ((r ≡ vfio_failure) × (t1 ≡ t)))
            × Returns
                (λ t2 s2. t2 ≡ t)
                (fsl_vfio_destroy_dmamap kernel (some handle) addr len t1 s1))
          (fsl_vfio_setup_dmamap kernel (some handle) addr len t s)
  unfolding fsl_vfio_setup_dmamap fsl_vfio_destroy_dmamap vfio_map_irq_region vfio_unmap_irq_region
  fsl_vfio_destroy_dmamap-fsl_vfio_setup_dmamap addr len s connected unmapped =
      ground (arith, connected, unmapped)

  -- For a group that is connected, with no region of interrupts mapped: if the kernel maps the
  -- memory and gives the region an address but refuses to map the region for the device, the set-
  -- up reports success and marks the region as mapped, and the next attempt to map it makes no
  -- request.
  pub fsl_vfio_setup_dmamap_refused :
      (addr len vaddr : ℕ) (err : ℤ) (s s1 s2 s3 : S)
      → t.group.connected ≡ true
      → t.msi_intr_vaddr ≡ 0
      → kernel.iommu_map_dma t.container.fd addr addr len s ≡ (pos 0, s1)
      → kernel.mmap_shared irq_region_size t.container_device_fd irq_region s1 ≡ (some vaddr, s2)
      → kernel.iommu_map_dma t.container.fd vaddr irq_region irq_region_size s2 ≡ (err, s3)
      → is_zero err ≡ false
      → (fsl_vfio_setup_dmamap kernel (some handle) addr len t s
          ≡ done (vfio_success, with_msi t (vaddr + 64)) s3)
        × (vfio_map_irq_region kernel (with_msi t (vaddr + 64)) s3
            ≡ done (vfio_success, with_msi t (vaddr + 64)) s3)
  unfolding fsl_vfio_setup_dmamap vfio_map_irq_region
  fsl_vfio_setup_dmamap_refused addr len vaddr err s s1 s2 s3 connected unmapped mapped region tried
        refused =
      ground (arith, connected, unmapped, mapped, region, tried, refused)
