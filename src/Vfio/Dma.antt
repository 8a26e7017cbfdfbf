-- ===== src/Vfio/Dma.antt =====
-- src/vfio/fsl_vfio.c: mapping memory for the device, and the region of its interrupts with it.
pub mod Region
use gpp_aioptool.Base.{
  ℕ, ◌+◌, ◌==◌, if◌then◌else◌, not, Option, none, some, ℤ, neg, is_zero, Act, pure, fault, ◌>>=◌,
}
use gpp_aioptool.Os.{call}
use gpp_aioptool.Vfio.{Kernel, VfioTables, vfio_success, vfio_failure}

abbrev pub irq_region : ℕ
irq_region = 0x6030000

abbrev pub irq_region_size : ℕ
irq_region_size = 0x1000

-- `msi_intr_vaddr = vaddr`.
abbrev pub with_msi : VfioTables → ℕ → VfioTables
with_msi t vaddr = record t { msi_intr_vaddr = vaddr }

module _ {S : Type 0} (kernel : Kernel S) where
  -- `group->container` must not be NULL when the region is unmapped.
  unfoldable pub vfio_unmap_irq_region : VfioTables → Act S VfioTables
  vfio_unmap_irq_region t =
      if t.msi_intr_vaddr == 0
      then pure (with_msi t 0)
      else if not t.group.connected
      then (λ _. fault)
      else do
        ignored ← call (kernel.iommu_unmap_dma t.container.fd irq_region irq_region_size)
        pure (with_msi t 0)

  unfoldable pub vfio_map_irq_region : VfioTables → Act S (ℤ × VfioTables)
  vfio_map_irq_region t = if not (t.msi_intr_vaddr == 0) then pure (vfio_success, t) else do
    mapped ← call (kernel.mmap_shared irq_region_size t.container_device_fd irq_region)
    elim mapped [
      | none ↦ (λ s. pure (neg (kernel.errno s), t) s)
      | some vaddr ↦
          let t' = with_msi t (vaddr + 64) in
          if not t.group.connected then (λ _. fault) else do
            ret ← call (kernel.iommu_map_dma t.container.fd vaddr irq_region irq_region_size)
            (λ s. pure ((if is_zero ret then vfio_success else neg (kernel.errno s)), t') s)
    ]

  -- The result of mapping the interrupts is not looked at.
  unfoldable pub fsl_vfio_setup_dmamap :
      (handle : Option ℕ) (addr len : ℕ) → VfioTables → Act S (ℤ × VfioTables)
  unfolding vfio_map_irq_region
  fsl_vfio_setup_dmamap none addr len t = pure (vfio_failure, t)
  fsl_vfio_setup_dmamap (some handle) addr len t =
      if not t.group.connected then (λ _. fault) else do
        ret ← call (kernel.iommu_map_dma t.container.fd addr addr len)
        if not (is_zero ret)
            then pure (vfio_failure, t)
            else do (ignored, t') ← vfio_map_irq_region t; pure (vfio_success, t')

  unfoldable pub fsl_vfio_destroy_dmamap :
      (handle : Option ℕ) (addr len : ℕ) → VfioTables → Act S VfioTables
  unfolding vfio_unmap_irq_region
  fsl_vfio_destroy_dmamap none addr len t = pure t
  fsl_vfio_destroy_dmamap (some handle) addr len t =
      if not t.group.connected then (λ _. fault) else do
        ignored ← call (kernel.iommu_unmap_dma t.container.fd addr len)
        vfio_unmap_irq_region t
