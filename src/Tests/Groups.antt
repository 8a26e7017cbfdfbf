-- ===== src/Tests/Groups.antt =====
-- The tables of VFIO and the devices of a group, with a kernel that grants every request.
use gpp_aioptool.Base.{
  ◌==◌, ◌⊎◌, done, ℕ, ◌≡◌, refl, arith, true, false, none, some, pos, neg, codes, if◌then◌else◌,
  Returns,
}
use gpp_aioptool.Tests.World.{granting, full_tables}
use gpp_aioptool.Vfio.{
  Kernel, VfioTables, fsl_vfio_setup, setup_found, fsl_vfio_destroy, vfio_connect_container,
  vfio_failure, vfio_success,
}
use gpp_aioptool.Vfio.Tables.{IsConsistent, vfio_connect_container-used}
use gpp_aioptool.Vfio.Dma.{
  irq_region, with_msi, vfio_map_irq_region, fsl_vfio_setup_dmamap, fsl_vfio_destroy_dmamap,
}
use gpp_aioptool.Vfio.Dma.Region.{
  fsl_vfio_destroy_dmamap-fsl_vfio_setup_dmamap, fsl_vfio_setup_dmamap_refused,
}
use gpp_aioptool.Vfio.Setup.{
  SetUp, fsl_vfio_setup-SetUp, setup_found-other_group, fsl_vfio_destroy-IsConsistent,
}

abbrev kernel : Kernel ℕ
kernel = granting

abbrev pub empty_tables : VfioTables
empty_tables = record {
  group = record { fd = pos 0; groupid = pos 0; used = false; connected = false };
  container = record { fd = pos 0; used = false; index = 0 };
  container_device_fd = pos 0;
  msi_intr_vaddr = 0;
}

-- After the group is destroyed the container is still marked as used.
abbrev stale_tables : VfioTables
stale_tables = record {
  group = record { fd = pos 3; groupid = pos 7; used = false; connected = false };
  container = record { fd = pos 0; used = true; index = 1 };
  container_device_fd = pos 5;
  msi_intr_vaddr = 0;
}

pub empty_tables-IsConsistent : IsConsistent empty_tables
empty_tables-IsConsistent = record { fresh = λ e. refl; in_use = refl }

full_tables-IsConsistent : IsConsistent full_tables
full_tables-IsConsistent = record { fresh = λ e. ground (arith, e); in_use = refl }

fsl_vfio_setup-SetUp_example :
    Returns (SetUp kernel) (fsl_vfio_setup kernel (codes "dprc.2") empty_tables 0)
fsl_vfio_setup-SetUp_example =
    fsl_vfio_setup-SetUp kernel (codes "dprc.2") empty_tables 0 (omega arith)
      (λ path u. omega arith) empty_tables-IsConsistent

setup_found-other_group_example :
    Returns
      (λ (handle, t) s. (handle ≡ none) × (t.group.used ≡ false))
      (setup_found kernel (codes "dprc.3") full_tables (some (pos 8)) 0)
setup_found-other_group_example =
    setup_found-other_group kernel (codes "dprc.3") (pos 8) full_tables 0 full_tables-IsConsistent
      refl refl

fsl_vfio_destroy-IsConsistent_example :
    Returns
      (λ (r, t) s. IsConsistent t × (r ≡ vfio_success) × (t.group.used ≡ false))
      (fsl_vfio_destroy kernel (some 0) full_tables 0)
fsl_vfio_destroy-IsConsistent_example =
    fsl_vfio_destroy-IsConsistent kernel 0 full_tables 0 full_tables-IsConsistent

vfio_connect_container-used_example :
    Returns
      (λ (r, t) s. (r ≡ vfio_failure) × (t ≡ stale_tables))
      (vfio_connect_container kernel stale_tables 0)
vfio_connect_container-used_example = vfio_connect_container-used kernel stale_tables 0 refl refl

-- The same kernel, which refuses the region of the interrupts.
abbrev strict : Kernel ℕ
strict = record kernel {
  iommu_map_dma = λ fd vaddr iova size s. ((if iova == irq_region then neg 1 else pos 0), s);
}

fsl_vfio_destroy_dmamap-fsl_vfio_setup_dmamap_example :
    Returns
      (λ (r, t) s.
        ((r ≡ vfio_success) ⊎ ((r ≡ vfio_failure) × (t ≡ full_tables)))
        × Returns (λ u s'. u ≡ full_tables) (fsl_vfio_destroy_dmamap kernel (some 0) 8192 4096 t s))
      (fsl_vfio_setup_dmamap kernel (some 0) 8192 4096 full_tables 0)
fsl_vfio_destroy_dmamap-fsl_vfio_setup_dmamap_example =
    fsl_vfio_destroy_dmamap-fsl_vfio_setup_dmamap kernel 0 full_tables 8192 4096 0 refl refl

fsl_vfio_setup_dmamap_refused_example :
    (fsl_vfio_setup_dmamap strict (some 0) 8192 4096 full_tables 0
      ≡ done (vfio_success, with_msi full_tables 65600) 0)
    × (vfio_map_irq_region strict (with_msi full_tables 65600) 0
        ≡ done (vfio_success, with_msi full_tables 65600) 0)
fsl_vfio_setup_dmamap_refused_example =
    fsl_vfio_setup_dmamap_refused strict 0 full_tables 8192 4096 65536 (neg 1) 0 0 0 0 refl refl
      refl refl refl refl
