-- ===== src/Aiop/Ledger/Blocks.antt =====
-- A ledger of the memory that `calloc` gave and `free` has not taken back, beside any state.
pub mod Gains
pub mod Sessions
pub mod Setup
pub mod Fill
pub mod Search
pub mod Devices
pub mod Init
pub mod Freed
use gpp_aioptool.Base.{ℕ, ◌==◌, if◌then◌else◌, List, [], ◌∷◌}
use gpp_aioptool.Os.{Os}
use gpp_aioptool.Vfio.{Kernel}
use gpp_aioptool.Aiop.Setup.{Dirs}
use gpp_aioptool.Aiop.Ledger.{holds, without, beside, beside_, ledger_device}

-- The blocks that are held, and those that were freed without being held.
pub record Blocks : Type 0 where
  pub live : List ℕ
  pub strays : List ℕ

-- NULL is no block: a `calloc` that returns it failed, and freeing it does nothing.
abbrev pub block_taken : ℕ → Blocks → Blocks
block_taken ptr b = if ptr == 0 then b else record b { live = ptr ∷ b.live }

abbrev pub block_freed : ℕ → Blocks → Blocks
block_freed ptr b =
    if ptr == 0
    then b
    else if holds ◌==◌ ptr b.live
    then record b { live = without ◌==◌ ptr b.live }
    else record b { strays = ptr ∷ b.strays }

abbrev pub blocks_os : {S : Type 0} → Os S → Os (S × Blocks)
blocks_os os = record {
  device = ledger_device os.device;
  calloc = λ size (s, b). let (ptr, s') = os.calloc size s in (ptr, (s', block_taken ptr b));
  free = λ ptr (s, b). (os.free ptr s, block_freed ptr b);
  access = λ path. beside (os.access path);
  stat = λ path. beside (os.stat path);
  open_rdonly = λ path. beside (os.open_rdonly path);
  close = λ fd. beside_ (os.close fd);
  mmap = λ len fd. beside (os.mmap len fd);
  munmap = λ addr len. beside_ (os.munmap addr len);
  getenv = λ name (s, b). os.getenv name s;
}

abbrev pub beside_kernel : {S B : Type 0} → Kernel S → Kernel (S × B)
beside_kernel k = record {
  open_group = λ groupid. beside (k.open_group groupid);
  open_vfio = beside k.open_vfio;
  close = λ fd. beside_ (k.close fd);
  stat = λ path. beside (k.stat path);
  readlink = λ path cap. beside (k.readlink path cap);
  basename = k.basename;
  scan_int = k.scan_int;
  group_set_container = λ g c. beside (k.group_set_container g c);
  group_unset_container = λ g c. beside (k.group_unset_container g c);
  group_get_status = λ g. beside (k.group_get_status g);
  group_get_device_fd = λ g name. beside (k.group_get_device_fd g name);
  device_get_info = λ fd. beside (k.device_get_info fd);
  device_get_region_info = λ fd. beside (k.device_get_region_info fd);
  get_api_version = λ fd. beside (k.get_api_version fd);
  check_extension = λ fd. beside (k.check_extension fd);
  set_iommu = λ fd. beside (k.set_iommu fd);
  iommu_map_dma = λ fd vaddr iova size. beside (k.iommu_map_dma fd vaddr iova size);
  iommu_unmap_dma = λ fd iova size. beside (k.iommu_unmap_dma fd iova size);
  mmap_shared = λ len fd offset. beside (k.mmap_shared len fd offset);
  errno = λ (s, b). k.errno s;
}

abbrev pub beside_dirs : {S B : Type 0} → Dirs S → Dirs (S × B)
beside_dirs dirs = record {
  opendir = λ path. beside (dirs.opendir path);
  closedir = λ d. beside_ (dirs.closedir d);
  print_int = dirs.print_int;
}
