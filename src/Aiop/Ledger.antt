-- ===== src/Aiop/Ledger.antt =====
-- A ledger of what the program holds: open files, mapped memory, and memory mapped for the device.
-- It is kept beside any state, by calls that write down what they do and are otherwise the calls of
-- the system that they wrap.
pub mod Server
pub mod Dma
pub mod Entries
pub mod Frame
pub mod Blocks
use gpp_aioptool.Base.{
  ℕ, ◌+◌, ◌/◌, ◌==◌, ◌&&◌, if◌then◌else◌, not, Bool, true, false, List, [], ◌∷◌, some, none, ℤ,
  is_zero, is_neg, same_int, ◌||◌,
}
use gpp_aioptool.Mc.Portal.{Device}
use gpp_aioptool.Os.{Os, map_failed}
use gpp_aioptool.Vfio.{Kernel}
use gpp_aioptool.Vfio.Dma.{irq_region}

-- What is held, and what was released without being held. Memory stands with its address and its
-- number of pages, and memory that is mapped for the device with its address and its size. A
-- mapping for the device is `refused` when its unmapping was asked for with its whole size and the
-- kernel refused. The region of the interrupts, which VFIO maps by itself at its fixed address, is
-- not written down.
pub record Ledger : Type 0 where
  pub files : List ℤ
  pub maps : List (ℕ × ℕ)
  pub dmas : List (ℕ × ℕ)
  pub refused : List (ℕ × ℕ)
  pub stray_files : List ℤ
  pub stray_maps : List (ℕ × ℕ)
  pub stray_dmas : List (ℕ × ℕ)

abbrev pub holding : List ℤ → List (ℕ × ℕ) → List (ℕ × ℕ) → Ledger
holding files maps dmas = record {
  files = files;
  maps = maps;
  dmas = dmas;
  refused = [];
  stray_files = [];
  stray_maps = [];
  stray_dmas = [];
}

abbrev pub holds : {A : Type 0} → (A → A → Bool) → A → List A → Bool
holds same x [] = false
holds same x (y ∷ ys) = same x y || holds same x ys

abbrev pub without : {A : Type 0} → (A → A → Bool) → A → List A → List A
without same x [] = []
without same x (y ∷ ys) = if same x y then ys else y ∷ without same x ys

-- The pages that a length covers: `mmap` and `munmap` both round up, and a length of 0 covers none.
abbrev pub pages_of : ℕ → ℕ
pages_of len = (len + 4095) / 4096

-- Entries are the same if both their numbers are.
abbrev pub same_entry : ℕ × ℕ → ℕ × ℕ → Bool
same_entry (addr, size) (addr', size') = addr == addr' && size == size'

abbrev pub file_closed : ℤ → Ledger → Ledger
file_closed fd b =
    if holds same_int fd b.files
    then record b { files = without same_int fd b.files }
    else record b { stray_files = fd ∷ b.stray_files }

-- Only all the pages of a mapping release it.
abbrev pub map_removed : (addr len : ℕ) → Ledger → Ledger
map_removed addr len b =
    let entry : ℕ × ℕ = (addr, pages_of len) in
    if holds same_entry entry b.maps
    then record b { maps = without same_entry entry b.maps }
    else record b { stray_maps = entry ∷ b.stray_maps }

abbrev pub dma_added : (iova size : ℕ) → Ledger → Ledger
dma_added iova size b = if iova == irq_region then b else record b { dmas = (iova, size) ∷ b.dmas }

-- Only the whole size of a mapping releases it, and only if the kernel grants it.
abbrev pub dma_removed : (granted : Bool) → (iova size : ℕ) → Ledger → Ledger
dma_removed granted iova size b =
    if iova == irq_region
    then b
    else if holds same_entry (iova, size) b.dmas
    then record b {
      dmas = without same_entry (iova, size) b.dmas;
      refused = if granted then b.refused else (iova, size) ∷ b.refused;
    }
    else record b { stray_dmas = (iova, size) ∷ b.stray_dmas }

-- A call that leaves a ledger alone, of this or of another kind.
abbrev pub beside : {S A B : Type 0} → (S → A × S) → S × B → A × (S × B)
beside f (s, b) = ((f s).0, ((f s).1, b))

abbrev pub beside_ : {S B : Type 0} → (S → S) → S × B → S × B
beside_ f (s, b) = (f s, b)

abbrev pub ledger_device : {S B : Type 0} → Device S → Device (S × B)
ledger_device dev = record {
  ioread64 = λ a. beside (dev.ioread64 a);
  iowrite64 = λ v a. beside_ (dev.iowrite64 v a);
  iowrite32 = λ v a. beside_ (dev.iowrite32 v a);
}

abbrev pub ledger_os : {S : Type 0} → Os S → Os (S × Ledger)
ledger_os os = record {
  device = ledger_device os.device;
  calloc = λ size. beside (os.calloc size);
  free = λ ptr. beside_ (os.free ptr);
  access = λ path. beside (os.access path);
  stat = λ path. beside (os.stat path);
  open_rdonly = λ path (s, b).
      let (fd, s') = os.open_rdonly path s in
      (fd, (s', if is_neg fd then b else record b { files = fd ∷ b.files }));
  close = λ fd (s, b). (os.close fd s, file_closed fd b);
  mmap = λ len fd (s, b).
      let (addr, s') = os.mmap len fd s in
      (
        addr,
        (s', if addr == map_failed then b else record b { maps = (addr, pages_of len) ∷ b.maps }),
      );
  munmap = λ addr len (s, b). (os.munmap addr len s, map_removed addr len b);
  getenv = λ name (s, b). os.getenv name s;
}

abbrev pub ledger_kernel : {S : Type 0} → Kernel S → Kernel (S × Ledger)
ledger_kernel k = record {
  open_group = λ groupid. beside (k.open_group groupid);
  open_vfio = beside k.open_vfio;
  close = λ fd. beside_ (k.close fd);
  stat = λ path. beside (k.stat path);
  readlink = λ path cap. beside (k.readlink path cap);
  basename = k.basename;
  scan_int = k.scan_int;
  group_set_container = λ g c. beside (k.group_set_container g c);
  group_unset_container = λ g c. beside (k.group_unset_container g c);
  group_get_status = λ g. beside (k.group_get_status g);
  group_get_device_fd = λ g name. beside (k.group_get_device_fd g name);
  device_get_info = λ fd. beside (k.device_get_info fd);
  device_get_region_info = λ fd. beside (k.device_get_region_info fd);
  get_api_version = λ fd. beside (k.get_api_version fd);
  check_extension = λ fd. beside (k.check_extension fd);
  set_iommu = λ fd. beside (k.set_iommu fd);
  iommu_map_dma = λ fd vaddr iova size (s, b).
      let (ret, s') = k.iommu_map_dma fd vaddr iova size s in
      (ret, (s', if is_zero ret then dma_added iova size b else b));
  iommu_unmap_dma = λ fd iova size (s, b).
      let (ret, s') = k.iommu_unmap_dma fd iova size s in
      (ret, (s', dma_removed (is_zero ret) iova size b));
  mmap_shared = λ len fd offset. beside (k.mmap_shared len fd offset);
  errno = λ (s, b). k.errno s;
}
