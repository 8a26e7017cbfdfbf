-- ===== src/Tests/World.antt =====
-- A concrete device with one portal, at address 4096, and an operating system around it.
use gpp_aioptool.Base.{
  ℕ, zero, suc, ◌+◌, ◌-◌, ◌*◌, ◌/◌, ◌^◌, ◌≡◌, refl, ap, sym, subst, ◌≢◌, Bool, arith, true, false,
  [], ◌∷◌, none, some, pos, neg, is_zero, codes, ◌==◌, if◌then◌else◌, get_or,
}
use gpp_aioptool.Os.{Os}
use gpp_aioptool.Vfio.{Kernel, VfioTables}
use gpp_aioptool.Mc.Wire.{McCommand, read_status, mc_dec, status_ready}
use gpp_aioptool.Mc.Portal.{Device, param_addr, mc_write_command, write_params}
use gpp_aioptool.Mc.Portal.Exchange.{Pending, Answers}
use gpp_aioptool.Dpaiop.Server.{Server, Serves}

-- The commands submitted so far, and the number of the one that is refused, if it is among them.
pub record World : Type 0 where
  pub submitted : ℕ
  pub refused : ℕ

-- The response that stands in the registers: the token 5, and seven words.
abbrev pub response : World → McCommand
response w = record {
  header = if w.submitted == w.refused then 5 * 2 ^ 32 + 6 * 2 ^ 16 else 5 * 2 ^ 32;
  params = 7 ∷ 8 ∷ 9 ∷ 0 ∷ 0 ∷ 0 ∷ 0 ∷ [];
}

abbrev word : World → ℕ → ℕ
word w zero = (response w).header
word w (suc i) = get_or (response w).params i 0

abbrev pub step : World → World
step w = record w { submitted = w.submitted + 1 }

abbrev pub device : Device World
device = record {
  ioread64 = λ a w. (word w ((a - 4096) / 8), w);
  iowrite64 = λ v a w. w;
  iowrite32 = λ v a w. if a == 4096 then step w else w;
}

abbrev pub server : Server World
server w r = (response (step w), step w)

header_status :
    (refused : Bool)
    → read_status (if refused then 5 * 2 ^ 32 + 6 * 2 ^ 16 else 5 * 2 ^ 32) ≢ status_ready
unfolding read_status mc_dec
header_status true e = ground (arith, e)
header_status false e = ground (arith, e)

index : (i : ℕ) → (param_addr 4096 i - 4096) / 8 ≡ suc i
index i = omega arith

pub response-Answers : (w : World) → Answers device 4096 w (response w)
response-Answers w = record {
  header = refl;
  answered = header_status (w.submitted == w.refused);
  params = λ i h. ap (λ k. (word w k, w)) (index i);
  seven = refl;
}

pub written : (w : World) (cmd : McCommand) → mc_write_command device 4096 cmd w ≡ step w
unfolding mc_write_command write_params
written w cmd = refl

pub serves : Serves device 3 4096 server
serves = record {
  mapped = λ e. ground (arith, e);
  reply = λ w cmd r says. (
    0,
    omega arith,
    subst (λ v. Pending device 4096 (step w) 0 v) (sym (written w cmd)) Pending.now,
    response-Answers (step w),
  );
}

-- Every call succeeds; memory is at 64, descriptors are 3, and files are regular, with 100 bytes.
abbrev pub os : Os World
os = record {
  device = device;
  calloc = λ size w. (64, w);
  free = λ ptr w. w;
  access = λ path w. (pos 0, w);
  stat = λ path w. ((pos 0, record { st_size = 100; is_reg = true }), w);
  open_rdonly = λ path w. (pos 3, w);
  close = λ fd w. w;
  mmap = λ len fd w. (8192, w);
  munmap = λ addr len w. w;
  getenv = λ name w. none;
}

-- A fresh world in which no command is refused, and one in which the second is.
abbrev pub willing : World
willing = record { submitted = 0; refused = 0 }

abbrev pub stubborn : World
stubborn = record { submitted = 0; refused = 2 }

-- Descriptors are 3 to 5; a container's descriptor 0 is refused.
abbrev pub granting : {S : Type 0} → Kernel S
granting = record {
  open_group = λ groupid s. (pos 3, s);
  open_vfio = λ s. (pos 4, s);
  close = λ fd s. s;
  stat = λ path s. (pos 0, s);
  readlink = λ path cap s. ((pos 1, codes "7"), s);
  basename = λ path. path;
  scan_int = λ text. some (pos 7);
  group_set_container =
      λ group_fd container_fd s. ((if is_zero container_fd then neg 1 else pos 0), s);
  group_unset_container = λ group_fd container_fd s. (pos 0, s);
  group_get_status = λ group_fd s. ((pos 0, true), s);
  group_get_device_fd = λ group_fd name s. (pos 5, s);
  device_get_info = λ fd s. ((pos 0, record { num_regions = 2; num_irqs = 1 }), s);
  device_get_region_info = λ fd s. ((pos 0, record { size = 65536; offset = 0 }), s);
  get_api_version = λ fd s. (pos 0, s);
  check_extension = λ fd s. (pos 1, s);
  set_iommu = λ fd s. (pos 0, s);
  iommu_map_dma = λ fd vaddr iova size s. (pos 0, s);
  iommu_unmap_dma = λ fd iova size s. (pos 0, s);
  mmap_shared = λ len fd offset s. (some 65536, s);
  errno = λ s. 22;
}

abbrev pub full_tables : VfioTables
full_tables = record {
  group = record { fd = pos 3; groupid = pos 7; used = true; connected = true };
  container = record { fd = pos 4; used = true; index = 1 };
  container_device_fd = pos 5;
  msi_intr_vaddr = 0;
}
