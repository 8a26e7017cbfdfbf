-- ===== src/Os.antt =====
-- What the program calls and does not implement: the C library, the kernel and the hardware. Each
-- call acts on an abstract state `S`; no law is assumed here.
use gpp_aioptool.Base.{ℕ, ◌-◌, ◌^◌, Bool, Option, ℤ, Text, Act, pure, done, if◌then◌else◌}
use gpp_aioptool.Mc.Portal.{Device}

-- What `stat` fills in, as far as the program reads it.
pub record FileStat : Type 0 where
  pub st_size : ℕ
  pub is_reg : Bool

-- A pointer is a number and 0 is NULL. A file descriptor is an `int`.
pub record Os (S : Type 0) : Type 0 where
  pub device : Device S
  pub calloc : (size : ℕ) → S → ℕ × S
  pub free : (ptr : ℕ) → S → S
  -- `access(path, F_OK|R_OK)`.
  pub access : Text → S → ℤ × S
  -- The result, and the structure if the result is 0.
  pub stat : Text → S → (ℤ × FileStat) × S
  -- `open(path, O_RDONLY)`.
  pub open_rdonly : Text → S → ℤ × S
  pub close : ℤ → S → S
  -- A private, populated mapping for reading and writing.
  pub mmap : (len : ℕ) (fd : ℤ) → S → ℕ × S
  pub munmap : (addr len : ℕ) → S → S
  pub getenv : Text → S → Option Text

-- A call, as a step of a run.
abbrev pub call : {S A : Type 0} → (S → A × S) → Act S A
call f s = let (a, s') = f s in done a s'

-- A call without a result.
abbrev pub perform : {S : Type 0} → (S → S) → Act S (Unit {0})
perform f s = done tt (f s)

-- A call behind an `if`.
abbrev pub perform_if : {S : Type 0} → Bool → (S → S) → Act S (Unit {0})
perform_if b f = if b then perform f else pure tt

-- `MAP_FAILED`.
abbrev pub map_failed : ℕ
map_failed = 2 ^ 64 - 1
