-- ===== src/Aiop/Load/Posix.antt =====
-- The calls of the system in `aiopt_load` beside a ledger: what they add to it.
use gpp_aioptool.Base.{
  ℕ, ◌<◌, ◌≤◌, ◌^◌, ◌≡◌, refl, sym, arith, inl, inr, Bool, true, false, not, ◌==◌, Bool-cases,
  Option, some, none, ℤ, is_zero, is_neg, is_positive, ltb, Text, Returns, Act, and_then,
}
use gpp_aioptool.Os.{Os, call, map_failed}
use gpp_aioptool.Aiop.Load.{open_sized}
use gpp_aioptool.Aiop.Types.{max_aiop_args_file_sz}
use gpp_aioptool.Aiop.Ledger.{Ledger, pages_of, ledger_os}
use gpp_aioptool.Aiop.Ledger.Entries.{files_if, maps_if}
use gpp_aioptool.Aiop.Load.Image.{Loaded, add_page, align_page}

-- What POSIX says of the calls: descriptor 0 is taken, and a mapping is at an address.
pub record IsPosix {S : Type 0} (os : Os S) : Type 0 where
  pub opens : (file : Text) (s : S) → is_zero (os.open_rdonly file s).0 ≡ false
  pub maps : (len : ℕ) (fd : ℤ) (s : S) → ((os.mmap len fd s).0 == 0) ≡ false
  pub fits : (len : ℕ) (fd : ℤ) (s : S) → (os.mmap len fd s).0 < 2 ^ 64

pub open_positive : (fd : ℤ) → is_zero fd ≡ false → is_neg fd ≡ not (is_positive fd)
open_positive fd not_zero = ground (arith, not_zero)

pub is_true : (c : Bool) → not c ≡ false → c ≡ true
is_true true e = refl
is_true false e = sym e

pub add_page_sized : (size : ℕ) → ltb 0 (add_page size) ≡ true
add_page_sized size = ground arith

pub align_page_sized : (size : ℕ) → 1 ≤ size → ltb 0 (align_page size) ≡ true
align_page_sized size some_bytes = ground (arith, some_bytes)

-- The size of a file covers the pages that are mapped for it: a file of arguments has one page.
pub align_page_whole : (size : ℕ) → pages_of (align_page size) ≡ pages_of size
align_page_whole size = ground arith

pub add_page_whole :
    (size : ℕ) → 1 ≤ size → size ≤ max_aiop_args_file_sz → pages_of (add_page size) ≡ pages_of size
add_page_whole size some_bytes short = ground (arith, some_bytes, short)

module _ {S : Type 0} (os : Os S) (posix : IsPosix os) where
  -- The ledger gains the file that is opened, which is neither empty nor longer than the limit.
  abbrev pub Gained : (limit : ℕ) → Ledger → ℤ × ℕ → S × Ledger → Type 0
  Gained limit b (fd, size) (s', b') =
      (b' ≡ record b { files = files_if fd b.files })
      × (is_positive fd ≡ true → (1 ≤ size) × (size ≤ limit))

  pub open_sized-Gained :
      (limit : ℕ) (file : Option Text) (s : S) (b : Ledger)
      → Returns (Gained limit b) (open_sized (ledger_os os) limit file (s, b))
  unfolding open_sized
  open_sized-Gained limit none s b = (refl, λ e. ground (arith, e))
  open_sized-Gained limit (some file) s b =
      let st = os.stat file s in
      let fd = (os.open_rdonly file st.1).0 in
      ground (arith, open_positive fd (posix.opens file st.1))

  mmap_gained :
      (len : ℕ) (fd : ℤ) (s : S) (b : Ledger)
      → ((ledger_os os).mmap len fd (s, b)).1.1
        ≡ record b { maps = maps_if (os.mmap len fd s).0 len b.maps }
  mmap_gained len fd s b =
      let there = posix.maps len fd s in
      elim (Bool-cases ((os.mmap len fd s).0 == map_failed)) [
        | inl failed ↦ rw (failed, there) refl
        | inr fine ↦ rw (fine, there) refl
      ]

  pub mmap-gains :
      (P : Loaded → S × Ledger → Type 0) (len : ℕ) (fd : ℤ) (s : S) (b : Ledger)
      (k : ℕ → Act (S × Ledger) Loaded)
      → ((addr : ℕ) (s' : S) (b' : Ledger)
          → (addr == 0) ≡ false
          → addr < 2 ^ 64
          → b' ≡ record b { maps = maps_if addr len b.maps }
          → Returns P (k addr (s', b')))
      → Returns P (and_then (call ((ledger_os os).mmap len fd) (s, b)) k)
  mmap-gains P len fd s b k next =
      next _ _ _ (posix.maps len fd s) (posix.fits len fd s) (mmap_gained len fd s b)
