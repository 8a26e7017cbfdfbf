-- ===== src/Aiop/Load/Files.antt =====
-- The sizes of the files that are opened.
use gpp_aioptool.Base.{
  ℕ, ◌≤◌, ◌≡◌, ◌⊎◌, true, false, Option, none, some, ℤ, is_neg, arith, Text, Returns,
}
use gpp_aioptool.Os.{Os}
use gpp_aioptool.Aiop.Types.{max_aiop_image_file_sz, max_aiop_args_file_sz}
use gpp_aioptool.Aiop.Load.{open_sized, get_aiop_image_fd, get_aiop_args_fd}

-- A descriptor with the size of a file that is neither empty nor longer than the limit, or a
-- negative result and the size 0.
abbrev pub IsOpened : {S : Type 0} → (limit : ℕ) → ℤ × ℕ → S → Type 0
IsOpened limit (fd, size) s =
    ((is_neg fd ≡ false) × (1 ≤ size) × (size ≤ limit)) ⊎ ((is_neg fd ≡ true) × (size ≡ 0))

open_sized_lem :
    {S : Type 0} (os : Os S) (limit : ℕ) (file : Option Text) (s : S)
    → Returns (IsOpened limit) (open_sized os limit file s)
unfolding open_sized
open_sized_lem os limit none s = ground arith
open_sized_lem os limit (some file) s = ground arith

-- If an image is opened its size is between 1 byte and 8 MB, and if an arguments file is opened
-- its size is between 1 and 512 bytes; otherwise the result is negative and the size 0.
pub get_aiop_fd-sizes :
    {S : Type 0} (os : Os S) (file : Option Text) (s : S)
    → Returns (IsOpened max_aiop_image_file_sz) (get_aiop_image_fd os file s)
      × Returns (IsOpened max_aiop_args_file_sz) (get_aiop_args_fd os file s)
unfolding get_aiop_image_fd get_aiop_args_fd
get_aiop_fd-sizes os file s = (open_sized_lem os _ file s, open_sized_lem os _ file s)
