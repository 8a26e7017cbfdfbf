-- ===== src/Cmd/Args/Paths.antt =====
-- The length of a path and the buffer that it is copied to.
use gpp_aioptool.Base.{
  ◌≤◌, ◌≡◌, true, some, is_zero, arith, Text, done, fault, ltb, length, if◌then◌else◌,
}
use gpp_aioptool.Os.{Os}
use gpp_aioptool.Aiop.Types.{aiopt_success}
use gpp_aioptool.Cmd.Types.{GlobalArgs}
use gpp_aioptool.Cmd.Args.{file_ok, image_file_from_args, args_file_from_args}

-- `access` and `stat` succeed on the path, and it names a regular file.
pub record IsReadable {S : Type 0} (os : Os S) (file : Text) (s : S) : Type 0 where
  pub accessible : is_zero (os.access file s).0 ≡ true
  pub statable : is_zero (os.stat file (os.access file s).1).0.0 ≡ true
  pub regular : (os.stat file (os.access file s).1).0.1.is_reg ≡ true

-- Let `access` and `stat` succeed on a path to a regular file. With 1 to 255 bytes the path is
-- taken over; with exactly 256 bytes it passes the test of its length, and the copy, the final NUL
-- included, overruns the buffer. This holds for the image and for the arguments file.
pub path_from_args-bounds :
    {S : Type 0} (os : Os S) (file : Text) (g : GlobalArgs) (s : S)
    → IsReadable os file s
    → 1 ≤ length file
    → length file ≤ 256
    → let s' = (os.stat file (os.access file s).1).1 in
      (image_file_from_args os (some file) g s ≡ (
        if ltb (length file) 256
        then done (aiopt_success, record g { image_file = file; image_file_flag = true }) s'
        else fault))
      × (args_file_from_args os (some file) g s ≡ (
          if ltb (length file) 256
          then done (aiopt_success, record g { args_file = file; args_file_flag = true }) s'
          else fault))
unfolding image_file_from_args args_file_from_args file_ok
path_from_args-bounds os file g s readable low high =
    ground (arith, readable.accessible, readable.statable, readable.regular)
