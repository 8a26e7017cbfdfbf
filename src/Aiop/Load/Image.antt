-- ===== src/Aiop/Load/Image.antt =====
-- src/aiop_lib.c: `aiopt_load`, one function for each part between two of its `goto`s.
use gpp_aioptool.Base.{
  ℕ, ◌+◌, ◌*◌, ◌/◌, ◌%◌, ◌==◌, ◌&&◌, if◌then◌else◌, not, Bool, true, false, Option, none, some, ℤ,
  is_zero, is_positive, Text, Act, pure, ◌>>=◌, ◌>>◌, ltb,
}
use gpp_aioptool.Os.{Os, call, perform_if, map_failed}
use gpp_aioptool.Vfio.{Kernel, VfioTables}
use gpp_aioptool.Vfio.Dma.{fsl_vfio_setup_dmamap, fsl_vfio_destroy_dmamap}
use gpp_aioptool.Aiop.Types.{AioptObj, aiopt_failure, aiopt_enomem, aiopt_aligned_page_sz}
use gpp_aioptool.Aiop.Load.{get_aiop_image_fd, get_aiop_args_fd, perform_dpaiop_load}

-- The local variables. `with_args` is `afile != NULL`.
pub record LoadVars : Type 0 where
  pub with_args : Bool
  pub fd : ℤ
  pub filesize : ℕ
  pub aligned_size : ℕ
  pub addr : ℕ
  pub args_fd : ℤ
  pub args_filesize : ℕ
  pub args_aligned_size : ℕ
  pub args_addr : ℕ

-- The size of a file in whole pages, as it is computed for the image and for the arguments: the
-- second has a page to spare if the size is a multiple.
abbrev pub add_page : ℕ → ℕ
add_page size = (size + aiopt_aligned_page_sz) / aiopt_aligned_page_sz * aiopt_aligned_page_sz

abbrev pub align_page : ℕ → ℕ
align_page size = if size % aiopt_aligned_page_sz == 0 then size else add_page size

-- The variables after the image is opened. `unset` is what `args_fd` holds before it is set: it has
-- no initializer.
abbrev pub vars_of : (unset fd : ℤ) (filesize : ℕ) → LoadVars
vars_of unset fd filesize = record {
  with_args = false;
  fd = fd;
  filesize = filesize;
  aligned_size = 0;
  addr = 0;
  args_fd = unset;
  args_filesize = 0;
  args_aligned_size = 0;
  args_addr = 0;
}

-- The result, the object and the tables of VFIO.
abbrev pub Loaded : Type 0
Loaded = ℤ × AioptObj × VfioTables

module _ {S : Type 0} (os : Os S) (kernel : Kernel S) (polls : ℕ) (reset : Bool) (tpc : ℕ) where
  -- `err_out`.
  unfoldable pub release_files : LoadVars → Act S (Unit {0})
  release_files v = do
    perform_if (not (v.args_addr == 0)) (os.munmap v.args_addr v.args_filesize)
    perform_if (is_positive v.args_fd) (os.close v.args_fd)
    perform_if (not (v.addr == 0)) (os.munmap v.addr v.filesize)
    perform_if (is_positive v.fd) (os.close v.fd)

  unfoldable pub err_out : LoadVars → ℤ → AioptObj → VfioTables → Act S Loaded
  unfolding release_files
  err_out v ret obj t = do release_files v; pure (ret, obj, t)

  unfoldable pub err_cleanup_elf : LoadVars → ℤ → AioptObj → VfioTables → Act S Loaded
  err_cleanup_elf v ret obj t = do
    t' ←
        (if not (v.addr == 0) && ltb 0 v.aligned_size
          then fsl_vfio_destroy_dmamap kernel obj.vfio_handle v.addr v.aligned_size t
          else pure t)
    err_out v ret obj t'

  unfoldable pub err_cleanup_args : LoadVars → ℤ → AioptObj → VfioTables → Act S Loaded
  err_cleanup_args v ret obj t = do
    t' ←
        (if v.with_args && not (v.args_addr == 0) && ltb 0 v.args_aligned_size
          then fsl_vfio_destroy_dmamap kernel obj.vfio_handle v.args_addr v.args_aligned_size t
          else pure t)
    err_cleanup_elf v ret obj t'

  -- The request to load; success falls through to the cleanup.
  unfoldable pub load_mapped : LoadVars → AioptObj → VfioTables → Act S Loaded
  load_mapped v obj t = do
    (ret, obj') ←
        perform_dpaiop_load os polls obj v.addr v.filesize v.args_addr v.args_filesize reset tpc
    err_cleanup_args v ret obj' t

  unfoldable pub map_args_dma : LoadVars → AioptObj → VfioTables → Act S Loaded
  map_args_dma v obj t = if not v.with_args then load_mapped v obj t else do
    (ret, t') ← fsl_vfio_setup_dmamap kernel obj.vfio_handle v.args_addr v.args_aligned_size t
    if not (is_zero ret) then err_cleanup_elf v ret obj t' else load_mapped v obj t'

  unfoldable pub map_image_dma : LoadVars → AioptObj → VfioTables → Act S Loaded
  map_image_dma v obj t = do
    (ret, t') ← fsl_vfio_setup_dmamap kernel obj.vfio_handle v.addr v.aligned_size t
    if not (is_zero ret) then err_out v ret obj t' else map_args_dma v obj t'

  unfoldable pub map_args : LoadVars → AioptObj → VfioTables → Act S Loaded
  map_args v obj t = if not v.with_args then map_image_dma v obj t else do
    let size = add_page v.args_filesize
    args_addr ← call (os.mmap size v.args_fd)
    let v' = record v { args_aligned_size = size; args_addr = args_addr }
    if args_addr == map_failed then err_out v' aiopt_enomem obj t else map_image_dma v' obj t

  unfoldable pub map_image : LoadVars → AioptObj → VfioTables → Act S Loaded
  map_image v obj t = do
    let size = align_page v.filesize
    addr ← call (os.mmap size v.fd)
    let v' = record v { aligned_size = size; addr = addr }
    if addr == map_failed then err_out v' aiopt_enomem obj t else map_args v' obj t

  unfoldable pub open_args : Option Text → LoadVars → AioptObj → VfioTables → Act S Loaded
  open_args none v obj t = map_image v obj t
  open_args (some afile) v obj t = do
    (args_fd, size) ← get_aiop_args_fd os (some afile)
    let v' = record v { with_args = true; args_fd = args_fd; args_filesize = size }
    if not (is_positive args_fd) then err_out v' aiopt_failure obj t else map_image v' obj t

  unfoldable pub aiopt_load :
      (unset : ℤ) → AioptObj → VfioTables → (ifile afile : Option Text) → Act S Loaded
  aiopt_load unset obj t ifile afile = do
    (fd, size) ← get_aiop_image_fd os ifile
    let v = vars_of unset fd size
    if not (is_positive fd) then err_out v aiopt_failure obj t else open_args afile v obj t
