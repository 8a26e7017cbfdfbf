-- ===== src/Aiop/Load.antt =====
-- src/aiop_lib.c: opening the two files, and the requests that load and run an image. `aiopt_load`,
-- which maps the files in between, is modelled in `Load.Image`.
pub mod Outcome
pub mod Total
pub mod Files
pub mod Image
pub mod Requests
pub mod Held
pub mod Cleanup
pub mod Posix
pub mod Mapped
pub mod FileMaps
pub mod Released
pub mod Unset
use gpp_aioptool.Base.{
  ℕ, ◌%◌, ◌^◌, ◌==◌, ◌||◌, if◌then◌else◌, not, Bool, Option, none, some, ℤ, pos, is_zero, is_neg,
  Text, Act, pure, ◌>>=◌, ◌>>◌, leb, ltb,
}
use gpp_aioptool.Os.{Os, call, perform}
use gpp_aioptool.Mc.Portal.{FslMcIo}
use gpp_aioptool.Dpaiop.Types.{DpaiopLoadCfg, DpaiopRunCfg}
use gpp_aioptool.Dpaiop.Calls.{dpaiop_open, dpaiop_close, dpaiop_reset, dpaiop_load, dpaiop_run}
use gpp_aioptool.Aiop.Types.{
  AioptObj, with_token, aiopt_get_aiop_id, aiopt_success, aiopt_failure, max_aiop_image_file_sz,
  max_aiop_args_file_sz,
}
use gpp_aioptool.Aiop.Session.{sizeof_mc_io, cmd_pri_low, portal_of, to_result}

-- `AIOPT_RUN_CORES_ALL`.
abbrev pub aiopt_run_cores_all : ℕ
aiopt_run_cores_all = 0xFFFF

-- `load_cfg`: `img_size` has 32 bits and `tpc` 8.
abbrev pub load_cfg_of : (addr filesize tpc : ℕ) → DpaiopLoadCfg
load_cfg_of addr filesize tpc = record {
  options = 0;
  img_iova = addr;
  img_size = filesize % 2 ^ 32;
  tpc = tpc % 2 ^ 8;
}

-- `run_cfg`: `args_size` has 32 bits.
abbrev pub run_cfg_of : (args_addr args_filesize : ℕ) → DpaiopRunCfg
run_cfg_of args_addr args_filesize = record {
  cores_mask = aiopt_run_cores_all;
  options = 0;
  args_iova = args_addr;
  args_size = args_filesize % 2 ^ 32;
}

module _ {S : Type 0} (os : Os S) where
  -- The body that `get_aiop_image_fd` and `get_aiop_args_fd` share but for the limit: the
  -- descriptor, and the size, which is 0 on failure.
  unfoldable pub open_sized : (limit : ℕ) → Option Text → Act S (ℤ × ℕ)
  open_sized limit none = pure (aiopt_failure, 0)
  open_sized limit (some file) = do
    (ret, st) ← call (os.stat file)
    if not (is_zero ret)
        then pure (aiopt_failure, 0)
        else if leb st.st_size 0 || ltb limit st.st_size
        then pure (aiopt_failure, 0)
        else do
          fd ← call (os.open_rdonly file)
          pure (if is_neg fd then (aiopt_failure, 0) else (fd, st.st_size))

  unfoldable pub get_aiop_image_fd : Option Text → Act S (ℤ × ℕ)
  unfolding open_sized
  get_aiop_image_fd = open_sized max_aiop_image_file_sz

  unfoldable pub get_aiop_args_fd : Option Text → Act S (ℤ × ℕ)
  unfolding open_sized
  get_aiop_args_fd = open_sized max_aiop_args_file_sz

  -- The requests between opening and closing. The result of the reset is ignored.
  unfoldable pub load_and_run :
      (polls : ℕ) (io : Option FslMcIo) (token : ℕ)
      → DpaiopLoadCfg
      → DpaiopRunCfg
      → (reset : Bool) → Act S ℤ
  load_and_run polls io token load_cfg run_cfg reset = do
    ignored ← (if reset then dpaiop_reset os.device polls io 0 token else pure (pos 0))
    ret ← dpaiop_load os.device polls io 0 token load_cfg
    if is_zero ret then dpaiop_run os.device polls io 0 token run_cfg else pure ret

  unfoldable pub perform_dpaiop_load :
      (polls : ℕ) (obj : AioptObj) (addr filesize args_addr args_filesize : ℕ) (reset : Bool)
      (tpc : ℕ)
      → Act S (ℤ × AioptObj)
  unfolding load_and_run
  perform_dpaiop_load polls obj addr filesize args_addr args_filesize reset tpc = do
    dpaiop ← call (os.calloc sizeof_mc_io)
    if dpaiop == 0 then pure (aiopt_failure, obj) else do
      let io = portal_of obj
      (ret, token) ←
          dpaiop_open os.device polls io cmd_pri_low (aiopt_get_aiop_id obj) obj.aiop.token
      let obj' = with_token obj token
      if not (is_zero ret) then (do perform (os.free dpaiop); pure (aiopt_failure, obj')) else do
        ret1 ←
            load_and_run polls io token (load_cfg_of addr filesize tpc)
              (run_cfg_of args_addr args_filesize) reset
        result ← dpaiop_close os.device polls io 0 token
        perform (os.free dpaiop)
        pure (to_result ret1, obj')
