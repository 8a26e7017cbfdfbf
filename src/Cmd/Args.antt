-- ===== src/Cmd/Args.antt =====
-- src/aiop_cmd.c: the helpers that take one option's argument over into the global structure.
pub mod Paths
use gpp_aioptool.Base.{
  ℕ, Bool, true, false, not, ◌&&◌, ◌||◌, [], ◌∷◌, Option, none, some, ℤ, pos, negsuc, is_zero, Text,
  Act, pure, fault, ◌>>=◌, ltb, leb, ◌==◌, length, if◌then◌else◌,
}
use gpp_aioptool.Os.{Os, call}
use gpp_aioptool.Aiop.Types.{aiopt_success, aiopt_failure}
use gpp_aioptool.Cmd.Types.{
  GlobalArgs, Libc, Strtoul, strcpy, max_container_name_len, max_path_len, max_thread_per_core,
  default_thread_per_core, container_def, container_env, container_usr, default_dprc_name,
  container_env_var, erange, long_max, long_min,
}

unfoldable pub has_char : Text → ℕ → Bool
has_char [] c = false
has_char (x ∷ xs) c = x == c || has_char xs c

-- `none` is NULL; an empty string has no character, so its early return needs no case.
unfoldable pub check_if_valid_arg : Option Text → ℕ → ℤ
unfolding has_char
check_if_valid_arg none c = aiopt_failure
check_if_valid_arg (some str) c = if has_char str c then aiopt_success else aiopt_failure

-- The text of a container name is copied if it has 1 to 9 bytes.
unfoldable pub container_name_from_args : {S : Type 0} → Text → GlobalArgs → Act S GlobalArgs
container_name_from_args arg gvars =
    if leb max_container_name_len (length arg) || leb (length arg) 0 then pure gvars else do
      name ← strcpy max_container_name_len arg
      pure (record gvars { container_name = name; container_name_flag = container_usr })

-- The checks that `image_file_from_args` and `args_file_from_args` make in the same words, up to
-- their messages: the length, `access`, `stat` and `S_ISREG`.
unfoldable pub file_ok : {S : Type 0} → Os S → Text → Act S Bool
file_ok os file = if leb (length file) 0 || ltb max_path_len (length file) then pure false else do
  ret ← call (os.access file)
  if not (is_zero ret) then pure false else do
    (ret', st) ← call (os.stat file)
    if not (is_zero ret') then pure false else pure (st.is_reg)

unfoldable pub image_file_from_args :
    {S : Type 0} → Os S → Option Text → GlobalArgs → Act S (ℤ × GlobalArgs)
unfolding file_ok
image_file_from_args os none gvars = pure (aiopt_failure, gvars)
image_file_from_args os (some file) gvars = do
  valid ← file_ok os file
  if not valid then pure (aiopt_failure, gvars) else do
    copied ← strcpy max_path_len file
    pure (aiopt_success, record gvars { image_file = copied; image_file_flag = true })

unfoldable pub args_file_from_args :
    {S : Type 0} → Os S → Option Text → GlobalArgs → Act S (ℤ × GlobalArgs)
unfolding file_ok
args_file_from_args os none gvars = pure (aiopt_failure, gvars)
args_file_from_args os (some args_file) gvars = do
  valid ← file_ok os args_file
  if not valid then pure (aiopt_failure, gvars) else do
    copied ← strcpy max_path_len args_file
    pure (aiopt_success, record gvars { args_file = copied; args_file_flag = true })

-- `tpc <= 0 || tpc > MAX_THREAD_PER_CORE` gives the default.
abbrev pub limit_tpc : ℤ → ℕ
limit_tpc (pos n) = if leb n 0 || ltb max_thread_per_core n then default_thread_per_core else n
limit_tpc (negsuc n) = default_thread_per_core

-- With a null argument the C code stores a variable that was never set.
unfoldable pub thread_per_core_from_args :
    {S : Type 0} → Libc → Option Text → GlobalArgs → Act S GlobalArgs
thread_per_core_from_args libc none gvars = λ _. fault
thread_per_core_from_args libc (some tpc_value) gvars =
    pure (record gvars { tpc = limit_tpc (libc.atoi tpc_value); tpc_flag = true })

unfoldable pub reset_flag_from_args : GlobalArgs → GlobalArgs
reset_flag_from_args gvars = record gvars { reset_flag = true }

unfoldable pub debug_flag_from_args : GlobalArgs → GlobalArgs
debug_flag_from_args gvars = record gvars { debug_flag = true; verbose_flag = true }

unfoldable pub verbose_flag_from_args : GlobalArgs → GlobalArgs
verbose_flag_from_args gvars = record gvars { verbose_flag = true }

-- The condition for an incorrect time string, after `strtoul`.
unfoldable pub bad_time : Strtoul → Bool
bad_time r =
    (r.err == erange && (r.value == long_max || r.value == long_min))
    || (not (r.err == 0) && r.value == 0)
    || not r.at_end

unfoldable pub timeofday_from_args : Libc → Option Text → GlobalArgs → ℤ × GlobalArgs
unfolding bad_time
timeofday_from_args libc none gvars = (aiopt_failure, gvars)
timeofday_from_args libc (some timestr) gvars =
    let r = libc.strtoul timestr in
    if bad_time r
    then (aiopt_failure, gvars)
    else (aiopt_success, record gvars { tod_val = r.value; tod_flag = true })

-- The value of the environment variable, if it is set and fits.
unfoldable pub container_name_from_env : {S : Type 0} → Option Text → GlobalArgs → Act S GlobalArgs
container_name_from_env none gvars = pure gvars
container_name_from_env (some c_name) gvars =
    if leb max_container_name_len (length c_name) then pure gvars else do
      name ← strcpy max_container_name_len c_name
      pure (record gvars { container_name = name; container_name_flag = container_env })

-- The default name, overridden by the environment.
unfoldable pub get_container_from_env : {S : Type 0} → Os S → GlobalArgs → Act S GlobalArgs
unfolding container_name_from_env
get_container_from_env os gvars = do
  default ← strcpy max_container_name_len default_dprc_name
  let gvars' = record gvars { container_name = default; container_name_flag = container_def }
  c_name ← call (λ s. (os.getenv container_env_var s, s))
  container_name_from_env c_name gvars'
