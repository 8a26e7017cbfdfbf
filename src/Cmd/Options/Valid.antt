-- ===== src/Cmd/Options/Valid.antt =====
-- What the global structure satisfies, and what the helpers of the options do to it.
use gpp_aioptool.Base.{
  ℕ, ◌≤◌, ◌<◌, ◌≡◌, Bool, true, ◌&&◌, ◌||◌, Option, none, some, is_zero, arith, Text, Returns, leb,
  ◌==◌, ◌-◌, ◌^◌, not, refl, ◌⊎◌, inl, inr, [], ◌∷◌, Bool-cases, ==_iff, ℤ, pos, negsuc, length,
  if◌then◌else◌,
}
use gpp_aioptool.Os.{Os}
use gpp_aioptool.Cmd.Types.{GlobalArgs, Libc, OptEvent, Strtoul}
use gpp_aioptool.Cmd.Args.{
  has_char, limit_tpc, bad_time, image_file_from_args, args_file_from_args,
  thread_per_core_from_args, timeofday_from_args,
}

-- Every text lies in its buffer with its NUL, and every number in its range.
pub record IsValid (g : GlobalArgs) : Type 0 where
  pub container_fits : length g.container_name < 10
  pub container_from : g.container_name_flag ≤ 3
  pub image_fits : length g.image_file < 256
  pub args_fits : length g.args_file < 256
  pub tpc_range : g.tpc ≤ 16

-- A sub-command that takes the options in a text takes this one.
abbrev pub Takes : (valid_args : Text) → (opt : ℕ) → Type 0
Takes [] opt = ⊥
Takes (x ∷ xs) opt = (x ≡ opt) ⊎ Takes xs opt

pub has_char-Takes :
    (valid_args : Text) (opt : ℕ) → has_char valid_args opt ≡ true → Takes valid_args opt
unfolding has_char
has_char-Takes [] opt found = ground (arith, found)
has_char-Takes (x ∷ xs) opt found = elim (Bool-cases (x == opt)) [
  | inl here ↦ inl ((==_iff x opt).0 here)
  | inr miss ↦ inr (has_char-Takes xs opt (rw miss at found))
]

-- What `getopt_long` promises of an option with a required argument, and that an argument is
-- shorter than the buffers for paths.
pub record IsUsable (e : OptEvent) : Type 0 where
  pub has_container : e.opt ≡ b'g' → (arg : Text) × (e.optarg ≡ some arg)
  pub has_tpc : e.opt ≡ b'c' → (arg : Text) × (e.optarg ≡ some arg)
  pub short : (arg : Text) → e.optarg ≡ some arg → length arg < 256

-- The container after an option, as its origin and its name: `-g` with a name of 1 to 9 bytes.
abbrev pub container_after : OptEvent → ℕ × Text → ℕ × Text
container_after e c =
    if e.opt == b'g'
    then (elim e.optarg [
      | none ↦ c
      | some arg ↦ if leb 1 (length arg) && leb (length arg) 9 then (3, arg) else c
    ])
    else c

abbrev pub container_of : GlobalArgs → ℕ × Text
container_of g = (g.container_name_flag, g.container_name)

-- The flags for a reset, for debug messages and for verbose ones, and what an option makes of them.
abbrev pub flags_of : GlobalArgs → Bool × Bool × Bool
flags_of g = (g.reset_flag, g.debug_flag, g.verbose_flag)

abbrev pub flags_after : OptEvent → Bool × Bool × Bool → Bool × Bool × Bool
flags_after e (r, d, v) =
    (e.opt == b'r' || r, e.opt == b'd' || d, e.opt == b'd' || e.opt == b'v' || v)

-- The two files, the threads per core and the time, these two with the marks that they were given.
abbrev pub Values : Type 0
Values = Text × Text × (Bool × ℕ) × (Bool × ℕ)

abbrev pub values_of : GlobalArgs → Values
values_of g = (g.image_file, g.args_file, (g.tpc_flag, g.tpc), (g.tod_flag, g.tod_val))

abbrev pub given_file : Option Text → Text → Text
given_file none old = old
given_file (some file) old = file

-- The threads per core for a number: 1 to 16 of them, or the default, which is 0.
abbrev pub tpc_in_range : ℤ → ℕ
tpc_in_range (pos n) = if leb 1 n && leb n 16 then n else 0
tpc_in_range (negsuc n) = 0

limit_tpc_lem : (z : ℤ) → limit_tpc z ≡ tpc_in_range z
limit_tpc_lem (pos n) = ground arith
limit_tpc_lem (negsuc n) = refl

-- A time is well formed: the text is read to its end, and `strtoul` reports no error, or one with a
-- value other than 0 that is not `ERANGE` (34) with the largest or the smallest `long`.
abbrev pub is_time : Strtoul → Bool
is_time r =
    r.at_end
    && (r.err == 0
        || (not (r.value == 0)
            && (not (r.err == 34) || (not (r.value == 2 ^ 63 - 1) && not (r.value == 2 ^ 63)))))

bad_time_lem : (r : Strtoul) → bad_time r ≡ not (is_time r)
unfolding bad_time
bad_time_lem r = ground arith

abbrev pub given_tpc : Libc → Option Text → Bool × ℕ → Bool × ℕ
given_tpc libc none old = old
given_tpc libc (some tpc_value) old = (true, tpc_in_range (libc.atoi tpc_value))

-- A time that is not well formed is passed over.
abbrev pub given_tod : Libc → Option Text → Bool × ℕ → Bool × ℕ
given_tod libc none old = old
given_tod libc (some timestr) old =
    if is_time (libc.strtoul timestr) then (true, (libc.strtoul timestr).value) else old

abbrev pub values_after : Libc → OptEvent → Values → Values
values_after libc e (image, args, tpc, tod) = (
  if e.opt == b'f' then given_file e.optarg image else image,
  if e.opt == b'a' then given_file e.optarg args else args,
  if e.opt == b'c' then given_tpc libc e.optarg tpc else tpc,
  if e.opt == b't' then given_tod libc e.optarg tod else tod,
)

-- A helper that leaves the container and the flags alone.
abbrev pub KeepsContainer : GlobalArgs → GlobalArgs → Type 0
KeepsContainer g g' = IsValid g' × (container_of g' ≡ container_of g) × (flags_of g' ≡ flags_of g)

pub image_step :
    {S : Type 0} (os : Os S) (arg : Option Text) (g : GlobalArgs) (s : S)
    → IsValid g
    → ((t : Text) → arg ≡ some t → length t < 256)
    → Returns
        (λ (r, g') s'.
          KeepsContainer g g'
          × (is_zero r ≡ true
              → (g'.image_file_flag ≡ true)
                × (values_of g' ≡ (
                  given_file arg g.image_file,
                  g.args_file,
                  (g.tpc_flag, g.tpc),
                  (g.tod_flag, g.tod_val),
                ))))
        (image_file_from_args os arg g s)
unfolding image_file_from_args
image_step os none g s v h = ground arith
image_step os (some t) g s v h = ground (arith, h t)

pub args_step :
    {S : Type 0} (os : Os S) (arg : Option Text) (g : GlobalArgs) (s : S)
    → IsValid g
    → ((t : Text) → arg ≡ some t → length t < 256)
    → Returns
        (λ (r, g') s'.
          KeepsContainer g g'
          × (g'.image_file_flag ≡ g.image_file_flag)
          × (is_zero r ≡ true
              → values_of g' ≡ (
                g.image_file,
                given_file arg g.args_file,
                (g.tpc_flag, g.tpc),
                (g.tod_flag, g.tod_val),
              )))
        (args_file_from_args os arg g s)
unfolding args_file_from_args
args_step os none g s v h = ground arith
args_step os (some t) g s v h = ground (arith, h t)

pub tpc_step :
    {S : Type 0} (libc : Libc) (t : Text) (g : GlobalArgs) (s : S)
    → IsValid g
    → Returns
        (λ g' s'.
          KeepsContainer g g'
          × (g'.image_file_flag ≡ g.image_file_flag)
          × (values_of g' ≡ (
            g.image_file,
            g.args_file,
            given_tpc libc (some t) (g.tpc_flag, g.tpc),
            (g.tod_flag, g.tod_val),
          )))
        (thread_per_core_from_args libc (some t) g s)
unfolding thread_per_core_from_args
tpc_step libc t g s v = rw (limit_tpc_lem (libc.atoi t)) (ground arith)

pub time_step :
    (libc : Libc) (arg : Option Text) (g : GlobalArgs)
    → IsValid g
    → let g' = (timeofday_from_args libc arg g).1 in
      KeepsContainer g g'
      × (g'.image_file_flag ≡ g.image_file_flag)
      × (values_of g' ≡ (
        g.image_file,
        g.args_file,
        (g.tpc_flag, g.tpc),
        given_tod libc arg (g.tod_flag, g.tod_val),
      ))
unfolding timeofday_from_args
time_step libc none g v = ground arith
time_step libc (some t) g v = rw (bad_time_lem (libc.strtoul t)) (ground arith)
