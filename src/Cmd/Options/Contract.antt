-- ===== src/Cmd/Options/Contract.antt =====
-- What the options of a sub-command leave in the global structure.
use gpp_aioptool.Base.{
  ℕ, ◌≡◌, true, ◌||◌, Option, some, is_zero, arith, Text, Returns, Returns-mono, Returns-bind,
  and_then, ◌==◌, Bool-cases, ==_iff, subst, sym, inl, inr, ℤ, Act, pure,
}
use gpp_aioptool.Os.{Os}
use gpp_aioptool.Aiop.Types.{aiopt_success}
use gpp_aioptool.Cmd.Types.{GlobalArgs, Libc, OptEvent}
use gpp_aioptool.Cmd.Args.{
  has_char, check_if_valid_arg, container_name_from_args, image_file_from_args, args_file_from_args,
  thread_per_core_from_args, reset_flag_from_args, debug_flag_from_args, verbose_flag_from_args,
  timeofday_from_args,
}
use gpp_aioptool.Cmd.Options.{container_option, guarded, handle_option}
use gpp_aioptool.Cmd.Options.Valid.{
  IsValid, IsUsable, Takes, has_char-Takes, container_after, container_of, flags_of, flags_after,
  values_of, values_after, given_tpc, KeepsContainer, image_step, args_step, tpc_step, time_step,
}

-- What one option does, if it is accepted: the sub-command takes it, `-g` alone changes the
-- container, and `-f` alone marks the image as given; the flags and the values are those after it.
pub record Accepted (libc : Libc) (valid_args : Text) (e : OptEvent) (g g' : GlobalArgs)
    : Type 0 where
  pub allowed : Takes valid_args e.opt
  pub container : container_of g' ≡ container_after e (container_of g)
  pub image : g'.image_file_flag ≡ (e.opt == b'f' || g.image_file_flag)
  pub flags : flags_of g' ≡ flags_after e (flags_of g)
  pub values : values_of g' ≡ values_after libc e (values_of g)

module _ {S : Type 0} (os : Os S) (libc : Libc) (valid_args : Text) where
  -- The contract of an option.
  abbrev pub Post : OptEvent → GlobalArgs → ℤ × GlobalArgs → S → Type 0
  Post e g (r, g') s' = IsValid g' × (is_zero r ≡ true → Accepted libc valid_args e g g')

  -- What the helper of an option owes, once the option is allowed.
  abbrev Owes : OptEvent → GlobalArgs → ℤ × GlobalArgs → S → Type 0
  Owes e g (r, g') s' =
      IsValid g'
      × (is_zero r ≡ true
          → (container_of g' ≡ container_after e (container_of g))
            × (g'.image_file_flag ≡ (e.opt == b'f' || g.image_file_flag))
            × (flags_of g' ≡ flags_after e (flags_of g))
            × (values_of g' ≡ values_after libc e (values_of g)))

  guarded_lem :
      (c : ℕ) (e : OptEvent) (g : GlobalArgs) (s : S) (body : Act S (ℤ × GlobalArgs))
      → (e.opt == c) ≡ true
      → IsValid g
      → Returns (Owes e g) (body s)
      → Returns (Post e g) (guarded os libc valid_args c g body s)
  unfolding guarded check_if_valid_arg
  guarded_lem c e g s body here v owed = elim (Bool-cases (has_char valid_args c)) [
    | inl allowed ↦ rw allowed (
        Returns-mono _ (Post e g) _
          (λ r s' p. (
            p.0,
            λ z. record {
              allowed =
                  subst (Takes valid_args) (sym ((==_iff e.opt c).0 here))
                    (has_char-Takes valid_args c allowed);
              container = (p.1 z).0;
              image = (p.1 z).1;
              flags = (p.1 z).2;
              values = (p.1 z).3;
            },
          ))
          owed)
    | inr refused ↦ rw refused (v, λ z. ground arith)
  ]

  container-Owes :
      (e : OptEvent) (g : GlobalArgs) (s : S)
      → (e.opt == b'g') ≡ true
      → IsUsable e
      → IsValid g
      → Returns (Owes e g) (container_option e.optarg g s)
  unfolding container_option container_name_from_args
  container-Owes e g s here u v =
      let (arg, given) = u.has_container ((==_iff e.opt b'g').0 here) in rw given (ground arith)

  image-Owes :
      (e : OptEvent) (g : GlobalArgs) (s : S)
      → (e.opt == b'f') ≡ true
      → IsUsable e
      → IsValid g
      → Returns (Owes e g) (image_file_from_args os e.optarg g s)
  image-Owes e g s here u v =
      Returns-mono _ (Owes e g) _ (λ r s' p. ground arith) (image_step os e.optarg g s v u.short)

  args-Owes :
      (e : OptEvent) (g : GlobalArgs) (s : S)
      → (e.opt == b'a') ≡ true
      → IsUsable e
      → IsValid g
      → Returns (Owes e g) (args_file_from_args os e.optarg g s)
  args-Owes e g s here u v =
      Returns-mono _ (Owes e g) _ (λ r s' p. ground arith) (args_step os e.optarg g s v u.short)

  time-Owes :
      (e : OptEvent) (g : GlobalArgs)
      → (e.opt == b't') ≡ true
      → IsValid g
      → (s : S) → Owes e g (aiopt_success, (timeofday_from_args libc e.optarg g).1) s
  time-Owes e g here v s = ground (arith, time_step libc e.optarg g v)

  tpc-Owes :
      (e : OptEvent) (g : GlobalArgs) (s : S)
      → (e.opt == b'c') ≡ true
      → IsUsable e
      → IsValid g
      → Returns
          (Owes e g)
          (and_then (thread_per_core_from_args libc e.optarg g s) (λ g'. pure (aiopt_success, g')))
  tpc-Owes e g s here u v =
      Returns-bind _ (Owes e g) _ (λ g'. pure (aiopt_success, g'))
        (given_tpc_step e.optarg (u.has_tpc ((==_iff e.opt b'c').0 here))) (λ g' s' p. ground arith)
    where
      given_tpc_step :
          (arg : Option Text)
          → (t : Text) × (arg ≡ some t)
          → Returns
              (λ g' s'.
                KeepsContainer g g'
                × (g'.image_file_flag ≡ g.image_file_flag)
                × (values_of g' ≡ (
                  g.image_file,
                  g.args_file,
                  given_tpc libc arg (g.tpc_flag, g.tpc),
                  (g.tod_flag, g.tod_val),
                )))
              (thread_per_core_from_args libc arg g s)
      given_tpc_step arg (t, given) = rw given (tpc_step libc t g s v)

  reset-Owes :
      (e : OptEvent) (g : GlobalArgs) (s : S)
      → (e.opt == b'r') ≡ true
      → IsValid g
      → Owes e g (aiopt_success, reset_flag_from_args g) s
  unfolding reset_flag_from_args
  reset-Owes e g s here v = ground (arith, (==_iff e.opt b'r').0 here)

  debug-Owes :
      (e : OptEvent) (g : GlobalArgs) (s : S)
      → (e.opt == b'd') ≡ true
      → IsValid g
      → Owes e g (aiopt_success, debug_flag_from_args g) s
  unfolding debug_flag_from_args
  debug-Owes e g s here v = ground (arith, (==_iff e.opt b'd').0 here)

  verbose-Owes :
      (e : OptEvent) (g : GlobalArgs) (s : S)
      → (e.opt == b'v') ≡ true
      → IsValid g
      → Owes e g (aiopt_success, verbose_flag_from_args g) s
  unfolding verbose_flag_from_args
  verbose-Owes e g s here v = ground (arith, (==_iff e.opt b'v').0 here)

  -- An option is accepted or refused without harm.
  pub handle_option_lem :
      (e : OptEvent) (g : GlobalArgs) (s : S)
      → IsUsable e
      → IsValid g
      → Returns (Post e g) (handle_option os libc valid_args e g s)
  unfolding handle_option
  handle_option_lem e g s u v = elim (Bool-cases (e.opt == b'g')) [
    | inl t ↦ rw t (guarded_lem _ e g s _ t v (container-Owes e g s t u v))
    | inr no_g ↦ rw no_g (elim (Bool-cases (e.opt == b'f')) [
      | inl t ↦ rw t (guarded_lem _ e g s _ t v (image-Owes e g s t u v))
      | inr no_f ↦ rw no_f (elim (Bool-cases (e.opt == b'a')) [
        | inl t ↦ rw t (guarded_lem _ e g s _ t v (args-Owes e g s t u v))
        | inr no_a ↦ rw no_a (elim (Bool-cases (e.opt == b'r')) [
          | inl t ↦ rw t (guarded_lem _ e g s _ t v (reset-Owes e g s t v))
          | inr no_r ↦ rw no_r (elim (Bool-cases (e.opt == b't')) [
            | inl t ↦ rw t (guarded_lem _ e g s _ t v (time-Owes e g t v s))
            | inr no_t ↦ rw no_t (elim (Bool-cases (e.opt == b'd')) [
              | inl t ↦ rw t (guarded_lem _ e g s _ t v (debug-Owes e g s t v))
              | inr no_d ↦ rw no_d (elim (Bool-cases (e.opt == b'v')) [
                | inl t ↦ rw t (guarded_lem _ e g s _ t v (verbose-Owes e g s t v))
                | inr no_v ↦ rw no_v (elim (Bool-cases (e.opt == b'c')) [
                  | inl t ↦ rw t (guarded_lem _ e g s _ t v (tpc-Owes e g s t u v))
                  | inr no_c ↦ rw no_c (v, λ z. ground arith)
                ])
              ])
            ])
          ])
        ])
      ])
    ])
  ]
