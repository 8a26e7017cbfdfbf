-- ===== src/Cmd/Options/Loop.antt =====
-- The loop over the options of a sub-command, option by option.
use gpp_aioptool.Base.{
  ℕ, ◌≡◌, refl, ap, ◌∙◌, inl, inr, Bool, true, false, not, ◌||◌, List, [], ◌∷◌, ℤ, is_zero, arith,
  Text, pure, Returns, Returns-mono, Returns-bind, ◌==◌, if◌then◌else◌, Bool-cases,
}
use gpp_aioptool.Os.{Os}
use gpp_aioptool.Cmd.Types.{GlobalArgs, Libc, OptEvent}
use gpp_aioptool.Cmd.Options.{options_loop}
use gpp_aioptool.Cmd.Options.Valid.{
  IsValid, IsUsable, Takes, container_of, container_after, flags_of, flags_after, Values, values_of,
  values_after,
}
use gpp_aioptool.Cmd.Options.Contract.{Accepted, Post, handle_option_lem}

-- The container that the options of a command line leave, from left to right.
abbrev pub container_from : List OptEvent → ℕ × Text → ℕ × Text
container_from [] c = c
container_from (e ∷ es) c = container_from es (container_after e c)

-- The flags that they leave.
abbrev pub flags_from : List OptEvent → Bool × Bool × Bool → Bool × Bool × Bool
flags_from [] f = f
flags_from (e ∷ es) f = flags_from es (flags_after e f)

-- The files, the threads per core and the time that they leave.
abbrev pub values_from : Libc → List OptEvent → Values → Values
values_from libc [] v = v
values_from libc (e ∷ es) v = values_from libc es (values_after libc e v)

-- Whether an option is among them, and whether `-f` is.
abbrev pub gives : ℕ → List OptEvent → Bool
gives c [] = false
gives c (e ∷ es) = e.opt == c || gives c es

abbrev pub gives_image : List OptEvent → Bool
gives_image = gives b'f'

abbrev pub AllAllowed : (valid_args : Text) → List OptEvent → Type 0
AllAllowed valid_args [] = Unit {0}
AllAllowed valid_args (e ∷ es) = Takes valid_args e.opt × AllAllowed valid_args es

abbrev pub AllUsable : List OptEvent → Type 0
AllUsable [] = Unit {0}
AllUsable (e ∷ es) = IsUsable e × AllUsable es

-- What accepted options leave behind.
pub record AllAccepted (libc : Libc) (valid_args : Text) (es : List OptEvent) (g g' : GlobalArgs)
    : Type 0 where
  pub allowed : AllAllowed valid_args es
  pub container : container_of g' ≡ container_from es (container_of g)
  pub image : g'.image_file_flag ≡ (g.image_file_flag || gives_image es)
  pub flags : flags_of g' ≡ flags_from es (flags_of g)
  pub values : values_of g' ≡ values_from libc es (values_of g)

module _ {S : Type 0} (os : Os S) (libc : Libc) (valid_args : Text) where
  Accepted-cons :
      (e : OptEvent) (es : List OptEvent) (g g' g'' : GlobalArgs)
      → Accepted libc valid_args e g g'
      → AllAccepted libc valid_args es g' g''
      → AllAccepted libc valid_args (e ∷ es) g g''
  Accepted-cons e es g g' g'' a b = record {
    allowed = (a.allowed, b.allowed);
    container = b.container ∙ ap (container_from es) a.container;
    image = ground (arith, a.image, b.image);
    flags = b.flags ∙ ap (flags_from es) a.flags;
    values = b.values ∙ ap (values_from libc es) a.values;
  }

  abbrev pub LoopPost : List OptEvent → GlobalArgs → ℤ × GlobalArgs → S → Type 0
  LoopPost es g (r, g') s' = IsValid g' × (is_zero r ≡ true → AllAccepted libc valid_args es g g')

  -- The loop after its first option.
  loop_rest :
      (e : OptEvent) (es : List OptEvent) (g g' : GlobalArgs) (r : ℤ) (s : S)
      → Post os libc valid_args e g (r, g') s
      → (IsValid g' → Returns (LoopPost es g') (options_loop os libc valid_args es g' s))
      → Returns
          (LoopPost (e ∷ es) g)
          ((if not (is_zero r) then pure (r, g') else options_loop os libc valid_args es g') s)
  loop_rest e es g g' r s p next = elim (Bool-cases (is_zero r)) [
    | inl ok ↦ rw ok (
        Returns-mono _ (LoopPost (e ∷ es) g) _
          (λ (r', g'') s' q. (q.0, λ z. Accepted-cons e es g g' g'' (p.1 ok) (q.1 z))) (next p.0))
    | inr failed ↦ rw failed (p.0, λ z. ground (arith, z, failed))
  ]

  -- The options are read to the end or to the first that is refused, without an error of memory.
  pub options_loop_lem :
      (es : List OptEvent) (g : GlobalArgs) (s : S)
      → AllUsable es
      → IsValid g
      → Returns (LoopPost es g) (options_loop os libc valid_args es g s)
  unfolding options_loop
  options_loop_lem [] g s u v = (
    v,
    λ z. record {
      allowed = tt;
      container = refl;
      image = ground arith;
      flags = refl;
      values = refl;
    },
  )
  options_loop_lem (e ∷ es) g s (u, us) v =
      Returns-bind (Post os libc valid_args e g) (LoopPost (e ∷ es) g) _ _
        (handle_option_lem os libc valid_args e g s u v)
        (λ (r, g') s' p. loop_rest e es g g' r s' p (λ v'. options_loop_lem es g' s' us v'))

-- The flags, option by option: `-r` sets the first, `-d` the second, `-d` and `-v` the third.
pub flags_from-gives :
    (es : List OptEvent) (r d v : Bool)
    → flags_from es (r, d, v)
      ≡ (r || gives b'r' es, d || gives b'd' es, v || (gives b'd' es || gives b'v' es))
flags_from-gives [] r d v = ground arith
flags_from-gives (e ∷ es) r d v =
    flags_from-gives es (e.opt == b'r' || r) (e.opt == b'd' || d)
      (e.opt == b'd' || e.opt == b'v' || v)
    ∙ ground arith
