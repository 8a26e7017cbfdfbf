-- ===== src/Base/Strings.antt =====
-- Byte strings: the text between a `char *` and its terminating NUL.
use Prim.Native.Nat.{ℕ}
use Prim.Native.Char.{code}
use Prim.Native.String.{String}
use mathlib.Core.Bool.{Bool, true, false, ◌&&◌}
use mathlib.Core.List.{List, [], ◌∷◌}
use mathlib.Core.Path.{◌≡◌, refl, subst}
use mathlib.Core.Logic.{◌↔◌}
use native.Mathlib.Omega.{arith}
use gpp_aioptool.Base.Tests.{◌==◌}

abbrev pub Text : Type 0
Text = List ℕ

-- A literal.
abbrev pub codes : String → Text
codes String.[] = []
codes (String.◌∷◌ c s) = code c ∷ codes s

-- `!strcmp(s, t)`.
abbrev pub str_eq : Text → Text → Bool
str_eq [] [] = true
str_eq [] (y ∷ ys) = false
str_eq (x ∷ xs) [] = false
str_eq (x ∷ xs) (y ∷ ys) = x == y && str_eq xs ys

-- `!strncmp(prefix, s, n)` for the length `n` of `prefix`.
abbrev pub starts_with : (prefix s : Text) → Bool
starts_with [] s = true
starts_with (p ∷ ps) [] = false
starts_with (p ∷ ps) (x ∷ xs) = p == x && starts_with ps xs

pub str_eq_refl : (s : Text) → str_eq s s ≡ true
str_eq_refl [] = refl
str_eq_refl (x ∷ xs) = ground (arith, str_eq_refl xs)

pub str_eq_iff : (s t : Text) → (str_eq s t ≡ true) ↔ (s ≡ t)
str_eq_iff s t = (sound s t, λ e. subst (λ u. str_eq s u ≡ true) e (str_eq_refl s))
  where
    sound : (s t : Text) → str_eq s t ≡ true → s ≡ t
    sound [] [] e = refl
    sound [] (y ∷ ys) e = ground (arith, e)
    sound (x ∷ xs) [] e = ground (arith, e)
    sound (x ∷ xs) (y ∷ ys) e = cc (first, sound xs ys rest)
      where
        first : x ≡ y
        first = ground (arith, e)

        rest : str_eq xs ys ≡ true
        rest = ground (arith, e)
