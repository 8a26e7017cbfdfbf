-- ===== src/Base/Runs.antt =====
-- Code that acts on a state `S`: a run returns a value and the new state, commits an error of
-- memory that C leaves undefined, or is still in a busy-wait loop when its budget of rounds ends.
use mathlib.Core.Path.{◌≡◌, refl}
use mathlib.Core.Bool.{Bool, true, false}
use gpp_aioptool.Base.Tests.{if◌then◌else◌}

pub data Run (S A : Type 0) : Type 0 where
  done : A → S → Run S A
  fault : Run S A
  spinning : Run S A

abbrev pub Act : Type 0 → Type 0 → Type 0
Act S A = S → Run S A

abbrev pub pure : {S A : Type 0} → A → Act S A
pure = done

abbrev pub and_then : {S A B : Type 0} → Run S A → (A → Act S B) → Run S B
and_then (done a s) k = k a s
and_then fault k = fault
and_then spinning k = spinning

infixl 5 ◌>>=◌ ◌>>◌
abbrev pub ◌>>=◌ : {S A B : Type 0} → Act S A → (A → Act S B) → Act S B
m >>= k = λ s. and_then (m s) k

abbrev pub ◌>>◌ : {S A B : Type 0} → Act S A → Act S B → Act S B
m >> n = m >>= λ _. n

-- Total correctness: the run returns, and what it returns satisfies `P`.
abbrev pub Returns : {S A : Type 0} → (A → S → Type 0) → Run S A → Type 0
Returns P (done a s) = P a s
Returns P fault = ⊥
Returns P spinning = ⊥

pub Returns-bind :
    {S A B : Type 0} (P : A → S → Type 0) (Q : B → S → Type 0) (r : Run S A) (k : A → Act S B)
    → Returns P r
    → ((a : A) (s : S) → P a s → Returns Q (k a s))
    → Returns Q (and_then r k)
Returns-bind P Q (done a s) k p next = next a s p
Returns-bind P Q fault k p next = absurd p
Returns-bind P Q spinning k p next = absurd p

pub Returns-mono :
    {S A : Type 0} (P Q : A → S → Type 0) (r : Run S A)
    → ((a : A) (s : S) → P a s → Q a s)
    → Returns P r
    → Returns Q r
Returns-mono P Q (done a s) f p = f a s p
Returns-mono P Q fault f p = p
Returns-mono P Q spinning f p = p

pub Returns-if :
    {S A : Type 0} (P : A → S → Type 0) (c : Bool) (m n : Act S A) (s : S)
    → (c ≡ true → Returns P (m s))
    → (c ≡ false → Returns P (n s))
    → Returns P ((if c then m else n) s)
Returns-if P true m n s yes_case no_case = yes_case refl
Returns-if P false m n s yes_case no_case = no_case refl

-- Partial correctness: if the run returns, what it returns satisfies `P`.
abbrev pub IfDone : {S A : Type 0} → (A → S → Type 0) → Run S A → Type 0
IfDone P (done a s) = P a s
IfDone P fault = Unit {0}
IfDone P spinning = Unit {0}

pub IfDone-bind :
    {S A B : Type 0} (P : A → S → Type 0) (Q : B → S → Type 0) (r : Run S A) (k : A → Act S B)
    → IfDone P r
    → ((a : A) (s : S) → P a s → IfDone Q (k a s))
    → IfDone Q (and_then r k)
IfDone-bind P Q (done a s) k p next = next a s p
IfDone-bind P Q fault k p next = tt
IfDone-bind P Q spinning k p next = tt

pub IfDone-if :
    {S A : Type 0} (P : A → S → Type 0) (c : Bool) (m n : Act S A) (s : S)
    → (c ≡ true → IfDone P (m s))
    → (c ≡ false → IfDone P (n s))
    → IfDone P ((if c then m else n) s)
IfDone-if P true m n s yes_case no_case = yes_case refl
IfDone-if P false m n s yes_case no_case = no_case refl

pub IfDone-mono :
    {S A : Type 0} (P Q : A → S → Type 0) (r : Run S A)
    → ((a : A) (s : S) → P a s → Q a s)
    → IfDone P r
    → IfDone Q r
IfDone-mono P Q (done a s) f p = f a s p
IfDone-mono P Q fault f p = tt
IfDone-mono P Q spinning f p = tt

-- A run that is known to return.
pub IfDone-Returns :
    {S A : Type 0} (P Q : A → S → Type 0) (r : Run S A) → Returns P r → IfDone Q r → Returns Q r
IfDone-Returns P Q (done a s) p q = q
IfDone-Returns P Q fault p q = p
IfDone-Returns P Q spinning p q = p

pub IfDone-both :
    {S A : Type 0} (P Q : A → S → Type 0) (r : Run S A)
    → IfDone P r
    → IfDone Q r
    → IfDone (λ a s. P a s × Q a s) r
IfDone-both P Q (done a s) p q = (p, q)
IfDone-both P Q fault p q = tt
IfDone-both P Q spinning p q = tt

pub Returns-IfDone :
    {S A : Type 0} (P Q : A → S → Type 0) (r : Run S A)
    → Returns P r
    → IfDone Q r
    → Returns (λ a s. P a s × Q a s) r
Returns-IfDone P Q (done a s) p q = (p, q)
Returns-IfDone P Q fault p q = p
Returns-IfDone P Q spinning p q = p
