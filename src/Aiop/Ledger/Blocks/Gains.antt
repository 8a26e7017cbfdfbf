-- ===== src/Aiop/Ledger/Blocks/Gains.antt =====
-- The blocks that a run gains, as a bag: the order in which they are held does not matter.
use mathlib.Core.Quot
use mathlib.Core.Quot.{Quot}
use gpp_aioptool.Base.{
  ℕ, ◌+◌, ◌≡◌, refl, sym, subst, ap, ==_refl, ◌∙◌, arith, ◌==◌, if◌then◌else◌, List, [], ◌∷◌, ◌++◌,
  Bool-cases, inl, inr, true, false, ◌≢◌,
}
use gpp_aioptool.Aiop.Ledger.{holds, without}
use gpp_aioptool.Aiop.Ledger.Blocks.{Blocks, block_taken, block_freed}

abbrev one : ℕ → ℕ → ℕ
one held ptr = if held == ptr then 1 else 0

-- How often a block is held.
abbrev pub times : List ℕ → ℕ → ℕ
times [] ptr = 0
times (held ∷ more) ptr = one held ptr + times more ptr

-- The same blocks, each as often.
abbrev pub SameBlocks : List ℕ → List ℕ → Type 0
SameBlocks blocks others = (ptr : ℕ) → times blocks ptr ≡ times others ptr

-- The blocks without their order.
abbrev pub bag : List ℕ → Quot SameBlocks
bag blocks = Quot.mk blocks

pub bag-SameBlocks : (blocks others : List ℕ) → SameBlocks blocks others → bag blocks ≡ bag others
bag-SameBlocks blocks others same = Quot.sound same

-- Equal bags hold each block as often.
abbrev in_bag : ℕ → Quot SameBlocks → ℕ
in_bag ptr = Quot.lift (hlevel) (λ blocks. times blocks ptr) (λ blocks others same. same ptr)

SameBlocks-bag : (blocks others : List ℕ) → bag blocks ≡ bag others → SameBlocks blocks others
SameBlocks-bag blocks others same ptr = ap (in_bag ptr) same

pub times-append :
    (blocks more : List ℕ) (ptr : ℕ)
    → times (blocks ++ more) ptr ≡ times blocks ptr + times more ptr
times-append [] more ptr = omega arith
times-append (held ∷ blocks) more ptr = omega (arith, times-append blocks more ptr)

-- The block of a pointer.
abbrev pub block_of : ℕ → List ℕ
block_of ptr = if ptr == 0 then [] else ptr ∷ []

-- `c` holds what `b` holds and `xs`, and nothing more was freed that was not held.
pub record Gains (xs : List ℕ) (b c : Blocks) : Type 0 where
  pub held : (a : ℕ) → times c.live a ≡ times xs a + times b.live a
  pub strays : c.strays ≡ b.strays

pub Gains-bag : (xs : List ℕ) (b c : Blocks) → Gains xs b c → bag c.live ≡ bag (xs ++ b.live)
Gains-bag xs b c g = bag-SameBlocks _ _ (λ a. g.held a ∙ sym (times-append xs b.live a))

pub Gains-nothing : (b : Blocks) → Gains [] b b
Gains-nothing b = record { held = λ a. omega arith; strays = refl }

pub Gains-Same : (xs ys : List ℕ) (b c : Blocks) → SameBlocks xs ys → Gains xs b c → Gains ys b c
Gains-Same xs ys b c same g = record {
  held = λ a. omega (arith, g.held a, same a);
  strays = g.strays;
}

pub Gains-block_taken :
    (ptr : ℕ) (xs : List ℕ) (b c : Blocks)
    → Gains xs b c
    → Gains (block_of ptr ++ xs) b (block_taken ptr c)
Gains-block_taken ptr xs b c g = elim (Bool-cases (ptr == 0)) [
  | inl null ↦ rw null g
  | inr there ↦ rw there (record { held = λ a. omega (arith, g.held a); strays = g.strays })
]

holds-times : (x : ℕ) (xs : List ℕ) → times xs x ≢ 0 → holds ◌==◌ x xs ≡ true
holds-times x [] some_held = absurd (some_held refl)
holds-times x (y ∷ ys) some_held = ground (arith, some_held, holds-times x ys)

times-without :
    (a x : ℕ) (xs : List ℕ)
    → holds ◌==◌ x xs ≡ true
    → times xs a ≡ one x a + times (without ◌==◌ x xs) a
times-without a x [] held = ground (arith, held)
times-without a x (y ∷ ys) held = ground (arith, held, times-without a x ys)

-- One block the less.
freed_lem :
    (ptr : ℕ) (xs : List ℕ) (b c : Blocks)
    → (ptr == 0) ≡ false
    → Gains (ptr ∷ xs) b c
    → Gains xs b (block_freed ptr c)
freed_lem ptr xs b c there g =
    let held = holds-times ptr c.live (λ e. ground (arith, e, g.held ptr, ==_refl ptr)) in
    rw (there, held)
      (record {
        held = λ a. omega (arith, g.held a, times-without a ptr c.live held);
        strays = g.strays;
      })

pub Gains-block_freed :
    (ptr : ℕ) (xs : List ℕ) (b c : Blocks)
    → Gains (block_of ptr ++ xs) b c
    → Gains xs b (block_freed ptr c)
Gains-block_freed ptr xs b c g = elim (Bool-cases (ptr == 0)) [
  | inl null ↦ rw null (subst (λ e. Gains ((if e then [] else ptr ∷ []) ++ xs) b c) null g)
  | inr there ↦
      freed_lem ptr xs b c there
        (subst (λ e. Gains ((if e then [] else ptr ∷ []) ++ xs) b c) there g)
]

SameBlocks-swap : (xs ys zs : List ℕ) → SameBlocks (xs ++ (ys ++ zs)) (ys ++ (xs ++ zs))
SameBlocks-swap xs ys zs a = omega (
  arith,
  times-append xs (ys ++ zs) a,
  times-append ys zs a,
  times-append ys (xs ++ zs) a,
  times-append xs zs a,
)

SameBlocks-append : (ws xs ys : List ℕ) → SameBlocks xs ys → SameBlocks (ws ++ xs) (ws ++ ys)
SameBlocks-append ws xs ys same a =
    omega (arith, same a, times-append ws xs a, times-append ws ys a)

pub Gains-swap :
    (xs ys zs : List ℕ) (b c : Blocks) → Gains (xs ++ (ys ++ zs)) b c → Gains (ys ++ (xs ++ zs)) b c
Gains-swap xs ys zs b c g = Gains-Same _ _ b c (SameBlocks-swap xs ys zs) g

pub Gains-swap_after :
    (ws xs ys zs : List ℕ) (b c : Blocks)
    → Gains (ws ++ (xs ++ (ys ++ zs))) b c
    → Gains (ws ++ (ys ++ (xs ++ zs))) b c
Gains-swap_after ws xs ys zs b c g =
    Gains-Same _ _ b c (SameBlocks-append ws _ _ (SameBlocks-swap xs ys zs)) g
