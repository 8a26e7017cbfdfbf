-- ===== src/Base/Bits.antt =====
-- Bit operations at every width: an operation on binary digits commutes with shifts to the right
-- and with cutting off the digits above a position.
use Prim.Native.Nat.{bit_and, bit_or, digits, bitwise, bit_and-bitwise, bit_or-bitwise, min, max}
use Prim.Native.Nat.{ℕ, zero, suc, ◌+◌, ◌-◌, ◌*◌, ◌/◌, ◌%◌, ◌^◌, ◌≤◌, ◌<◌}
use mathlib.Core.Path.{◌≡◌, refl, sym, ap, ap₂, ◌∙◌}
use native.Mathlib.Omega.{arith}
use native.Mathlib.Nat.{pow-suc, pow-succ', one-le-pow, div-div-eq-div-mul, div-add-mod', mod-lt}
use native.Mathlib.Nat.{add-mul-mod_self_right, mod-eq_of_lt, le_refl, zero-add, suc-add}
use native.Mathlib.Nat.{div-one, mod-one}

-- Fuel above the first operand makes no difference.
module _ (z : ℕ → ℕ) (f : ℕ → ℕ → ℕ) where
  digits_agree : (n m a b : ℕ) → a ≤ n → a ≤ m → digits z f n a b ≡ digits z f m a b
  digits_agree zero zero a b p q = refl
  digits_agree zero (suc m) zero b p q = refl
  digits_agree (suc n) zero zero b p q = refl
  digits_agree (suc n) (suc m) zero b p q = refl
  digits_agree zero (suc m) (suc a) b p q = absurd (omega arith)
  digits_agree (suc n) zero (suc a) b p q = absurd (omega arith)
  digits_agree (suc n) (suc m) (suc a) b p q =
      omega (arith, digits_agree n m (suc a / 2) (b / 2) (omega arith) (omega arith))

  bitwise_lowest :
      (a b : ℕ)
      → bitwise z f (suc a) b ≡ bitwise z f (suc a / 2) (b / 2) * 2 + f (suc a % 2) (b % 2)
  bitwise_lowest a b =
      omega (arith, digits_agree a (suc a / 2) (suc a / 2) (b / 2) (omega arith) (le_refl _))

pub bit_or_lowest : (a b : ℕ) → bit_or a b ≡ bit_or (a / 2) (b / 2) * 2 + max (a % 2) (b % 2)
bit_or_lowest zero b = omega (arith, bit_or-bitwise 0 b, bit_or-bitwise 0 (b / 2))
bit_or_lowest (suc a) b = omega (
  arith,
  bit_or-bitwise (suc a) b,
  bit_or-bitwise (suc a / 2) (b / 2),
  bitwise_lowest (λ y. y) max a b,
)

pub bit_and_lowest : (a b : ℕ) → bit_and a b ≡ bit_and (a / 2) (b / 2) * 2 + min (a % 2) (b % 2)
bit_and_lowest zero b = omega (arith, bit_and-bitwise 0 b, bit_and-bitwise 0 (b / 2))
bit_and_lowest (suc a) b = omega (
  arith,
  bit_and-bitwise (suc a) b,
  bit_and-bitwise (suc a / 2) (b / 2),
  bitwise_lowest (λ y. 0) min a b,
)

pub pow-pos : (k : ℕ) → 0 < 2 ^ k
pow-pos k = one-le-pow k 2 (omega arith)

div-pow-suc : (x k : ℕ) → x / 2 ^ suc k ≡ x / 2 / 2 ^ k
div-pow-suc x k = rw pow-succ' (sym (div-div-eq-div-mul x 2 (2 ^ k)))

mod-pow-suc : (x k : ℕ) → x % 2 ^ suc k ≡ x / 2 % 2 ^ k * 2 + x % 2
mod-pow-suc x k =
    ap (λ t. t % 2 ^ suc k) split
    ∙ add-mul-mod_self_right (x / 2 % 2 ^ k * 2 + x % 2) (x / 2 / 2 ^ k) (2 ^ suc k)
    ∙ mod-eq_of_lt (omega (arith, pow-suc 2 k, mod-lt (x / 2) (pow-pos k)))
  where
    split : x ≡ x / 2 % 2 ^ k * 2 + x % 2 + x / 2 / 2 ^ k * 2 ^ suc k
    split =
        omega (arith, div-add-mod' (x / 2) (2 ^ k), ap (λ (t : ℕ). x / 2 / 2 ^ k * t) (pow-suc 2 k))

pub pow-add : (m n : ℕ) → 2 ^ (m + n) ≡ 2 ^ m * 2 ^ n
pow-add zero n = rw zero-add (omega arith)
pow-add (suc m) n =
    rw suc-add
      (omega (arith, pow-suc 2 (m + n), pow-add m n, ap (λ (t : ℕ). t * 2 ^ n) (pow-suc 2 m)))

-- An operation that works digit by digit.
module _ (op f : ℕ → ℕ → ℕ)
    (lowest : (a b : ℕ) → op a b ≡ op (a / 2) (b / 2) * 2 + f (a % 2) (b % 2))
    (digit : (a b : ℕ) → a < 2 → b < 2 → f a b < 2) where
  op-div-two : (a b : ℕ) → op a b / 2 ≡ op (a / 2) (b / 2)
  op-div-two a b = omega (arith, lowest a b, digit (a % 2) (b % 2) (omega arith) (omega arith))

  op-mod-two : (a b : ℕ) → op a b % 2 ≡ f (a % 2) (b % 2)
  op-mod-two a b = omega (arith, lowest a b, digit (a % 2) (b % 2) (omega arith) (omega arith))

  op-div : (k a b : ℕ) → op a b / 2 ^ k ≡ op (a / 2 ^ k) (b / 2 ^ k)
  op-div zero a b = div-one (op a b) ∙ ap₂ op (sym (div-one a)) (sym (div-one b))
  op-div (suc k) a b =
      rw (div-pow-suc, div-pow-suc, div-pow-suc, op-div-two) (op-div k (a / 2) (b / 2))

  op-mod : (k a b : ℕ) → op a b % 2 ^ k ≡ op (a % 2 ^ k) (b % 2 ^ k)
  op-mod zero a b = omega (arith, ap₂ op (mod-one a) (mod-one b), lowest 0 0, mod-one (op a b))
  op-mod (suc k) a b = ground (
    arith,
    mod-pow-suc (op a b) k,
    op-div-two a b,
    op-mod-two a b,
    op-mod k (a / 2) (b / 2),
    lowest (a % 2 ^ suc k) (b % 2 ^ suc k),
    mod-pow-suc a k,
    mod-pow-suc b k,
  )

max_digit : (a b : ℕ) → a < 2 → b < 2 → max a b < 2
max_digit a b p q = omega arith

min_digit : (a b : ℕ) → a < 2 → b < 2 → min a b < 2
min_digit a b p q = omega arith

pub bit_or-div : (k a b : ℕ) → bit_or a b / 2 ^ k ≡ bit_or (a / 2 ^ k) (b / 2 ^ k)
bit_or-div = op-div bit_or max bit_or_lowest max_digit

pub bit_or-mod : (k a b : ℕ) → bit_or a b % 2 ^ k ≡ bit_or (a % 2 ^ k) (b % 2 ^ k)
bit_or-mod = op-mod bit_or max bit_or_lowest max_digit

pub bit_and-div : (k a b : ℕ) → bit_and a b / 2 ^ k ≡ bit_and (a / 2 ^ k) (b / 2 ^ k)
bit_and-div = op-div bit_and min bit_and_lowest min_digit

pub bit_and-mod : (k a b : ℕ) → bit_and a b % 2 ^ k ≡ bit_and (a % 2 ^ k) (b % 2 ^ k)
bit_and-mod = op-mod bit_and min bit_and_lowest min_digit

pub zero-bit_or : (b : ℕ) → bit_or 0 b ≡ b
zero-bit_or b = bit_or-bitwise 0 b

pub zero-bit_and : (b : ℕ) → bit_and 0 b ≡ 0
zero-bit_and b = bit_and-bitwise 0 b

zeros_above : (n a : ℕ) → a ≤ n → (bit_or a 0 ≡ a) × (bit_and a 0 ≡ 0)
zeros_above n zero h = (refl, refl)
zeros_above zero (suc a) h = absurd (omega arith)
zeros_above (suc n) (suc a) h = omega (
  arith,
  bit_or_lowest (suc a) 0,
  bit_and_lowest (suc a) 0,
  zeros_above n (suc a / 2) (omega arith),
)

pub bit_or-zero : (a : ℕ) → bit_or a 0 ≡ a
bit_or-zero a = (zeros_above a a (le_refl a)).0

pub bit_and-zero : (a : ℕ) → bit_and a 0 ≡ 0
bit_and-zero a = (zeros_above a a (le_refl a)).1

-- A mask of `k` ones keeps the remainder by `2 ^ k`.
pub bit_and_ones : (k a : ℕ) → bit_and a (2 ^ k - 1) ≡ a % 2 ^ k
bit_and_ones zero a = rw (bit_and-zero, mod-one)
bit_and_ones (suc k) a = ground (
  arith,
  bit_and_lowest a (2 ^ suc k - 1),
  pow-suc 2 k,
  pow-pos k,
  bit_and_ones k (a / 2),
  mod-pow-suc a k,
)

pub bit_or-lt : (k a b : ℕ) → a < 2 ^ k → b < 2 ^ k → bit_or a b < 2 ^ k
bit_or-lt k a b p q =
    ground
      (arith, bit_or-mod k a b, mod-eq_of_lt p, mod-eq_of_lt q, mod-lt (bit_or a b) (pow-pos k))
