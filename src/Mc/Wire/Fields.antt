-- ===== src/Mc/Wire/Fields.antt =====
-- The laws of bit fields: what is encoded is decoded again, fields that do not overlap do not
-- disturb one another, and decoding reads an `or` field by field.
use Prim.Native.Nat.{bit_or}
use native.Mathlib.Nat.{
  mod-eq_of_lt, mod-lt, mod-mod, div-eq_of_lt, mul-div_left, mul-mod_left, zero-mod,
}
use native.Mathlib.Nat.{pow-le-pow_right}
use gpp_aioptool.Base.{
  ℕ, ◌+◌, ◌-◌, ◌*◌, ◌/◌, ◌%◌, ◌^◌, ◌≤◌, ◌<◌, ◌≡◌, refl, sym, ◌∙◌, ◌⊎◌, inl, inr, arith, ltb,
  Bool-cases, subst,
}
use gpp_aioptool.Base.Bits.{
  bit_and_ones, bit_or-div, bit_or-mod, bit_or-zero, zero-bit_or, pow-add, pow-pos,
}
use gpp_aioptool.Mc.Wire.{make_umask64, mc_enc, mc_dec}

two-pos : 0 < 2
two-pos = omega arith

make_umask64_ones : (w : ℕ) → w ≤ 64 → make_umask64 w ≡ 2 ^ w - 1
unfolding make_umask64
make_umask64_ones w h = elim (Bool-cases (ltb w 64)) [
  | inl short ↦ rw short
  | inr long ↦ let whole : w ≡ 64 = ground arith in rw long (rw whole refl)
]

pub mc_enc_lem : (o w v : ℕ) → w ≤ 64 → mc_enc o w v ≡ v % 2 ^ w * 2 ^ o % 2 ^ 64
unfolding mc_enc
mc_enc_lem o w v h = rw (make_umask64_ones w h, bit_and_ones)

pub mc_dec_lem : (v o w : ℕ) → w ≤ 64 → mc_dec v o w ≡ v / 2 ^ o % 2 ^ w
unfolding mc_dec
mc_dec_lem v o w h = rw (make_umask64_ones w h, bit_and_ones)

pub mc_dec-bit_or :
    (a b o w : ℕ) → w ≤ 64 → mc_dec (bit_or a b) o w ≡ bit_or (mc_dec a o w) (mc_dec b o w)
mc_dec-bit_or a b o w h =
    rw (mc_dec_lem (bit_or a b) o w h, mc_dec_lem a o w h, mc_dec_lem b o w h, bit_or-div)
      (bit_or-mod w (a / 2 ^ o) (b / 2 ^ o))

-- A field that fits the word loses nothing to the shift.
field_fits : (o w v : ℕ) → o + w ≤ 64 → v % 2 ^ w * 2 ^ o < 2 ^ (o + w)
field_fits o w v h = rw pow-add (grind (arith, mod-lt v (pow-pos w), pow-pos o))

mc_enc_fits : (o w v : ℕ) → o + w ≤ 64 → mc_enc o w v ≡ v % 2 ^ w * 2 ^ o
mc_enc_fits o w v h =
    mc_enc_lem o w v (omega arith)
    ∙ mod-eq_of_lt (omega (arith, field_fits o w v h, pow-le-pow_right two-pos h))

-- Decoding a field that lies within the 64 bits gives back the low `w` bits of what was encoded.
pub mc_dec-mc_enc : (o w v : ℕ) → o + w ≤ 64 → mc_dec (mc_enc o w v) o w ≡ v % 2 ^ w
mc_dec-mc_enc o w v h =
    rw (mc_enc_fits o w v h, mc_dec_lem (v % 2 ^ w * 2 ^ o) o w (omega arith))
      (rw (mul-div_left (v % 2 ^ w) (pow-pos o)) (mod-mod v (2 ^ w)))

multiple-div-mod : (x m n i : ℕ) → x * 2 ^ (m + (n + i)) / 2 ^ m % 2 ^ n ≡ 0
multiple-div-mod x m n i =
    rw spread (rw (mul-div_left (x * 2 ^ i * 2 ^ n) (pow-pos m)) (mul-mod_left (x * 2 ^ i) (2 ^ n)))
  where
    spread : x * 2 ^ (m + (n + i)) ≡ x * 2 ^ i * 2 ^ n * 2 ^ m
    spread = rw (pow-add m (n + i), pow-add n i) (omega arith)

-- A field does not show in another that does not overlap it.
abbrev pub Apart : (o w o' w' : ℕ) → Type 0
Apart o w o' w' = (o + w ≤ o') ⊎ (o' + w' ≤ o)

-- Of two fields within the 64 bits that do not overlap, one decodes to 0 in a word that only the
-- other was encoded in.
pub mc_dec-mc_enc-Apart :
    (o w o' w' v : ℕ)
    → o + w ≤ 64
    → o' + w' ≤ 64
    → Apart o w o' w'
    → mc_dec (mc_enc o w v) o' w' ≡ 0
mc_dec-mc_enc-Apart o w o' w' v h h' (inl below) =
    rw (mc_enc_fits o w v h, mc_dec_lem (v % 2 ^ w * 2 ^ o) o' w' (omega arith))
      (rw (div-eq_of_lt small) (zero-mod (2 ^ w')))
  where
    small : v % 2 ^ w * 2 ^ o < 2 ^ o'
    small = omega (arith, field_fits o w v h, pow-le-pow_right two-pos below)
mc_dec-mc_enc-Apart o w o' w' v h h' (inr above) =
    rw (mc_enc_fits o w v h, mc_dec_lem (v % 2 ^ w * 2 ^ o) o' w' (omega arith))
      (subst (λ k. v % 2 ^ w * 2 ^ k / 2 ^ o' % 2 ^ w' ≡ 0) (sym position)
        (multiple-div-mod (v % 2 ^ w) o' w' (o - o' - w')))
  where
    position : o ≡ o' + (w' + (o - o' - w'))
    position = omega arith

-- A word that `MC_CMD_OP` made of one field, or of two that lie apart.
abbrev pub one_field : (o w v : ℕ) → ℕ
one_field o w v = bit_or 0 (mc_enc o w v)

abbrev pub two_fields : (o w v o' w' v' : ℕ) → ℕ
two_fields o w v o' w' v' = bit_or (one_field o w v) (mc_enc o' w' v')

pub mc_dec-one_field : (o w v : ℕ) → o + w ≤ 64 → mc_dec (one_field o w v) o w ≡ v % 2 ^ w
mc_dec-one_field o w v h = rw zero-bit_or (mc_dec-mc_enc o w v h)

pub mc_dec-two_fields :
    (o w v o' w' v' : ℕ)
    → o + w ≤ 64
    → o' + w' ≤ 64
    → Apart o w o' w'
    → Apart o' w' o w
    → (mc_dec (two_fields o w v o' w' v') o w ≡ v % 2 ^ w)
      × (mc_dec (two_fields o w v o' w' v') o' w' ≡ v' % 2 ^ w')
mc_dec-two_fields o w v o' w' v' h h' apart apart' = (
  rw (mc_dec-bit_or _ _ o w (omega arith), mc_dec-one_field o w v h)
      (rw (mc_dec-mc_enc-Apart o' w' o w v' h' h apart') (bit_or-zero (v % 2 ^ w))),
  rw (mc_dec-bit_or _ _ o' w' (omega arith), zero-bit_or)
      (rw (mc_dec-mc_enc-Apart o w o' w' v h h' apart, zero-bit_or) (mc_dec-mc_enc o' w' v' h')),
)
