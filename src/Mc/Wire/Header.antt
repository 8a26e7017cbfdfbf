-- ===== src/Mc/Wire/Header.antt =====
-- The header of a command, field by field.
use Prim.Native.Nat.{bit_and, bit_or}
use gpp_aioptool.Base.{ℕ, ◌+◌, ◌*◌, ◌/◌, ◌%◌, ◌^◌, ◌≤◌, ◌<◌, ◌≡◌, refl, ◌∙◌, inl, inr, arith}
use gpp_aioptool.Base.Bits.{
  bit_and-div, bit_and-mod, bit_or-zero, zero-bit_or, bit_and-zero, bit_and_ones,
}
use native.Mathlib.Nat.{mod-mod, mod-eq_of_lt}
use gpp_aioptool.Mc.Wire.{
  mc_enc, mc_dec, read_status, read_token, mc_encode_cmd_header, status_ready, flags_mask,
}
use gpp_aioptool.Mc.Wire.Fields.{
  mc_dec_lem, mc_enc_lem, mc_dec-bit_or, mc_dec-mc_enc, mc_dec-mc_enc-Apart,
}

-- A byte of the flags part: that byte of the flags, as far as the mask lets it through.
flags_part : ℕ → ℕ
flags_part flags = mc_enc 0 32 (bit_and flags flags_mask)

-- A field of a header is the union of what its four parts hold there.
header_field :
    (id flags token o w : ℕ)
    → w ≤ 64
    → mc_dec (mc_encode_cmd_header id flags token) o w
      ≡ bit_or
          (bit_or
            (bit_or (mc_dec (mc_enc 48 16 id) o w) (mc_dec (flags_part flags) o w))
            (mc_dec (mc_enc 32 16 token) o w))
          (mc_dec (mc_enc 16 8 1) o w)
unfolding mc_encode_cmd_header flags_part
header_field id flags token o w h = simp (mc_dec-bit_or _ _ o w h)

flags_byte :
    (flags i : ℕ)
    → ((x : ℕ) → x % 2 ^ 32 * 2 ^ 0 % 2 ^ 64 / 2 ^ i % 2 ^ 8 ≡ x / 2 ^ i % 2 ^ 8)
    → mc_dec (flags_part flags) i 8 ≡ bit_and (flags / 2 ^ i % 2 ^ 8) (flags_mask / 2 ^ i % 2 ^ 8)
unfolding flags_part
flags_byte flags i whole =
    rw (mc_enc_lem 0 32 (bit_and flags flags_mask) (omega arith), mc_dec_lem _ i 8 (omega arith))
      (whole (bit_and flags flags_mask)
        ∙ (rw (bit_and-div i flags flags_mask)
            (bit_and-mod 8 (flags / 2 ^ i) (flags_mask / 2 ^ i))))

cleared : (flags : ℕ) → (mc_dec (flags_part flags) 0 8 ≡ 0) × (mc_dec (flags_part flags) 16 8 ≡ 0)
cleared flags = (
  flags_byte flags 0 (λ x. omega arith) ∙ bit_and-zero _,
  flags_byte flags 16 (λ x. omega arith) ∙ bit_and-zero _,
)

kept :
    (flags : ℕ)
    → (mc_dec (flags_part flags) 8 8 ≡ flags / 2 ^ 8 % 2 ^ 8)
      × (mc_dec (flags_part flags) 24 8 ≡ flags / 2 ^ 24 % 2 ^ 8)
kept flags = (
  flags_byte flags 8 (λ x. omega arith) ∙ bit_and_ones 8 _ ∙ mod-mod _ _,
  flags_byte flags 24 (λ x. omega arith) ∙ bit_and_ones 8 _ ∙ mod-mod _ _,
)

-- Above bit 31 the flags part is empty.
no_flags_above : (flags o w : ℕ) → 32 ≤ o → o + w ≤ 64 → mc_dec (flags_part flags) o w ≡ 0
unfolding flags_part
no_flags_above flags o w p q = mc_dec-mc_enc-Apart 0 32 o w _ (omega arith) q (inl p)

-- The status part, READY, in each field that is read.
ready_parts :
    (mc_dec (mc_enc 16 8 1) 48 16 ≡ 0)
    × (mc_dec (mc_enc 16 8 1) 32 16 ≡ 0)
    × (mc_dec (mc_enc 16 8 1) 16 8 ≡ 1)
    × (mc_dec (mc_enc 16 8 1) 0 8 ≡ 0)
    × (mc_dec (mc_enc 16 8 1) 8 8 ≡ 0)
    × (mc_dec (mc_enc 16 8 1) 24 8 ≡ 0)
unfolding mc_dec mc_enc
ready_parts = (refl, refl, refl, refl, refl, refl)

module _ (id flags token : ℕ) where
  abbrev hdr : ℕ
  hdr = mc_encode_cmd_header id flags token

  -- What a header holds in a field, from what its parts hold there.
  read_parts :
      (o w : ℕ) {a b c d : ℕ}
      → w ≤ 64
      → mc_dec (mc_enc 48 16 id) o w ≡ a
      → mc_dec (flags_part flags) o w ≡ b
      → mc_dec (mc_enc 32 16 token) o w ≡ c
      → mc_dec (mc_enc 16 8 1) o w ≡ d
      → mc_dec hdr o w ≡ bit_or (bit_or (bit_or a b) c) d
  read_parts o w h pa pb pc pd = header_field id flags token o w h ∙ rw (pa, pb, pc, pd)

  pub hdr_cmdid : mc_dec hdr 48 16 ≡ id % 2 ^ 16
  hdr_cmdid =
      read_parts 48 16 (omega arith) (mc_dec-mc_enc 48 16 id (omega arith))
        (no_flags_above flags 48 16 (omega arith) (omega arith))
        (mc_dec-mc_enc-Apart 32 16 48 16 token (omega arith) (omega arith) (inl (omega arith)))
        ready_parts.0
      ∙ simp (bit_or-zero)

  pub hdr_token : read_token hdr ≡ token % 2 ^ 16
  unfolding read_token
  hdr_token = rw field (mod-mod token (2 ^ 16))
    where
      field : mc_dec hdr 32 16 ≡ token % 2 ^ 16
      field =
          read_parts 32 16 (omega arith)
            (mc_dec-mc_enc-Apart 48 16 32 16 id (omega arith) (omega arith) (inr (omega arith)))
            (no_flags_above flags 32 16 (omega arith) (omega arith))
            (mc_dec-mc_enc 32 16 token (omega arith)) ready_parts.1
          ∙ simp (bit_or-zero, zero-bit_or)

  -- The lower half: identifier and token do not reach into it.
  low_field :
      (o w : ℕ) {b d : ℕ}
      → o + w ≤ 32
      → mc_dec (flags_part flags) o w ≡ b
      → mc_dec (mc_enc 16 8 1) o w ≡ d
      → mc_dec hdr o w ≡ bit_or b d
  low_field o w h pb pd =
      read_parts o w (omega arith)
        (mc_dec-mc_enc-Apart 48 16 o w id (omega arith) (omega arith) (inr (omega arith))) pb
        (mc_dec-mc_enc-Apart 32 16 o w token (omega arith) (omega arith) (inr (omega arith))) pd
      ∙ simp (bit_or-zero, zero-bit_or)

  pub hdr_status : read_status hdr ≡ status_ready
  unfolding read_status
  hdr_status = low_field 16 8 (omega arith) (cleared flags).1 ready_parts.2 ∙ simp (zero-bit_or)

  pub hdr_flags :
      (mc_dec hdr 0 8 ≡ 0)
      × (mc_dec hdr 8 8 ≡ flags / 2 ^ 8 % 2 ^ 8)
      × (mc_dec hdr 24 8 ≡ flags / 2 ^ 24 % 2 ^ 8)
  hdr_flags = (
    low_field 0 8 (omega arith) (cleared flags).0 ready_parts.3 ∙ simp (bit_or-zero),
    low_field 8 8 (omega arith) (kept flags).0 ready_parts.4 ∙ simp (bit_or-zero),
    low_field 24 8 (omega arith) (kept flags).1 ready_parts.5 ∙ simp (bit_or-zero),
  )

-- The header of a command decodes to the identifier and the token that the caller passed, both of
-- 16 bits, with the status READY whatever the flags are; of the flags the bytes at bits 8 and 24
-- arrive, and the lowest byte is cleared.
pub mc_encode_cmd_header-fields :
    (id flags token : ℕ)
    → id < 2 ^ 16
    → token < 2 ^ 16
    → let hdr = mc_encode_cmd_header id flags token in
      (mc_dec hdr 48 16 ≡ id)
      × (read_token hdr ≡ token)
      × (read_status hdr ≡ status_ready)
      × (mc_dec hdr 0 8 ≡ 0)
      × (mc_dec hdr 8 8 ≡ flags / 2 ^ 8 % 2 ^ 8)
      × (mc_dec hdr 24 8 ≡ flags / 2 ^ 24 % 2 ^ 8)
mc_encode_cmd_header-fields id flags token p q = (
  hdr_cmdid id flags token ∙ mod-eq_of_lt p,
  hdr_token id flags token ∙ mod-eq_of_lt q,
  hdr_status id flags token,
  (hdr_flags id flags token).0,
  (hdr_flags id flags token).1,
  (hdr_flags id flags token).2,
)
