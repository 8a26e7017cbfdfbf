-- ===== src/Dpaiop/Decode/Roundtrip.antt =====
-- Every request arrives as it was made.
use gpp_aioptool.Base.{ℕ, ◌+◌, ◌^◌, ◌≤◌, ◌<◌, ◌≡◌, refl, ap, ◌∙◌, inl, inr, arith, some, List, ℤ}
use gpp_aioptool.Mc.Wire.{zero_command, mc_dec}
use gpp_aioptool.Mc.Wire.Fields.{mc_dec-one_field, mc_dec-two_fields, one_field, two_fields}
use gpp_aioptool.Mc.Wire.Header.{hdr_cmdid, hdr_token}
use gpp_aioptool.Dpaiop.Types.{to_u64, to_int, to_int-to_u64, IsInt}
use gpp_aioptool.Dpaiop.Commands.{
  headed, open_command, close_command, create_command, destroy_command, reset_command,
  set_irq_enable_command, get_irq_enable_command, set_irq_mask_command, get_irq_mask_command,
  get_irq_status_command, clear_irq_status_command, get_attributes_command, load_command,
  run_command, get_sl_version_command, get_state_command, set_time_of_day_command,
  get_time_of_day_command, get_api_version_command,
}
use gpp_aioptool.Dpaiop.Decode.{Request, command_of, IsValid, request_of, decode}
use native.Mathlib.Nat.{mod-eq_of_lt}

-- What is decoded from a command with the header that the code encodes.
decode-headed :
    (id flags t : ℕ) (ps : List ℕ)
    → id < 2 ^ 16
    → t < 2 ^ 16
    → decode (record { header = (headed id flags t).header; params = ps }) ≡ request_of id t ps
unfolding decode
decode-headed id flags t ps p q =
    rw (hdr_cmdid id flags t, hdr_token id flags t, mod-eq_of_lt p, mod-eq_of_lt q)

-- The fields of the words, in range.
whole : (o w v : ℕ) → o + w ≤ 64 → v < 2 ^ w → mc_dec (one_field o w v) o w ≡ v
whole o w v h fits = mc_dec-one_field o w v h ∙ mod-eq_of_lt fits

-- A value in the lower bits and an 8-bit field at bit 32.
with_byte :
    (w v b : ℕ)
    → w ≤ 32
    → v < 2 ^ w
    → b < 2 ^ 8
    → (mc_dec (two_fields 0 w v 32 8 b) 0 w ≡ v) × (mc_dec (two_fields 0 w v 32 8 b) 32 8 ≡ b)
with_byte w v b h p q =
    let (low, high) =
      mc_dec-two_fields 0 w v 32 8 b (omega arith) (omega arith) (inl (omega arith))
        (inr (omega arith)) in
    (low ∙ mod-eq_of_lt p, high ∙ mod-eq_of_lt q)

int_field : (z : ℤ) → IsInt z → to_int (mc_dec (one_field 0 32 (to_u64 z)) 0 32) ≡ z
int_field z h = ap to_int (mc_dec-one_field 0 32 (to_u64 z) (omega arith)) ∙ to_int-to_u64 z h

two_ints :
    (y z : ℤ)
    → IsInt y
    → IsInt z
    → (to_int (mc_dec (two_fields 0 32 (to_u64 y) 32 32 (to_u64 z)) 0 32) ≡ y)
      × (to_int (mc_dec (two_fields 0 32 (to_u64 y) 32 32 (to_u64 z)) 32 32) ≡ z)
two_ints y z p q =
    let (low, high) =
      mc_dec-two_fields 0 32 (to_u64 y) 32 32 (to_u64 z) (omega arith) (omega arith)
        (inl (omega arith)) (inr (omega arith)) in
    (ap to_int low ∙ to_int-to_u64 y p, ap to_int high ∙ to_int-to_u64 z q)

-- The commands without parameters.
plain :
    (id flags t : ℕ) {r : Request}
    → id < 2 ^ 16
    → t < 2 ^ 16
    → request_of id t zero_command.params ≡ some r
    → decode (headed id flags t) ≡ some r
plain id flags t p q e = decode-headed id flags t zero_command.params p q ∙ e

-- For each request that a function of flib/mc/dpaiop.c sends, with arguments in the range of their
-- types and any flags, the command decodes, by the description of the wire format, to the same
-- request: the operation, the token, and every argument with its value.
pub decode-command_of : (flags : ℕ) (r : Request) → IsValid r → decode (command_of flags r) ≡ some r
unfolding command_of request_of open_command close_command create_command destroy_command
    reset_command set_irq_enable_command get_irq_enable_command set_irq_mask_command
    get_irq_mask_command get_irq_status_command clear_irq_status_command get_attributes_command
    load_command run_command get_sl_version_command get_state_command set_time_of_day_command
    get_time_of_day_command get_api_version_command
decode-command_of flags (Request.open_session id) h =
    decode-headed 0x80a1 flags 0 _ (omega arith) (omega arith) ∙ rw (int_field id h)
decode-command_of flags (Request.close_session t) h = plain 0x8001 flags t (omega arith) h refl
decode-command_of flags (Request.create_object t cfg) h =
    let ints = two_ints cfg.aiop_id cfg.aiop_container_id h.1 h.2 in
    decode-headed 0x90a1 flags t _ (omega arith) h.0 ∙ rw (ints.0, ints.1)
decode-command_of flags (Request.destroy_object t object_id) h =
    decode-headed 0x98a1 flags t _ (omega arith) h.0 ∙ rw (whole 0 32 object_id (omega arith) h.1)
decode-command_of flags (Request.reset_tile t) h = plain 0x0051 flags t (omega arith) h refl
decode-command_of flags (Request.set_irq_enable t irq en) h =
    let f = with_byte 8 en irq (omega arith) h.2 h.1 in
    decode-headed 0x0121 flags t _ (omega arith) h.0 ∙ rw (f.0, f.1)
decode-command_of flags (Request.get_irq_enable t irq) h =
    decode-headed 0x0131 flags t _ (omega arith) h.0 ∙ rw (whole 32 8 irq (omega arith) h.1)
decode-command_of flags (Request.set_irq_mask t irq mask) h =
    let f = with_byte 32 mask irq (omega arith) h.2 h.1 in
    decode-headed 0x0141 flags t _ (omega arith) h.0 ∙ rw (f.0, f.1)
decode-command_of flags (Request.get_irq_mask t irq) h =
    decode-headed 0x0151 flags t _ (omega arith) h.0 ∙ rw (whole 32 8 irq (omega arith) h.1)
decode-command_of flags (Request.get_irq_status t irq st) h =
    let f = with_byte 32 st irq (omega arith) h.2 h.1 in
    decode-headed 0x0161 flags t _ (omega arith) h.0 ∙ rw (f.0, f.1)
decode-command_of flags (Request.clear_irq_status t irq st) h =
    let f = with_byte 32 st irq (omega arith) h.2 h.1 in
    decode-headed 0x0171 flags t _ (omega arith) h.0 ∙ rw (f.0, f.1)
decode-command_of flags (Request.get_attributes t) h = plain 0x0041 flags t (omega arith) h refl
decode-command_of flags (Request.load_image t cfg) h =
    let f = with_byte 32 cfg.img_size cfg.tpc (omega arith) h.3 h.4 in
    decode-headed 0x2802 flags t _ (omega arith) h.0
    ∙ rw (
      f.0,
      f.1,
      whole 0 64 cfg.img_iova (omega arith) h.2,
      whole 0 64 cfg.options (omega arith) h.1,
    )
decode-command_of flags (Request.run_tile t cfg) h =
    decode-headed 0x2811 flags t _ (omega arith) h.0
    ∙ rw (
      whole 32 32 cfg.args_size (omega arith) h.4,
      whole 0 64 cfg.cores_mask (omega arith) h.1,
      whole 0 64 cfg.options (omega arith) h.2,
      whole 0 64 cfg.args_iova (omega arith) h.3,
    )
decode-command_of flags (Request.get_sl_version t) h = plain 0x2821 flags t (omega arith) h refl
decode-command_of flags (Request.get_state t) h = plain 0x2831 flags t (omega arith) h refl
decode-command_of flags (Request.set_time_of_day t time) h =
    decode-headed 0x2841 flags t _ (omega arith) h.0 ∙ rw (whole 0 64 time (omega arith) h.1)
decode-command_of flags (Request.get_time_of_day t) h = plain 0x2851 flags t (omega arith) h refl
decode-command_of flags Request.get_api_version h =
    plain 0xa0a1 flags 0 (omega arith) (omega arith) refl
