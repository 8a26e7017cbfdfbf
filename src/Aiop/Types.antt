-- ===== src/Aiop/Types.antt =====
-- include/aiop_lib.h and include/aiop_tool.h: the objects of the library, results and limits.
use gpp_aioptool.Base.{ℕ, ◌*◌, Option, ℤ, pos, neg, Text}
use gpp_aioptool.Mc.Portal.{enomem}
use gpp_aioptool.Vfio.{VfioDeviceInfo}

abbrev pub aiopt_success : ℤ
aiopt_success = pos 0

abbrev pub aiopt_failure : ℤ
aiopt_failure = neg 1

abbrev pub aiopt_enomem : ℤ
aiopt_enomem = neg enomem

abbrev pub max_aiop_image_file_sz : ℕ
max_aiop_image_file_sz = 8 * 1024 * 1024

abbrev pub max_aiop_args_file_sz : ℕ
max_aiop_args_file_sz = 512

abbrev pub aiopt_aligned_page_sz : ℕ
aiopt_aligned_page_sz = 4096

-- `struct dpobj_type`; a name is its address with the text there, `none` if it is NULL.
pub record DpobjType : Type 0 where
  pub name : Option (ℕ × Text)
  pub token : ℕ
  pub id : ℤ
  pub fd : ℤ
  pub di : VfioDeviceInfo

-- `struct aiopt_obj`: the entries `MCP_TYPE` and `AIOP_TYPE` of `devices` are two fields. The
-- VFIO handle is the index of a group, `none` if it is NULL.
pub record AioptObj : Type 0 where
  pub vfio_handle : Option ℕ
  pub mcp_addr : ℕ
  pub mcp : DpobjType
  pub aiop : DpobjType

-- `struct aiopt_status`.
pub record AioptStatus : Type 0 where
  pub id : ℤ
  pub major_v : ℤ
  pub minor_v : ℤ
  pub sl_major_v : ℤ
  pub sl_minor_v : ℤ
  pub sl_revision : ℤ
  pub state : ℤ

-- The object is never NULL where this is called.
abbrev pub aiopt_get_aiop_id : AioptObj → ℤ
aiopt_get_aiop_id obj = obj.aiop.id

-- The token of the AIOP device, written through `aiopt_get_aiop_token_byref`.
abbrev pub with_token : AioptObj → ℕ → AioptObj
with_token obj t = record obj { aiop = record (obj.aiop) { token = t } }
