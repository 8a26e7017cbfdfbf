-- ===== src/Aiop/Setup/Filled.antt =====
-- `fill_obj_info`: what it leaves in the object.
use gpp_aioptool.Base.{
  ℕ, ◌==◌, ◌≡◌, ◌⊎◌, inr, refl, arith, Option, none, some, ℤ, Text, length, ◌+◌, Returns,
  Returns-if,
}
use gpp_aioptool.Os.{Os}
use gpp_aioptool.Vfio.{Kernel, VfioTables}
use gpp_aioptool.Vfio.Device.{fsl_vfio_get_dev_fd, fsl_vfio_get_device_info}
use gpp_aioptool.Dpaiop.Types.{IsInt}
use gpp_aioptool.Aiop.Types.{AioptObj, aiopt_success, aiopt_failure}
use gpp_aioptool.Aiop.Setup.{
  Dirs, DpobjTypeList, second_token, scanned_or, fill_obj_info, fill_aiop_device, keep_name,
  drop_name,
}

abbrev pub text_of : Option (ℕ × Text) → Option Text
text_of none = none
text_of (some (p, text)) = some text

module _ {S : Type 0} (os : Os S) (kernel : Kernel S) (dirs : Dirs S) (polls : ℕ) (unset : ℤ) where
  -- On success the device is named, and the other one is as it was.
  abbrev pub FilledMcp : AioptObj → Text → ℤ × AioptObj → S → Type 0
  FilledMcp obj dir_name (r, obj') s =
      (obj'.vfio_handle ≡ obj.vfio_handle)
      × (obj'.aiop ≡ obj.aiop)
      × (((r ≡ aiopt_success) × (text_of obj'.mcp.name ≡ some dir_name)) ⊎ (r ≡ aiopt_failure))

  abbrev pub FilledAiop : AioptObj → Text → ℤ × AioptObj → S → Type 0
  FilledAiop obj dir_name (r, obj') s =
      (obj'.vfio_handle ≡ obj.vfio_handle)
      × (obj'.mcp ≡ obj.mcp)
      × (((r ≡ aiopt_success) × (text_of obj'.aiop.name ≡ some dir_name) × IsInt obj'.aiop.id)
          ⊎ (r ≡ aiopt_failure))

  pub fill_obj_info-FilledMcp :
      (obj : AioptObj) (dir_name number : Text) (t : VfioTables) (s : S)
      → second_token dir_name ≡ some number
      → Returns
          (FilledMcp obj dir_name)
          (fill_obj_info os kernel dirs polls unset obj DpobjTypeList.mcp_type dir_name t s)
  unfolding fill_obj_info keep_name
  fill_obj_info-FilledMcp obj dir_name number t s numbered = rw numbered (ground arith)

  fill_aiop_device-FilledAiop :
      (dir_c p : ℕ) (obj : AioptObj) (dir_name : Text) (t : VfioTables) (s : S)
      → text_of obj.aiop.name ≡ some dir_name
      → IsInt obj.aiop.id
      → Returns
          (FilledAiop obj dir_name)
          (fill_aiop_device os kernel dirs polls dir_c p dir_name obj t s)
  unfolding fill_aiop_device drop_name keep_name fsl_vfio_get_device_info fsl_vfio_get_dev_fd
  fill_aiop_device-FilledAiop dir_c p obj dir_name t s named id = ground (arith, named, id)

  -- The numbers that `sscanf` and the variable can hold.
  number_IsInt :
      (number : Text)
      → IsInt unset
      → ((text : Text) (n : ℤ) → kernel.scan_int text ≡ some n → IsInt n)
      → IsInt (scanned_or unset (kernel.scan_int number))
  number_IsInt number unset_fits fits = by_scan (kernel.scan_int number) refl
    where
      by_scan :
          (scanned : Option ℤ) → kernel.scan_int number ≡ scanned → IsInt (scanned_or unset scanned)
      by_scan none e = unset_fits
      by_scan (some n) e = fits number n e

  pub fill_obj_info-FilledAiop :
      (obj : AioptObj) (dir_name number : Text) (t : VfioTables) (s : S)
      → second_token dir_name ≡ some number
      → IsInt unset
      → ((text : Text) (n : ℤ) → kernel.scan_int text ≡ some n → IsInt n)
      → Returns
          (FilledAiop obj dir_name)
          (fill_obj_info os kernel dirs polls unset obj DpobjTypeList.aiop_type dir_name t s)
  unfolding fill_obj_info
  fill_obj_info-FilledAiop obj dir_name number t s numbered unset_fits fits = rw numbered (
      Returns-if (FilledAiop obj dir_name) ((os.calloc (length dir_name + 1) s).0 == 0) _ _ _
        (λ null. (refl, refl, inr refl))
        (λ there.
          Returns-if (FilledAiop obj dir_name)
            ((os.calloc (length dir_name + 1) (os.calloc (length dir_name + 1) s).1).0 == 0) _ _ _
            (λ null. (refl, refl, inr refl))
            (λ both.
              fill_aiop_device-FilledAiop _ _
                (record obj {
                  aiop = record (obj.aiop) {
                    name = some (_, dir_name);
                    id = scanned_or unset (kernel.scan_int number);
                  };
                })
                dir_name t _ refl (number_IsInt number unset_fits fits))))
