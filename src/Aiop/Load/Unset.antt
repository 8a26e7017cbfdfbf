-- ===== src/Aiop/Load/Unset.antt =====
-- `aiopt_load` beside a ledger, with a positive number in the descriptor that is never set.
use gpp_aioptool.Base.{
  ℕ, ◌≡◌, refl, true, false, Bool, [], ◌∷◌, Option, some, ℤ, is_zero, is_positive, Text, Returns,
}
use gpp_aioptool.Os.{Os}
use gpp_aioptool.Vfio.{Kernel, VfioTables}
use gpp_aioptool.Aiop.Types.{AioptObj, aiopt_failure}
use gpp_aioptool.Aiop.Load.{open_sized, get_aiop_image_fd}
use gpp_aioptool.Aiop.Ledger.{Ledger, holding, ledger_os, ledger_kernel}
use gpp_aioptool.Aiop.Load.Image.{Loaded, release_files, err_out, aiopt_load}

-- The load fails, and the descriptor was closed though nothing had opened it.
abbrev pub ClosesUnset : {S : Type 0} → ℤ → Loaded → S × Ledger → Type 0
ClosesUnset unset (ret, obj, t) (s, b) = (ret ≡ aiopt_failure) × (b.stray_files ≡ unset ∷ [])

-- With a ledger beside the state, empty at first: if the image file cannot be looked at, and the
-- unset descriptor holds a positive number, `aiopt_load` returns a failure, and it has closed the
-- file of that number, which it did not open.
pub aiopt_load_stray :
    {S : Type 0} (os : Os S) (kernel : Kernel S) (polls : ℕ) (reset : Bool) (tpc : ℕ) (unset : ℤ)
    (obj : AioptObj) (t : VfioTables) (ifile : Text) (afile : Option Text) (s : S)
    → is_positive unset ≡ true
    → is_zero (os.stat ifile s).0.0 ≡ false
    → Returns (ClosesUnset unset) (
        aiopt_load
          (ledger_os os)
          (ledger_kernel kernel)
          polls
          reset
          tpc
          unset
          obj
          t
          (some ifile)
          afile
          (s, holding [] [] []))
unfolding aiopt_load get_aiop_image_fd open_sized err_out release_files
aiopt_load_stray os kernel polls reset tpc unset obj t ifile afile s positive missing =
    rw (missing, positive) (refl, refl)
