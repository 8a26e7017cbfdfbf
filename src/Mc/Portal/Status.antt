-- ===== src/Mc/Portal/Status.antt =====
-- The error code of a status.
use gpp_aioptool.Base.{ℕ, ◌≡◌, ◌≢◌, ◌⊎◌, true, arith, pos, is_neg}
use gpp_aioptool.Mc.Wire.{status_ok}
use gpp_aioptool.Mc.Portal.{mc_status_to_error}

-- Of all status values, those that no case names included, OK alone becomes 0, and every other
-- becomes a negative error code.
pub mc_status_to_error-zero_iff :
    (status : ℕ)
    → ((status ≡ status_ok) × (mc_status_to_error status ≡ pos 0))
      ⊎ ((status ≢ status_ok) × (is_neg (mc_status_to_error status) ≡ true))
unfolding mc_status_to_error
mc_status_to_error-zero_iff status = ground arith
