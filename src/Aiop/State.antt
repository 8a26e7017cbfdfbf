-- ===== src/Aiop/State.antt =====
-- src/aiop_lib.c: the states of the tile, as text.
use gpp_aioptool.Dpaiop.Types.{
  state_reset_done, state_reset_ongoing, state_load_done, state_load_ongoing, state_load_error,
  state_boot_ongoing, state_boot_error, state_running,
}
use gpp_aioptool.Base.{ℤ, pos, same_int, List, [], ◌∷◌, Text, codes, if◌then◌else◌}

-- The cases of the `switch`, in order: `DPAIOP_STATE_RESET_DONE` and so on.
abbrev pub dpaiop_states : List (ℤ × Text)
dpaiop_states =
    (pos state_reset_done, codes "DPAIOP_STATE_RESET_DONE")
    ∷ (pos state_reset_ongoing, codes "DPAIOP_STATE_RESET_ONGOING")
    ∷ (pos state_load_done, codes "DPAIOP_STATE_LOAD_DONE")
    ∷ (pos state_load_ongoing, codes "DPAIOP_STATE_LOAD_ONGIONG")
    ∷ (pos state_load_error, codes "DPAIOP_STATE_LOAD_ERROR")
    ∷ (pos state_boot_ongoing, codes "DPAIOP_STATE_BOOT_ONGOING")
    ∷ (pos state_boot_error, codes "DPAIOP_STATE_BOOT_ERROR")
    ∷ (pos state_running, codes "DPAIOP_STATE_RUNNING")
    ∷ []

abbrev pub state_in : List (ℤ × Text) → ℤ → Text
state_in [] s = codes "Invalid MC State"
state_in ((value, p) ∷ rest) s = if same_int s value then p else state_in rest s

unfoldable pub aiopt_get_state_str : ℤ → Text
aiopt_get_state_str s = state_in dpaiop_states s
