-- ===== src/Tests/Sessions.antt =====
-- The operations of the library, with the device of `Tests.World`.
use gpp_aioptool.Base.{ℕ, ◌*◌, ◌≡◌, refl, arith, true, some, pos, neg, done, codes, Returns}
use gpp_aioptool.Mc.Wire.{read_token, read_status, mc_dec}
use gpp_aioptool.Mc.Portal.{mc_status_to_error}
use gpp_aioptool.Dpaiop.Types.{IsInt, to_int}
use gpp_aioptool.Dpaiop.Responses.{rsp_get_sl_version, rsp_get_state, rsp_get_time_of_day}
use gpp_aioptool.Dpaiop.Server.{error_of}
use gpp_aioptool.Aiop.Types.{AioptObj, AioptStatus, with_token}
use gpp_aioptool.Aiop.Session.{aiopt_gettod, aiopt_settod, aiopt_status, aiopt_reset}
use gpp_aioptool.Aiop.Session.Outcome.{
  aiopt_settod-opened, aiopt_gettod-opened, aiopt_status-opened, aiopt_reset-opened,
  session-refused,
}
use gpp_aioptool.Aiop.Load.{perform_dpaiop_load, get_aiop_image_fd, get_aiop_args_fd}
use gpp_aioptool.Aiop.Load.Outcome.{perform_dpaiop_load-opened}
use gpp_aioptool.Aiop.Load.Files.{IsOpened, get_aiop_fd-sizes}
use gpp_aioptool.Tests.World.{World, os, server, serves, willing, stubborn}

abbrev pub object : AioptObj
object = record {
  vfio_handle = some 0;
  mcp_addr = 4096;
  mcp = record {
    name = some (96, codes "dpmcp.1");
    token = 0;
    id = pos 1;
    fd = pos 4;
    di = record { num_regions = 1; num_irqs = 0 };
  };
  aiop = record {
    name = some (112, codes "dpaiop.0");
    token = 0;
    id = pos 0;
    fd = pos 5;
    di = record { num_regions = 1; num_irqs = 0 };
  };
}

abbrev pub after : (submitted refused : ℕ) → World
after submitted refused = record { submitted = submitted; refused = refused }

pub in_range : IsInt object.aiop.id
in_range = omega arith

-- The request for a new time is refused, and success is reported.
aiopt_settod-opened_example :
    aiopt_settod os 3 object 1000 stubborn ≡ done (pos 0, with_token object 5) (after 3 2)
unfolding error_of mc_status_to_error read_status read_token mc_dec
aiopt_settod-opened_example =
    aiopt_settod-opened os 3 server object in_range serves stubborn stubborn 64 refl
      (λ e. ground (arith, e)) refl 1000 (omega arith)

aiopt_gettod-opened_example :
    aiopt_gettod os 3 object 1 willing ≡ done (pos 0, with_token object 5, 7) (after 3 0)
unfolding error_of mc_status_to_error read_status read_token mc_dec rsp_get_time_of_day
aiopt_gettod-opened_example =
    aiopt_gettod-opened os 3 server object in_range serves willing willing 64 refl
      (λ e. ground (arith, e)) refl 1

aiopt_reset-opened_example :
    aiopt_reset os 3 object stubborn ≡ done (neg 1, with_token object 5) (after 3 2)
unfolding error_of mc_status_to_error read_status read_token mc_dec
aiopt_reset-opened_example =
    aiopt_reset-opened os 3 server object in_range serves stubborn stubborn 64 refl
      (λ e. ground (arith, e)) refl

abbrev pub no_status : AioptStatus
no_status = record {
  id = pos 0;
  major_v = pos 0;
  minor_v = pos 0;
  sl_major_v = pos 0;
  sl_minor_v = pos 0;
  sl_revision = pos 0;
  state = pos 0;
}

aiopt_status-opened_example :
    aiopt_status os 3 object no_status willing
    ≡ done
        (
          pos 0,
          with_token object 5,
          record no_status { sl_major_v = pos 7; sl_revision = pos 8; state = pos 7 },
        )
        (after 4 0)
unfolding error_of mc_status_to_error read_status read_token mc_dec rsp_get_sl_version rsp_get_state
    to_int
aiopt_status-opened_example =
    aiopt_status-opened os 3 server object in_range serves willing willing 64 refl
      (λ e. ground (arith, e)) refl no_status

-- A world whose first command is refused.
abbrev closed_world : World
closed_world = after 0 1

session-refused_example :
    (aiopt_gettod os 3 object 9 closed_world ≡ done (neg 1, object, 9) (after 1 1))
    × (aiopt_settod os 3 object 9 closed_world ≡ done (neg 1, object) (after 1 1))
    × (aiopt_status os 3 object no_status closed_world
        ≡ done (neg 1, object, no_status) (after 1 1))
    × (aiopt_reset os 3 object closed_world ≡ done (neg 1, object) (after 1 1))
unfolding error_of mc_status_to_error read_status read_token mc_dec
session-refused_example =
    session-refused os 3 server object in_range serves closed_world closed_world 64 refl
      (λ e. ground (arith, e)) 9 no_status refl

-- The reset before the load is refused; the load and the run succeed.
perform_dpaiop_load-opened_example :
    perform_dpaiop_load os 3 object 8192 5000 16384 100 true 4 stubborn
    ≡ done (pos 0, with_token object 5) (after 5 2)
unfolding error_of mc_status_to_error read_status read_token mc_dec
perform_dpaiop_load-opened_example =
    perform_dpaiop_load-opened os 3 server object stubborn stubborn 64 8192 5000 16384 100 true 4
      in_range serves refl (λ e. ground (arith, e)) (omega arith) (omega arith) refl

get_aiop_fd-sizes_example :
    Returns (IsOpened (8 * 1024 * 1024)) (done (pos 3, 100) willing)
    × Returns (IsOpened 512) (done (pos 3, 100) willing)
unfolding get_aiop_image_fd get_aiop_args_fd
get_aiop_fd-sizes_example = get_aiop_fd-sizes os (some (codes "/tmp/aiop.elf")) willing
