-- ===== src/Dpaiop/Server.antt =====
-- The MC as a server of requests: the contract that the functions of flib/mc/dpaiop.c need of the
-- hardware, and what they return under it.
use gpp_aioptool.Base.{
  ℕ, ◌^◌, ◌<◌, ◌≡◌, refl, ◌≢◌, inl, inr, Bool-cases, some, arith, ℤ, is_zero, done, ◌==◌,
  if◌then◌else◌, length,
}
use gpp_aioptool.Mc.Wire.{McCommand, read_status, read_token, status_ok}
use gpp_aioptool.Mc.Portal.{Device, FslMcIo, mc_write_command, mc_send_command, mc_status_to_error}
use gpp_aioptool.Mc.Portal.Exchange.{Pending, Answers, mc_send_command-Answers}
use gpp_aioptool.Dpaiop.Decode.{Request, command_of, IsValid, decode}
use gpp_aioptool.Dpaiop.Decode.Roundtrip.{decode-command_of}
use gpp_aioptool.Dpaiop.Types.{DpaiopLoadCfg, DpaiopRunCfg, DpaiopSlVersion, IsInt}
use gpp_aioptool.Dpaiop.Responses.{rsp_get_sl_version, rsp_get_state, rsp_get_time_of_day}
use gpp_aioptool.Dpaiop.Calls.{
  send, query, dpaiop_open, dpaiop_close, dpaiop_reset, dpaiop_load, dpaiop_run,
  dpaiop_get_sl_version, dpaiop_get_state, dpaiop_set_time_of_day, dpaiop_get_time_of_day,
}
use gpp_aioptool.Dpaiop.Commands.{
  open_command, close_command, create_command, destroy_command, reset_command,
  set_irq_enable_command, get_irq_enable_command, set_irq_mask_command, get_irq_mask_command,
  get_irq_status_command, clear_irq_status_command, get_attributes_command, load_command,
  run_command, get_sl_version_command, get_state_command, set_time_of_day_command,
  get_time_of_day_command, get_api_version_command,
}

-- A server answers a request with a response, and changes its state.
abbrev pub Server : Type 0 → Type 0
Server S = S → Request → McCommand × S

-- The hardware behind the portal at `regs` runs the server: whenever a command that says `r` has
-- been written in state `s`, the status reads READY fewer than `polls` times, and then the
-- registers hold the server's response.
pub record Serves {S : Type 0} (dev : Device S) (polls regs : ℕ) (serve : Server S) : Type 0 where
  pub mapped : regs ≢ 0
  pub reply :
      (s : S) (cmd : McCommand) (r : Request)
      → decode cmd ≡ some r
      → (n : ℕ) × (n < polls)
        × Pending dev regs (serve s r).1 n (mc_write_command dev regs cmd s)
        × Answers dev regs (serve s r).1 (serve s r).0

-- The error code of a response.
unfoldable pub error_of : McCommand → ℤ
error_of r = mc_status_to_error (read_status r.header)

-- What a query with response `rsp` returns.
abbrev pub outcome : {A : Type 0} → (read : McCommand → A) → (old : A) → McCommand → ℤ × A
outcome read old rsp = (error_of rsp, if is_zero (error_of rsp) then read rsp else old)

seven_params : (flags : ℕ) (r : Request) → length (command_of flags r).params ≡ 7
unfolding command_of open_command close_command create_command destroy_command reset_command
    set_irq_enable_command get_irq_enable_command set_irq_mask_command get_irq_mask_command
    get_irq_status_command clear_irq_status_command get_attributes_command load_command run_command
    get_sl_version_command get_state_command set_time_of_day_command get_time_of_day_command
    get_api_version_command
seven_params flags (Request.open_session id) = refl
seven_params flags _ = refl

-- The error code is zero just if the status is OK.
error_of-ok : (r : McCommand) → (read_status r.header == status_ok) ≡ is_zero (error_of r)
unfolding error_of mc_status_to_error
error_of-ok r = ground arith

module _ {S : Type 0} (dev : Device S) (polls regs : ℕ) (serve : Server S)
    (serves : Serves dev polls regs serve) where
  abbrev io : FslMcIo
  io = record { regs = regs }

  exchange :
      (flags : ℕ) (r : Request) (s : S)
      → IsValid r
      → mc_send_command dev polls (some io) (command_of flags r) s
        ≡ done
            (
              error_of (serve s r).0,
              if read_status (serve s r).0.header == status_ok
                  then (serve s r).0
                  else record (command_of flags r) { header = (serve s r).0.header },
            )
            (serve s r).1
  unfolding error_of
  exchange flags r s v =
      let (n, soon, pending, answers) =
        serves.reply s (command_of flags r) r (decode-command_of flags r v) in
      mc_send_command-Answers dev regs polls (command_of flags r) s serves.mapped
        (seven_params flags r) pending soon answers

  -- Against a device that runs a server of requests, a function without results returns, for a
  -- valid request, the error code of the server's response, in the server's next state.
  pub send-serves :
      (flags : ℕ) (r : Request) (s : S)
      → IsValid r
      → send dev polls (some io) (command_of flags r) s
        ≡ done (error_of (serve s r).0) (serve s r).1
  unfolding send
  send-serves flags r s v = rw (exchange flags r s v)

  -- Against a device that runs a server of requests, a query with a valid request returns the
  -- error code of the server's response, and the result read from that response if the error code
  -- is 0, and otherwise the old value, in the server's next state.
  pub query-serves :
      {A : Type 0} (flags : ℕ) (r : Request) (read : McCommand → A) (old : A) (s : S)
      → IsValid r
      → query dev polls (some io) (command_of flags r) read old s
        ≡ done
            (
              error_of (serve s r).0,
              if is_zero (error_of (serve s r).0) then read (serve s r).0 else old,
            )
            (serve s r).1
  unfolding query
  query-serves flags r read old s v = rw (exchange flags r s v) (
      rw (error_of-ok (serve s r).0) (elim (Bool-cases (is_zero (error_of (serve s r).0))) [
        | inl fine ↦ rw fine
        | inr failed ↦ rw failed
      ]))

  pub dpaiop_open-serves :
      (id : ℤ) (token : ℕ) (s : S)
      → IsInt id
      → dpaiop_open dev polls (some io) 0 id token s
        ≡ done
            (outcome (λ rsp. read_token rsp.header) token (serve s (Request.open_session id)).0)
            (serve s (Request.open_session id)).1
  unfolding dpaiop_open command_of
  dpaiop_open-serves id token s v =
      query-serves 0 (Request.open_session id) (λ rsp. read_token rsp.header) token s v

  module _ (token : ℕ) (fits : token < 2 ^ 16) (s : S) where
    pub dpaiop_close-serves :
        dpaiop_close dev polls (some io) 0 token s
        ≡ done
            (error_of (serve s (Request.close_session token)).0)
            (serve s (Request.close_session token)).1
    unfolding dpaiop_close command_of
    dpaiop_close-serves = send-serves 0 (Request.close_session token) s fits

    pub dpaiop_reset-serves :
        dpaiop_reset dev polls (some io) 0 token s
        ≡ done
            (error_of (serve s (Request.reset_tile token)).0)
            (serve s (Request.reset_tile token)).1
    unfolding dpaiop_reset command_of
    dpaiop_reset-serves = send-serves 0 (Request.reset_tile token) s fits

    pub dpaiop_load-serves :
        (cfg : DpaiopLoadCfg)
        → IsValid (Request.load_image token cfg)
        → dpaiop_load dev polls (some io) 0 token cfg s
          ≡ done
              (error_of (serve s (Request.load_image token cfg)).0)
              (serve s (Request.load_image token cfg)).1
    unfolding dpaiop_load command_of
    dpaiop_load-serves cfg v = send-serves 0 (Request.load_image token cfg) s v

    pub dpaiop_run-serves :
        (cfg : DpaiopRunCfg)
        → IsValid (Request.run_tile token cfg)
        → dpaiop_run dev polls (some io) 0 token cfg s
          ≡ done
              (error_of (serve s (Request.run_tile token cfg)).0)
              (serve s (Request.run_tile token cfg)).1
    unfolding dpaiop_run command_of
    dpaiop_run-serves cfg v = send-serves 0 (Request.run_tile token cfg) s v

    pub dpaiop_get_sl_version-serves :
        (old : DpaiopSlVersion)
        → dpaiop_get_sl_version dev polls (some io) 0 token old s
          ≡ done
              (outcome rsp_get_sl_version old (serve s (Request.get_sl_version token)).0)
              (serve s (Request.get_sl_version token)).1
    unfolding dpaiop_get_sl_version command_of
    dpaiop_get_sl_version-serves old =
        query-serves 0 (Request.get_sl_version token) rsp_get_sl_version old s fits

    pub dpaiop_get_state-serves :
        (old : ℕ)
        → dpaiop_get_state dev polls (some io) 0 token old s
          ≡ done
              (outcome rsp_get_state old (serve s (Request.get_state token)).0)
              (serve s (Request.get_state token)).1
    unfolding dpaiop_get_state command_of
    dpaiop_get_state-serves old = query-serves 0 (Request.get_state token) rsp_get_state old s fits

    pub dpaiop_set_time_of_day-serves :
        (time : ℕ)
        → time < 2 ^ 64
        → dpaiop_set_time_of_day dev polls (some io) 0 token time s
          ≡ done
              (error_of (serve s (Request.set_time_of_day token time)).0)
              (serve s (Request.set_time_of_day token time)).1
    unfolding dpaiop_set_time_of_day command_of
    dpaiop_set_time_of_day-serves time v =
        send-serves 0 (Request.set_time_of_day token time) s (fits, v)

    pub dpaiop_get_time_of_day-serves :
        (old : ℕ)
        → dpaiop_get_time_of_day dev polls (some io) 0 token old s
          ≡ done
              (outcome rsp_get_time_of_day old (serve s (Request.get_time_of_day token)).0)
              (serve s (Request.get_time_of_day token)).1
    unfolding dpaiop_get_time_of_day command_of
    dpaiop_get_time_of_day-serves old =
        query-serves 0 (Request.get_time_of_day token) rsp_get_time_of_day old s fits
