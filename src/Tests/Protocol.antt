-- ===== src/Tests/Protocol.antt =====
-- The wire format and the portal, with the device of `Tests.World`.
use gpp_aioptool.Base.{◌*◌, ◌^◌, ◌≡◌, refl, sym, subst, arith, [], ◌∷◌, some, pos, neg, done}
use gpp_aioptool.Mc.Wire.{
  mc_dec, mc_enc, mc_encode_cmd_header, read_status, read_token, status_ready, zero_command,
}
use gpp_aioptool.Mc.Wire.Fields.{mc_dec-mc_enc}
use gpp_aioptool.Mc.Wire.Header.{mc_encode_cmd_header-fields}
use gpp_aioptool.Mc.Portal.{mc_status_to_error, mc_send_command}
use gpp_aioptool.Mc.Portal.Exchange.{Pending, mc_send_command-Answers}
use gpp_aioptool.Dpaiop.Responses.{rsp_get_time_of_day}
use gpp_aioptool.Dpaiop.Calls.{query, send}
use gpp_aioptool.Dpaiop.Server.{error_of, query-serves, send-serves}
use gpp_aioptool.Dpaiop.Decode.{Request, command_of, decode}
use gpp_aioptool.Dpaiop.Decode.Roundtrip.{decode-command_of}
use gpp_aioptool.Tests.World.{
  device, server, serves, willing, stubborn, step, response-Answers, written,
}

abbrev load_request : Request
load_request =
    Request.load_image 5 (record { options = 0; img_iova = 8192; img_size = 5000; tpc = 4 })

decode-command_of_example : decode (command_of 0 load_request) ≡ some load_request
decode-command_of_example =
    decode-command_of 0 load_request
      (omega arith, omega arith, omega arith, omega arith, omega arith)

mc_send_command-Answers_example :
    mc_send_command device 3 (some (record { regs = 4096 })) zero_command stubborn
    ≡ done
        (pos 0, record { header = 5 * 2 ^ 32; params = 7 ∷ 8 ∷ 9 ∷ 0 ∷ 0 ∷ 0 ∷ 0 ∷ [] })
        (step stubborn)
unfolding read_status mc_dec mc_status_to_error
mc_send_command-Answers_example =
    mc_send_command-Answers device 4096 3 zero_command stubborn {t = step stubborn}
      (λ e. ground (arith, e)) refl
      (subst (λ v. Pending device 4096 (step stubborn) 0 v) (sym (written stubborn zero_command))
        Pending.now)
      (omega arith) (response-Answers (step stubborn))

query-serves_example :
    query device 3
      (some (record { regs = 4096 }))
      (command_of 0 (Request.get_time_of_day 5))
      rsp_get_time_of_day
      1
      willing
    ≡ done (pos 0, 7) (step willing)
unfolding error_of read_status mc_dec mc_status_to_error rsp_get_time_of_day
query-serves_example =
    query-serves device 3 4096 server serves 0 (Request.get_time_of_day 5) rsp_get_time_of_day 1
      willing (omega arith)

send-serves_example :
    send device 3
      (some (record { regs = 4096 }))
      (command_of 0 (Request.reset_tile 5))
      (record { submitted = 1; refused = 2 })
    ≡ done (neg 22) (record { submitted = 2; refused = 2 })
unfolding error_of read_status mc_dec mc_status_to_error
send-serves_example =
    send-serves device 3 4096 server serves 0 (Request.reset_tile 5)
      (record { submitted = 1; refused = 2 }) (omega arith)

mc_encode_cmd_header-fields_example :
    let hdr = mc_encode_cmd_header 0x8001 0 5 in
    (mc_dec hdr 48 16 ≡ 0x8001)
    × (read_token hdr ≡ 5)
    × (read_status hdr ≡ status_ready)
    × (mc_dec hdr 0 8 ≡ 0)
    × (mc_dec hdr 8 8 ≡ 0)
    × (mc_dec hdr 24 8 ≡ 0)
mc_encode_cmd_header-fields_example =
    mc_encode_cmd_header-fields 0x8001 0 5 (omega arith) (omega arith)

mc_dec-mc_enc_example : mc_dec (mc_enc 32 8 0x1FF) 32 8 ≡ 0xFF
mc_dec-mc_enc_example = mc_dec-mc_enc 32 8 0x1FF (omega arith)
