-- ===== src/Aiop/Ledger/Server.antt =====
-- The MC beside a ledger: it serves as before, and the ledger stays as it is.
use gpp_aioptool.Base.{ℕ, ◌≡◌, refl, ap, sym, subst}
use gpp_aioptool.Mc.Wire.{McCommand}
use gpp_aioptool.Mc.Portal.{Device, mc_write_command, write_params}
use gpp_aioptool.Mc.Portal.Exchange.{Pending, Answers}
use gpp_aioptool.Dpaiop.Server.{Server, Serves}
use gpp_aioptool.Aiop.Ledger.{ledger_device}

abbrev pub ledger_server : {S B : Type 0} → Server S → Server (S × B)
ledger_server serve (s, b) r = ((serve s r).0, ((serve s r).1, b))

module _ {S B : Type 0} (dev : Device S) (regs : ℕ) (b : B) where
  ledger-Pending :
      {t : S} {n : ℕ} {s : S}
      → Pending dev regs t n s
      → Pending (ledger_device dev) regs (t, b) n (s, b)
  ledger-Pending Pending.now = Pending.now
  ledger-Pending (Pending.later ready p) = Pending.later ready (ledger-Pending p)

  ledger-Answers :
      {t : S} {r : McCommand} → Answers dev regs t r → Answers (ledger_device dev) regs (t, b) r
  ledger-Answers a = record {
    header = ap (λ (v, s). (v, (s, b))) a.header;
    answered = a.answered;
    params = λ i h. ap (λ (v, s). (v, (s, b))) (a.params i h);
    seven = a.seven;
  }

  mc_write_command-ledger :
      (cmd : McCommand) (s : S)
      → mc_write_command (ledger_device dev) regs cmd (s, b) ≡ (mc_write_command dev regs cmd s, b)
  unfolding mc_write_command write_params
  mc_write_command-ledger cmd s = refl

pub ledger-Serves :
    {S B : Type 0} (dev : Device S) (polls regs : ℕ) (serve : Server S)
    → Serves dev polls regs serve
    → Serves (ledger_device {B = B} dev) polls regs (ledger_server serve)
ledger-Serves dev polls regs serve serves = record {
  mapped = serves.mapped;
  reply = λ (s, b) cmd r says.
      let (n, soon, pending, answers) = serves.reply s cmd r says in
      (
        n,
        soon,
        subst (Pending (ledger_device dev) regs _ n)
            (sym (mc_write_command-ledger dev regs b cmd s)) (ledger-Pending dev regs b pending),
        ledger-Answers dev regs b answers,
      );
}
