-- ===== src/Aiop/Session/Total.antt =====
-- The operations of `Aiop.Session` return, whatever the server answers.
use gpp_aioptool.Base.{
  ℕ, ◌≡◌, ◌≢◌, refl, arith, inl, inr, true, false, Bool-cases, ◌⊎◌, ℤ, is_zero, is_zero-eq, ◌==◌,
  ◌<◌, ◌^◌, Returns,
}
use gpp_aioptool.Os.{Os}
use gpp_aioptool.Dpaiop.Types.{IsInt}
use gpp_aioptool.Dpaiop.Decode.{Request}
use gpp_aioptool.Dpaiop.Server.{Server, Serves, error_of}
use gpp_aioptool.Aiop.Types.{AioptObj, AioptStatus, with_token, aiopt_success, aiopt_failure}
use gpp_aioptool.Aiop.Session.{sizeof_mc_io, aiopt_gettod, aiopt_settod, aiopt_status, aiopt_reset}
use gpp_aioptool.Aiop.Session.Outcome.{
  session-refused, aiopt_gettod-opened, aiopt_settod-opened, aiopt_status-opened,
  aiopt_reset-opened,
}

abbrev pub IsResult : ℤ → Type 0
IsResult r = (r ≡ aiopt_success) ⊎ (r ≡ aiopt_failure)

module _ {S : Type 0} (os : Os S) (polls : ℕ) (serve : Server S) (obj : AioptObj)
    (id : IsInt obj.aiop.id) (serves : Serves os.device polls obj.mcp_addr serve) (s : S) where
  -- Success or failure, and the object gains a token at most.
  abbrev pub Ends : ℤ → AioptObj → Type 0
  Ends r obj' = IsResult r × (obj' ≡ with_token obj obj'.aiop.token)

  abbrev pub SessionReturns : (tod : ℕ) → AioptStatus → Type 0
  SessionReturns tod st =
      Returns (λ (r, obj', got) t. Ends r obj') (aiopt_gettod os polls obj tod s)
      × Returns (λ (r, obj') t. Ends r obj') (aiopt_settod os polls obj tod s)
      × Returns (λ (r, obj', st') t. Ends r obj') (aiopt_status os polls obj st s)
      × Returns (λ (r, obj') t. Ends r obj') (aiopt_reset os polls obj s)

  null_lem :
      (tod : ℕ) (st : AioptStatus)
      → ((os.calloc sizeof_mc_io s).0 == 0) ≡ true
      → SessionReturns tod st
  unfolding aiopt_gettod aiopt_settod aiopt_status aiopt_reset
  null_lem tod st null = (
    rw null (inr refl, refl),
    rw null (inr refl, refl),
    rw null (inr refl, refl),
    rw null (inr refl, refl),
  )

  not_null : ((os.calloc sizeof_mc_io s).0 == 0) ≡ false → (os.calloc sizeof_mc_io s).0 ≢ 0
  not_null there e = ground (arith, there, e)

  -- Let the MC behind the portal be a server of requests, the id an `int`, and the time below 2 ^
  -- 64. Each of the four operations returns, whatever the server answers and whether or not memory
  -- is left; its result is success or failure, and of the object only the token may change.
  pub session-Returns : (tod : ℕ) (st : AioptStatus) → tod < 2 ^ 64 → SessionReturns tod st
  session-Returns tod st range =
      let mem = os.calloc sizeof_mc_io s in
      elim (Bool-cases (mem.0 == 0)) [
        | inl null ↦ null_lem tod st null
        | inr there ↦
            elim (Bool-cases
              (is_zero (error_of (serve mem.1 (Request.open_session obj.aiop.id)).0))) [
                | inr refused ↦
                    let all =
                      session-refused os polls serve obj id serves s mem.1 mem.0 refl
                        (not_null there) tod st refused in
                    (
                      rw all.0 (inr refl, refl),
                      rw all.1 (inr refl, refl),
                      rw all.2 (inr refl, refl),
                      rw all.3 (inr refl, refl),
                    )
                | inl fine ↦
                    let opened = is_zero-eq _ fine in
                    (
                      rw
                          (aiopt_gettod-opened os polls serve obj id serves s mem.1 mem.0 refl
                            (not_null there) opened tod)
                          (ground arith, refl),
                      rw
                          (aiopt_settod-opened os polls serve obj id serves s mem.1 mem.0 refl
                            (not_null there) opened tod range)
                          (ground arith, refl),
                      rw
                          (aiopt_status-opened os polls serve obj id serves s mem.1 mem.0 refl
                            (not_null there) opened st)
                          (ground arith, refl),
                      rw
                          (aiopt_reset-opened os polls serve obj id serves s mem.1 mem.0 refl
                            (not_null there) opened)
                          (ground arith, refl),
                    )
              ]
      ]
