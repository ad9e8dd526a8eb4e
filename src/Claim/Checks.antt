-- ===== src/Claim/Checks.antt =====
-- The calls that the checks of the route in packages/backend/src/routes/claim.ts make.
use vpp_blockchain.Base.{Option, none, some, [], ◌∷◌, Text}
use vpp_blockchain.Base.Exec.{Result, ok, throw}
use vpp_blockchain.Base.Int.{parse_int}
use vpp_blockchain.Hmac.{Primitives, TokenError, verify_token}
use vpp_blockchain.Server.{now, get_survey_key, Prog, done, fail, ask, require, Thrown}
use vpp_blockchain.Server.Quiet.{Calm, Quiet-Calm, require-Calm, then-Calm}
use vpp_blockchain.Chain.{get_survey_info}
use vpp_blockchain.Chain.Writes.{IsRaised, get_survey_info-Quiet}
use vpp_blockchain.Claim.{
  Ethers, Settings, ClaimRequest, last_part, check_message, check_survey, settle_token,
}

or_fail-Calm :
    {A : Type 0} (o : Option A) (e : Thrown)
    → Calm (elim o as (λ _. Prog A) [ none ↦ fail e | some a ↦ done a ])
or_fail-Calm none e = tt
or_fail-Calm (some a) e = tt

key-Calm :
    (o : Option Text) (e : Thrown)
    → Calm (elim o as (λ _. Prog Text) [
      | none ↦ fail e
      | some [] ↦ fail e
      | some (c ∷ key) ↦ done (c ∷ key)
    ])
key-Calm none e = tt
key-Calm (some []) e = tt
key-Calm (some (c ∷ key)) e = tt

settle_token-Calm : {A : Type 0} (outcome : Result TokenError A) → Calm (settle_token outcome)
unfolding settle_token
settle_token-Calm (ok a) = tt
settle_token-Calm (throw e) = tt

module _ (ethers : Ethers) (node : Primitives) (settings : Settings) where
  pub check_message-Calm :
      (request : ClaimRequest) → Calm (check_message ethers node settings request)
  unfolding check_message
  check_message-Calm request =
      then-Calm _ _ (or_fail-Calm (parse_int (last_part [] request.message)) _) (λ timestamp.
        then-Calm (ask now) _ (tt, λ _. tt)
          (λ at. then-Calm (require _ _ _) _ (require-Calm _ _ _) (λ _.
            then-Calm (require _ _ _) _ (require-Calm _ _ _) (λ _.
              then-Calm _ _
                (or_fail-Calm (ethers.verify_message request.message request.signature) _)
                (λ recovered. require-Calm _ _ _)))))

  pub check_survey-Calm :
      (request : ClaimRequest) → Calm (check_survey ethers node settings request)
  unfolding check_survey
  check_survey-Calm request =
      then-Calm (get_survey_info request.survey_id) _
        (Quiet-Calm IsRaised _ (get_survey_info-Quiet request.survey_id))
        (λ info. then-Calm (require _ _ _) _ (require-Calm _ _ _) (λ _.
          then-Calm (require _ _ _) _ (require-Calm _ _ _) (λ _.
            then-Calm (ask (get_survey_key request.survey_id)) _ (tt, λ _. tt)
              (λ survey_key. then-Calm _ _ (key-Calm survey_key _) (λ key.
                then-Calm _ _
                  (settle_token-Calm
                    (verify_token node request.survey_id request.nonce key request.token))
                  (λ verified. then-Calm (require _ _ _) _ (require-Calm _ _ _) (λ _. tt)))))))
