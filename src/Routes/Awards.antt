-- ===== src/Routes/Awards.antt =====
-- The transactions of the handlers in packages/backend/src/routes/surveys.ts.
use vpp_blockchain.Base.{
  ℕ, ◌≡◌, refl, Bool, true, false, not, ◌&&◌, ◌||◌, some, Text, text_eq, inl, inr, Bool-cases,
  if◌then◌else◌,
}
use vpp_blockchain.Server.{
  Tx, award_points, revoke_points, deactivate_survey, reactivate_survey, Prog, require, ◌>>=◌,
}
use vpp_blockchain.Server.Quiet.{Calm, Quiet-Calm, require-Calm}
use vpp_blockchain.Chain.{write, award, get_survey_info, has_claimed}
use vpp_blockchain.Chain.Writes.{IsRaised, get_survey_info-Quiet, has_claimed-Quiet}
use vpp_blockchain.Routes.{Addresses, Config, sent, parse_survey_id, survey_id_of, finish}
use vpp_blockchain.Routes.Sends.{Once, before-Once, after-Once, write-Once, award-Once}
use vpp_blockchain.Routes.Surveys.{
  deactivate_route, reactivate_route, revoke_route, award_to, award_route, student_of,
}

parsed-Once :
    {A : Type 0} (Good : Tx → Type 0) (raw : Text) (id : ℕ) (f : ℕ → Prog A)
    → survey_id_of raw ≡ some id
    → Once Good (f id)
    → Once Good (parse_survey_id raw >>= f)
unfolding parse_survey_id ◌>>=◌
parsed-Once Good raw id f e h = rw (e, parse_survey_id) h

student-Once :
    {A : Type 0} (Good : Tx → Type 0) (addresses : Addresses) (zero : Bool) (a : Text)
    (f : Text → Prog A)
    → Once Good (f a)
    → Once Good (student_of addresses zero (some a) >>= f)
unfolding student_of ◌>>=◌
student-Once Good addresses zero a f h =
    elim (Bool-cases (addresses.is_address a && (zero || not (text_eq a addresses.zero_address)))) [
      | inl t ↦ rw (t, student_of, if◌then◌else◌) h
      | inr t ↦ rw (t, student_of, if◌then◌else◌) tt
    ]

info-Calm : (survey_id : ℕ) → Calm (get_survey_info survey_id)
info-Calm survey_id = Quiet-Calm IsRaised _ (get_survey_info-Quiet survey_id)

finish-Calm : {A : Type 0} (a : A) → Calm (finish a)
unfolding finish ◌>>=◌
finish-Calm a = (tt, λ _. (tt, λ _. tt))

written-Once :
    {A : Type 0} (Good : Tx → Type 0) (config : Config) (tx : Tx) (f : Text → A)
    → Good tx
    → Once Good (write config.limits tx >>= λ receipt. finish (f receipt))
written-Once Good config tx f good =
    after-Once Good (write config.limits tx) _ (write-Once Good config.limits tx good)
      (λ receipt. finish-Calm (f receipt))

module _ (addresses : Addresses) (config : Config) where
  award_to-Once :
      (survey_id : ℕ) (student : Text)
      → Once
          (λ tx. tx ≡ award_points student survey_id)
          (award_to addresses config survey_id student)
  unfolding award_to
  award_to-Once survey_id student =
      let Good : Tx → Type 0 = λ tx. tx ≡ award_points student survey_id in
      before-Once Good (get_survey_info survey_id) _ (info-Calm survey_id) (λ info.
        before-Once Good (require _ _ _) _ (require-Calm _ _ _) (λ _.
          before-Once Good (require _ _ _) _ (require-Calm _ _ _) (λ _.
            before-Once Good (has_claimed student survey_id) _
              (Quiet-Calm IsRaised _ (has_claimed-Quiet student survey_id))
              (λ claimed. before-Once Good (require _ _ _) _ (require-Calm _ _ _) (λ _.
                after-Once Good (award config.limits student survey_id) _
                  (award-Once Good config.limits student survey_id refl)
                  (λ receipt. finish-Calm _))))))

  -- The award by hand, for an accepted survey number and any address: on every run it sends nothing,
  -- or once the award of exactly that survey to the checksummed form of exactly that address.
  pub award_route-Once :
      (raw a : Text) (id : ℕ)
      → survey_id_of raw ≡ some id
      → Once
          (λ tx. tx ≡ award_points (addresses.get_address a) id)
          (award_route addresses config raw (some a))
  unfolding award_route
  award_route-Once raw a id e =
      let Good : Tx → Type 0 = λ tx. tx ≡ award_points (addresses.get_address a) id in
      parsed-Once Good raw id _ e
        (student-Once Good addresses false a _ (award_to-Once id (addresses.get_address a)))

  -- Revoking, deactivating and reactivating, for an accepted survey number: on every run each sends
  -- nothing, or once its own transaction for exactly that survey.
  pub survey_routes-Once :
      (raw a : Text) (id : ℕ)
      → survey_id_of raw ≡ some id
      → Once (λ tx. tx ≡ revoke_points a id) (revoke_route addresses config raw (some a))
        × Once (λ tx. tx ≡ deactivate_survey id) (deactivate_route addresses config raw)
        × Once (λ tx. tx ≡ reactivate_survey id) (reactivate_route addresses config raw)
  unfolding revoke_route deactivate_route reactivate_route
  survey_routes-Once raw a id e =
      let Revoke : Tx → Type 0 = λ tx. tx ≡ revoke_points a id in
      let Deactivate : Tx → Type 0 = λ tx. tx ≡ deactivate_survey id in
      let Reactivate : Tx → Type 0 = λ tx. tx ≡ reactivate_survey id in
      (
        parsed-Once Revoke raw id _ e (
            student-Once Revoke addresses true a _
              (written-Once Revoke config (revoke_points a id) (sent config) refl)),
        parsed-Once Deactivate raw id _ e (
            before-Once Deactivate (get_survey_info id) _ (info-Calm id) (λ info.
              before-Once Deactivate (require _ _ _) _ (require-Calm _ _ _) (λ _.
                before-Once Deactivate (require _ _ _) _ (require-Calm _ _ _) (λ _.
                  written-Once Deactivate config (deactivate_survey id) (sent config) refl)))),
        parsed-Once Reactivate raw id _ e (
            before-Once Reactivate (get_survey_info id) _ (info-Calm id) (λ info.
              before-Once Reactivate (require _ _ _) _ (require-Calm _ _ _)
                (λ _. written-Once Reactivate config (reactivate_survey id) (sent config) refl))),
      )
