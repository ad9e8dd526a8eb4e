-- ===== src/Routes/Surveys.antt =====
-- packages/backend/src/routes/surveys.ts: registering surveys, switching them off and on, awarding
-- and revoking points by hand, and the keys. Points are in hundredths.
use vpp_blockchain.Base.{
  ℕ, ◌%◌, Bool, true, false, ◌&&◌, ◌||◌, not, Option, none, some, [], ◌∷◌, ltb, leb, ◌==◌,
  if◌then◌else◌, Text, text_eq,
}
use vpp_blockchain.Base.Exec.{ok, throw}
use vpp_blockchain.Chain.{
  supports_fractional_points, get_survey_info, has_claimed, write, register, award,
}
use vpp_blockchain.Server.{
  now, create_key, delete_key, rotate_key, has_key, get_survey_key, get_key_created_at, sync_within,
  invalidate_cache, deactivate_survey, reactivate_survey, revoke_points, SurveyRow, Prog, done,
  fail, Thrown, app_error, validation_error, survey_not_found, fractional_points_unsupported,
  survey_exists, key_exists, already_inactive, key_not_found, survey_inactive, already_claimed, ask,
  settle, catch, require, ◌>>=◌, ◌>>◌,
}
use vpp_blockchain.Routes.{Addresses, Config, Sent, sent, parse_survey_id, finish}

-- A JSON value for the points: a number from 0 on that `hasAtMostTwoDecimals` rounds to hundredths, any other number, or no number.
pub data Amount : Type 0 where
  hundredths : ℕ → Amount
  finer : Amount
  no_number : Amount

pub record RegisterBody : Type 0 where
  pub survey_id : Option ℕ
  pub points : Amount
  pub max_claims : Option ℕ
  pub title : Option Text

pub record Registration : Type 0 where
  pub survey_id : ℕ
  pub points : ℕ
  pub max_claims : ℕ
  pub title : Text

-- MAX_POINTS, in hundredths
abbrev pub max_points : ℕ
max_points = 25500

unfoldable pub or_default {ℓ} : {A : Type ℓ} → A → Option A → A
or_default d none = d
or_default d (some a) = a

-- registerSchema; an absent `maxClaims` or `title` takes its default, and a `surveyId` that is not
-- a whole number is `none`.
unfoldable pub register_schema : RegisterBody → Option Registration
unfolding or_default
register_schema body = elim body.survey_id [
  | none ↦ none
  | some survey_id ↦ elim body.points [
    | no_number ↦ none
    | finer ↦ none
    | hundredths points ↦
        if ltb 0 survey_id && ltb 0 points && leb points max_points
        then some (record {
          survey_id = survey_id;
          points = points;
          max_claims = or_default 0 body.max_claims;
          title = or_default [] body.title;
        })
        else none
  ]
]

pub record Registered : Type 0 where
  pub transaction : Sent
  pub key : Text
  pub key_created_at : ℕ

pub record KeyReply : Type 0 where
  pub survey_id : ℕ
  pub key : Text
  pub created_at : Option ℕ

pub record Awarded : Type 0 where
  pub student : Text
  pub points : ℕ
  pub transaction : Sent

-- registeredAt !== 0
pub is_registered : SurveyRow → Bool
is_registered info = not (info.registered_at == 0)

-- getKeyCreatedAt(surveyId) ?? Date.now()
unfoldable pub created_or_now : ℕ → Prog ℕ
created_or_now survey_id = do
  created ← ask (get_key_created_at survey_id)
  elim created [ none ↦ ask now | some at ↦ done at ]

-- The refusal of a fractional number of points on an old contract.
unfoldable pub check_fraction : ℕ → Prog (Unit {0})
check_fraction points = if points % 100 == 0 then done tt else do
  supported ← supports_fractional_points
  require supported 409 fractional_points_unsupported

-- The `catch` around `registerSurvey`.
unfoldable pub roll_back : {A : Type 0} → ℕ → Thrown → Prog A
roll_back survey_id err = do
  deleted ← ask (delete_key survey_id)
  removed ← settle deleted
  fail err

-- try { createKey(surveyId) } catch { throw KEY_EXISTS }
unfoldable pub fresh_key : ℕ → Prog Text
fresh_key survey_id = do
  created ← ask (create_key survey_id)
  elim created [ ok key ↦ done key | throw e ↦ fail (app_error 409 key_exists) ]

-- isAddress and the refinements of revokeSchema and awardSchema
unfoldable pub student_of : Addresses → Bool → Option Text → Prog Text
student_of addresses zero_allowed none = fail (app_error 400 validation_error)
student_of addresses zero_allowed (some a) =
    if addresses.is_address a && (zero_allowed || not (text_eq a addresses.zero_address))
    then done a
    else fail (app_error 400 validation_error)

module _ (addresses : Addresses) (config : Config) where
  -- The part of the registration after the checks.
  unfoldable pub register_with_key : Registration → Prog Registered
  register_with_key request = do
    key ← fresh_key request.survey_id
    receipt ←
        catch
          (register config.limits request.survey_id request.points request.max_claims request.title)
          (roll_back request.survey_id)
    ask sync_within
    ask invalidate_cache
    created_at ← created_or_now request.survey_id
    done (record { transaction = sent config receipt; key = key; key_created_at = created_at })

  -- POST /
  unfoldable pub register_route : RegisterBody → Prog Registered
  register_route body = do
    request ← elim (register_schema body) [
      | none ↦ fail (app_error 400 validation_error)
      | some request ↦ done request
    ]
    check_fraction request.points
    existing ← get_survey_info request.survey_id
    require (not (is_registered existing)) 409 survey_exists
    register_with_key request

  -- POST /:id/deactivate
  unfoldable pub deactivate_route : Text → Prog Sent
  deactivate_route raw = do
    survey_id ← parse_survey_id raw
    info ← get_survey_info survey_id
    require (is_registered info) 404 survey_not_found
    require info.active 409 already_inactive
    receipt ← write config.limits (deactivate_survey survey_id)
    finish (sent config receipt)

  -- POST /:id/reactivate
  unfoldable pub reactivate_route : Text → Prog Sent
  reactivate_route raw = do
    survey_id ← parse_survey_id raw
    info ← get_survey_info survey_id
    require (is_registered info) 404 survey_not_found
    receipt ← write config.limits (reactivate_survey survey_id)
    finish (sent config receipt)

  -- POST /:id/revoke
  unfoldable pub revoke_route : Text → Option Text → Prog Sent
  revoke_route raw student = do
    survey_id ← parse_survey_id raw
    wallet ← student_of addresses true student
    receipt ← write config.limits (revoke_points wallet survey_id)
    finish (sent config receipt)

  -- The part of the award after the address is known.
  unfoldable pub award_to : ℕ → Text → Prog Awarded
  award_to survey_id student = do
    info ← get_survey_info survey_id
    require (is_registered info) 404 survey_not_found
    require info.active 410 survey_inactive
    claimed ← has_claimed student survey_id
    require (not claimed) 409 already_claimed
    receipt ← award config.limits student survey_id
    finish (record { student = student; points = info.points; transaction = sent config receipt })

  -- POST /:id/award
  unfoldable pub award_route : Text → Option Text → Prog Awarded
  award_route raw student = do
    survey_id ← parse_survey_id raw
    wallet ← student_of addresses false student
    award_to survey_id (addresses.get_address wallet)

stored_key : ℕ → Prog Text
stored_key survey_id = do
  key ← ask (get_survey_key survey_id)
  elim key [
    | none ↦ fail (app_error 404 key_not_found)
    | some [] ↦ fail (app_error 404 key_not_found)
    | some (c ∷ k) ↦ done (c ∷ k)
  ]

-- POST /:id/template: the survey, key and points that the generated file embeds.
pub template_route : Text → Prog (ℕ × Text × ℕ)
unfolding stored_key
template_route raw = do
  survey_id ← parse_survey_id raw
  info ← get_survey_info survey_id
  require (is_registered info) 404 survey_not_found
  key ← stored_key survey_id
  done (survey_id, key, info.points)

-- createdAt ? … : null
shown : Option ℕ → Option ℕ
shown none = none
shown (some at) = if at == 0 then none else some at

-- GET /:id/key
pub key_route : Text → Prog KeyReply
unfolding stored_key shown
key_route raw = do
  survey_id ← parse_survey_id raw
  key ← stored_key survey_id
  created ← ask (get_key_created_at survey_id)
  done (record { survey_id = survey_id; key = key; created_at = shown created })

-- POST /:id/key/rotate
pub rotate_route : Text → Prog KeyReply
rotate_route raw = do
  survey_id ← parse_survey_id raw
  info ← get_survey_info survey_id
  require (is_registered info) 404 survey_not_found
  present ← ask (has_key survey_id)
  made ← elim present [ true ↦ ask (rotate_key survey_id) | false ↦ ask (create_key survey_id) ]
  key ← settle made
  at ← created_or_now survey_id
  done (record { survey_id = survey_id; key = key; created_at = some at })
