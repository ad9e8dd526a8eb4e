-- ===== src/Claim.antt =====
-- packages/backend/src/routes/claim.ts: the two routes of the claim flow, as programs over the
-- calls of `Server`. The library ethers, Node's HMAC and the configuration are parameters.
pub mod Monitor
mod Checks
pub mod Once
mod World
mod Stages
mod Turns
mod Exclusive
mod Tests
use vpp_blockchain.Base.{
  ℕ, ◌+◌, ◌-◌, ◌*◌, ◌≡◌, Bool, true, false, ◌&&◌, ◌||◌, not, Option, none, some, List, [], ◌∷◌,
  ◌++◌, ltb, leb, ◌==◌, if◌then◌else◌, Text, text_eq, codes, to_lower_case,
}
use vpp_blockchain.Base.Exec.{Result, ok, throw}
use vpp_blockchain.Base.Int.{ℤ, pos, negsuc, ltb_ℤ, ◌-ℤ◌, ◌*ℤ◌, parse_int}
use vpp_blockchain.Errors.{ErrorValue}
use vpp_blockchain.Hmac.{
  Primitives, TokenError, verify_token, issue_token, is_valid_nonce_shape, is_valid_token_shape,
}
use vpp_blockchain.Chain.{Limits, get_survey_info, has_claimed, award, is_not_sent}
use vpp_blockchain.Server.{
  Call, now, get_survey_key, nonce_is_used, nonce_mark_used, nonce_release, random_nonce,
  sync_within, SurveyRow, Prog, done, fail, Thrown, app_error, raised, ErrorCode, validation_error,
  invalid_survey_id, survey_not_found, invalid_nonce_format, invalid_token_format, invalid_message,
  expired_message, invalid_timestamp, invalid_signature, survey_inactive, config_error,
  invalid_token, nonce_used, already_claimed, ask, settle, settle_store, catch, require, new_error,
  ◌>>=◌, ◌>>◌,
}

-- What the routes use of ethers: `verifyMessage` (`none` where it throws) and `isAddress`.
pub record Ethers : Type 0 where
  pub verify_message : Text → Text → Option Text
  pub is_address : Text → Bool

pub record Settings : Type 0 where
  pub limits : Limits
  pub max_message_age_ms : ℕ
  pub explorer_base_url : Text
  pub frontend_url : Text

-- A member of a parsed JSON body; a number that is not a whole positive one is `other` or 0.
pub data Json : Type 0 where
  str : Text → Json
  num : ℕ → Json
  other : Json

pub record ClaimBody : Type 0 where
  pub wallet_address : Json
  pub survey_id : Json
  pub nonce : Json
  pub token : Json
  pub signature : Json
  pub message : Json

pub record ClaimRequest : Type 0 where
  pub wallet_address : Text
  pub survey_id : ℕ
  pub nonce : Text
  pub token : Text
  pub signature : Text
  pub message : Text

pub record ClaimResult : Type 0 where
  pub tx_hash : Text
  pub points : ℕ
  pub explorer_url : Text

-- z.string().min(1)
non_empty : Json → Option Text
non_empty (str (c ∷ s)) = some (c ∷ s)
non_empty _ = none

-- z.number().int().positive()
positive : Json → Option ℕ
positive (num n) = if n == 0 then none else some n
positive _ = none

-- z.string().refine(ethers.isAddress)
address : Ethers → Json → Option Text
address ethers (str s) = if ethers.is_address s then some s else none
address ethers _ = none

-- claimSchema.safeParse(req.body)
unfoldable pub claim_schema : Ethers → ClaimBody → Option ClaimRequest
unfolding non_empty positive address
claim_schema ethers body = elim (address ethers body.wallet_address) [
  | none ↦ none
  | some wallet_address ↦ elim (positive body.survey_id) [
    | none ↦ none
    | some survey_id ↦ elim (non_empty body.nonce) [
      | none ↦ none
      | some nonce ↦ elim (non_empty body.token) [
        | none ↦ none
        | some token ↦ elim (non_empty body.signature) [
          | none ↦ none
          | some signature ↦ elim (non_empty body.message) [
            | none ↦ none
            | some message ↦ some (record {
              wallet_address = wallet_address;
              survey_id = survey_id;
              nonce = nonce;
              token = token;
              signature = signature;
              message = message;
            })
          ]
        ]
      ]
    ]
  ]
]

-- The last element of `message.split(':')`.
unfoldable pub last_part : Text → Text → Text
last_part part [] = part
last_part part (c ∷ s) = last_part (if c == b':' then [] else part ++ c ∷ []) s

-- Date.now() - timestamp * 1000
unfoldable pub message_age : ℕ → ℤ → ℤ
message_age at timestamp = pos at -ℤ (timestamp *ℤ 1000)

abbrev pub clock_skew : ℤ
clock_skew = negsuc 59999

unfoldable pub settle_token : {A : Type 0} → Result TokenError A → Prog A
settle_token (ok a) = done a
settle_token (throw e) = fail (raised (new_error (codes "Invalid surveyId or nonce")))

module _ (ethers : Ethers) (node : Primitives) (settings : Settings) where
  -- The checks of the signed message: step 1 and step 2.
  unfoldable pub check_message : ClaimRequest → Prog (Unit {0})
  unfolding last_part message_age
  check_message request = do
    timestamp ← elim (parse_int (last_part [] request.message)) [
      | none ↦ fail (app_error 400 invalid_message)
      | some t ↦ done t
    ]
    at ← ask now
    require (not (ltb_ℤ (pos settings.max_message_age_ms) (message_age at timestamp))) 400
        expired_message
    require (not (ltb_ℤ (message_age at timestamp) clock_skew)) 400 invalid_timestamp
    recovered_address ← elim (ethers.verify_message request.message request.signature) [
      | none ↦ fail (app_error 400 invalid_signature)
      | some a ↦ done a
    ]
    require (text_eq (to_lower_case recovered_address) (to_lower_case request.wallet_address)) 400
        invalid_signature

  -- The checks of the survey and of the token: step 3 and step 4.
  unfoldable pub check_survey : ClaimRequest → Prog SurveyRow
  unfolding settle_token
  check_survey request = do
    survey_info ← get_survey_info request.survey_id
    require (not (survey_info.registered_at == 0)) 404 survey_not_found
    require survey_info.active 410 survey_inactive
    survey_key ← ask (get_survey_key request.survey_id)
    key ← elim survey_key [
      | none ↦ fail (app_error 500 config_error)
      | some [] ↦ fail (app_error 500 config_error)
      | some (c ∷ key) ↦ done (c ∷ key)
    ]
    verified ← settle_token (verify_token node request.survey_id request.nonce key request.token)
    require verified 400 invalid_token
    done survey_info

  -- Step 5 up to the transaction: the nonce is consumed.
  unfoldable pub consume_nonce : ClaimRequest → Prog (Unit {0})
  consume_nonce request = do
    answer ← ask (nonce_is_used request.survey_id request.nonce)
    used ← settle_store answer
    require (not used) 409 nonce_used
    claimed ← has_claimed request.wallet_address request.survey_id
    require (not claimed) 409 already_claimed
    marked ← ask (nonce_mark_used request.survey_id request.nonce)
    consumed ← settle_store marked
    require consumed 409 nonce_used

  -- The `catch` around `awardPoints`: the nonce is given back if nothing was sent.
  unfoldable pub give_back : ClaimRequest → Thrown → Prog Text
  give_back request err =
      if is_not_sent err
      then (do
        released ← ask (nonce_release request.survey_id request.nonce)
        settle_store released
        fail err)
      else fail err

  unfoldable pub claim : ClaimBody → Prog ClaimResult
  unfolding check_message check_survey consume_nonce give_back
  claim body = do
    request ← elim (claim_schema ethers body) [
      | none ↦ fail (app_error 400 validation_error)
      | some request ↦ done request
    ]
    require (is_valid_nonce_shape request.nonce) 400 invalid_nonce_format
    require (is_valid_token_shape request.token) 400 invalid_token_format
    check_message request
    survey_info ← check_survey request
    consume_nonce request
    receipt ←
        catch (award settings.limits request.wallet_address request.survey_id) (give_back request)
    ask sync_within
    done (record {
      tx_hash = receipt;
      points = survey_info.points;
      explorer_url = settings.explorer_base_url ++ codes "/tx/" ++ receipt;
    })

  -- What the launch route puts into the fragment of the redirect.
  pub launch : Option ℕ → Prog (ℕ × Text × Text)
  unfolding settle_token
  launch param = do
    survey_id ← elim param [
      | none ↦ fail (app_error 400 invalid_survey_id)
      | some n ↦ if n == 0 || ltb 1000000 n then fail (app_error 400 invalid_survey_id) else done n
    ]
    survey_key ← ask (get_survey_key survey_id)
    key ← elim survey_key [
      | none ↦ fail (app_error 404 survey_not_found)
      | some [] ↦ fail (app_error 404 survey_not_found)
      | some (c ∷ key) ↦ done (c ∷ key)
    ]
    nonce ← ask random_nonce
    token ← settle_token (issue_token node survey_id nonce key)
    done (survey_id, nonce, token)
