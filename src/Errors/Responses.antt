-- ===== src/Errors/Responses.antt =====
-- packages/backend/src/middleware/errorHandler.ts: which status and code a request is answered
-- with after a handler failed. The texts for people are left out.
use vpp_blockchain.Base.{
  ℕ, ◌≤◌, Bool, true, false, ◌&&◌, not, Option, none, some, List, [], ◌∷◌, if◌then◌else◌, Text,
  text_eq, codes, starts_with, All, Bool-cases, inl, inr, arith,
}
use vpp_blockchain.Errors.{ErrorValue, nothing, primitive, string, object}
use vpp_blockchain.Errors.Range.{lit, test}

pub record Response : Type 0 where
  pub status : ℕ
  pub error : Text

-- A member of REVERT_MAP: the name of the contract's error, and the response.
abbrev pub Revert : Type 0
Revert = Text × Response

abbrev entry : Text → ℕ → Text → Revert
entry name status code = (name, record { status = status; error = code })

-- REVERT_MAP, in the order of its keys
unfoldable pub revert_map : List Revert
revert_map =
    entry (codes "AlreadyClaimed") 409 (codes "ALREADY_CLAIMED")
    ∷ entry (codes "SurveyNotActive") 400 (codes "SURVEY_INACTIVE")
    ∷ entry (codes "MaxClaimsReached") 400 (codes "MAX_CLAIMS_REACHED")
    ∷ entry (codes "InvalidSecret") 400 (codes "INVALID_SECRET")
    ∷ entry (codes "NotClaimed") 404 (codes "NOT_CLAIMED")
    ∷ entry (codes "SurveyAlreadyActive") 409 (codes "SURVEY_ALREADY_ACTIVE")
    ∷ entry (codes "LastAdmin") 409 (codes "LAST_ADMIN")
    ∷ entry (codes "SurveyAlreadyExists") 409 (codes "SURVEY_EXISTS")
    ∷ entry (codes "InvalidSurveyId") 400 (codes "INVALID_SURVEY_ID")
    ∷ entry (codes "InvalidPoints") 400 (codes "INVALID_POINTS")
    ∷ entry (codes "SurveyNotFound") 404 (codes "SURVEY_NOT_FOUND")
    ∷ entry (codes "ZeroAddress") 400 (codes "ZERO_ADDRESS")
    ∷ entry (codes "WalletAlreadySubmitted") 409 (codes "ALREADY_SUBMITTED")
    ∷ entry (codes "WalletNotSubmitted") 404 (codes "NOT_SUBMITTED")
    ∷ entry (codes "AccessControlUnauthorizedAccount") 403 (codes "ROLE_UNAUTHORIZED")
    ∷ []

-- REVERT_MAP[name]
pub lookup : List Revert → Text → Option Response
lookup [] name = none
lookup ((key, response) ∷ rest) name = if text_eq key name then some response else lookup rest name

-- text.includes(part)
pub contains : Text → Text → Bool
contains [] part = starts_with [] part
contains (c ∷ s) part = if starts_with (c ∷ s) part then true else contains s part

-- The first key that the text contains.
pub first_named : List Revert → Text → Option Response
unfolding contains
first_named [] text = none
first_named ((key, response) ∷ rest) text =
    if contains text key then some response else first_named rest text

-- revertData?.name ?? reason
error_name : Option Text → Option Text → Option Text
error_name none reason = reason
error_name (some name) reason = some name

or_try {ℓ} : {A : Type ℓ} → Option A → Option A → Option A
or_try none b = b
or_try (some a) b = some a

chained : {A : Type 0} → Option Text → (Text → Option A) → Option A
chained none f = none
chained (some []) f = none
chained (some (c ∷ s)) f = f (c ∷ s)

pub parse_contract_error : ErrorValue → Option Response
unfolding error_name or_try chained lookup first_named
parse_contract_error (object p error info cause) =
    or_try (chained (error_name p.revert_name p.reason) (lookup revert_map))
      (chained p.short_message (first_named revert_map))
parse_contract_error _ = none

abbrev no_funds : Response
no_funds = record { status = 503; error = codes "INSUFFICIENT_FUNDS" }

says_no_funds : Option Text → Bool
says_no_funds none = false
says_no_funds (some message) =
    test (lit (codes "insufficient funds") ∷ []) message
    && not (test (lit (codes "revert") ∷ []) message)

is_no_funds_code : Option Text → Bool
is_no_funds_code none = false
is_no_funds_code (some code) = text_eq code (codes "INSUFFICIENT_FUNDS")

pub parse_provider_error : ErrorValue → Option Response
unfolding says_no_funds is_no_funds_code
parse_provider_error (object p error info cause) =
    if is_no_funds_code p.code
    then some no_funds
    else if says_no_funds p.message
    then some no_funds
    else none
parse_provider_error _ = none

abbrev internal_error : Response
internal_error = record { status = 500; error = codes "INTERNAL_ERROR" }

pub answered : Option Response → Option Response → Response
answered (some r) _ = r
answered none (some r) = r
answered none none = internal_error

-- errorHandler for an error that is no AppError.
pub unexpected : ErrorValue → Response
unfolding answered parse_contract_error parse_provider_error
unexpected err = answered (parse_contract_error err) (parse_provider_error err)

abbrev IsFailure : Response → Type 0
IsFailure r = (400 ≤ r.status) × (r.status ≤ 503)

abbrev WellFormed : Option Response → Type 0
WellFormed none = Unit {0}
WellFormed (some r) = IsFailure r

lookup-WellFormed :
    (l : List Revert) (name : Text) → All (λ e. IsFailure e.1) l → WellFormed (lookup l name)
unfolding lookup
lookup-WellFormed [] name h = tt
lookup-WellFormed ((key, r) ∷ rest) name h = elim (Bool-cases (text_eq key name)) [
  | inl t ↦ rw (t, lookup, if◌then◌else◌) h.0
  | inr t ↦ rw (t, lookup, if◌then◌else◌) (lookup-WellFormed rest name h.1)
]

first_named-WellFormed :
    (l : List Revert) (text : Text) → All (λ e. IsFailure e.1) l → WellFormed (first_named l text)
unfolding first_named
first_named-WellFormed [] text h = tt
first_named-WellFormed ((key, r) ∷ rest) text h = elim (Bool-cases (contains text key)) [
  | inl t ↦ rw (t, first_named, if◌then◌else◌) h.0
  | inr t ↦ rw (t, first_named, if◌then◌else◌) (first_named-WellFormed rest text h.1)
]

revert_map-WellFormed : All (λ e. IsFailure e.1) revert_map
unfolding revert_map
revert_map-WellFormed = ground arith

answered-WellFormed :
    (p q : Option Response) → WellFormed p → WellFormed q → IsFailure (answered p q)
unfolding answered
answered-WellFormed (some r) q h k = h
answered-WellFormed none (some r) h k = k
answered-WellFormed none none h k = ground arith

or_try-WellFormed : (p q : Option Response) → WellFormed p → WellFormed q → WellFormed (or_try p q)
unfolding or_try
or_try-WellFormed none q h k = k
or_try-WellFormed (some r) q h k = h

chained-WellFormed :
    (o : Option Text) (f : Text → Option Response)
    → ((t : Text) → WellFormed (f t))
    → WellFormed (chained o f)
unfolding chained
chained-WellFormed none f h = tt
chained-WellFormed (some []) f h = tt
chained-WellFormed (some (c ∷ s)) f h = h (c ∷ s)

parse_contract_error-WellFormed : (err : ErrorValue) → WellFormed (parse_contract_error err)
unfolding parse_contract_error
parse_contract_error-WellFormed (object p error info cause) =
    or_try-WellFormed _ _
      (chained-WellFormed (error_name p.revert_name p.reason) (lookup revert_map)
        (λ t. lookup-WellFormed revert_map t revert_map-WellFormed))
      (chained-WellFormed p.short_message (first_named revert_map)
        (λ t. first_named-WellFormed revert_map t revert_map-WellFormed))
parse_contract_error-WellFormed nothing = tt
parse_contract_error-WellFormed primitive = tt
parse_contract_error-WellFormed (string s) = tt

parse_provider_error-WellFormed : (err : ErrorValue) → WellFormed (parse_provider_error err)
unfolding parse_provider_error
parse_provider_error-WellFormed (object p error info cause) =
    elim (Bool-cases (is_no_funds_code p.code)) [
      | inl t ↦ rw (t, parse_provider_error, if◌then◌else◌) (ground arith)
      | inr t ↦ elim (Bool-cases (says_no_funds p.message)) [
        | inl u ↦ rw (t, u, parse_provider_error, if◌then◌else◌) (ground arith)
        | inr u ↦ rw (t, u, parse_provider_error, if◌then◌else◌) tt
      ]
    ]
parse_provider_error-WellFormed nothing = tt
parse_provider_error-WellFormed primitive = tt
parse_provider_error-WellFormed (string s) = tt

-- Whatever a handler throws that is no error of the application, the request is answered with a
-- status from 400 to 503: no error is taken for a success, whatever its properties are.
pub unexpected-IsFailure :
    (err : ErrorValue) → (400 ≤ (unexpected err).status) × ((unexpected err).status ≤ 503)
unfolding unexpected
unexpected-IsFailure err =
    answered-WellFormed (parse_contract_error err) (parse_provider_error err)
      (parse_contract_error-WellFormed err) (parse_provider_error-WellFormed err)
