-- ===== src/ClaimPage.antt =====
-- packages/frontend/src/pages/claim.tsx: the page that a claim link opens, and what it sends to the
-- claim route. The wallet and the answer of the route are inputs; what is rendered is not modelled but
-- for the step that is shown and the button that is disabled while the page works.

mod Accepted
mod Steps
mod Tests
use vpp_blockchain.Base.{
  ℕ, ◌/◌, Bool, true, false, ◌&&◌, not, Option, none, some, List, [], ◌∷◌, ◌++◌, leb, if◌then◌else◌,
  Text, codes, show_nat, has,
}
use vpp_blockchain.Base.Exec.{Result, ok, throw}
use vpp_blockchain.Sessions.{is_number, number_of}
use vpp_blockchain.Claim.{ClaimBody, str, num, other, Json, ClaimResult}

-- The three parameters of the link.
pub record Link : Type 0 where
  pub survey_id : Text
  pub nonce : Text
  pub token : Text

-- `get(key)` of the fragment, and of the query string of older links.
pub record Params : Type 0 where
  pub s : Option Text
  pub n : Option Text
  pub t : Option Text

-- a ?? b
or_else : Option Text → Option Text → Option Text
or_else none b = b
or_else (some a) b = some a

-- !surveyId || !nonce || !token
all_given : Option Text → Option Text → Option Text → Option Link
all_given (some (s ∷ survey_id)) (some (n ∷ nonce)) (some (t ∷ token)) =
    some (record { survey_id = s ∷ survey_id; nonce = n ∷ nonce; token = t ∷ token })
all_given _ _ _ = none

unfoldable pub read_link : Params → Params → Option Link
unfolding or_else all_given
read_link fragment query =
    all_given (or_else fragment.s query.s) (or_else fragment.n query.n) (or_else fragment.t query.t)

-- `Claim:${surveyId}:${address}:${timestamp}`, signed at `at` milliseconds
pub claim_message : Link → (address : Text) → (at : ℕ) → Text
claim_message link address at =
    codes "Claim:" ++ link.survey_id ++ b':' ∷ address ++ b':' ∷ show_nat (at / 1000)

-- Number(text): the value of decimal digits up to the largest safe integer. For any other text,
-- `other_spelling` is the value, as JSON sends it.
unfoldable pub number_of_text : (other_spelling : Text → Json) → Text → Json
number_of_text other_spelling text =
    if is_number text && leb (number_of 0 text) 9007199254740991
    then num (number_of 0 text)
    else other_spelling text

-- The arguments of claimPoints.
pub claim_request :
    (other_spelling : Text → Json) → Link → (address signature : Text) → (at : ℕ) → ClaimBody
claim_request other_spelling link address signature at = record {
  wallet_address = str address;
  survey_id = number_of_text other_spelling link.survey_id;
  nonce = str link.nonce;
  token = str link.token;
  signature = str signature;
  message = str (claim_message link address at);
}

pub data ClaimStep : Type 0 where
  wallet sign submit finished : ClaimStep

-- What handleSign waits for.
pub data Await : Type 0 where
  nothing for_signature for_answer : Await

pub record Page : Type 0 where
  pub current_step : ClaimStep
  pub loading : Bool
  pub error : Option Text
  pub result : Option ClaimResult
  pub awaits : Await

unfoldable pub open_page : Page
open_page = record {
  current_step = wallet;
  loading = false;
  error = none;
  result = none;
  awaits = nothing;
}

-- What claimPoints rejects with: an ApiRequestError with its code, or another error.
pub data Rejection : Type 0 where
  api : Text → Rejection
  unknown : Rejection

pub data Event : Type 0 where
  -- the effect that runs when there is a wallet
  wallet_found : Event
  -- a click on the button of the step `sign`
  clicked : Event
  -- the promise of `sign`
  signed sign_failed : Event
  -- the promise of `claimPoints`
  claimed : ClaimResult → Event
  claim_failed : Rejection → Event

-- The codes with a text of their own.
abbrev known_codes : List Text
known_codes =
    codes "ALREADY_CLAIMED"
    ∷ codes "INVALID_TOKEN"
    ∷ codes "INVALID_NONCE_FORMAT"
    ∷ codes "INVALID_TOKEN_FORMAT"
    ∷ codes "NONCE_USED"
    ∷ codes "SURVEY_INACTIVE"
    ∷ codes "SURVEY_NOT_FOUND"
    ∷ codes "MAX_CLAIMS_REACHED"
    ∷ codes "EXPIRED_MESSAGE"
    ∷ codes "INVALID_SIGNATURE"
    ∷ codes "RATE_LIMITED"
    ∷ codes "INSUFFICIENT_FUNDS"
    ∷ codes "ROLE_UNAUTHORIZED"
    ∷ codes "NETWORK_ERROR"
    ∷ codes "CONFIG_ERROR"
    ∷ []

-- The key of the text that is shown; a code without one gets the generic text.
error_text : Rejection → Text
error_text (api code) = if has code known_codes then code else codes "generic"
error_text unknown = codes "generic"

-- The catch and the finally of handleSign
fail_sign : Rejection → Page → Page
unfolding error_text
fail_sign e p = record p {
  error = some (error_text e);
  current_step = sign;
  loading = false;
  awaits = nothing;
}

find_wallet : ClaimStep → Page → Page
find_wallet wallet p = record p { current_step = sign }
find_wallet _ p = p

-- The button is there in the step `sign`, and disabled while loading.
click : ClaimStep → Bool → Page → Page
click sign false p = record p { loading = true; error = none; awaits = for_signature }
click _ _ p = p

settle_signature : Bool → Await → Page → Page
unfolding fail_sign
settle_signature true for_signature p = record p { current_step = submit; awaits = for_answer }
settle_signature false for_signature p = fail_sign unknown p
settle_signature _ _ p = p

settle_claim : Result Rejection ClaimResult → Await → Page → Page
unfolding fail_sign
settle_claim (ok r) for_answer p = record p {
  result = some r;
  current_step = finished;
  loading = false;
  awaits = nothing;
}
settle_claim (throw e) for_answer p = fail_sign e p
settle_claim _ _ p = p

pub handle : Page → Event → Page
unfolding find_wallet click settle_signature settle_claim
handle p wallet_found = find_wallet p.current_step p
handle p clicked = click p.current_step p.loading p
handle p signed = settle_signature true p.awaits p
handle p sign_failed = settle_signature false p.awaits p
handle p (claimed r) = settle_claim (ok r) p.awaits p
handle p (claim_failed e) = settle_claim (throw e) p.awaits p

pub handle_all : Page → List Event → Page
unfolding handle
handle_all p [] = p
handle_all p (e ∷ events) = handle_all (handle p e) events
