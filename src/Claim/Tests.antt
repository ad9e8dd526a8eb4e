-- ===== src/Claim/Tests.antt =====
-- A concrete request, from the body to the receipt.
use vpp_blockchain.Base.{
  ℕ, zero, suc, ◌≤◌, ◌≡◌, ◌≢◌, refl, true, false, none, some, List, [], ◌∷◌, Text, codes, text_eq,
  take,
}
use vpp_blockchain.Base.Exec.{ok}
use vpp_blockchain.Hmac.{Primitives}
use vpp_blockchain.Server.{
  Call, now, random_delay, get_balance, get_fee_data, contract_version, get_fractional, sync_within,
  invalidate_cache, delay, put_fractional, survey_info_centi, survey_info_whole, get_survey_key,
  has_key, create_key, rotate_key, delete_key, get_key_created_at, claimed, is_admin,
  is_wallet_submitted, total_points_centi, total_points_whole, estimate_gas, send, wait,
  nonce_is_used, nonce_mark_used, nonce_release, random_nonce, SurveyRow,
}
use vpp_blockchain.Claim.{
  Ethers, Settings, str, num, ClaimBody, ClaimRequest, claim_schema, claim, non_empty, positive,
  address,
}
use vpp_blockchain.Server.Quiet.{Env}
use vpp_blockchain.Claim.Monitor.{idle, held, spent, Ended, follow, Genuine}
use vpp_blockchain.Claim.Once.{claim_once}
use vpp_blockchain.NonceStore.Replay.{System, Valid}
use vpp_blockchain.Claim.World.{World, Event, turn, restart, happen_all, sends_for}
use vpp_blockchain.Claim.Exclusive.{claims_exclusive}

abbrev wallet : Text
wallet = codes "0xab"

abbrev ethers : Ethers
ethers = record {
  verify_message = λ message signature. some wallet;
  is_address = λ a. text_eq a wallet;
}

abbrev node : Primitives
node = record {
  hmac = λ key message. codes "01234567890123456789012345678901";
  to_base64url = λ bytes. bytes;
  from_base64url = λ text. take 32 text;
}

abbrev settings : Settings
settings = record {
  limits = record { min_balance = 10; max_fee_per_gas = 5000; max_priority_fee_per_gas = 100 };
  max_message_age_ms = 300000;
  explorer_base_url = codes "https://explorer";
  frontend_url = codes "https://app";
}

abbrev request : ClaimRequest
request = record {
  wallet_address = wallet;
  survey_id = 7;
  nonce = codes "0123456789abcdef";
  token = codes "0123456789012345678901234567890123456789abc";
  signature = codes "0x01";
  message = codes "claim:7:100";
}

abbrev body : ClaimBody
body = record {
  wallet_address = str request.wallet_address;
  survey_id = num request.survey_id;
  nonce = str request.nonce;
  token = str request.token;
  signature = str request.signature;
  message = str request.message;
}

abbrev row : SurveyRow
row = record {
  points = 250;
  max_claims = 0;
  claim_count = 0;
  active = true;
  registered_at = 1;
  title = codes "Survey";
}

-- A chain and a store on which every call succeeds, at the time that the message names.
abbrev answers : Env
answers n now = 100000
answers n random_delay = 0
answers n get_balance = ok 1000
answers n get_fee_data = ok (record { max_fee_per_gas = none; max_priority_fee_per_gas = none })
answers n contract_version = ok (codes "3.0.0")
answers n get_fractional = none
answers n sync_within = tt
answers n invalidate_cache = tt
answers n (delay ms) = tt
answers n (put_fractional f) = tt
answers n (survey_info_centi i) = ok row
answers n (survey_info_whole i) = ok row
answers n (get_survey_key i) = some (codes "key")
answers n (has_key i) = true
answers n (create_key i) = ok (codes "key")
answers n (rotate_key i) = ok (codes "key")
answers n (delete_key i) = ok true
answers n (get_key_created_at i) = none
answers n (claimed w i) = ok false
answers n (is_admin a) = ok true
answers n (is_wallet_submitted a) = ok false
answers n (total_points_centi a) = ok 0
answers n (total_points_whole a) = ok 0
answers n (estimate_gas tx o) = ok 50000
answers n (send tx o) = ok (codes "0xhash")
answers n (wait hash) = ok (some (codes "0xhash"))
answers n (nonce_is_used i m) = ok false
answers n (nonce_mark_used i m) = ok true
answers n (nonce_release i m) = ok tt
answers n random_nonce = request.nonce

answers-Genuine : (n : ℕ) (c : Call) → Genuine c (answers n c)
answers-Genuine n (send tx o) = tt
answers-Genuine n (wait hash) = tt
answers-Genuine n c = tt

accepted : claim_schema ethers body ≡ some request
unfolding claim_schema non_empty positive address text_eq
accepted = refl

claim_once_example :
    Ended
      (λ phase _. phase ≡ spent)
      (λ phase _. phase ≢ held)
      (follow 7 request.nonce answers 0 idle (claim ethers node settings body))
claim_once_example = claim_once ethers node settings body request answers accepted answers-Genuine

-- Two processes over an empty nonce file.
abbrev store : System
store = record { disk = record { file = none; stamp = 0; writable = true }; caches = λ i. none }

store-Valid : Valid store
store-Valid = record { fresh = λ i. tt }

-- Two claims take turns, and one process restarts in between.
abbrev turns : ℕ → List Event
turns zero = restart 0 ∷ []
turns (suc n) = turn 0 true ∷ turn 1 true ∷ turns n

abbrev world : World
world = record { store = store; programs = λ r. claim ethers node settings body; sent = [] }

claims_exclusive_example :
    sends_for (λ r. request) 7 request.nonce (happen_all (λ r. r) answers 0 (turns 40) world).sent
    ≤ 1
claims_exclusive_example =
    claims_exclusive ethers node settings (λ r. r) (λ r. body) (λ r. request) store answers
      (turns 40) 7 request.nonce (λ r. accepted) store-Valid answers-Genuine
