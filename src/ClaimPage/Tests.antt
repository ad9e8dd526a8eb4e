-- ===== src/ClaimPage/Tests.antt =====
-- The page of packages/frontend/src/pages/claim.tsx at concrete inputs.
use vpp_blockchain.Base.{
  ◌≡◌, refl, true, none, some, List, [], ◌∷◌, arith, Text, codes, to_lower_case, show_nat,
}
use vpp_blockchain.Hmac.{Primitives}
use vpp_blockchain.Claim.{Ethers, Settings, ClaimResult, Json, other, claim_schema, check_message}
use vpp_blockchain.ClaimPage.{
  Link, Params, read_link, claim_message, claim_request, finished, open_page, Event, wallet_found,
  clicked, signed, sign_failed, claimed, claim_failed, api, handle_all,
}
use vpp_blockchain.ClaimPage.Accepted.{on_clock, parsed, page-accepted}

abbrev ethers : Ethers
ethers = record {
  verify_message = λ message signature. some (codes "0xAb");
  is_address = λ a. true;
}

abbrev node : Primitives
node = record { hmac = λ key message. []; to_base64url = λ b. b; from_base64url = λ t. t }

abbrev settings : Settings
settings = record {
  limits = record { min_balance = 10; max_fee_per_gas = 5000; max_priority_fee_per_gas = 100 };
  max_message_age_ms = 60000;
  explorer_base_url = codes "https://explorer";
  frontend_url = codes "https://app";
}

-- A link with the parameters in the fragment, and an old one with the token in the query.
abbrev fragment : Params
fragment = record { s = some (codes "7"); n = some (codes "nonce"); t = none }

abbrev query : Params
query = record { s = some (codes "8"); n = none; t = some (codes "token") }

abbrev link : Link
link = record { survey_id = codes "7"; nonce = codes "nonce"; token = codes "token" }

link_read : read_link fragment query ≡ some link
unfolding read_link
link_read = refl

message : claim_message link (codes "0xab") 1700000123456 ≡ codes "Claim:7:0xab:1700000123"
unfolding claim_message show_nat
message = refl

abbrev no_number : Text → Json
no_number text = other

page-accepted_example :
    (claim_schema ethers (claim_request no_number link (codes "0xab") (codes "0x1") 1700000123456)
      ≡ some (parsed ethers node settings link 7 (codes "0xab") (codes "0x1") 1700000123456))
    × (on_clock 1700000130000 (
          check_message ethers node settings
            (parsed ethers node settings link 7 (codes "0xab") (codes "0x1") 1700000123456))
        ≡ some tt)
unfolding to_lower_case show_nat
page-accepted_example =
    page-accepted ethers node settings no_number fragment query link 6 (codes "0xab") (codes "0xAb")
      b'0' (codes "x1") 1700000123456 1700000130000 link_read refl (omega arith) refl refl refl
      (omega arith) (omega arith)

abbrev receipt : ClaimResult
receipt = record { tx_hash = codes "0xhash"; points = 250; explorer_url = codes "https://explorer" }

-- The first signature is refused, the first claim rejected; a click while the page works does nothing.
abbrev events : List Event
events =
    wallet_found
    ∷ clicked
    ∷ sign_failed
    ∷ clicked
    ∷ clicked
    ∷ signed
    ∷ claim_failed (api (codes "NONCE_USED"))
    ∷ clicked
    ∷ signed
    ∷ claimed receipt
    ∷ []

shown : (handle_all open_page events).current_step ≡ finished
unfolding handle_all open_page
shown = refl
