-- ===== src/Auth/Tests.antt =====
-- Concrete requests of administrators.
use vpp_blockchain.Base.{
  ◌≡◌, ◌≢◌, ◌↔◌, refl, arith, true, none, some, List, [], ◌∷◌, ◌++◌, Text, codes, text_eq, show_nat,
  to_lower_case, starts_with,
}
use vpp_blockchain.Base.Exec.{ok}
use vpp_blockchain.Sessions.{
  issue_session, read_session, read_parts, split_dot, mac, join_bar, is_lower_address, is_number,
  is_hex, all_of, number_of, consume_login_nonce,
}
use vpp_blockchain.Claim.{message_age}
use vpp_blockchain.Base.Int.{parse_int, is_space}
use vpp_blockchain.Auth.{
  Config, Request, AuthState, Waiting, passed, session_role, signed_role, asks, decided,
  require_admin, require_admin_action, resume, last_word,
}
use vpp_blockchain.Auth.Replay.{Other, others_resume, action_once}
use vpp_blockchain.Auth.Passed.{Authorized, action_passes_iff}
use vpp_blockchain.Auth.Cache.{Recent, require_admin-Recent}

abbrev wallet : Text
wallet = codes "0x0123456789012345678901234567890123456789"

abbrev cfg : Config
cfg = record {
  crypto = record { hmac_hex = λ secret message. message; get_address = λ a. a };
  secret = codes "secret";
  frontend_origin = codes "https://app";
  max_message_age_ms = 300000;
  verify_message = λ message signature. some wallet;
}

abbrev empty : AuthState
empty = record { role_cache = []; used_action_signatures = [] }

abbrev message : Text
message = codes "Add admin 0xAB at 1000"

-- The second request has the signature in other letters, in a header.
abbrev first_request : Request
first_request = record {
  method = codes "POST";
  origin = none;
  cookie = none;
  body_signature = some (codes "0xfe");
  body_message = some message;
  header_signature = none;
  header_message = none;
}

abbrev second_request : Request
second_request = record first_request {
  body_signature = none;
  header_signature = some (codes "0xFE");
}

first_asks :
    require_admin_action cfg 1000500 (codes "add admin 0xab") first_request
    ≡ asks (signed_role wallet (codes "0xfe") true)
unfolding require_admin_action starts_with to_lower_case parse_int last_word message_age
first_asks = refl

second_asks :
    require_admin_action cfg 1100500 (codes "add admin 0xab") second_request
    ≡ asks (signed_role wallet (codes "0xFE") true)
unfolding require_admin_action starts_with to_lower_case parse_int last_word message_age
second_asks = refl

first_passes :
    (resume cfg 1001000 (signed_role wallet (codes "0xfe") true) (ok true) empty).0 ≡ passed wallet
unfolding resume consume_login_nonce
first_passes = refl

same_signature : to_lower_case (codes "0xFE") ≡ to_lower_case (codes "0xfe")
unfolding to_lower_case
same_signature = refl

abbrev after_first : AuthState
after_first = (resume cfg 1001000 (signed_role wallet (codes "0xfe") true) (ok true) empty).1

action_passes_iff_example :
    ((w : Waiting) × (require_admin_action cfg 1000500 (codes "add admin 0xab") first_request
        ≡ asks w)
      × (resume cfg 1001000 w (ok true) empty ≡ (passed wallet, after_first)))
    ↔ Authorized cfg 1000500 1001000
        (codes "add admin 0xab")
        first_request
        (ok true)
        empty
        after_first
        wallet
action_passes_iff_example =
    action_passes_iff cfg 1000500 1001000 (codes "add admin 0xab") first_request (ok true) empty
      after_first wallet

-- The request above passes.
passes_here :
    resume cfg 1001000 (signed_role wallet (codes "0xfe") true) (ok true) empty
    ≡ (passed wallet, after_first)
unfolding resume consume_login_nonce
passes_here = refl

abbrev others : List Other
others = (1002000, session_role wallet, ok true) ∷ []

action_once_example :
    (resume cfg 1101000 (signed_role wallet (codes "0xFE") true) (ok true) (
      others_resume cfg others
        (resume cfg 1001000 (signed_role wallet (codes "0xfe") true) (ok true) empty).1)).0
    ≢ passed wallet
action_once_example =
    action_once cfg 1000500 1001000 1100500 1101000 (codes "add admin 0xab")
      (codes "add admin 0xab") first_request second_request (signed_role wallet (codes "0xfe") true)
      (signed_role wallet (codes "0xFE") true) (ok true) (ok true) empty others message
      (codes "0xfe") (codes "0xFE") wallet wallet refl refl refl refl same_signature first_asks
      second_asks (omega arith) (omega arith) (omega arith, tt) first_passes

abbrev cookie : Text
cookie = codes "a=b; vpp_admin=" ++ (issue_session cfg.crypto cfg.secret 1 5000 wallet).0

abbrev page_request : Request
page_request = record first_request { method = codes "GET"; cookie = some cookie }

page_passes :
    require_admin cfg 1003000 page_request (others_resume cfg others empty)
    ≡ decided (passed wallet)
unfolding require_admin others_resume read_session read_parts split_dot mac join_bar
    is_lower_address is_number is_hex all_of number_of issue_session show_nat to_lower_case text_eq
    is_space
page_passes = refl

require_admin-Recent_example : Recent cfg 1003000 page_request others wallet
require_admin-Recent_example =
    require_admin-Recent cfg 1003000 page_request others empty wallet refl page_passes
