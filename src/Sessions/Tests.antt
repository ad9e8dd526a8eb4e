-- ===== src/Sessions/Tests.antt =====
-- A session token and a login nonce.
use vpp_blockchain.Base.{
  ◌≡◌, refl, true, none, some, [], Text, codes, text_eq, show_nat, to_lower_case,
}
use vpp_blockchain.Sessions.{
  Crypto, AdminSession, issue_session, read_session, read_parts, split_dot, mac, join_bar,
  is_lower_address, is_number, is_hex, all_of, number_of, consume_login_nonce, drop_expired,
  is_used_login,
}
use vpp_blockchain.Base.{includes}
use vpp_blockchain.Sessions.Login.{Site, Wallets, create_login_challenge}
use vpp_blockchain.Sessions.Issued.{Issued}
use vpp_blockchain.Sessions.RoundTrip.{read_session-issue_session}

-- The digest is the message itself, without its dots.
abbrev crypto : Crypto
crypto = record { hmac_hex = λ secret message. message; get_address = λ a. a }

abbrev wallet : Text
wallet = codes "0x0123456789012345678901234567890123456789"

abbrev token : Text
token = (issue_session crypto (codes "secret") 1 5000 wallet).0

abbrev session : AdminSession
session = record { address = wallet; expires_at = 3605000 }

accepted : read_session crypto (codes "secret") 9000 (some token) ≡ some session
unfolding read_session read_parts split_dot mac join_bar is_lower_address is_number is_hex all_of
    number_of issue_session show_nat to_lower_case text_eq
accepted = refl

-- After the session has expired.
expired : read_session crypto (codes "secret") 3605000 (some token) ≡ none
unfolding read_session read_parts split_dot mac join_bar is_lower_address is_number is_hex all_of
    number_of issue_session show_nat to_lower_case text_eq
expired = refl

fresh : (consume_login_nonce 10 (codes "n") 300 []).0 ≡ true
unfolding consume_login_nonce drop_expired is_used_login
fresh = refl

-- A digest that is the same for every message.
abbrev same_digest : Crypto
same_digest = record {
  hmac_hex = λ secret message. codes "abcdefabcdefabcdefabcdef";
  get_address = λ a. a;
}

abbrev site : Site
site = record {
  host = codes "app";
  origin = codes "https://app";
  chain_id = codes "8453";
  hours = 8;
  iso = λ ms. show_nat ms;
}

abbrev wallets : Wallets
wallets = record { is_address = λ a. true; verify_message = λ message signature. some wallet }

abbrev challenge : Text
challenge = create_login_challenge same_digest [] site 5000 (codes "0011223344556677") wallet

valid : is_lower_address (to_lower_case wallet) ≡ true
unfolding is_lower_address is_hex all_of to_lower_case
valid = refl

-- A token of one hour, read before its expiry.
read_session-issue_session_example :
    read_session same_digest [] 9000 (some (issue_session same_digest [] 1 5000 wallet).0)
    ≡ some (issue_session same_digest [] 1 5000 wallet).1
unfolding includes
read_session-issue_session_example =
    read_session-issue_session same_digest [] 1 5000 9000 wallet valid (λ key message. refl)
      (λ key message e. cc)
