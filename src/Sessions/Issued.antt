-- ===== src/Sessions/Issued.antt =====
-- packages/backend/src/services/admin-session.ts: a message that verifyLogin accepts against the
-- messages that createLoginChallenge makes.
use vpp_blockchain.Base.{ℕ, ◌+◌, ◌-◌, ◌/◌, ◌≤◌, ◌≡◌, some, ◌++◌, if◌then◌else◌, Text}
use vpp_blockchain.Base.Int.{is_digit}
use vpp_blockchain.Sessions.{Crypto, UsedNonces}
use vpp_blockchain.Sessions.Unused.{IsUnused}
use vpp_blockchain.Sessions.Login.{Site, Wallets, create_login_challenge, hex_padded, login_mac}

-- A hexadecimal digit is printed as it was read.
digit_of : ℕ → ℕ
digit_of c = if is_digit c then c - b'0' else c - 87

-- The message is a challenge that the server makes for the wallet that signed it.
pub record Issued (crypto : Crypto) (secret : Text) (site : Site) (wallets : Wallets) (now : ℕ)
    (message signature : Text) (used : UsedNonces) (checksum : Text) : Type 0 where
  pub address : Text
  pub rand : Text
  pub issued_at : ℕ
  pub checked : crypto.get_address address ≡ checksum
  pub challenge : message ≡ create_login_challenge crypto secret site issued_at rand address
  pub in_time : now ≤ issued_at + 300000
  pub not_ahead : issued_at ≤ now + 60000
  pub signed : wallets.verify_message message signature ≡ some checksum
  pub unused :
      let ts = hex_padded 10 (issued_at / 1000) in
      IsUnused now (ts ++ rand ++ login_mac crypto secret ts rand checksum) used
