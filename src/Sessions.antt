-- ===== src/Sessions.antt =====
-- packages/backend/src/services/admin-session.ts: session tokens and login nonces. Node's HMAC, the
-- checksum of an address, the secret and the time are arguments.
pub mod Cookie
pub mod Genuine
pub mod Login
pub mod Unused
pub mod Numbers
mod RoundTrip
mod Issued
mod Tests
use vpp_blockchain.Base.{
  ℕ, ◌+◌, ◌-◌, ◌*◌, ◌/◌, ◌≡◌, Bool, true, false, ◌&&◌, ◌||◌, not, Option, none, some, List, [], ◌∷◌,
  ◌++◌, ltb, leb, ◌==◌, if◌then◌else◌, Text, text_eq, codes, show_nat, to_lower_case, length,
}
use vpp_blockchain.Base.Int.{is_digit}

-- createHmac('sha256', secret).update(message).digest('hex'), and `getAddress`.
pub record Crypto : Type 0 where
  pub hmac_hex : Text → Text → Text
  pub get_address : Text → Text

pub record AdminSession : Type 0 where
  pub address : Text
  pub expires_at : ℕ

-- parts.join('|')
unfoldable pub join_bar : List Text → Text
join_bar [] = []
join_bar (p ∷ []) = p
join_bar (p ∷ q ∷ rest) = p ++ b'|' ∷ join_bar (q ∷ rest)

-- text.split('.'), where `part` was read since the last dot
unfoldable pub split_dot : Text → Text → List Text
split_dot part [] = part ∷ []
split_dot part (c ∷ s) =
    let ended = split_dot [] s in
    let going = split_dot (part ++ c ∷ []) s in if c == b'.' then part ∷ ended else going

unfoldable pub is_hex : ℕ → Bool
is_hex c = is_digit c || (leb b'a' c && leb c b'f')

unfoldable pub all_of : (ℕ → Bool) → Text → Bool
all_of p [] = true
all_of p (c ∷ s) = p c && all_of p s

-- /^0x[0-9a-f]{40}$/
unfoldable pub is_lower_address : Text → Bool
unfolding is_hex all_of
is_lower_address (a ∷ b ∷ s) = a == b'0' && b == b'x' && all_of is_hex s && length s == 40
is_lower_address _ = false

-- /^\d+$/
unfoldable pub is_number : Text → Bool
unfolding all_of
is_number [] = false
is_number (c ∷ s) = all_of is_digit (c ∷ s)

-- Number of a text of digits
unfoldable pub number_of : ℕ → Text → ℕ
number_of n [] = n
number_of n (c ∷ s) = number_of (n * 10 + (c - b'0')) s

module _ (crypto : Crypto) (secret : Text) where
  unfoldable pub mac : List Text → Text
  unfolding join_bar
  mac parts = crypto.hmac_hex secret (join_bar parts)

  -- issueSession at the time `now`, with sessions of `hours` hours
  unfoldable pub issue_session : (hours now : ℕ) → Text → Text × AdminSession
  unfolding mac
  issue_session hours now address =
      let lower = to_lower_case (crypto.get_address address) in
      let exp = now / 1000 + hours * 3600 in
      (
        lower ++ b'.' ∷ show_nat exp ++ b'.' ∷ mac (codes "session" ∷ lower ∷ show_nat exp ∷ []),
        record { address = crypto.get_address lower; expires_at = exp * 1000 },
      )

  -- readSession after the token was split
  unfoldable pub read_parts : ℕ → List Text → Option AdminSession
  unfolding mac
  read_parts now (lower ∷ exp_raw ∷ sig ∷ rest) =
      if not (text_eq sig [])
        && is_lower_address lower
        && is_number exp_raw
        && text_eq sig (mac (codes "session" ∷ lower ∷ exp_raw ∷ []))
        && ltb now (number_of 0 exp_raw * 1000)
      then some
          (record { address = crypto.get_address lower; expires_at = number_of 0 exp_raw * 1000 })
      else none
  read_parts now _ = none

  -- readSession at the time `now`
  unfoldable pub read_session : ℕ → Option Text → Option AdminSession
  unfolding read_parts split_dot
  read_session now none = none
  read_session now (some []) = none
  read_session now (some (c ∷ s)) = read_parts now (split_dot [] (c ∷ s))

-- usedLoginNonces: each nonce with the time at which it expires.
abbrev pub UsedNonces : Type 0
UsedNonces = List (Text × ℕ)

-- for (const [n, exp] of usedLoginNonces) if (exp < now) delete
unfoldable pub drop_expired : ℕ → UsedNonces → UsedNonces
drop_expired now [] = []
drop_expired now ((n, exp) ∷ rest) =
    let others = drop_expired now rest in if ltb exp now then others else (n, exp) ∷ others

unfoldable pub is_used_login : Text → UsedNonces → Bool
is_used_login nonce [] = false
is_used_login nonce ((n, exp) ∷ rest) = text_eq nonce n || is_used_login nonce rest

-- consumeLoginNonce at the time `now`
unfoldable pub consume_login_nonce :
    (now : ℕ) → Text → (expires_at : ℕ) → UsedNonces → Bool × UsedNonces
unfolding drop_expired is_used_login
consume_login_nonce now nonce expires_at used =
    let left = drop_expired now used in
    if is_used_login nonce left then (false, left) else (true, left ++ (nonce, expires_at) ∷ [])
