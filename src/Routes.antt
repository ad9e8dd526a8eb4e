-- ===== src/Routes.antt =====
-- The administrative routes of packages/backend/src/routes: what they share. A handler is the
-- program after the middleware that checks the administrator.
pub mod Surveys
pub mod Roles
pub mod Sends
pub mod Awards
pub mod Keys
mod Tests
use vpp_blockchain.Base.{
  ℕ, ◌+◌, ◌-◌, ◌*◌, Bool, true, false, ◌&&◌, ◌||◌, Option, none, some, List, [], ◌∷◌, ◌++◌, ltb,
  leb, ◌==◌, if◌then◌else◌, Text, codes, length,
}
use vpp_blockchain.Base.Int.{is_digit}
use vpp_blockchain.Chain.{Limits}
use vpp_blockchain.Server.{
  Prog, done, fail, app_error, invalid_survey_id, sync_within, invalidate_cache, ask, ◌>>=◌, ◌>>◌,
}

-- What the routes use of ethers: `isAddress` and `getAddress`, which writes the checksum.
pub record Addresses : Type 0 where
  pub is_address : Text → Bool
  pub get_address : Text → Text
  pub zero_address : Text

pub record Config : Type 0 where
  pub limits : Limits
  pub explorer_base_url : Text
  pub minter_address : Text

pub record Sent : Type 0 where
  pub tx_hash : Text
  pub explorer_url : Text

pub sent : Config → Text → Sent
sent config hash = record {
  tx_hash = hash;
  explorer_url = config.explorer_base_url ++ codes "/tx/" ++ hash;
}

all_digits : Text → Bool
all_digits [] = true
all_digits (c ∷ s) = is_digit c && all_digits s

number : ℕ → Text → ℕ
number n [] = n
number n (c ∷ s) = number (n * 10 + (c - b'0')) s

-- /^[1-9][0-9]{0,8}$/ and Number
pub survey_id_of : Text → Option ℕ
unfolding all_digits number
survey_id_of [] = none
survey_id_of (c ∷ s) =
    if leb b'1' c && leb c b'9' && all_digits s && leb (length s) 8
    then some (number 0 (c ∷ s))
    else none

unfoldable pub parse_survey_id : Text → Prog ℕ
unfolding survey_id_of
parse_survey_id raw = elim (survey_id_of raw) [
  | none ↦ fail (app_error 400 invalid_survey_id)
  | some id ↦ done id
]

-- `await syncWithin(getEventStore()); invalidateCache()` and the answer.
unfoldable pub finish : {A : Type 0} → A → Prog A
finish a = do ask sync_within; ask invalidate_cache; done a
