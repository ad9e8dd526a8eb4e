-- ===== src/Hmac.antt =====
-- packages/backend/src/services/hmac.ts: issuing and checking claim tokens. HMAC-SHA256 and the
-- base64url codec belong to Node; they are a parameter with the laws that the code relies on.
pub mod Tokens
mod Tests
use vpp_blockchain.Base.{
  ℕ, ◌≡◌, Bool, true, false, ◌&&◌, ◌||◌, List, [], ◌∷◌, ◌++◌, ltb, leb, ◌==◌, if◌then◌else◌, Text,
  text_eq, codes, show_nat, length,
}
use vpp_blockchain.Base.Exec.{Result, ok, throw}

pub record Primitives : Type 0 where
  -- createHmac('sha256', key).update(message).digest()
  pub hmac : List ℕ → Text → List ℕ
  pub to_base64url : List ℕ → Text
  pub from_base64url : Text → List ℕ

-- The documented behaviour: a digest has 32 bytes, and decoding undoes encoding.
pub record Documented (node : Primitives) : Type 0 where
  pub digest_length : (key : List ℕ) (message : Text) → length (node.hmac key message) ≡ 32
  pub decode_encode : (bytes : List ℕ) → node.from_base64url (node.to_base64url bytes) ≡ bytes

pub data TokenError : Type 0 where
  invalid_survey_id invalid_nonce unequal_lengths : TokenError

pub canonical_message : ℕ → Text → Result TokenError Text
canonical_message survey_id [] =
    if survey_id == 0 then throw invalid_survey_id else throw invalid_nonce
canonical_message survey_id (c ∷ nonce) =
    if survey_id == 0
    then throw invalid_survey_id
    else ok (codes "v1|" ++ show_nat survey_id ++ b'|' ∷ c ∷ nonce)

-- timingSafeEqual(a, b), which throws on buffers of different lengths
pub timing_safe_equal : List ℕ → List ℕ → Result TokenError Bool
timing_safe_equal a b = if length a == length b then ok (text_eq a b) else throw unequal_lengths

module _ (node : Primitives) where
  unfoldable pub issue_token : ℕ → Text → Text → Result TokenError Text
  issue_token survey_id nonce key = elim (canonical_message survey_id nonce) [
    | ok message ↦ ok (node.to_base64url (node.hmac (node.from_base64url key) message))
    | throw e ↦ throw e
  ]

  unfoldable pub verify_token : ℕ → Text → Text → Text → Result TokenError Bool
  unfolding timing_safe_equal
  verify_token survey_id nonce key token =
      let provided = node.from_base64url token in
      if length provided == 32
      then elim (canonical_message survey_id nonce) [
        | throw e ↦ throw e
        | ok message ↦
            let expected = node.hmac (node.from_base64url key) message in
            if length expected == length provided
            then timing_safe_equal expected provided
            else ok false
      ]
      else ok false

-- [A-Za-z0-9_-]
pub is_url_safe : ℕ → Bool
is_url_safe c =
    (leb b'A' c && leb c b'Z')
    || (leb b'a' c && leb c b'z')
    || (leb b'0' c && leb c b'9')
    || c == b'_'
    || c == b'-'

pub all_url_safe : Text → Bool
unfolding is_url_safe
all_url_safe [] = true
all_url_safe (c ∷ s) = is_url_safe c && all_url_safe s

unfoldable pub is_valid_nonce_shape : Text → Bool
unfolding all_url_safe
is_valid_nonce_shape nonce = all_url_safe nonce && leb 16 (length nonce) && leb (length nonce) 128

unfoldable pub is_valid_token_shape : Text → Bool
unfolding all_url_safe
is_valid_token_shape token = all_url_safe token && length token == 43
