-- ===== src/Errors/Transient.antt =====
-- `isTransient` of lib/rpcRetry.ts: which RPC errors are worth another attempt.
use vpp_blockchain.Base.{
  Bool, true, false, ◌&&◌, ◌||◌, Option, none, some, List, [], ◌∷◌, leb, ◌==◌, if◌then◌else◌, Text,
  text_eq, codes,
}
use vpp_blockchain.Base.Int.{is_digit}
use vpp_blockchain.Errors.{ErrorValue, object}
use vpp_blockchain.Errors.Range.{Atom, lit, test_any}

pub is_transient_code : Text → Bool
is_transient_code code =
    text_eq code (codes "TIMEOUT")
    || text_eq code (codes "NETWORK_ERROR")
    || text_eq code (codes "SERVER_ERROR")
    || text_eq code (codes "ECONNRESET")
    || text_eq code (codes "ETIMEDOUT")
    || text_eq code (codes "ENOTFOUND")
    || text_eq code (codes "EAI_AGAIN")

transient_messages : List (List Atom)
transient_messages =
    (lit (codes "429") ∷ [])
    ∷ (lit (codes "too many requests") ∷ [])
    ∷ (lit (codes "timeout") ∷ [])
    ∷ (lit (codes "timed out") ∷ [])
    ∷ (lit (codes "rate limit") ∷ [])
    ∷ (lit (codes "gateway") ∷ [])
    ∷ (lit (codes "service unavailable") ∷ [])
    ∷ (lit (codes "bad gateway") ∷ [])
    ∷ (lit (codes "connection reset") ∷ [])
    ∷ (lit (codes "fetch failed") ∷ [])
    ∷ (lit (codes "network error") ∷ [])
    ∷ []

-- /^(429|5\d\d)/
pub is_transient_status : Text → Bool
is_transient_status (a ∷ b ∷ c ∷ rest) =
    (a == b'4' && b == b'2' && c == b'9') || (a == b'5' && is_digit b && is_digit c)
is_transient_status _ = false

holds_of {ℓ} : {A : Type ℓ} → (A → Bool) → Option A → Bool
holds_of p none = false
holds_of p (some a) = p a

info_status : ErrorValue → Option Text
info_status (object p error info cause) = p.response_status
info_status _ = none

unfoldable pub is_transient : ErrorValue → Bool
unfolding is_transient_code transient_messages is_transient_status holds_of info_status
is_transient (object p error info cause) =
    if holds_of is_transient_code p.code
    then true
    else if holds_of (λ status. status == 429 || leb 500 status) p.status
    then true
    else if holds_of (test_any transient_messages) p.message
    then true
    else holds_of is_transient_status (info_status info)
is_transient _ = false
