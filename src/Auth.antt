-- ===== src/Auth.antt =====
-- packages/backend/src/middleware/auth.ts: the two ways in for administrators. A request runs until it asks the chain for the
-- role, and goes on with the answer; other requests may run in between. The address functions of
-- ethers, the secret, the site's origin and the time are arguments.

pub mod Accepted
mod Passed
pub mod Replay
pub mod Cache
mod SignIn
mod Tests
use vpp_blockchain.Base.{
  ℕ, ◌+◌, ◌-◌, ◌≡◌, Bool, true, false, ◌&&◌, ◌||◌, not, Option, none, some, List, [], ◌∷◌, ◌++◌,
  ltb, leb, ◌==◌, if◌then◌else◌, Text, text_eq, codes, to_lower_case, starts_with,
}
use vpp_blockchain.Base.Exec.{Result, ok, throw}
use vpp_blockchain.Base.Int.{ℤ, pos, negsuc, ltb_ℤ, parse_int, is_space}
use vpp_blockchain.Errors.{ErrorValue}
use vpp_blockchain.Server.{
  ErrorCode, unauthorized, bad_origin, forbidden, signature_required, action_mismatch,
  signature_used, invalid_signature, invalid_message, expired_message, invalid_timestamp,
}
use vpp_blockchain.Claim.{message_age, clock_skew}
use vpp_blockchain.Sessions.Cookie.{read_session_cookie}
use vpp_blockchain.Sessions.{Crypto, AdminSession, read_session, UsedNonces, consume_login_nonce}

pub record Config : Type 0 where
  pub crypto : Crypto
  pub secret : Text
  pub frontend_origin : Text
  pub max_message_age_ms : ℕ
  -- ethers.verifyMessage, `none` where it throws
  pub verify_message : Text → Text → Option Text

pub record Request : Type 0 where
  pub method : Text
  pub origin : Option Text
  pub cookie : Option Text
  pub body_signature : Option Text
  pub body_message : Option Text
  pub header_signature : Option Text
  pub header_message : Option Text

-- roleCache and usedActionSignatures
pub record AuthState : Type 0 where
  pub role_cache : List (Text × Bool × ℕ)
  pub used_action_signatures : UsedNonces

-- What a request ends with: a response, `next(err)`, or `next()` with the address of the admin.
pub data Decision : Type 0 where
  refused : ℕ → ErrorCode → Decision
  forwarded : ErrorValue → Decision
  passed : Text → Decision

-- The await at which a request stands, with what it goes on with.
pub data Waiting : Type 0 where
  session_role : (address : Text) → Waiting
  signed_role : (address signature : Text) (single_use : Bool) → Waiting

pub data Begun : Type 0 where
  decided : Decision → Begun
  asks : Waiting → Begun

-- a || b, for texts that may be missing
abbrev pub or_text : Option Text → Option Text → Option Text
or_text none b = b
or_text (some []) b = b
or_text (some (c ∷ s)) b = some (c ∷ s)

-- `if (!value)` of a text
abbrev pub present : Option Text → Option Text
present o = or_text o none

abbrev pub admin_signature : Request → Option Text
admin_signature req = present (or_text req.body_signature req.header_signature)

abbrev pub admin_message : Request → Option Text
admin_message req = present (or_text req.body_message req.header_message)

pub origin_allowed : Config → Request → Bool
origin_allowed cfg req =
    text_eq req.method (codes "GET")
    || text_eq req.method (codes "HEAD")
    || (elim (present req.origin) [
      | none ↦ true
      | some origin ↦ text_eq origin cfg.frontend_origin
    ])

-- roleCache.get(key)
unfoldable pub cached_role : Text → List (Text × Bool × ℕ) → Option (Bool × ℕ)
cached_role key [] = none
cached_role key ((k, value, at) ∷ rest) =
    let later = cached_role key rest in if text_eq k key then some (value, at) else later

-- roleCache.set(key, { value, checkedAt })
unfoldable pub set_role : Text → Bool → ℕ → List (Text × Bool × ℕ) → List (Text × Bool × ℕ)
set_role key value at [] = (key, value, at) ∷ []
set_role key value at ((k, v, t) ∷ rest) =
    let others = set_role key value at rest in
    if text_eq k key then (key, value, at) ∷ rest else (k, v, t) ∷ others

abbrev pub role_cache_ms : ℕ
role_cache_ms = 60000

-- isAdminCached up to its await: the role, if it is known for less than a minute.
unfoldable pub known_role : (now : ℕ) → Text → AuthState → Option Bool
unfolding cached_role
known_role now address s = elim (cached_role (to_lower_case address) s.role_cache) [
  | none ↦ none
  | some (value, at) ↦ if ltb (now - at) role_cache_ms then some value else none
]

abbrev pub role_decision : Text → Bool → Decision
role_decision address has_role = if has_role then passed address else refused 403 forbidden

-- The last part of message.split(/[\s:]+/).
pub last_word : Text → Text → Text
last_word part [] = part
last_word part (c ∷ s) = last_word (if is_space c || c == b':' then [] else part ++ c ∷ []) s

-- The checks of the time in a message, or the response that refuses it.
unfoldable pub check_time : (max_age now : ℕ) → Option ℤ → Option Decision
check_time max_age now none = some (refused 400 invalid_message)
check_time max_age now (some timestamp) =
    if ltb_ℤ (pos 999999999999) timestamp
    then some (refused 400 invalid_message)
    else if ltb_ℤ (pos max_age) (message_age now timestamp)
    then some (refused 400 expired_message)
    else if ltb_ℤ (message_age now timestamp) clock_skew
    then some (refused 400 invalid_timestamp)
    else none

abbrev pub message_time : Text → Option ℤ
message_time message = parse_int (last_word [] message)

-- verifySignedRequest up to its await.
unfoldable pub verify_signed_request :
    Config → (now : ℕ) → (message signature : Text) → (single_use : Bool) → Begun
unfolding check_time
verify_signed_request cfg now message signature single_use =
    elim (cfg.verify_message message signature) [
      | none ↦ decided (refused 401 invalid_signature)
      | some address ↦ elim (check_time cfg.max_message_age_ms now (message_time message)) [
        | some refusal ↦ decided refusal
        | none ↦ asks (signed_role address signature single_use)
      ]
    ]

-- requireAdmin up to its await.
unfoldable pub require_admin : Config → (now : ℕ) → Request → AuthState → Begun
unfolding verify_signed_request origin_allowed known_role read_session_cookie
require_admin cfg now req s =
    elim (read_session cfg.crypto cfg.secret now (read_session_cookie req.cookie)) [
      | some session ↦
          if not (origin_allowed cfg req)
          then decided (refused 403 bad_origin)
          else elim (known_role now session.address s) [
            | some has_role ↦ decided (role_decision session.address has_role)
            | none ↦ asks (session_role session.address)
          ]
      | none ↦ elim (admin_signature req) [
        | none ↦ decided (refused 401 unauthorized)
        | some signature ↦ elim (admin_message req) [
          | none ↦ decided (refused 401 unauthorized)
          | some message ↦ verify_signed_request cfg now message signature false
        ]
      ]
    ]

-- requireAdminAction(describe) up to its await, where `description` is describe(req).
unfoldable pub require_admin_action : Config → (now : ℕ) → (description : Text) → Request → Begun
unfolding verify_signed_request
require_admin_action cfg now description req = elim (admin_signature req) [
  | none ↦ decided (refused 401 signature_required)
  | some signature ↦ elim (admin_message req) [
    | none ↦ decided (refused 401 signature_required)
    | some message ↦
        if not (starts_with (to_lower_case message) (to_lower_case description ++ b' ' ∷ []))
        then decided (refused 403 action_mismatch)
        else verify_signed_request cfg now message signature true
  ]
]

-- The same two-step Map as for the login nonces, under the signature in lower case.
unfoldable pub consume_action_signature :
    (max_age now : ℕ) → (signature : Text) → UsedNonces → Bool × UsedNonces
consume_action_signature max_age now signature used =
    consume_login_nonce now (to_lower_case signature) (now + max_age + 120000) used

-- A signature that is single-use.
unfoldable pub consumed : Text → Bool × UsedNonces → AuthState → Decision × AuthState
consumed address (first, used) s = (
  if first then passed address else refused 409 signature_used,
  record s { used_action_signatures = used },
)

-- What a request goes on with when the chain has answered.
unfoldable pub resume :
    Config → (now : ℕ) → Waiting → Result ErrorValue Bool → AuthState → Decision × AuthState
unfolding consume_action_signature consumed set_role
resume cfg now (session_role address) (throw e) s = (forwarded e, s)
resume cfg now (session_role address) (ok has_role) s = (
  role_decision address has_role,
  record s { role_cache = set_role (to_lower_case address) has_role now s.role_cache },
)
resume cfg now (signed_role address signature single_use) (throw e) s = (forwarded e, s)
resume cfg now (signed_role address signature single_use) (ok false) s = (refused 403 forbidden, s)
resume cfg now (signed_role address signature false) (ok true) s = (passed address, s)
resume cfg now (signed_role address signature true) (ok true) s =
    consumed address
      (consume_action_signature cfg.max_message_age_ms now signature s.used_action_signatures) s
