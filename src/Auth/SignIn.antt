-- ===== src/Auth/SignIn.antt =====
-- packages/backend/src/routes/auth.ts: the four routes of the sign-in, each up to the await of the role
-- and from it on.
use vpp_blockchain.Base.{
  ℕ, Bool, true, false, ◌&&◌, not, Option, none, some, Text, leb, length, if◌then◌else◌,
}
use vpp_blockchain.Base.Exec.{Result, ok, throw}
use vpp_blockchain.Errors.{ErrorValue}
use vpp_blockchain.Server.{
  ErrorCode, validation_error, forbidden, bad_origin, invalid_login, expired_login,
}
use vpp_blockchain.Sessions.{AdminSession, UsedNonces, issue_session, read_session}
use vpp_blockchain.Sessions.Login.{
  Site, Wallets, LoginError, expired, create_login_challenge, verify_login,
}
use vpp_blockchain.Auth.{Config, Request, origin_allowed}
use vpp_blockchain.Sessions.Cookie.{read_session_cookie}

-- The token is what goes into the cookie.
pub data Reply : Type 0 where
  challenge : Text → Reply
  signed_in : (token : Text) → AdminSession → Reply
  session : Option AdminSession → Reply
  signed_out : Reply
  rejected : ℕ → ErrorCode → Reply
  failed : ErrorValue → Reply

-- A route has replied, or waits for the role of an address.
pub data Progress : Type 0 where
  replied : Reply → Progress
  asks_role : AdminSession → Progress

-- z.string().min(1).max(limit)
abbrev pub is_length : ℕ → Text → Bool
is_length limit s = leb 1 (length s) && leb (length s) limit

abbrev pub login_rejection : LoginError → Reply
login_rejection expired = rejected 401 expired_login
login_rejection e = rejected 401 invalid_login

module _ (cfg : Config) (site : Site) (wallets : Wallets) where
  -- GET /challenge, where `rand` are the random digits
  pub challenge_route : (now : ℕ) (rand : Text) → Option Text → Reply
  challenge_route now rand none = rejected 400 validation_error
  challenge_route now rand (some address) =
      if wallets.is_address address
      then challenge (create_login_challenge cfg.crypto cfg.secret site now rand address)
      else rejected 400 validation_error

  -- POST /login: the address whose role is asked for, or the reply.
  pub login_begin :
      (now : ℕ) (message signature : Text) → UsedNonces → Result Reply Text × UsedNonces
  login_begin now message signature used =
      if is_length 2000 message && is_length 200 signature
      then (let (verified, left) =
            verify_login cfg.crypto cfg.secret site wallets now message signature used in
          elim verified [
            | ok address ↦ (ok address, left)
            | throw e ↦ (throw (login_rejection e), left)
          ])
      else (throw (rejected 400 validation_error), used)

  pub login_resume : (now : ℕ) (address : Text) → Result ErrorValue Bool → Reply
  login_resume now address (throw e) = failed e
  login_resume now address (ok false) = rejected 403 forbidden
  login_resume now address (ok true) =
      let (token, s) = issue_session cfg.crypto cfg.secret site.hours now address in
      signed_in token s

-- GET /session
pub session_begin : Config → (now : ℕ) → Request → Progress
session_begin cfg now req =
    elim (read_session cfg.crypto cfg.secret now (read_session_cookie req.cookie)) [
      | none ↦ replied (session none)
      | some s ↦ asks_role s
    ]

pub session_resume : AdminSession → Result ErrorValue Bool → Reply
session_resume s (throw e) = failed e
session_resume s (ok is_admin) = session (if is_admin then some s else none)

-- POST /logout
pub logout_route : Config → Request → Reply
logout_route cfg req = if not (origin_allowed cfg req) then rejected 403 bad_origin else signed_out
