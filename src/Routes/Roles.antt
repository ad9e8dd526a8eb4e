-- ===== src/Routes/Roles.antt =====
-- packages/backend/src/routes/admin.ts and routes/wallets.ts: who is an administrator, and which
-- wallets have handed in their points. An address in a body is `none` where the schema refuses the
-- body for another reason.
use vpp_blockchain.Base.{
  Bool, not, ℕ, Option, none, some, if◌then◌else◌, Text, text_eq, to_lower_case,
}
use vpp_blockchain.Chain.{check_admin, check_wallet_submitted, get_total_points, write}
use vpp_blockchain.Server.{
  sync_within, add_admin, remove_admin, mark_wallet_submitted, unmark_wallet_submitted, Prog, done,
  fail, app_error, validation_error, invalid_address, already_submitted, not_submitted,
  already_admin, minter_protected, not_admin, ask, require, ◌>>=◌, ◌>>◌,
}
use vpp_blockchain.Routes.{Addresses, Config, Sent, sent}

module _ (addresses : Addresses) (config : Config) where
  unfoldable pub validate_address : Text → Prog Text
  validate_address address =
      if addresses.is_address address
      then done (addresses.get_address address)
      else fail (app_error 400 invalid_address)

  -- roleSchema
  unfoldable pub role_address : Option Text → Prog Text
  role_address none = fail (app_error 400 validation_error)
  role_address (some a) =
      if addresses.is_address a then done a else fail (app_error 400 validation_error)

  -- POST /add
  unfoldable pub add_route : Option Text → Prog Sent
  add_route body = do
    address ← role_address body
    already ← check_admin address
    require (not already) 409 already_admin
    receipt ← write config.limits (add_admin address)
    ask sync_within
    done (sent config receipt)

  -- POST /remove
  unfoldable pub remove_route : Option Text → Prog Sent
  remove_route body = do
    address ← role_address body
    require (not (text_eq (to_lower_case address) (to_lower_case config.minter_address))) 400
        minter_protected
    current ← check_admin address
    require current 404 not_admin
    receipt ← write config.limits (remove_admin address)
    ask sync_within
    done (sent config receipt)

  -- GET /:address/submitted
  unfoldable pub submitted_route : Text → Prog (Text × Bool × ℕ)
  submitted_route raw = do
    address ← validate_address raw
    submitted ← check_wallet_submitted address
    total_points ← get_total_points address
    done (address, submitted, total_points)

  -- POST /:address/mark-submitted
  unfoldable pub mark_route : Text → Prog (Text × Sent)
  mark_route raw = do
    address ← validate_address raw
    already ← check_wallet_submitted address
    require (not already) 409 already_submitted
    receipt ← write config.limits (mark_wallet_submitted address)
    done (address, sent config receipt)

  -- POST /:address/unmark-submitted
  unfoldable pub unmark_route : Text → Prog (Text × Sent)
  unmark_route raw = do
    address ← validate_address raw
    submitted ← check_wallet_submitted address
    require submitted 409 not_submitted
    receipt ← write config.limits (unmark_wallet_submitted address)
    done (address, sent config receipt)
