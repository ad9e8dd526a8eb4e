-- ===== src/RpcRetry/Tests.antt =====
-- A read of the balance that always fails with a transient error.
use vpp_blockchain.Base.{◌≤◌, refl, arith, true, false, [], none, some, codes}
use vpp_blockchain.Base.Exec.{ok, throw}
use vpp_blockchain.Errors.{ErrorValue, nothing, object}
use vpp_blockchain.Server.{
  now, random_delay, get_balance, get_fee_data, contract_version, get_fractional, sync_within,
  invalidate_cache, delay, put_fractional, survey_info_centi, survey_info_whole, get_survey_key,
  has_key, create_key, rotate_key, delete_key, get_key_created_at, claimed, is_admin,
  is_wallet_submitted, total_points_centi, total_points_whole, estimate_gas, send, wait,
  nonce_is_used, nonce_mark_used, nonce_release, random_nonce, plain,
}
use vpp_blockchain.Server.Quiet.{Env}
use vpp_blockchain.RpcRetry.{with_rpc_retry}
use vpp_blockchain.RpcRetry.Budget.{requests, waited, attempt, with_rpc_retry-cost}

abbrev timeout : ErrorValue
timeout = object (record plain { code = some (codes "TIMEOUT") }) nothing nothing nothing

abbrev answers : Env
answers n now = 100000
answers n random_delay = 99
answers n get_balance = throw timeout
answers n get_fee_data = throw timeout
answers n contract_version = throw timeout
answers n get_fractional = none
answers n sync_within = tt
answers n invalidate_cache = tt
answers n (delay ms) = tt
answers n (put_fractional f) = tt
answers n (survey_info_centi i) = throw timeout
answers n (survey_info_whole i) = throw timeout
answers n (get_survey_key i) = some (codes "key")
answers n (has_key i) = true
answers n (create_key i) = throw timeout
answers n (rotate_key i) = throw timeout
answers n (delete_key i) = throw timeout
answers n (get_key_created_at i) = none
answers n (claimed w i) = throw timeout
answers n (is_admin a) = throw timeout
answers n (is_wallet_submitted a) = throw timeout
answers n (total_points_centi a) = throw timeout
answers n (total_points_whole a) = throw timeout
answers n (estimate_gas tx o) = throw timeout
answers n (send tx o) = throw timeout
answers n (wait hash) = throw timeout
answers n (nonce_is_used i m) = ok false
answers n (nonce_mark_used i m) = ok true
answers n (nonce_release i m) = ok tt
answers n random_nonce = []

with_rpc_retry-cost_example :
    (requests answers 0 (with_rpc_retry (attempt get_balance (λ a. a))) ≤ 5)
    × (waited answers 0 (with_rpc_retry (attempt get_balance (λ a. a))) ≤ 4146)
with_rpc_retry-cost_example =
    with_rpc_retry-cost get_balance (λ a. a) answers 0 refl (λ m. omega arith)
