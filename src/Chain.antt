-- ===== src/Chain.antt =====
-- packages/backend/src/services/blockchain.ts: the wrapper around the contract. Reads go through
-- `with_rpc_retry`; a write checks the balance, computes the fees, sends and waits for the
-- receipt. Points are kept in hundredths: `Number(x)` of whole points is 100 times their number,
-- and `fromCentiPoints`, `toCentiPoints` change nothing.
pub mod Fees
pub mod Writes
mod Tests
use vpp_blockchain.Base.{
  ℕ, ◌+◌, ◌-◌, ◌*◌, ◌/◌, ◌%◌, Bool, true, false, Option, none, some, List, [], ◌∷◌, ltb, leb, ◌==◌,
  if◌then◌else◌, Text, text_eq, codes,
}
use vpp_blockchain.Base.Exec.{Result, ok, throw}
use vpp_blockchain.Base.Int.{ℤ, pos, half, ltb_ℤ, ◌-ℤ◌, ◌+ℤ◌, ◌*ℤ◌, parse_int}
use vpp_blockchain.Errors.{ErrorValue, Properties, nothing, primitive, string, object}
use vpp_blockchain.RpcRetry.{with_rpc_retry}
use vpp_blockchain.Server.{
  Call, now, get_balance, get_fee_data, contract_version, get_fractional, put_fractional,
  survey_info_centi, survey_info_whole, estimate_gas, send, wait, claimed, is_admin,
  is_wallet_submitted, total_points_centi, total_points_whole, Tx, award_points, revoke_points,
  register_survey, register_survey_centi, deactivate_survey, reactivate_survey, add_admin,
  remove_admin, mark_wallet_submitted, unmark_wallet_submitted, FeeData, Overrides, SurveyRow,
  FractionalSupport, Rpc, Prog, done, fail, Thrown, raised, store_error, app_error, ask, settle,
  catch, plain, new_error, ◌>>=◌, ◌>>◌,
}

-- The configured thresholds, in wei.
pub record Limits : Type 0 where
  pub min_balance : ℕ
  pub max_fee_per_gas : ℕ
  pub max_priority_fee_per_gas : ℕ

-- The two assignments that bring the priority fee between 0 and the cap.
pub clamp_priority : Limits → ℤ → ℤ
clamp_priority limits offered =
    let priority = if ltb_ℤ offered (pos 0) then pos 0 else offered in
    if ltb_ℤ (pos limits.max_priority_fee_per_gas) priority
    then pos limits.max_priority_fee_per_gas
    else priority

pub or_else : Option ℤ → ℤ → ℤ
or_else none d = d
or_else (some z) d = z

-- What `buildTxOverrides` computes from the provider's fee data.
pub tx_fees : Limits → FeeData → Overrides
unfolding clamp_priority or_else
tx_fees limits fee_data =
    let priority =
      clamp_priority limits
        (or_else fee_data.max_priority_fee_per_gas (pos limits.max_priority_fee_per_gas)) in
    let provider_max_fee = or_else fee_data.max_fee_per_gas (pos 0) in
    let provider_tip = or_else fee_data.max_priority_fee_per_gas (pos 0) in
    let base_fee =
      if ltb_ℤ provider_tip provider_max_fee
      then half (provider_max_fee -ℤ provider_tip)
      else pos 0 in
    let uncapped = base_fee *ℤ 2 +ℤ priority in
    let capped =
      if ltb_ℤ (pos limits.max_fee_per_gas) uncapped
      then pos limits.max_fee_per_gas
      else uncapped in
    record {
      max_fee_per_gas = if ltb_ℤ capped priority then priority else capped;
      max_priority_fee_per_gas = priority;
      gas_limit = none;
    }

abbrev insufficient_funds : ErrorValue
insufficient_funds =
    object (record plain { code = some (codes "INSUFFICIENT_FUNDS") }) nothing nothing nothing

-- The flag that `markNotSent` sets; the message of a new error for null, undefined or a number is
-- left out.
pub mark_properties : ErrorValue → ErrorValue
mark_properties (object p error info cause) = object (record p { not_sent = true }) error info cause
mark_properties (string s) =
    object (record plain { message = some s; not_sent = true }) nothing nothing nothing
mark_properties _ = object (record plain { not_sent = true }) nothing nothing nothing

-- Nothing in the `try` raises an error of the application or of the nonce store.
pub mark_not_sent : Thrown → Thrown
unfolding mark_properties
mark_not_sent (raised e) = raised (mark_properties e)
mark_not_sent other = other

-- (err as { notSent?: boolean } | null)?.notSent
unfoldable pub is_not_sent : Thrown → Bool
is_not_sent (raised (object p error info cause)) = p.not_sent
is_not_sent _ = false

pub parse_major : Text → Bool
parse_major version = elim (parse_int version) [ none ↦ false | some major ↦ ltb_ℤ (pos 2) major ]

abbrev pub fractional_recheck_ms : ℕ
fractional_recheck_ms = 300000

unfoldable pub get_contract_version : Prog Text
get_contract_version = catch (with_rpc_retry (ask contract_version)) (λ _. done (codes "unknown"))

-- `version.split('.')[0]` ends where `parseInt` stops reading anyway.
check_version : Prog Bool
unfolding parse_major
check_version = do
  version ← get_contract_version
  if text_eq version (codes "unknown") then done false else do
    let value = parse_major version
    at ← ask now
    ask (put_fractional (record { value = value; checked_at = at }))
    done value

unfoldable pub supports_fractional_points : Prog Bool
unfolding check_version
supports_fractional_points = do
  cached ← ask get_fractional
  elim cached [
    | none ↦ check_version
    | some support ↦ elim support.value [
      | true ↦ done true
      | false ↦ do
        at ← ask now
        if ltb at (support.checked_at + fractional_recheck_ms) then done false else check_version
    ]
  ]

module _ (limits : Limits) where
  unfoldable pub assert_sufficient_balance : Prog (Unit {0})
  assert_sufficient_balance = do
    balance ← with_rpc_retry (ask get_balance)
    if ltb balance limits.min_balance then fail (raised insufficient_funds) else done tt

  unfoldable pub build_tx_overrides : Prog Overrides
  unfolding tx_fees
  build_tx_overrides = do
    fee_data ← with_rpc_retry (ask get_fee_data)
    done (tx_fees limits fee_data)

  -- The sends of `awardPoints`, from the call of the contract on.
  unfoldable pub send_and_wait : Tx → Overrides → Prog Text
  send_and_wait tx overrides = do
    sent ← ask (send tx overrides)
    hash ← settle sent
    waited ← ask (wait hash)
    receipt ← settle waited
    elim receipt [
      | some r ↦ done r
      | none ↦ fail (raised (new_error (codes "Transaction receipt is null")))
    ]

  -- The part of `awardPoints` before the transaction is handed to the RPC.
  unfoldable pub prepare_award : Text → ℕ → Prog Overrides
  unfolding assert_sufficient_balance build_tx_overrides
  prepare_award student survey_id = do
    assert_sufficient_balance
    overrides ← build_tx_overrides
    estimated ← ask (estimate_gas (award_points student survey_id) overrides)
    gas_limit ← settle estimated
    done (record overrides { gas_limit = some (gas_limit * 12 / 10) })

  unfoldable pub award : Text → ℕ → Prog Text
  unfolding prepare_award send_and_wait mark_not_sent
  award student survey_id = do
    overrides ← catch (prepare_award student survey_id) (λ err. fail (mark_not_sent err))
    send_and_wait (award_points student survey_id) overrides

  -- The other writes: balance, fees, one transaction, its receipt.
  unfoldable pub write : Tx → Prog Text
  unfolding assert_sufficient_balance build_tx_overrides send_and_wait
  write tx = do
    assert_sufficient_balance
    overrides ← build_tx_overrides
    send_and_wait tx overrides

  unfoldable pub register : (survey_id points max_claims : ℕ) → Text → Prog Text
  unfolding write
  register survey_id points max_claims title =
      if points % 100 == 0
      then write (register_survey survey_id (points / 100) max_claims title)
      else write (register_survey_centi survey_id points max_claims title)

unfoldable pub get_survey_info : ℕ → Prog SurveyRow
get_survey_info survey_id = do
  fractional ← supports_fractional_points
  if fractional then with_rpc_retry (ask (survey_info_centi survey_id)) else do
    row ← with_rpc_retry (ask (survey_info_whole survey_id))
    done (record row { points = row.points * 100 })

unfoldable pub get_total_points : Text → Prog ℕ
get_total_points wallet = do
  fractional ← supports_fractional_points
  if fractional
      then with_rpc_retry (ask (total_points_centi wallet))
      else do points ← with_rpc_retry (ask (total_points_whole wallet)); done (points * 100)

unfoldable pub has_claimed : Text → ℕ → Prog Bool
has_claimed wallet survey_id = with_rpc_retry (ask (claimed wallet survey_id))

unfoldable pub check_admin : Text → Prog Bool
check_admin address = with_rpc_retry (ask (is_admin address))

unfoldable pub check_wallet_submitted : Text → Prog Bool
check_wallet_submitted address = with_rpc_retry (ask (is_wallet_submitted address))
