-- ===== src/Server.antt =====
-- The programs of the backend's request handlers: trees of calls that end in a result or a throw.
-- A call is a point where the handler waits, or a synchronous call of a store that other requests
-- share; between two calls of one handler those of others may run. What a call answers is up to
-- whoever runs the program: the RPC providers, the clock and the random numbers are not under src/.
pub mod Quiet
use vpp_blockchain.Base.{ℕ, ◌+◌, Bool, true, Option, none, some, List, [], ◌∷◌, Text, codes}
use vpp_blockchain.Base.Exec.{Result, ok, throw}
use vpp_blockchain.Base.Int.{ℤ}
use vpp_blockchain.Errors.{Properties, ErrorValue, nothing, primitive, string, object}
use vpp_blockchain.NonceStore.{StoreError}

-- The machine-readable codes of the `AppError`s that the handlers raise.
pub data ErrorCode : Type 0 where
  validation_error invalid_survey_id survey_not_found invalid_nonce_format invalid_token_format :
      ErrorCode
  invalid_message expired_message invalid_timestamp invalid_signature survey_inactive : ErrorCode
  config_error invalid_token nonce_used already_claimed : ErrorCode
  fractional_points_unsupported survey_exists key_exists already_inactive key_not_found : ErrorCode
  invalid_address already_submitted not_submitted already_admin minter_protected not_admin :
      ErrorCode
  unauthorized bad_origin forbidden signature_required action_mismatch signature_used : ErrorCode
  invalid_login expired_login : ErrorCode

-- What a handler passes to `next(err)`.
pub data Thrown : Type 0 where
  app_error : ℕ → ErrorCode → Thrown
  raised : ErrorValue → Thrown
  store_error : StoreError → Thrown

-- The transactions that the minter wallet sends. Points are in hundredths, as the contract's
-- centipoints; `register_survey` carries whole points.
pub data Tx : Type 0 where
  award_points revoke_points : Text → ℕ → Tx
  register_survey register_survey_centi : (survey_id points max_claims : ℕ) → Text → Tx
  deactivate_survey reactivate_survey : ℕ → Tx
  add_admin remove_admin mark_wallet_submitted unmark_wallet_submitted : Text → Tx

pub record FeeData : Type 0 where
  pub max_fee_per_gas : Option ℤ
  pub max_priority_fee_per_gas : Option ℤ

pub record Overrides : Type 0 where
  pub max_fee_per_gas : ℤ
  pub max_priority_fee_per_gas : ℤ
  pub gas_limit : Option ℕ

-- A row of the contract's survey view; `points` in the unit of the view that was called.
pub record SurveyRow : Type 0 where
  pub points : ℕ
  pub max_claims : ℕ
  pub claim_count : ℕ
  pub active : Bool
  pub registered_at : ℕ
  pub title : Text

pub record FractionalSupport : Type 0 where
  pub value : Bool
  pub checked_at : ℕ

pub data Call : Type 0 where
  now random_delay get_balance get_fee_data contract_version get_fractional sync_within : Call
  invalidate_cache : Call
  delay : ℕ → Call
  put_fractional : FractionalSupport → Call
  survey_info_centi survey_info_whole get_survey_key has_key create_key rotate_key delete_key :
      ℕ → Call
  get_key_created_at : ℕ → Call
  claimed : Text → ℕ → Call
  is_admin is_wallet_submitted total_points_centi total_points_whole : Text → Call
  estimate_gas send : Tx → Overrides → Call
  wait : Text → Call
  nonce_is_used nonce_mark_used nonce_release : ℕ → Text → Call
  random_nonce : Call

-- An RPC call that is rejected answers with the error.
abbrev pub Rpc : Type 0 → Type 0
Rpc A = Result ErrorValue A

abbrev pub Answer : Call → Type 0
Answer now = ℕ
Answer random_delay = ℕ
Answer get_balance = Rpc ℕ
Answer get_fee_data = Rpc FeeData
Answer contract_version = Rpc Text
Answer get_fractional = Option FractionalSupport
Answer sync_within = Unit {0}
Answer invalidate_cache = Unit {0}
Answer (delay ms) = Unit {0}
Answer (put_fractional f) = Unit {0}
Answer (survey_info_centi i) = Rpc SurveyRow
Answer (survey_info_whole i) = Rpc SurveyRow
Answer (get_survey_key i) = Option Text
Answer (has_key i) = Bool
Answer (create_key i) = Rpc Text
Answer (rotate_key i) = Rpc Text
Answer (delete_key i) = Rpc Bool
Answer (get_key_created_at i) = Option ℕ
Answer (claimed wallet i) = Rpc Bool
Answer (is_admin address) = Rpc Bool
Answer (is_wallet_submitted address) = Rpc Bool
Answer (total_points_centi address) = Rpc ℕ
Answer (total_points_whole address) = Rpc ℕ
Answer (estimate_gas tx o) = Rpc ℕ
Answer (send tx o) = Rpc Text
Answer (wait hash) = Rpc (Option Text)
Answer (nonce_is_used i nonce) = Result StoreError Bool
Answer (nonce_mark_used i nonce) = Result StoreError Bool
Answer (nonce_release i nonce) = Result StoreError (Unit {0})
Answer random_nonce = Text

pub data Prog (A : Type 0) : Type 0 where
  done : A → Prog A
  fail : Thrown → Prog A
  call : (c : Call) → (Answer c → Prog A) → Prog A

infixl 10 ◌>>=◌ ◌>>◌
unfoldable pub ◌>>=◌ : {A B : Type 0} → Prog A → (A → Prog B) → Prog B
done a >>= f = f a
fail e >>= f = fail e
call c k >>= f = call c (λ a. k a >>= f)

abbrev pub ◌>>◌ : {A B : Type 0} → Prog A → Prog B → Prog B
m >> n = m >>= λ _. n

abbrev pub ask : (c : Call) → Prog (Answer c)
ask c = call c done

-- await of a call that may reject.
abbrev pub settle : {A : Type 0} → Rpc A → Prog A
settle (ok a) = done a
settle (throw e) = fail (raised e)

abbrev pub settle_store : {A : Type 0} → Result StoreError A → Prog A
settle_store (ok a) = done a
settle_store (throw e) = fail (store_error e)

-- try { p } catch (e) { handler(e) }
unfoldable pub catch : {A : Type 0} → Prog A → (Thrown → Prog A) → Prog A
catch (done a) h = done a
catch (fail e) h = h e
catch (call c k) h = call c (λ a. catch (k a) h)

-- if (!condition) throw new AppError(status, code, …)
abbrev pub require : Bool → ℕ → ErrorCode → Prog (Unit {0})
require condition status code = elim condition [ true ↦ done tt | _ ↦ fail (app_error status code) ]

-- An error object with a message and nothing else, as `new Error(message)`.
abbrev pub plain : Properties
plain = record {
  code = none;
  status = none;
  message = none;
  short_message = none;
  response_body = none;
  response_status = none;
  reason = none;
  revert_name = none;
  not_sent = Bool.false;
}

abbrev pub new_error : Text → ErrorValue
new_error message = object (record plain { message = some message }) nothing nothing nothing
