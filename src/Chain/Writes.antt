-- ===== src/Chain/Writes.antt =====
-- The calls that the reads of packages/backend/src/services/blockchain.ts make, and those that
-- `award` makes before it sends.
use vpp_blockchain.Base.{
  ℕ, ◌+◌, ◌≡◌, refl, Bool, true, false, Option, none, some, Text, text_eq, codes, ltb,
  if◌then◌else◌,
}
use vpp_blockchain.Errors.{object, nothing, primitive, string}
use vpp_blockchain.RpcRetry.{with_rpc_retry}
use vpp_blockchain.RpcRetry.Attempts.{with_rpc_retry-Quiet, settle-Quiet}
use vpp_blockchain.Server.{
  Call, get_balance, get_fee_data, contract_version, FractionalSupport, survey_info_whole, Rpc,
  Prog, done, Thrown, raised, app_error, store_error, ask, settle, ◌>>=◌,
}
use vpp_blockchain.Server.Quiet.{Quiet, IsNeutral, bind-Quiet, catch-Quiet}
use vpp_blockchain.Chain.{
  Limits, get_contract_version, check_version, supports_fractional_points,
  assert_sufficient_balance, build_tx_overrides, prepare_award, get_survey_info, has_claimed,
  mark_not_sent, mark_properties, is_not_sent, fractional_recheck_ms,
}

-- Thrown by an RPC call or by the code itself, as an error value.
abbrev pub IsRaised : Thrown → Type 0
IsRaised (raised e) = Unit {0}
IsRaised _ = ⊥

read-Quiet : (c : Call) → IsNeutral c → Quiet IsRaised (ask c)
read-Quiet c h = (h, λ a. tt)

if-Quiet :
    {A : Type 0} (E : Thrown → Type 0) (b : Bool) (p q : Prog A)
    → Quiet E p
    → Quiet E q
    → Quiet E (if b then p else q)
if-Quiet E true p q h k = h
if-Quiet E false p q h k = k

get_contract_version-Quiet : Quiet IsRaised get_contract_version
unfolding get_contract_version
get_contract_version-Quiet =
    catch-Quiet IsRaised IsRaised (with_rpc_retry (ask contract_version))
      (λ _. done (codes "unknown"))
      (with_rpc_retry-Quiet IsRaised (ask contract_version) (λ e. tt) (tt, λ a. tt)) (λ e _. tt)

check_version-Quiet : Quiet IsRaised check_version
unfolding check_version ◌>>=◌
check_version-Quiet =
    bind-Quiet IsRaised get_contract_version _ get_contract_version-Quiet (λ version.
      if-Quiet IsRaised (text_eq version (codes "unknown")) _ _ tt (tt, λ at. (tt, λ _. tt)))

retried : {A : Type 0} (fn : Prog (Rpc A)) → Quiet IsRaised fn → Quiet IsRaised (with_rpc_retry fn)
retried fn h = with_rpc_retry-Quiet IsRaised fn (λ e. tt) h

cached-Quiet :
    (b : Bool) (p q : Prog Bool)
    → Quiet IsRaised p
    → Quiet IsRaised q
    → Quiet IsRaised (elim b [ true ↦ p | false ↦ q ])
cached-Quiet true p q h k = h
cached-Quiet false p q h k = k

option-Quiet :
    (o : Option FractionalSupport) (p : Prog Bool) (f : FractionalSupport → Prog Bool)
    → Quiet IsRaised p
    → ((support : FractionalSupport) → Quiet IsRaised (f support))
    → Quiet IsRaised (elim o [ none ↦ p | some support ↦ f support ])
option-Quiet none p f h k = h
option-Quiet (some support) p f h k = k support

pub supports_fractional_points-Quiet : Quiet IsRaised supports_fractional_points
unfolding supports_fractional_points ◌>>=◌
supports_fractional_points-Quiet = (
  tt,
  λ cached. option-Quiet cached check_version _ check_version-Quiet (λ support.
      cached-Quiet support.value _ _ tt (
        tt,
        λ at.
            if-Quiet IsRaised (ltb at (support.checked_at + fractional_recheck_ms)) _ _ tt
              check_version-Quiet,
      )),
)

pub get_survey_info-Quiet : (survey_id : ℕ) → Quiet IsRaised (get_survey_info survey_id)
unfolding get_survey_info ◌>>=◌
get_survey_info-Quiet survey_id =
    bind-Quiet IsRaised supports_fractional_points _ supports_fractional_points-Quiet (λ fractional.
      if-Quiet IsRaised fractional _ _ (retried _ (tt, λ a. tt)) (
        bind-Quiet IsRaised (with_rpc_retry (ask (survey_info_whole survey_id))) _
          (retried _ (tt, λ a. tt)) (λ row. tt)))

pub has_claimed-Quiet :
    (wallet : Text) (survey_id : ℕ) → Quiet IsRaised (has_claimed wallet survey_id)
unfolding has_claimed
has_claimed-Quiet wallet survey_id = retried _ (tt, λ a. tt)

pub assert_sufficient_balance-Quiet :
    (limits : Limits) → Quiet IsRaised (assert_sufficient_balance limits)
unfolding assert_sufficient_balance ◌>>=◌
assert_sufficient_balance-Quiet limits =
    bind-Quiet IsRaised (with_rpc_retry (ask get_balance)) _ (retried _ (tt, λ a. tt))
      (λ balance. if-Quiet IsRaised (ltb balance limits.min_balance) _ _ tt tt)

pub build_tx_overrides-Quiet : (limits : Limits) → Quiet IsRaised (build_tx_overrides limits)
unfolding build_tx_overrides ◌>>=◌
build_tx_overrides-Quiet limits =
    bind-Quiet IsRaised (with_rpc_retry (ask get_fee_data)) _ (retried _ (tt, λ a. tt))
      (λ fee_data. tt)

-- Up to the transaction, `awardPoints` is quiet.
pub prepare_award-Quiet :
    (limits : Limits) (student : Text) (survey_id : ℕ)
    → Quiet IsRaised (prepare_award limits student survey_id)
unfolding prepare_award ◌>>=◌
prepare_award-Quiet limits student survey_id =
    bind-Quiet IsRaised (assert_sufficient_balance limits) _
      (assert_sufficient_balance-Quiet limits)
      (λ _.
        bind-Quiet IsRaised (build_tx_overrides limits) _ (build_tx_overrides-Quiet limits)
          (λ overrides. (
            tt,
            λ estimated.
                bind-Quiet IsRaised (settle estimated) _ (settle-Quiet IsRaised estimated (λ e. tt))
                  (λ g. tt),
          )))

-- An error that `markNotSent` marked says that nothing was sent.
pub mark_not_sent_lem : (e : Thrown) → IsRaised e → is_not_sent (mark_not_sent e) ≡ true
unfolding mark_not_sent is_not_sent mark_properties
mark_not_sent_lem (raised nothing) h = refl
mark_not_sent_lem (raised (object p error info cause)) h = refl
mark_not_sent_lem (raised primitive) h = refl
mark_not_sent_lem (raised (string s)) h = refl
mark_not_sent_lem (app_error s c) h = elim h [ ]
mark_not_sent_lem (store_error c) h = elim h [ ]
