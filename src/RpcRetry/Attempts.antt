-- ===== src/RpcRetry/Attempts.antt =====
-- Which calls `with_rpc_retry` of packages/backend/src/lib/rpcRetry.ts makes.
use vpp_blockchain.Base.{ℕ, zero, suc, ◌-◌, Bool-cases, inl, inr}
use vpp_blockchain.Base.Exec.{ok, throw}
use vpp_blockchain.Errors.{ErrorValue}
use vpp_blockchain.Errors.Transient.{is_transient}
use vpp_blockchain.Server.{Rpc, Prog, Thrown, raised, settle, ◌>>=◌}
use vpp_blockchain.Server.Quiet.{Quiet, bind-Quiet}
use vpp_blockchain.RpcRetry.{retry, after_attempt, with_rpc_retry, default_retries}

pub settle-Quiet :
    {A : Type 0} (E : Thrown → Type 0) (outcome : Rpc A)
    → ((e : ErrorValue) → E (raised e))
    → Quiet E (settle outcome)
settle-Quiet E (ok a) r = tt
settle-Quiet E (throw e) r = r e

after_attempt-Quiet :
    {A : Type 0} (E : Thrown → Type 0) (n : ℕ) (again : Prog A) (outcome : Rpc A)
    → ((e : ErrorValue) → E (raised e))
    → Quiet E again
    → Quiet E (after_attempt n again outcome)
unfolding after_attempt ◌>>=◌
after_attempt-Quiet E n again (ok a) r h = tt
after_attempt-Quiet E n again (throw e) r h = elim (Bool-cases (is_transient e)) [
  | inl t ↦ rw (t, after_attempt) (tt, λ jitter. (tt, λ _. h))
  | inr t ↦ rw (t, after_attempt) (r e)
]

retry-Quiet :
    {A : Type 0} (E : Thrown → Type 0) (left : ℕ) (fn : Prog (Rpc A))
    → ((e : ErrorValue) → E (raised e))
    → Quiet E fn
    → Quiet E (retry left fn)
unfolding retry
retry-Quiet E zero fn r h = bind-Quiet E fn settle h (λ outcome. settle-Quiet E outcome r)
retry-Quiet E (suc left) fn r h =
    bind-Quiet E fn (after_attempt (default_retries - suc left) (retry left fn)) h
      (λ outcome. after_attempt-Quiet E _ (retry left fn) outcome r (retry-Quiet E left fn r h))

-- Reading with retries is quiet where one attempt is.
pub with_rpc_retry-Quiet :
    {A : Type 0} (E : Thrown → Type 0) (fn : Prog (Rpc A))
    → ((e : ErrorValue) → E (raised e))
    → Quiet E fn
    → Quiet E (with_rpc_retry fn)
unfolding with_rpc_retry
with_rpc_retry-Quiet E fn r h = retry-Quiet E default_retries fn r h
