-- ===== src/RpcRetry.antt =====
-- packages/backend/src/lib/rpcRetry.ts: `withRpcRetry` with the default options, which every
-- caller uses. The loop counts down the attempts that are left.
pub mod Attempts
pub mod Budget
mod Tests
use vpp_blockchain.Base.{ℕ, zero, suc, ◌+◌, ◌-◌, ◌*◌, ◌^◌, min, Bool, true, false}
use vpp_blockchain.Base.Exec.{Result, ok, throw}
use vpp_blockchain.Errors.{ErrorValue}
use vpp_blockchain.Errors.Transient.{is_transient}
use vpp_blockchain.Server.{
  Call, random_delay, delay, Rpc, Prog, done, fail, raised, ask, settle, ◌>>=◌, ◌>>◌,
}

abbrev pub default_retries : ℕ
default_retries = 4

abbrev pub default_initial_delay_ms : ℕ
default_initial_delay_ms = 250

abbrev pub default_max_delay_ms : ℕ
default_max_delay_ms = 4000

-- min(initial * 2 ** attempt, max) + floor(random * 100)
pub backoff : ℕ → ℕ → ℕ
backoff attempt jitter = min (default_initial_delay_ms * 2 ^ attempt) default_max_delay_ms + jitter

-- What follows a settled attempt while retries are left: the result, the `throw err`, or the wait
-- and the next round.
pub after_attempt : {A : Type 0} → ℕ → Prog A → Rpc A → Prog A
unfolding backoff
after_attempt attempt again (ok a) = done a
after_attempt attempt again (throw err) = elim (is_transient err) [
  | false ↦ fail (raised err)
  | true ↦ do jitter ← ask random_delay; ask (delay (backoff attempt jitter)); again
]

-- The loop, with `left` retries to go; `fn` makes the call anew and gives its outcome.
unfoldable pub retry : {A : Type 0} → ℕ → Prog (Rpc A) → Prog A
unfolding after_attempt
retry zero fn = do outcome ← fn; settle outcome
retry (suc left) fn =
    let again = retry left fn in
    (do outcome ← fn; after_attempt (default_retries - suc left) again outcome)

unfoldable pub with_rpc_retry : {A : Type 0} → Prog (Rpc A) → Prog A
unfolding retry
with_rpc_retry fn = retry default_retries fn
