-- ===== src/RpcRetry/Budget.antt =====
-- How often packages/backend/src/lib/rpcRetry.ts makes a call, and how long it waits in all.
use vpp_blockchain.Base.{ℕ, zero, suc, ◌+◌, ◌-◌, ◌≤◌, ◌<◌, ◌≡◌, refl, arith, Bool-cases, inl, inr}
use vpp_blockchain.Base.Exec.{ok, throw, Result-cases}
use vpp_blockchain.Errors.Transient.{is_transient}
use vpp_blockchain.Server.{
  Call, Answer, random_delay, delay, Rpc, Prog, done, fail, call, settle, ◌>>=◌,
}
use vpp_blockchain.Server.Quiet.{Env}
use vpp_blockchain.RpcRetry.{retry, after_attempt, with_rpc_retry, default_retries, backoff}

-- What a run costs: the calls but for those of the pause, and the milliseconds of the pauses.
abbrev pub price : Call → ℕ × ℕ
price (delay ms) = (0, ms)
price random_delay = (0, 0)
price c = (1, 0)

pub requests : {A : Type 0} → Env → ℕ → Prog A → ℕ
requests env n (done a) = 0
requests env n (fail e) = 0
requests env n (call c k) = (price c).0 + requests env (n + 1) (k (env n c))

pub waited : {A : Type 0} → Env → ℕ → Prog A → ℕ
waited env n (done a) = 0
waited env n (fail e) = 0
waited env n (call c k) = (price c).1 + waited env (n + 1) (k (env n c))

-- The longest that `left` retries wait.
abbrev longest : ℕ → ℕ
longest zero = 0
longest (suc left) = backoff (default_retries - suc left) 99 + longest left

backoff-bound : (a jitter : ℕ) → jitter < 100 → backoff a jitter ≤ backoff a 99
unfolding backoff
backoff-bound a jitter h = omega arith

-- One attempt: a single call whose answer gives the outcome.
abbrev pub attempt : {A : Type 0} (c : Call) → (Answer c → Rpc A) → Prog (Rpc A)
attempt c outcome = call c (λ a. done (outcome a))

module _ {A : Type 0} (c : Call) (outcome : Answer c → Rpc A) (env : Env) where
  settled-cost :
      (n : ℕ) (r : Rpc A) → (requests env n (settle r) ≡ 0) × (waited env n (settle r) ≡ 0)
  unfolding requests waited
  settled-cost n (ok a) = (refl, refl)
  settled-cost n (throw e) = (refl, refl)

  retry-cost :
      (left n : ℕ)
      → price c ≡ (1, 0)
      → ((m : ℕ) → env m random_delay < 100)
      → (requests env n (retry left (attempt c outcome)) ≤ left + 1)
        × (waited env n (retry left (attempt c outcome)) ≤ longest left)
  unfolding retry requests waited ◌>>=◌ after_attempt
  retry-cost zero n p j =
      let (r, w) = settled-cost (n + 1) (outcome (env n c)) in
      rw (p, r, w) (ground arith, ground arith)
  retry-cost (suc left) n p j = elim (Result-cases (outcome (env n c))) [
    | inl (a, q) ↦ rw (q, p) (ground arith, ground arith)
    | inr (e, q) ↦ elim (Bool-cases (is_transient e)) [
      | inr t ↦ rw (q, p, t) (ground arith, ground arith)
      | inl t ↦
          let (r, w) = retry-cost left (n + 1 + 1 + 1) p j in
          let jitter = j (n + 1) in
          rw (q, p, t)
            (
              omega arith,
              omega (
                arith,
                backoff-bound (default_retries - suc left) (env (n + 1) random_delay) jitter,
              ),
            )
    ]
  ]

  -- A call with retries, where the random part of a pause is below 100 ms: on every run it is made
  -- five times at most, and the pauses take 4146 ms in all at most.
  pub with_rpc_retry-cost :
      (n : ℕ)
      → price c ≡ (1, 0)
      → ((m : ℕ) → env m random_delay < 100)
      → (requests env n (with_rpc_retry (attempt c outcome)) ≤ 5)
        × (waited env n (with_rpc_retry (attempt c outcome)) ≤ 4146)
  unfolding with_rpc_retry backoff
  with_rpc_retry-cost n p j = let (r, w) = retry-cost default_retries n p j in (r, w)
