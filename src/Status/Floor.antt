-- ===== src/Status/Floor.antt =====
-- The estimates of packages/backend/src/routes/status.ts against the balance that
-- packages/backend/src/services/blockchain.ts wants before it sends.
use native.Mathlib.Nat.{le-div_iff_mul-le, mul-pos}
use vpp_blockchain.Base.{ℕ, suc, ◌+◌, ◌*◌, ◌/◌, ◌≤◌, ◌<◌, ◌↔◌, Option, none, some, arith}
use vpp_blockchain.Status.{gas_price, usable, estimates, avg_gas_per_claim, avg_gas_per_register}

gas_price_pos : (fee : Option ℕ) → 0 < gas_price fee
unfolding gas_price
gas_price_pos none = omega arith
gas_price_pos (some p) = ground arith

le-usable_iff :
    (min_balance balance t : ℕ)
    → 0 < t
    → (t ≤ usable min_balance balance) ↔ (min_balance + t ≤ balance)
unfolding usable
le-usable_iff min_balance balance t pos = (λ h. ground arith, λ h. ground arith)

fits :
    (min_balance balance cost n : ℕ)
    → 0 < cost
    → (suc n ≤ usable min_balance balance / cost) ↔ (min_balance + suc n * cost ≤ balance)
fits min_balance balance cost n pos =
    let quotient = le-div_iff_mul-le {k = cost} {x = suc n} {y = usable min_balance balance} pos in
    let some_cost : 0 < suc n * cost = mul-pos (omega arith) pos in
    let above = le-usable_iff min_balance balance (suc n * cost) some_cost in
    (λ h. above.0 (quotient.0 h), λ h. quotient.1 (above.1 h))

-- The estimates are exact: n claims, and n registrations, are among those that remain exactly if paying
-- for them all at the average gas and the current price leaves the balance that the backend wants
-- before it sends.
pub estimates_iff :
    (min_balance balance : ℕ) (fee : Option ℕ) (n : ℕ)
    → ((suc n ≤ (estimates min_balance balance fee).claims_remaining)
        ↔ (min_balance + suc n * (avg_gas_per_claim * gas_price fee) ≤ balance))
      × ((suc n ≤ (estimates min_balance balance fee).registrations_remaining)
          ↔ (min_balance + suc n * (avg_gas_per_register * gas_price fee) ≤ balance))
unfolding estimates
estimates_iff min_balance balance fee n =
    let price : 0 < gas_price fee = gas_price_pos fee in
    (
      fits min_balance balance (avg_gas_per_claim * gas_price fee) n (omega arith),
      fits min_balance balance (avg_gas_per_register * gas_price fee) n (omega arith),
    )
