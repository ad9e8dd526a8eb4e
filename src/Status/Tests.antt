-- ===== src/Status/Tests.antt =====
-- Inputs for the code that operators see: packages/backend/src/services/balance-monitor.ts,
-- packages/backend/src/routes/status.ts and packages/backend/src/routes/health.ts.
use vpp_blockchain.Base.{◌+◌, ◌*◌, ◌≤◌, ◌≡◌, ◌↔◌, refl, true, false, none, some, List, [], ◌∷◌}
use vpp_blockchain.Base.Exec.{ok, throw}
use vpp_blockchain.Status.{
  Event, checks, starts, stops, new_monitor, warnings, estimates, gas_price, avg_gas_per_claim,
  avg_gas_per_register, check_ready, status_of, probe_all, HealthResult,
}
use vpp_blockchain.Status.Warnings.{AreSpaced, warnings-AreSpaced}
use vpp_blockchain.Status.Floor.{estimates_iff}

-- A low balance is seen three times, an error once; the second warning is due a day later.
abbrev two_days : List Event
two_days =
    starts 3600000
    ∷ checks 100000000 (ok 4)
    ∷ checks 103600000 (ok 4)
    ∷ checks 180000000 (throw tt)
    ∷ checks 190000000 (ok 3)
    ∷ []

two_warnings : warnings 1 new_monitor two_days ≡ 100000000 ∷ 190000000 ∷ []
unfolding warnings vpp_blockchain.Status.monitor_step vpp_blockchain.Status.check_balance_and_warn
two_warnings = refl

warnings-AreSpaced_example : AreSpaced 0 (warnings 1 new_monitor two_days)
warnings-AreSpaced_example = warnings-AreSpaced 1 new_monitor two_days

-- At a price of 10 and 5,000,000 above the floor, five claims and three registrations remain.
few_left : (estimates 1000 5001000 (some 10)).registrations_remaining ≡ 3
unfolding estimates vpp_blockchain.Status.usable
few_left = refl

estimates_iff_example :
    ((5 ≤ (estimates 1000 5001000 (some 10)).claims_remaining)
      ↔ (1000 + 5 * (avg_gas_per_claim * gas_price (some 10)) ≤ 5001000))
    × ((5 ≤ (estimates 1000 5001000 (some 10)).registrations_remaining)
        ↔ (1000 + 5 * (avg_gas_per_register * gas_price (some 10)) ≤ 5001000))
estimates_iff_example = estimates_iff 1000 5001000 (some 10) 4

-- The second request of a minute gets the round of the first.
one_round :
    probe_all 50000 (false ∷ []) (probe_all 1000 (true ∷ []) none).2
    ≡ (true ∷ [], false, some (record { at = 1000; result = true ∷ [] }))
unfolding probe_all
one_round = refl
