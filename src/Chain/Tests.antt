-- ===== src/Chain/Tests.antt =====
-- Concrete fee data.
use vpp_blockchain.Base.{◌≡◌, refl, none, some}
use vpp_blockchain.Base.Int.{pos}
use vpp_blockchain.Server.{FeeData}
use vpp_blockchain.Chain.{Limits, tx_fees, clamp_priority, or_else}
use vpp_blockchain.Chain.Fees.{AreFees, tx_fees-AreFees}

abbrev limits : Limits
limits = record { min_balance = 10; max_fee_per_gas = 5000; max_priority_fee_per_gas = 100 }

-- A provider that asks for far too much.
abbrev greedy : FeeData
greedy = record { max_fee_per_gas = some (pos 90000); max_priority_fee_per_gas = some (pos 7000) }

greedy_fees :
    tx_fees limits greedy
    ≡ record { max_fee_per_gas = pos 5000; max_priority_fee_per_gas = pos 100; gas_limit = none }
unfolding tx_fees clamp_priority or_else
greedy_fees = refl

tx_fees-AreFees_example : AreFees limits greedy (tx_fees limits greedy)
tx_fees-AreFees_example = tx_fees-AreFees limits greedy
