-- ===== src/Status.antt =====
-- What operators see of the backend: packages/backend/src/services/balance-monitor.ts,
-- packages/backend/src/routes/status.ts and packages/backend/src/routes/health.ts. Amounts are in wei;
-- their printing in ether, host names and the time that a probe took are not modelled.
mod Warnings
mod Floor
pub mod Health
mod Tests
use vpp_blockchain.Base.{
  ℕ, suc, ◌+◌, ◌-◌, ◌*◌, ◌/◌, Bool, true, false, ◌&&◌, ◌||◌, not, Option, none, some, List, [], ◌∷◌,
  ◌++◌, ◌==◌, ltb, leb, if◌then◌else◌, Text, text_eq, has,
}
use vpp_blockchain.Base.Exec.{Result, ok, throw}

-- WARN_BALANCE_WEI
abbrev pub warn_balance : ℕ → ℕ
warn_balance min_balance = min_balance * 5

abbrev pub warn_cooldown_ms : ℕ
warn_cooldown_ms = 86400000

pub record Monitor : Type 0 where
  pub last_warning_sent_at : ℕ
  pub running : Bool

-- The module variables at the start of the process.
abbrev pub new_monitor : Monitor
new_monitor = record { last_warning_sent_at = 0; running = false }

pub data Event : Type 0 where
  -- checkBalanceAndWarn, with the answer of getMinterBalance and the time after it
  checks : (now : ℕ) → Result (Unit {0}) ℕ → Event
  -- startBalanceMonitor, with the interval of the configuration, a whole number
  starts : (interval_ms : ℕ) → Event
  stops : Event

-- The state after the check, and whether it wrote MINTER_BALANCE_LOW.
pub check_balance_and_warn : ℕ → ℕ → Result (Unit {0}) ℕ → Monitor → Bool × Monitor
check_balance_and_warn min_balance now (throw e) m = (false, m)
check_balance_and_warn min_balance now (ok balance) m =
    if ltb balance (warn_balance min_balance)
    then (if leb (m.last_warning_sent_at + warn_cooldown_ms) now
        then (true, record m { last_warning_sent_at = now })
        else (false, m))
    else (false, m)

start_balance_monitor : ℕ → Monitor → Monitor
start_balance_monitor interval_ms m =
    if m.running then m else if interval_ms == 0 then m else record m { running = true }

-- One event, with the time of the warning that it writes.
pub monitor_step : ℕ → Monitor → Event → Option ℕ × Monitor
unfolding start_balance_monitor
monitor_step min_balance m (checks now answer) =
    let (warned, left) = check_balance_and_warn min_balance now answer m in
    (if warned then some now else none, left)
monitor_step min_balance m (starts interval_ms) = (none, start_balance_monitor interval_ms m)
monitor_step min_balance m stops = (none, record m { running = false })

add_some : Option ℕ → List ℕ → List ℕ
add_some none l = l
add_some (some t) l = t ∷ l

-- The times of the warnings of a run.
unfoldable pub warnings : ℕ → Monitor → List Event → List ℕ
unfolding add_some
warnings min_balance m [] = []
warnings min_balance m (e ∷ events) =
    let (warning, left) = monitor_step min_balance m e in
    add_some warning (warnings min_balance left events)

abbrev pub avg_gas_per_claim : ℕ
avg_gas_per_claim = 100000

abbrev pub avg_gas_per_register : ℕ
avg_gas_per_register = 130000

-- The numbers of GET /status
pub record Estimates : Type 0 where
  pub claims_remaining : ℕ
  pub registrations_remaining : ℕ
  pub low_balance : Bool
  pub below_warn : Bool
  pub below_min : Bool

-- feeData.gasPrice || 1_000_000n
pub gas_price : Option ℕ → ℕ
gas_price none = 1000000
gas_price (some p) = if p == 0 then 1000000 else p

-- What lies above the balance below which the backend refuses to send.
pub usable : ℕ → ℕ → ℕ
usable min_balance balance = if ltb min_balance balance then balance - min_balance else 0

pub estimates : ℕ → ℕ → Option ℕ → Estimates
unfolding gas_price
estimates min_balance balance fee =
    let price = gas_price fee in
    let free = usable min_balance balance in
    record {
      claims_remaining = free / (avg_gas_per_claim * price);
      registrations_remaining = free / (avg_gas_per_register * price);
      low_balance = ltb free (avg_gas_per_claim * price * 100);
      below_warn = ltb balance (warn_balance min_balance);
      below_min = ltb balance min_balance;
    }

-- The result of /health/ready, without the uptime.
pub record HealthResult : Type 0 where
  pub is_ok : Bool
  pub connected : Bool
  pub network : Option Text
  pub block_number : Option ℕ
  pub store_ready : Bool
  pub last_synced_block : ℕ
  pub lag_blocks : Option ℕ

-- The answers of getBlockNumber and getNetwork within the deadline; `none` is a failure.
head_of : Option (ℕ × Text) → Option ℕ
head_of none = none
head_of (some (n, name)) = some n

network_of : Option (ℕ × Text) → Option Text
network_of none = none
network_of (some (n, name)) = some name

is_some : Option (ℕ × Text) → Bool
is_some none = false
is_some (some x) = true

-- Math.max(0, blockNumber - lastSyncedBlock), or null
lag : Option ℕ → Bool → ℕ → Option ℕ
lag none store_ready last_synced_block = none
lag (some n) store_ready last_synced_block =
    if store_ready then some (n - last_synced_block) else none

-- lagBlocks !== null && lagBlocks <= config.maxEventLagBlocks
is_fresh : ℕ → Option ℕ → Bool
is_fresh max_lag none = false
is_fresh max_lag (some n) = leb n max_lag

-- checkReady, after the sync that it may have waited for
unfoldable pub check_ready :
    ℕ → Option (ℕ × Text) → (store_ready : Bool) → (last_synced_block : ℕ) → HealthResult
unfolding head_of network_of is_some lag is_fresh
check_ready max_lag answer store_ready last_synced_block =
    let lag_blocks = lag (head_of answer) store_ready last_synced_block in
    record {
      is_ok = is_some answer && store_ready && is_fresh max_lag lag_blocks;
      connected = is_some answer;
      network = network_of answer;
      block_number = head_of answer;
      store_ready = store_ready;
      last_synced_block = last_synced_block;
      lag_blocks = lag_blocks;
    }

-- The status code of GET /ready and GET /
unfoldable pub status_of : HealthResult → ℕ
status_of r = if r.is_ok then 200 else 503

abbrev pub probe_cache_ms : ℕ
probe_cache_ms = 60000

-- A round of probes, and the module variable `probeRound`.
pub record ProbeRound : Type 0 where
  pub at : ℕ
  pub result : List Bool

-- probeAll: the round that is answered with, whether it was made now, and the variable; `probes` is what
-- a round made now would give.
pub probe_all : ℕ → List Bool → Option ProbeRound → List Bool × Bool × Option ProbeRound
probe_all now probes none = (probes, true, some (record { at = now; result = probes }))
probe_all now probes (some round) =
    if ltb now (round.at + probe_cache_ms)
    then (round.result, false, some round)
    else (probes, true, some (record { at = now; result = probes }))
