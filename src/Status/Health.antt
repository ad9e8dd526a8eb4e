-- ===== src/Status/Health.antt =====
-- What the readiness probe of packages/backend/src/routes/health.ts says of the event store of
-- packages/backend/src/services/json-file-event-store.ts.
use vpp_blockchain.Base.{ℕ, ◌+◌, ◌-◌, ◌<◌, ◌≡◌, some, arith, Bool, Text, List}
use vpp_blockchain.Status.{check_ready, status_of, head_of, network_of, is_some, lag, is_fresh}
use vpp_blockchain.Events.{EventStoreData, File, empty_store, load}
use vpp_blockchain.Events.Queries.{is_ready}
use vpp_blockchain.Events.Sync.{Input, next_block}
use vpp_blockchain.Events.Window.{Chain, Holds}
use vpp_blockchain.Events.Invariant.{Honest}
use vpp_blockchain.Events.Mirror.{Mirrors, boot, reached}
use vpp_blockchain.Events.Restart.{run-Mirrors}

-- The next block of a store that is called ready is at most `max_lag` blocks behind the one after the
-- head.
ready-IsClose :
    (max_lag deploy head : ℕ) (network : Text) (store : EventStoreData)
    → status_of
        (check_ready max_lag (some (head, network)) (is_ready store) store.last_synced_block)
      ≡ 200
    → head < next_block deploy store + max_lag
unfolding status_of check_ready head_of network_of is_some lag is_fresh is_ready
ready-IsClose max_lag deploy head network store h = ground arith

-- The blocks of which the store has the events.
abbrev pub HasRecent : Chain → (deploy head max_lag : ℕ) → EventStoreData → Type 0
HasRecent chain deploy head max_lag store =
    (count : ℕ) × (head < deploy + count + max_lag) × Holds chain deploy count store

-- If the deployment block is set, above 0, what was loaded mirrors the chain, and the queries are
-- answered with the logs of the blocks they ask for: whenever the probe answers 200 after any interleaving of sync runs, the store has rows with
-- exactly the keys of the events of the blocks from the deployment to some block, and at most `max_lag`
-- blocks up to the head that the probe read lie beyond that block.
pub ready-HasRecent :
    (chain : Chain) (max_lag deploy head : ℕ) (network : Text) (writable : Bool) (file : File)
    (is : List Input)
    → 0 < deploy
    → Mirrors chain deploy (load writable file empty_store).store
    → Honest chain deploy is (boot writable file)
    → let store = (reached deploy writable file is).store in
      status_of
          (check_ready max_lag (some (head, network)) (is_ready store) store.last_synced_block)
        ≡ 200
      → HasRecent chain deploy head max_lag store
ready-HasRecent chain max_lag deploy head network writable file is positive m w ok =
    let store = (reached deploy writable file is).store in
    let mirrors = run-Mirrors chain deploy writable file is positive m w in
    (
      next_block deploy store - deploy,
      omega (arith, mirrors.started, ready-IsClose max_lag deploy head network store ok),
      mirrors.held,
    )
