-- ===== src/Events/Tests.antt =====
-- Concrete runs of the event store.
use vpp_blockchain.Base.{
  ℕ, ◌+◌, ◌-◌, ◌≤◌, ◌<◌, ◌≡◌, ◌≢◌, ◌⊎◌, refl, arith, true, false, none, some, List, [], ◌∷◌, Text,
  codes, has, add, delete, text_eq, ◌==◌, if◌then◌else◌,
}
use vpp_blockchain.Base.Exec.{ok}
use vpp_blockchain.LogReader.{Network, Run, ask, read_once}
use vpp_blockchain.LogReader.Coverage
use vpp_blockchain.LogReader.Coverage.{logs}
use vpp_blockchain.Events.{
  SurveyArgs, PointsArgs, ChainEvent, StoredRoleEvent, EventStoreData, grant, revoke, empty_store,
  missing, saved, load,
}
use vpp_blockchain.Events.Sync.{
  Batch, Moment, Input, sync_called, head_read, role_read, fetched, stamped, watchdog, settled,
  batch, step, run, ended, caught_up, next_block, sync_timeout_ms,
}
use vpp_blockchain.Events.Window.{Chain, IsWindow}
use vpp_blockchain.Events.Invariant.{Honest}
use vpp_blockchain.Events.Mirror.{
  Mirrors, NoRepeats, boot, reached, empty-Mirrors, load-saved, run-NoRepeats,
}
use vpp_blockchain.Events.Restart.{run-Mirrors, run-Recoverable, settled-fresh}
use vpp_blockchain.Events.Lock.{lock-released}
use vpp_blockchain.Events.Queries.{get_current_admins, is_ready}
use vpp_blockchain.Status.{check_ready, status_of}
use vpp_blockchain.Status.Health.{HasRecent, ready-HasRecent}
use vpp_blockchain.Events.{survey_key}
use vpp_blockchain.Events.Queries.{get_survey_registered_events}
use vpp_blockchain.Events.Fallback.{get_survey_registered_from_chain, fallback-agrees}
use vpp_blockchain.Base.{map}
use vpp_blockchain.Events.Admins.{latest_change, is_granted, get_current_admins_iff}
use vpp_blockchain.Events.Source.{Sources, HonestSources, Readers, Queried}

abbrev registered : ChainEvent SurveyArgs
registered = record {
  block = 5;
  index = 1;
  tx_hash = codes "0xAB";
  args = some (record { survey_id = 7; raw = 2; max_claims = 30 });
  name = some (codes "SurveyRegistered");
}

abbrev awarded : ChainEvent PointsArgs
awarded = record {
  block = 6;
  index = 4;
  tx_hash = codes "0xcd";
  args = some (record { wallet = codes "0x01"; survey_id = 7; raw = 25 });
  name = some (codes "PointsAwardedCenti");
}

abbrev granted : ChainEvent Text
granted = record {
  block = 5;
  index = 0;
  tx_hash = codes "0xef";
  args = some (codes "0x02");
  name = none;
}

-- A chain with events in the blocks 5 and 6.
abbrev chain : Chain
chain = record {
  surveys_whole = λ n. if n == 5 then registered ∷ [] else [];
  surveys_centi = λ n. [];
  points_whole = λ n. [];
  points_centi = λ n. if n == 6 then awarded ∷ [] else [];
  grants = λ n. if n == 5 then granted ∷ [] else [];
  revokes = λ n. [];
}

abbrev window : Batch
window = record {
  surveys_whole = registered ∷ [];
  surveys_centi = [];
  points_whole = [];
  points_centi = awarded ∷ [];
  grants = granted ∷ [];
  revokes = [];
}

abbrev at : ℕ → Moment
at now = record { now = now; window = 100; writable = true; write_error = codes "disk full" }

-- A first run hangs and loses the lock; a second one catches up, while the first one's answers arrive
-- too late.
abbrev inputs : List Input
inputs =
    sync_called (at 1000)
    ∷ head_read 1 (ok 6) (at 1100)
    ∷ role_read 1 (ok (codes "role")) (at 1200)
    ∷ watchdog 1 (at 46000)
    ∷ sync_called (at 47000)
    ∷ head_read 3 (ok 6) (at 47100)
    ∷ role_read 3 (ok (codes "role")) (at 47200)
    ∷ fetched 3 (batch window) (at 47300)
    ∷ fetched 1 (batch window) (at 47400)
    ∷ stamped 3 (ok (λ n. some 99)) (at 47500)
    ∷ []

window-IsWindow : IsWindow chain 5 2 window
unfolding logs
window-IsWindow = record {
  surveys_whole = refl;
  surveys_centi = refl;
  points_whole = refl;
  points_centi = refl;
  grants = refl;
  revokes = refl;
}

inputs-Honest : Honest chain 5 inputs (boot true missing)
unfolding step
inputs-Honest =
    (tt, (tt, (tt, (tt, (tt, (tt, (tt, (window-IsWindow, (window-IsWindow, (tt, tt))))))))))

ends_at_head : ((reached 5 true missing inputs).tasks 3).phase ≡ ended (caught_up 6)
unfolding run
ends_at_head = refl

probe_ready :
    let store = (reached 5 true missing inputs).store in
    status_of (check_ready 1000 (some (900, codes "base")) (is_ready store) store.last_synced_block)
    ≡ 200
unfolding run status_of check_ready is_ready
probe_ready = refl

ready-HasRecent_example : HasRecent chain 5 900 1000 (reached 5 true missing inputs).store
ready-HasRecent_example =
    ready-HasRecent chain 1000 5 900 (codes "base") true missing inputs (omega arith)
      (empty-Mirrors chain 5) inputs-Honest probe_ready

run-Mirrors_example : Mirrors chain 5 (reached 5 true missing inputs).store
run-Mirrors_example =
    run-Mirrors chain 5 true missing inputs (omega arith) (empty-Mirrors chain 5) inputs-Honest

not_first : 1 ≢ (reached 5 true missing inputs).run_generation
unfolding run
not_first e = absurd (cc)

becomes_fresh :
    (step 5 (settled 3 (at 47600)) (reached 5 true missing inputs)).last_successful_sync_at
    ≢ (reached 5 true missing inputs).last_successful_sync_at
unfolding run
becomes_fresh e = absurd (cc)

is_taken : (reached 5 true missing inputs).syncing ≡ true
unfolding run
is_taken = refl

is_late :
    ((reached 5 true missing inputs).tasks (reached 5 true missing inputs).lock_holder).started_at
      + sync_timeout_ms
    ≤ 95000
unfolding run
is_late = omega arith

run-Recoverable_example :
    Mirrors chain 5 (load true (reached 5 true missing inputs).file empty_store).store
run-Recoverable_example =
    run-Recoverable chain 5 true true missing inputs (omega arith) (empty-Mirrors chain 5)
      inputs-Honest

run-NoRepeats_example : NoRepeats (reached 5 true missing inputs).store
run-NoRepeats_example = run-NoRepeats 5 true missing inputs

load-saved_example : load false (saved (reached 5 true missing inputs).store) empty_store ≡ record {
  store = (reached 5 true missing inputs).store;
  file = saved (reached 5 true missing inputs).store;
  threw = false;
}
load-saved_example =
    load-saved false (reached 5 true missing inputs).store empty_store
      (run-NoRepeats 5 true missing inputs)

settled-fresh_example :
    (head : ℕ) × (((reached 5 true missing inputs).tasks 3).phase ≡ ended (caught_up head))
    × (head < next_block 5 (reached 5 true missing inputs).store)
settled-fresh_example =
    settled-fresh chain 5 3 true missing inputs (at 47600) (omega arith) (empty-Mirrors chain 5)
      inputs-Honest becomes_fresh

lock-released_example :
    ((step 5 (watchdog 3 (at 95000)) (reached 5 true missing inputs)).syncing ≡ false)
    ⊎ ((step 5 (settled 3 (at 95000)) (reached 5 true missing inputs)).syncing ≡ false)
unfolding run
lock-released_example = lock-released 5 true missing inputs (at 95000) is_taken is_late

-- A grant that was stored before an earlier revocation of the same account.
abbrev changes : List StoredRoleEvent
changes =
    record { change = grant; account = codes "0x02"; block_number = 9; log_index = 1 }
    ∷ record { change = revoke; account = codes "0x02"; block_number = 9; log_index = 0 }
    ∷ []

abbrev with_changes : EventStoreData
with_changes = record empty_store { role_changes = changes }

get_current_admins_iff_example :
    has (codes "0x02") (get_current_admins with_changes)
    ≡ is_granted (latest_change (codes "0x02") changes)
get_current_admins_iff_example = get_current_admins_iff (codes "0x02") with_changes

is_admin : has (codes "0x02") (get_current_admins with_changes) ≡ true
unfolding has get_current_admins add delete text_eq
is_admin = refl

abbrev source : {T : Type 0} → (ℕ → List T) → Network T
source of_block = record {
  query = λ n i a b. ok (logs of_block a (b + 1 - a));
  should_stop = λ n. false;
}

abbrev sources : Sources
sources = record {
  surveys_whole = source chain.surveys_whole;
  surveys_centi = source chain.surveys_centi;
  points_whole = source chain.points_whole;
  points_centi = source chain.points_centi;
  grants = source chain.grants;
  revokes = source chain.revokes;
}

source-Honest : {T : Type 0} (of_block : ℕ → List T) → Coverage.Honest (source of_block) of_block
source-Honest of_block = record { answers = λ n i a b xs e. cc }

sources-Honest : HonestSources sources chain
sources-Honest = record {
  surveys_whole = source-Honest chain.surveys_whole;
  surveys_centi = source-Honest chain.surveys_centi;
  points_whole = source-Honest chain.points_whole;
  points_centi = source-Honest chain.points_centi;
  grants = source-Honest chain.grants;
  revokes = source-Honest chain.revokes;
}

abbrev reader : Run
reader = record {
  reader = record {
    span = 100;
    preferred = 0;
    successes = 0;
    source_count = 1;
    options = record { max_span = 100; grow_after = none };
  };
  requests = 0;
}

abbrev readers : Readers
readers = record {
  surveys_whole = reader;
  surveys_centi = reader;
  points_whole = reader;
  points_centi = reader;
  grants = reader;
  revokes = reader;
}

window-Queried : Queried sources 5 6 readers window
unfolding read_once ask logs
window-Queried = record {
  surveys_whole = refl;
  surveys_centi = refl;
  points_whole = refl;
  points_centi = refl;
  grants = refl;
  revokes = refl;
}

whole_logs :
    registered ∷ []
    ≡ logs chain.surveys_whole 5 (next_block 5 (reached 5 true missing inputs).store - 5)
unfolding run logs
whole_logs = refl

centi_logs :
    [] ≡ logs chain.surveys_centi 5 (next_block 5 (reached 5 true missing inputs).store - 5)
unfolding run logs
centi_logs = refl

fallback-agrees_example :
    has
      (codes "0xab:7")
      (map survey_key (get_survey_registered_from_chain (λ n. 12) (registered ∷ []) []))
    ≡ has
        (codes "0xab:7")
        (map survey_key (get_survey_registered_events (reached 5 true missing inputs).store))
fallback-agrees_example =
    fallback-agrees chain 5 (reached 5 true missing inputs).store (λ n. 12) (registered ∷ []) []
      (codes "0xab:7")
      (run-Mirrors chain 5 true missing inputs (omega arith) (empty-Mirrors chain 5) inputs-Honest)
      whole_logs centi_logs
