-- ===== src/Events/Sync.antt =====
-- packages/backend/src/services/json-file-event-store.ts: `sync`, `runLocked`, `runSync` and
-- `syncWindow` as a machine whose steps are what happens between two awaits. A run is known by its
-- generation. An input says which await has settled, with what, and how the clock, the span of the
-- log reader and the disk are then; inputs come in any order, so runs that were abandoned go on
-- beside newer ones. `sync` again after a second is an input like any call of it.
mod State
unfoldable pub use State.*
use vpp_blockchain.Base.{
  ℕ, ◌+◌, ◌-◌, min, max, Bool, true, false, ◌&&◌, ◌||◌, not, Option, none, some, List, [], ◌∷◌,
  ◌++◌, map, ltb, leb, ◌==◌, if◌then◌else◌, Text, codes,
}
use vpp_blockchain.Base.Exec.{Result, ok, throw}
use vpp_blockchain.Events.{
  SurveyArgs, PointsArgs, ChainEvent, EventStoreData, grant, revoke, File, pushed, survey_row,
  points_row, role_row, merge_in_chain_order, deduplicated, saved,
}

-- syncWindow after its awaits, and runSync up to its next await.
unfoldable pub apply_window : ℕ → ℕ → ℕ → ℕ → Batch → (ℕ → ℕ) → Moment → System → System
apply_window g deadline latest to_block b timestamps m s =
    let store = record_window timestamps b to_block s.store in
    if not (g == s.run_generation)
    then move g (ended behind) s
    else if m.writable
    then move g (next_window deadline latest to_block m)
        (record s { store = store; file = saved store })
    else move g (ended (failed m.write_error)) (record s { store = store })

-- sync()
unfoldable pub start_run : ℕ → System → System
start_run now s =
    let g = s.run_generation + 1 in
    record s {
      syncing = true;
      sync_started_at = now;
      run_generation = g;
      lock_holder = g;
      tasks = put s.tasks g (record {
        phase = reading_head (now + sync_budget_ms);
        started_at = now;
        pending = true;
      });
    }

unfoldable pub sync : ℕ → System → System
unfolding start_run
sync now s =
    if s.syncing && ltb (now - s.sync_started_at) sync_timeout_ms then s else start_run now s

-- The finally block of runLocked.
abbrev pub release_lock : ℕ → System → System
release_lock g s =
    let t = s.tasks g in
    record s {
      syncing = if s.lock_holder == g then false else s.syncing;
      tasks =
          put s.tasks g (record { phase = t.phase; started_at = t.started_at; pending = false });
    }

-- The catch block of runLocked.
abbrev pub give_up : ℕ → Text → System → System
give_up g message s = record s {
  run_generation = if s.run_generation == g then s.run_generation + 1 else s.run_generation;
  last_sync_error = some message;
}

-- runLocked after the race was won by the run.
unfoldable pub settle : ℕ → ℕ → Outcome → System → System
settle g now (caught_up head) s =
    release_lock g (record s { last_sync_error = none; last_successful_sync_at = now })
settle g now behind s = release_lock g (record s { last_sync_error = none })
settle g now (failed message) s = release_lock g (give_up g message s)

module _ (deploy_block : ℕ) where
  -- The block that the next window starts with.
  abbrev pub next_block : EventStoreData → ℕ
  next_block store =
      if store.last_synced_block == 0 then deploy_block else store.last_synced_block + 1

  abbrev pub on_head : ℕ → ℕ → ℕ → System → System
  on_head g deadline latest s =
      let from_block = next_block s.store in
      if ltb latest from_block
      then move g (ended (caught_up latest)) s
      else move g (reading_role deadline latest from_block) s

  -- What an await that has settled makes of the system; an input for another await is none.
  unfoldable pub head_step : ℕ → Result Text ℕ → Phase → System → System
  head_step g (ok latest) (reading_head deadline) s = on_head g deadline latest s
  head_step g (throw e) (reading_head deadline) s = move g (ended (failed e)) s
  head_step g r phase s = s

abbrev pub to_window : ℕ → ℕ → ℕ → ℕ → Text → Moment → System → System
to_window g deadline latest from_block hash m s =
    move g (open_window deadline latest from_block m) (record s { admin_role_hash = some hash })

-- getAdminRoleHash(), where the contract would answer with `r`
abbrev pub get_admin_role_hash : Option Text → Result Text Text → Result Text Text
get_admin_role_hash (some hash) r = ok hash
get_admin_role_hash none r = r

unfoldable pub role_step : ℕ → Result Text Text → Moment → Phase → System → System
role_step g (ok hash) m (reading_role deadline latest from_block) s =
    to_window g deadline latest from_block hash m s
role_step g (throw e) m (reading_role deadline latest from_block) s = move g (ended (failed e)) s
role_step g r m phase s = s

-- Without blocks to stamp the window is applied at once.
unfoldable pub on_batch : ℕ → ℕ → ℕ → ℕ → ℕ → Batch → Moment → List ℕ → System → System
unfolding apply_window
on_batch g deadline latest from_block to_block b m [] s =
    apply_window g deadline latest to_block b (λ _. 0) m s
on_batch g deadline latest from_block to_block b m (_ ∷ _) s =
    move g (stamping deadline latest from_block to_block b) s

-- A refused window of more than one block is tried again as a smaller one.
unfoldable pub on_rejection : ℕ → ℕ → ℕ → ℕ → ℕ → Text → Moment → System → System
on_rejection g deadline latest from_block to_block e m s =
    if ltb from_block to_block
    then if leb deadline m.now
      then move g (ended behind) s
      else move g (open_window deadline latest from_block m) s
    else move g (ended (failed e)) s

unfoldable pub fetch_step : ℕ → Answer → Moment → Phase → System → System
unfolding on_batch on_rejection
fetch_step g (batch b) m (fetching deadline latest from_block to_block) s =
    on_batch g deadline latest from_block to_block b m (block_numbers b) s
fetch_step g (range_rejected e) m (fetching deadline latest from_block to_block) s =
    on_rejection g deadline latest from_block to_block e m s
fetch_step g (broken e) m (fetching deadline latest from_block to_block) s =
    move g (ended (failed e)) s
fetch_step g a m phase s = s

unfoldable pub stamp_step : ℕ → Result Text (ℕ → Option ℕ) → Moment → Phase → System → System
unfolding apply_window get_block_timestamps timestamp_in
stamp_step g (ok answers) m (stamping deadline latest from_block to_block b) s =
    apply_window g deadline latest to_block b
      (timestamp_in (get_block_timestamps (block_numbers b) answers)) m s
stamp_step g (throw e) m (stamping deadline latest from_block to_block b) s =
    move g (ended (failed e)) s
stamp_step g r m phase s = s

-- When the timer of a run fires before the race is over.
unfoldable pub expire : ℕ → ℕ → System → System
expire g now s =
    if (s.tasks g).pending && leb ((s.tasks g).started_at + sync_timeout_ms) now
    then release_lock g (give_up g (codes "sync watchdog (>45000ms)") s)
    else s

-- The race is over when the run has ended, whatever the timer does then.
unfoldable pub watchdog_step : ℕ → ℕ → Phase → System → System
unfolding expire
watchdog_step g now absent s = s
watchdog_step g now (ended outcome) s = s
watchdog_step g now phase s = expire g now s

unfoldable pub settle_step : ℕ → ℕ → Phase → System → System
unfolding settle
settle_step g now (ended outcome) s = if (s.tasks g).pending then settle g now outcome s else s
settle_step g now phase s = s

module _ (deploy_block : ℕ) where
  unfoldable pub step : Input → System → System
  unfolding sync head_step role_step fetch_step stamp_step watchdog_step settle_step
  step (sync_called m) s = sync m.now s
  step (head_read g r m) s = head_step deploy_block g r (s.tasks g).phase s
  step (role_read g r m) s =
      role_step g (get_admin_role_hash s.admin_role_hash r) m (s.tasks g).phase s
  step (fetched g a m) s = fetch_step g a m (s.tasks g).phase s
  step (stamped g r m) s = stamp_step g r m (s.tasks g).phase s
  step (watchdog g m) s = watchdog_step g m.now (s.tasks g).phase s
  step (settled g m) s = settle_step g m.now (s.tasks g).phase s

  unfoldable pub run : List Input → System → System
  unfolding step
  run [] s = s
  run (i ∷ is) s = run is (step i s)
