-- ===== src/Events/Queries.antt =====
-- packages/backend/src/services/json-file-event-store.ts: what is read off the store.
use vpp_blockchain.Base.{
  ℕ, ◌-◌, ◌/◌, Bool, Option, none, some, List, [], ◌∷◌, ltb, ◌==◌, if◌then◌else◌, Text, text_eq,
  to_lower_case, add, delete,
}
use vpp_blockchain.Events.{
  EventStoreData, StoredSurveyEvent, StoredPointsEvent, StoredRoleEvent, Change, grant, revoke,
  Position, sort,
}
use vpp_blockchain.Events.Sync.{System}

-- Date.now() - this.lastSuccessfulSyncAt > staleMs
pub is_stale : (now stale_ms : ℕ) → System → Bool
is_stale now stale_ms s = ltb stale_ms (now - s.last_successful_sync_at)

pub record SyncDebug : Type 0 where
  pub syncing : Bool
  pub last_synced_block : ℕ
  pub last_successful_sync_at : ℕ
  pub last_sync_age_seconds : Option ℕ
  pub last_sync_error : Option Text
  pub sync_started_at : ℕ
  pub current_sync_age_seconds : Option ℕ

pub get_sync_debug : (now : ℕ) → System → SyncDebug
get_sync_debug now s = record {
  syncing = s.syncing;
  last_synced_block = s.store.last_synced_block;
  last_successful_sync_at = s.last_successful_sync_at;
  last_sync_age_seconds =
      if s.last_successful_sync_at == 0
      then none
      else some ((now - s.last_successful_sync_at) / 1000);
  last_sync_error = s.last_sync_error;
  sync_started_at = s.sync_started_at;
  current_sync_age_seconds = if s.syncing then some ((now - s.sync_started_at) / 1000) else none;
}

unfoldable pub get_survey_registered_events : EventStoreData → List StoredSurveyEvent
get_survey_registered_events s = s.survey_registered

-- The filter of getPointsAwardedByWallet for an address in lower case.
unfoldable pub of_wallet : Text → List StoredPointsEvent → List StoredPointsEvent
of_wallet lower [] = []
of_wallet lower (e ∷ es) =
    let rest = of_wallet lower es in
    if text_eq (to_lower_case e.wallet) lower then e ∷ rest else rest

unfoldable pub get_points_awarded_by_wallet : Text → EventStoreData → List StoredPointsEvent
unfolding of_wallet
get_points_awarded_by_wallet wallet s = of_wallet (to_lower_case wallet) s.points_awarded

abbrev pub change_at : StoredRoleEvent → Position
change_at e = (e.block_number, e.log_index)

-- What one role change does to the set of admins.
abbrev pub apply_change : Change → Text → List Text → List Text
apply_change grant account admins = add account admins
apply_change revoke account admins = delete account admins

-- The loop of getCurrentAdmins over the sorted changes.
unfoldable pub apply_changes : List StoredRoleEvent → List Text → List Text
apply_changes [] admins = admins
apply_changes (e ∷ es) admins = apply_changes es (apply_change e.change e.account admins)

unfoldable pub get_current_admins : EventStoreData → List Text
unfolding sort apply_changes
get_current_admins s = apply_changes (sort change_at s.role_changes) []

pub get_last_synced_block : EventStoreData → ℕ
get_last_synced_block s = s.last_synced_block

unfoldable pub is_ready : EventStoreData → Bool
is_ready s = ltb 0 s.last_synced_block
