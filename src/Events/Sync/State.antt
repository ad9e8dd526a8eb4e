-- ===== src/Events/Sync/State.antt =====
-- packages/backend/src/services/json-file-event-store.ts: the fields of the store and of its runs, the
-- rows that a window adds, and the window that a run asks for next.
use vpp_blockchain.Base.{
  ℕ, ◌+◌, ◌-◌, min, max, Bool, false, ◌||◌, Option, none, some, List, [], ◌∷◌, ◌++◌, map, leb, ◌==◌,
  if◌then◌else◌, Text,
}
use vpp_blockchain.Base.Exec.{Result}
use vpp_blockchain.Events.{
  SurveyArgs, PointsArgs, ChainEvent, EventStoreData, grant, revoke, File, pushed, survey_row,
  points_row, role_row, merge_in_chain_order, deduplicated,
}

-- The answers to the six queries of a window.
pub record Batch : Type 0 where
  pub surveys_whole : List (ChainEvent SurveyArgs)
  pub surveys_centi : List (ChainEvent SurveyArgs)
  pub points_whole : List (ChainEvent PointsArgs)
  pub points_centi : List (ChainEvent PointsArgs)
  pub grants : List (ChainEvent Text)
  pub revokes : List (ChainEvent Text)

pub data Outcome : Type 0 where
  caught_up : (head : ℕ) → Outcome
  behind : Outcome
  failed : Text → Outcome

-- The await that a run of `runSync` stands at.
pub data Phase : Type 0 where
  absent : Phase
  reading_head : (deadline : ℕ) → Phase
  reading_role : (deadline latest from_block : ℕ) → Phase
  fetching : (deadline latest from_block to_block : ℕ) → Phase
  stamping : (deadline latest from_block to_block : ℕ) → Batch → Phase
  ended : Outcome → Phase

-- `pending` until `runLocked` has settled.
pub record Task : Type 0 where
  pub phase : Phase
  pub started_at : ℕ
  pub pending : Bool

pub record System : Type 0 where
  pub store : EventStoreData
  pub file : File
  pub syncing : Bool
  pub sync_started_at : ℕ
  pub last_successful_sync_at : ℕ
  pub last_sync_error : Option Text
  pub admin_role_hash : Option Text
  pub run_generation : ℕ
  pub lock_holder : ℕ
  pub tasks : ℕ → Task

-- What the code that runs after an await reads of its surroundings: Date.now(),
-- getEventWindowSize(), whether atomicWriteJson succeeds, and what it throws if not.
pub record Moment : Type 0 where
  pub now : ℕ
  pub window : ℕ
  pub writable : Bool
  pub write_error : Text

pub data Answer : Type 0 where
  batch : Batch → Answer
  range_rejected broken : Text → Answer

pub data Input : Type 0 where
  sync_called : Moment → Input
  head_read : (generation : ℕ) → Result Text ℕ → Moment → Input
  role_read : (generation : ℕ) → Result Text Text → Moment → Input
  fetched : (generation : ℕ) → Answer → Moment → Input
  stamped : (generation : ℕ) → Result Text (ℕ → Option ℕ) → Moment → Input
  watchdog : (generation : ℕ) → Moment → Input
  settled : (generation : ℕ) → Moment → Input

abbrev pub no_task : Task
no_task = record { phase = absent; started_at = 0; pending = false }

abbrev pub sync_timeout_ms : ℕ
sync_timeout_ms = 45000

abbrev pub sync_budget_ms : ℕ
sync_budget_ms = 30000

abbrev pub checkpoint_max_blocks : ℕ
checkpoint_max_blocks = 50000

abbrev pub put : {A : Type 0} → (ℕ → A) → ℕ → A → ℕ → A
put f i a j = if j == i then a else f j

-- The system with the run at another await.
abbrev pub move : ℕ → Phase → System → System
move g phase s =
    let t = s.tasks g in
    record s {
      tasks =
          put s.tasks g (record { phase = phase; started_at = t.started_at; pending = t.pending });
    }

-- [...new Set(blockNumbers)]
abbrev pub has_block : ℕ → List ℕ → Bool
has_block b [] = false
has_block b (c ∷ cs) = b == c || has_block b cs

unfoldable pub distinct_blocks : List ℕ → List ℕ → List ℕ
distinct_blocks seen [] = []
distinct_blocks seen (b ∷ bs) =
    let rest = distinct_blocks (b ∷ seen) bs in if has_block b seen then rest else b ∷ rest

-- block?.timestamp ?? 0
abbrev pub stamp_of : Option ℕ → ℕ
stamp_of none = 0
stamp_of (some t) = t

-- The map that the workers of getBlockTimestamps fill, when none of them stops early.
unfoldable pub get_block_timestamps : List ℕ → (ℕ → Option ℕ) → List (ℕ × ℕ)
unfolding distinct_blocks
get_block_timestamps blocks answers =
    map (λ b. (b, stamp_of (answers b))) (distinct_blocks [] blocks)

-- timestamps.get(blockNumber) ?? 0
unfoldable pub timestamp_in : List (ℕ × ℕ) → ℕ → ℕ
timestamp_in [] b = 0
timestamp_in ((c, t) ∷ rest) b = let later = timestamp_in rest b in if b == c then t else later

abbrev pub block_numbers : Batch → List ℕ
block_numbers b =
    map (λ e. e.block) (merge_in_chain_order b.surveys_whole b.surveys_centi)
    ++ map (λ e. e.block) (merge_in_chain_order b.points_whole b.points_centi)

-- The store with the rows of a window pushed.
abbrev pub push_window : (ℕ → ℕ) → Batch → EventStoreData → EventStoreData
push_window timestamps b s = record s {
  survey_registered =
      s.survey_registered
      ++ pushed (survey_row timestamps) (merge_in_chain_order b.surveys_whole b.surveys_centi);
  points_awarded =
      s.points_awarded
      ++ pushed (points_row timestamps) (merge_in_chain_order b.points_whole b.points_centi);
  role_changes =
      (s.role_changes ++ pushed (role_row grant) b.grants) ++ pushed (role_row revoke) b.revokes;
}

abbrev pub record_window : (ℕ → ℕ) → Batch → ℕ → EventStoreData → EventStoreData
record_window timestamps b to_block s = record (deduplicated (push_window timestamps b s)) {
  last_synced_block = to_block;
}

-- Math.max(1, Math.min(getEventWindowSize(), CHECKPOINT_MAX_BLOCKS))
abbrev pub window_size : ℕ → ℕ
window_size window = max 1 (min window checkpoint_max_blocks)

-- The loop of runSync from its head on, when fromBlock <= latestBlock.
abbrev pub open_window : ℕ → ℕ → ℕ → Moment → Phase
open_window deadline latest from_block m =
    fetching deadline latest from_block (min (from_block + window_size m.window - 1) latest)

-- runSync after a window was applied.
abbrev pub next_window : ℕ → ℕ → ℕ → Moment → Phase
next_window deadline latest to_block m =
    if leb (to_block + 1) latest
    then if leb deadline m.now then ended behind else open_window deadline latest (to_block + 1) m
    else ended (caught_up latest)
