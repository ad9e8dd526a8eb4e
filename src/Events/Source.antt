-- ===== src/Events/Source.antt =====
-- packages/backend/src/services/json-file-event-store.ts, `syncWindow`: the six queries of a window,
-- as requests of packages/backend/src/lib/log-reader.ts.
use vpp_blockchain.Base.{ℕ, ◌+◌, ◌-◌, ◌≡◌, Text}
use vpp_blockchain.Base.Exec.{ok}
use vpp_blockchain.LogReader.{Network, Run, read_once}
use vpp_blockchain.LogReader.Coverage.{Honest, read_once-logs}
use vpp_blockchain.Events.{SurveyArgs, PointsArgs, ChainEvent}
use vpp_blockchain.Events.Sync.{Batch}
use vpp_blockchain.Events.Window.{Chain, IsWindow}

-- The sources as each of the six queries sees them.
pub record Sources : Type 0 where
  pub surveys_whole : Network (ChainEvent SurveyArgs)
  pub surveys_centi : Network (ChainEvent SurveyArgs)
  pub points_whole : Network (ChainEvent PointsArgs)
  pub points_centi : Network (ChainEvent PointsArgs)
  pub grants : Network (ChainEvent Text)
  pub revokes : Network (ChainEvent Text)

-- Each source throws, or answers with the logs of the chain.
pub record HonestSources (net : Sources) (chain : Chain) : Type 0 where
  pub surveys_whole : Honest net.surveys_whole chain.surveys_whole
  pub surveys_centi : Honest net.surveys_centi chain.surveys_centi
  pub points_whole : Honest net.points_whole chain.points_whole
  pub points_centi : Honest net.points_centi chain.points_centi
  pub grants : Honest net.grants chain.grants
  pub revokes : Honest net.revokes chain.revokes

-- The readers that the six queries find.
pub record Readers : Type 0 where
  pub surveys_whole : Run
  pub surveys_centi : Run
  pub points_whole : Run
  pub points_centi : Run
  pub grants : Run
  pub revokes : Run

-- Each query was answered by one request for the window.
pub record Queried (net : Sources) (from_block to_block : ℕ) (s : Readers) (b : Batch)
    : Type 0 where
  pub surveys_whole :
      (read_once net.surveys_whole from_block to_block s.surveys_whole).0 ≡ ok b.surveys_whole
  pub surveys_centi :
      (read_once net.surveys_centi from_block to_block s.surveys_centi).0 ≡ ok b.surveys_centi
  pub points_whole :
      (read_once net.points_whole from_block to_block s.points_whole).0 ≡ ok b.points_whole
  pub points_centi :
      (read_once net.points_centi from_block to_block s.points_centi).0 ≡ ok b.points_centi
  pub grants : (read_once net.grants from_block to_block s.grants).0 ≡ ok b.grants
  pub revokes : (read_once net.revokes from_block to_block s.revokes).0 ≡ ok b.revokes

-- If every source throws or answers with the logs of the blocks it is asked for, the answers that the
-- log reader gives to the six queries of a window, from whatever state each finds the reader in, are
-- the logs of the chain in that window.
pub queries-IsWindow :
    (net : Sources) (chain : Chain) (from_block to_block : ℕ) (s : Readers) (b : Batch)
    → HonestSources net chain
    → Queried net from_block to_block s b
    → IsWindow chain from_block (to_block + 1 - from_block) b
queries-IsWindow net chain from_block to_block s b honest q = record {
  surveys_whole =
      read_once-logs net.surveys_whole chain.surveys_whole honest.surveys_whole from_block to_block
        s.surveys_whole b.surveys_whole q.surveys_whole;
  surveys_centi =
      read_once-logs net.surveys_centi chain.surveys_centi honest.surveys_centi from_block to_block
        s.surveys_centi b.surveys_centi q.surveys_centi;
  points_whole =
      read_once-logs net.points_whole chain.points_whole honest.points_whole from_block to_block
        s.points_whole b.points_whole q.points_whole;
  points_centi =
      read_once-logs net.points_centi chain.points_centi honest.points_centi from_block to_block
        s.points_centi b.points_centi q.points_centi;
  grants =
      read_once-logs net.grants chain.grants honest.grants from_block to_block s.grants b.grants
        q.grants;
  revokes =
      read_once-logs net.revokes chain.revokes honest.revokes from_block to_block s.revokes
        b.revokes q.revokes;
}
