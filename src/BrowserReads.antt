-- ===== src/BrowserReads.antt =====
-- packages/frontend/src/hooks/use-blockchain.ts: `read`, which asks the configured RPCs in turn. Reads of
-- one page run at the same time and share the module variable preferredIndex. What an RPC answers, in time
-- or not, is an input; the calls of the contract only name what they read.
mod Range
mod Turns
mod Tests
use vpp_blockchain.Base.{
  ℕ, suc, ◌+◌, ◌%◌, Bool, true, false, Option, none, some, List, [], ◌∷◌, ◌==◌, ltb, if◌then◌else◌,
  Text,
}
use vpp_blockchain.Base.Exec.{Result, ok, throw}

-- How one attempt ends: with a value, with a revert of the contract, or with another error, of which one
-- is the deadline of withTimeout.
pub data Outcome : Type 0 where
  answers : Text → Outcome
  reverts fails : Text → Outcome

-- Where a read stands; `none` is the undefined lastError of a loop without an attempt.
pub data Phase : Type 0 where
  unread : Phase
  asking : (attempt index : ℕ) → Phase
  settled : Result (Option Text) Text → Phase

-- preferredIndex, and the reads of the page; `count` is contracts.length.
pub record Reads : Type 0 where
  pub count : ℕ
  pub preferred : ℕ
  pub phases : ℕ → Phase

pub data Event : Type 0 where
  calls : (id : ℕ) → Event
  settles : (id : ℕ) → Outcome → Event

abbrev pub put_phase : ℕ → Phase → Reads → Reads
put_phase id phase s = record s { phases = λ i. if i == id then phase else s.phases i }

-- The head of the loop, with the error of the attempt before.
unfoldable pub attempt_at : ℕ → ℕ → Option Text → Reads → Reads
attempt_at id attempt last s =
    if ltb attempt s.count
    then put_phase id (asking attempt ((s.preferred + attempt) % s.count)) s
    else put_phase id (settled (throw last)) s

call : ℕ → Phase → Reads → Reads
unfolding attempt_at
call id unread s = attempt_at id 0 none s
call id _ s = s

unfoldable pub settle : ℕ → Outcome → Phase → Reads → Reads
unfolding attempt_at
settle id (answers v) (asking attempt index) s =
    put_phase id (settled (ok v)) (record s { preferred = index })
settle id (reverts e) (asking attempt index) s = put_phase id (settled (throw (some e))) s
settle id (fails e) (asking attempt index) s = attempt_at id (suc attempt) (some e) s
settle id outcome _ s = s

unfoldable pub step : Reads → Event → Reads
unfolding call settle
step s (calls id) = call id (s.phases id) s
step s (settles id outcome) = settle id outcome (s.phases id) s

unfoldable pub run : Reads → List Event → Reads
unfolding step
run s [] = s
run s (e ∷ events) = run (step s e) events

abbrev pub new_page : ℕ → Reads
new_page count = record { count = count; preferred = 0; phases = λ _. unread }
