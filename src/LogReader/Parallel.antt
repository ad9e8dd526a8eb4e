-- ===== src/LogReader/Parallel.antt =====
-- packages/backend/src/lib/log-reader.ts: requests of one `AdaptiveLogReader` that run at the same time, as
-- those of a window do. A request goes on when its source has answered; between its attempts others may
-- have changed the fields of the reader.
pub mod Once
pub mod Alone
use vpp_blockchain.Base.{
  ℕ, suc, ◌+◌, ◌-◌, ◌%◌, Bool, true, false, ◌||◌, List, [], ◌∷◌, ltb, ◌==◌, if◌then◌else◌,
}
use vpp_blockchain.Base.Exec.{Result, ok, throw}
use vpp_blockchain.Errors.{ErrorValue, nothing}
use vpp_blockchain.Errors.Range.{is_range_rejection}
use vpp_blockchain.LogReader.{
  Reader, ReadError, superseded, range_rejected, failed, record_success, shrink,
}

pub data Answer : Type 0 where
  answers : Answer
  throws : ErrorValue → Answer

-- Where a call of `readOnce` for `requested` blocks stands.
pub data Phase : Type 0 where
  unasked : Phase
  asking : (requested attempt index : ℕ) → (refused : Bool) → Phase
  ended : Result ReadError (Unit {0}) → Phase

pub record Requests : Type 0 where
  pub reader : Reader
  pub phases : ℕ → Phase

-- What `shouldStop` says at the attempt that comes next is `stop`.
pub data Event : Type 0 where
  calls : (id requested : ℕ) → (stop : Bool) → Event
  settles : (id : ℕ) → Answer → (stop : Bool) → Event

abbrev pub put_phase : ℕ → Phase → Requests → Requests
put_phase id phase s = record s { phases = λ i. if i == id then phase else s.phases i }

-- After the loop
unfoldable pub give_up : ℕ → ℕ → ErrorValue → Bool → Requests → Requests
give_up id requested last true s =
    put_phase id (ended (throw (range_rejected last)))
      (record s { reader = shrink requested s.reader })
give_up id requested last false s = put_phase id (ended (throw (failed last))) s

-- The head of the loop, and the start of an attempt.
unfoldable pub next_attempt : ℕ → ℕ → ℕ → ErrorValue → Bool → Bool → Requests → Requests
unfolding give_up
next_attempt id requested attempt last refused stop s =
    if ltb attempt s.reader.source_count
    then (if stop
        then put_phase id (ended (throw superseded)) s
        else put_phase id
            (asking requested attempt ((s.reader.preferred + attempt) % s.reader.source_count)
              refused)
            s)
    else give_up id requested last refused s

unfoldable pub settle : ℕ → Answer → Bool → Phase → Requests → Requests
unfolding next_attempt
settle id answers stop (asking requested attempt index refused) s =
    put_phase id (ended (ok tt))
      (record s { reader = record_success requested (record s.reader { preferred = index }) })
settle id (throws err) stop (asking requested attempt index refused) s =
    next_attempt id requested (attempt + 1) err (is_range_rejection err || refused) stop s
settle id reply stop _ s = s

unfoldable pub call : ℕ → ℕ → Bool → Phase → Requests → Requests
unfolding next_attempt
call id requested stop unasked s = next_attempt id requested 0 nothing false stop s
call id requested stop _ s = s

unfoldable pub step : Requests → Event → Requests
unfolding call settle
step s (calls id requested stop) = call id requested stop (s.phases id) s
step s (settles id reply stop) = settle id reply stop (s.phases id) s

unfoldable pub run : Requests → List Event → Requests
unfolding step
run s [] = s
run s (e ∷ events) = run (step s e) events

abbrev pub new_requests : Reader → Requests
new_requests reader = record { reader = reader; phases = λ _. unasked }
