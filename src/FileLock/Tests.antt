-- ===== src/FileLock/Tests.antt =====
-- Runs of the lock file of packages/backend/src/lib/file-lock.ts.
use vpp_blockchain.Base.{◌≤◌, ◌≡◌, refl, some, List, [], ◌∷◌, ◌++◌, arith}
use vpp_blockchain.FileLock.{
  Stats, System, Input, ticks, enters, moves, crashes, asleep, holding, step, run, start,
}
use vpp_blockchain.FileLock.Exclusive.{HasLock}
use vpp_blockchain.FileLock.Waits.{wait-Ends, turns, StaysWaiting}
use vpp_blockchain.FileLock.Recovery.{recovers, one_round}

abbrev first_lock : Stats
first_lock = record { ino = 7; mtime_ms = 100 }

-- Process 0 takes the lock, process 1 finds it and sleeps.
abbrev contended : List Input
contended = enters 0 ∷ moves 0 7 ∷ enters 1 ∷ moves 1 8 ∷ moves 1 8 ∷ moves 1 8 ∷ []

contended_result :
    ((run (start 100) contended).procs 0 ≡ holding first_lock)
    × ((run (start 100) contended).procs 1 ≡ asleep 3100 105)
unfolding run
contended_result = (refl, refl)

-- The lock is given back, and the other process takes it.
handed_over :
    (run
        (start 100)
        (contended ++ moves 0 0 ∷ moves 0 0 ∷ ticks 5 ∷ moves 1 9 ∷ moves 1 9 ∷ [])).procs
      1
    ≡ holding (record { ino = 9; mtime_ms = 105 })
unfolding run
handed_over = refl

-- Process 0 has the lock, and process 1 comes and finds it twice.
abbrev taken : System
taken = run (start 100) (enters 0 ∷ moves 0 7 ∷ [])

abbrev two_rounds : List Input
two_rounds =
    moves 1 8 ∷ moves 1 8 ∷ moves 1 8 ∷ ticks 5 ∷ moves 1 8 ∷ moves 1 8 ∷ moves 1 8 ∷ moves 1 8 ∷ []

waits : StaysWaiting 1 (step taken (enters 1)) two_rounds
unfolding run
waits = ground arith

two_rounds_result : turns 1 (step taken (enters 1)) two_rounds ≡ 7
unfolding run turns
two_rounds_result = refl

wait-Ends_example : turns 1 (step taken (enters 1)) two_rounds ≤ 3617
unfolding run
wait-Ends_example = wait-Ends 1 taken two_rounds refl waits

-- Process 0 ends with the lock, and process 1 comes ten seconds later.
abbrev left_behind : System
left_behind = run (start 100) (enters 0 ∷ moves 0 7 ∷ crashes 0 ∷ ticks 10001 ∷ enters 1 ∷ [])

taken_over :
    ((run left_behind (one_round 1 8)).lock ≡ some (record { ino = 8; mtime_ms = 10106 }))
    × ((run left_behind (one_round 1 8)).procs 1 ≡ holding (record { ino = 8; mtime_ms = 10106 }))
unfolding run
taken_over = recovers left_behind 1 8 13101 first_lock refl (omega arith) refl (omega arith)

-- After a crash two processes may judge the same lock stale. The slower one then moves the new lock
-- of the faster one away, and until it puts it back a third process gets the lock too.
abbrev two_breakers : List Input
two_breakers =
    enters 0
    ∷ moves 0 7
    ∷ crashes 0
    ∷ ticks 10001
    ∷ enters 1
    ∷ moves 1 0
    ∷ moves 1 0
    ∷ enters 2
    ∷ moves 2 0
    ∷ moves 2 0
    ∷ moves 1 0
    ∷ moves 1 0
    ∷ ticks 5
    ∷ moves 1 0
    ∷ moves 1 7
    ∷ moves 2 0
    ∷ enters 3
    ∷ moves 3 8
    ∷ []

two_holders :
    HasLock ((run (start 100) two_breakers).procs 1)
    × HasLock ((run (start 100) two_breakers).procs 3)
unfolding run
two_holders =
    ((record { ino = 7; mtime_ms = 10106 }, refl), (record { ino = 8; mtime_ms = 10106 }, refl))
