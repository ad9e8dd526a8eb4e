-- ===== src/FileLock/Recovery.antt =====
-- A lock that a crashed process left behind, in packages/backend/src/lib/file-lock.ts.
use vpp_blockchain.Base.{ℕ, ◌+◌, ◌≤◌, ◌<◌, ◌≡◌, refl, Option, none, some, List, [], ◌∷◌, arith}
use vpp_blockchain.FileLock.{
  Stats, Pc, System, Input, ticks, moves, opening, looking, moving, checking, asleep, holding,
  stale_lock_ms, retry_ms, step, run, advance, open_lock, look_at, move_away, same_stats,
}

-- The clock, the lock file and where the process stands.
record At (pid : ℕ) (s : System) (now : ℕ) (lock : Option Stats) (pc : Pc) : Type 0 where
  clock : s.now ≡ now
  file : s.lock ≡ lock
  here : s.procs pid ≡ pc

module _ (pid ino deadline now : ℕ) (s : System) where
  unlocked-At :
      At pid s now none (opening deadline)
      → let fd : Stats = record { ino = ino; mtime_ms = now } in
        At pid (step s (moves pid ino)) now (some fd) (holding fd)
  unfolding step advance open_lock
  unlocked-At a = ground arith

  found-At :
      (f : Stats)
      → At pid s now (some f) (opening deadline)
      → At pid (step s (moves pid ino)) now (some f) (looking deadline)
  unfolding step advance open_lock
  found-At f a = ground arith

  looked-At :
      (f : Stats)
      → f.mtime_ms + stale_lock_ms < now
      → At pid s now (some f) (looking deadline)
      → At pid (step s (moves pid ino)) now (some f) (moving deadline f)
  unfolding step advance look_at
  looked-At f stale a = ground arith

  moved-At :
      (f : Stats)
      → At pid s now (some f) (moving deadline f)
      → At pid (step s (moves pid ino)) now none (checking deadline)
  unfolding step advance move_away same_stats
  moved-At f a = ground arith

  checked-At :
      (lock : Option Stats)
      → now ≤ deadline
      → At pid s now lock (checking deadline)
      → At pid (step s (moves pid ino)) now lock (asleep deadline (now + retry_ms))
  unfolding step advance
  checked-At lock early a = ground arith

  slept-At :
      (lock : Option Stats) (until : ℕ)
      → until ≤ now
      → At pid s now lock (asleep deadline until)
      → At pid (step s (moves pid ino)) now lock (opening deadline)
  unfolding step advance
  slept-At lock until up a = ground arith

  ticked-At :
      (lock : Option Stats) (pc : Pc) (ms : ℕ)
      → At pid s now lock pc
      → At pid (step s (ticks ms)) (now + ms) lock pc
  unfolding step
  ticked-At lock pc ms a = ground arith

-- One round of the loop: open, look, move away, check the deadline, sleep, wake and open again.
abbrev pub one_round : ℕ → ℕ → List Input
one_round pid ino =
    let move = moves pid ino in move ∷ move ∷ move ∷ move ∷ ticks retry_ms ∷ move ∷ move ∷ []

-- A process that finds a lock older than ten seconds before its deadline removes it and has the lock
-- after one round, if no other process makes a step in that round.
pub recovers :
    (s : System) (pid ino deadline : ℕ) (left : Stats)
    → s.lock ≡ some left
    → left.mtime_ms + stale_lock_ms < s.now
    → s.procs pid ≡ opening deadline
    → s.now ≤ deadline
    → let fd : Stats = record { ino = ino; mtime_ms = s.now + retry_ms } in
      let t = run s (one_round pid ino) in (t.lock ≡ some fd) × (t.procs pid ≡ holding fd)
unfolding run
recovers s pid ino deadline left locked stale here early =
    let move = moves pid ino in
    let a : At pid s s.now (some left) (opening deadline) = record {
      clock = refl;
      file = locked;
      here = here;
    } in
    let s₁ = step s move in
    let a₁ = found-At pid ino deadline s.now s left a in
    let s₂ = step s₁ move in
    let a₂ = looked-At pid ino deadline s.now s₁ left stale a₁ in
    let s₃ = step s₂ move in
    let a₃ = moved-At pid ino deadline s.now s₂ left a₂ in
    let s₄ = step s₃ move in
    let a₄ = checked-At pid ino deadline s.now s₃ none early a₃ in
    let until = s.now + retry_ms in
    let s₅ = step s₄ (ticks retry_ms) in
    let a₅ = ticked-At pid ino deadline s.now s₄ none (asleep deadline until) retry_ms a₄ in
    let a₆ = slept-At pid ino deadline until s₅ none until (omega arith) a₅ in
    let a₇ = unlocked-At pid ino deadline until (step s₅ move) a₆ in (a₇.file, a₇.here)
