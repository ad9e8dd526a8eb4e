-- ===== src/FileLock.antt =====
-- packages/backend/src/lib/file-lock.ts: the lock file that the server processes share. The machine
-- has one path, `${path}.lock`, a clock, and any number of processes; each step is one system call of
-- withFileLock, breakIfStale or release on that path, with the calls after it that touch only what no
-- other process sees. These are the descriptor of the lock, and the grave that breakIfStale renames to,
-- which has a random name: `move_away` is renameSync with statSync of the grave, and its unlinkSync
-- where it is the stale lock; `give_back` is linkSync with unlinkSync of the grave. A file that is opened
-- gets its inode from the system.
pub mod Holder
mod Exclusive
mod Local
mod Waits
mod Recovery
mod Tests
use vpp_blockchain.Base.{
  ℕ, ◌+◌, ◌-◌, Bool, true, false, ◌&&◌, Option, none, some, List, [], ◌∷◌, ◌==◌, ltb, leb,
  if◌then◌else◌,
}

abbrev pub stale_lock_ms : ℕ
stale_lock_ms = 10000

abbrev pub wait_limit_ms : ℕ
wait_limit_ms = 3000

abbrev pub retry_ms : ℕ
retry_ms = 5

-- What statSync and fstatSync say of a file, as far as it is read.
pub record Stats : Type 0 where
  pub ino : ℕ
  pub mtime_ms : ℕ

-- Where a process stands in withFileLock, with the variables that are live there.
pub data Pc : Type 0 where
  -- outside, or after a throw
  outside : Pc
  -- before openSync
  opening : (deadline : ℕ) → Pc
  -- at the head of breakIfStale
  looking : (deadline : ℕ) → Pc
  -- before renameSync, having seen a stale lock
  moving : (deadline : ℕ) → (seen : Stats) → Pc
  -- before linkSync, having moved a lock that is not the one seen
  returning : (deadline : ℕ) → (moved : Stats) → Pc
  -- after breakIfStale
  checking : (deadline : ℕ) → Pc
  -- in sleepSync
  asleep : (deadline : ℕ) → (until : ℕ) → Pc
  -- in fn, with the lock
  holding : (fd : Stats) → Pc
  -- before the unlinkSync of release
  unlinking : (fd : Stats) → Pc

pub record System : Type 0 where
  pub now : ℕ
  pub lock : Option Stats
  pub procs : ℕ → Pc

pub data Input : Type 0 where
  -- the clock goes on
  ticks : ℕ → Input
  -- the process calls withFileLock
  enters : (pid : ℕ) → Input
  -- the process makes its next step; a file that it creates has this inode
  moves : (pid : ℕ) → (ino : ℕ) → Input
  -- openSync throws another error than EEXIST
  fails : (pid : ℕ) → Input
  -- the process ends and is started again
  crashes : (pid : ℕ) → Input

abbrev pub put : ℕ → Pc → (ℕ → Pc) → ℕ → Pc
put pid pc procs i = if i == pid then pc else procs i

abbrev pub go_to : System → ℕ → Pc → System
go_to s pid pc = record s { procs = put pid pc s.procs }

same_stats : Stats → Stats → Bool
same_stats a b = a.ino == b.ino && a.mtime_ms == b.mtime_ms

-- openSync(lockPath, 'wx')
open_lock : ℕ → ℕ → ℕ → Option Stats → System → System
open_lock pid ino deadline (some f) s = go_to s pid (looking deadline)
open_lock pid ino deadline none s =
    let f : Stats = record { ino = ino; mtime_ms = s.now } in
    record s { lock = some f; procs = put pid (holding f) s.procs }

-- breakIfStale, up to the test of the age
look_at : ℕ → ℕ → Option Stats → System → System
look_at pid deadline none s = go_to s pid (checking deadline)
look_at pid deadline (some seen) s =
    if leb s.now (seen.mtime_ms + stale_lock_ms)
    then go_to s pid (checking deadline)
    else go_to s pid (moving deadline seen)

-- renameSync(lockPath, grave), then, on the grave only, statSync, the comparison with what was seen, and
-- unlinkSync where it was the stale lock.
move_away : ℕ → ℕ → Stats → Option Stats → System → System
unfolding same_stats
move_away pid deadline seen none s = go_to s pid (checking deadline)
move_away pid deadline seen (some moved) s = record s {
  lock = none;
  procs =
      put pid (if same_stats moved seen then checking deadline else returning deadline moved)
        s.procs;
}

-- linkSync(grave, lockPath), which throws if a lock is there, then unlinkSync on the grave only.
give_back : ℕ → ℕ → Stats → Option Stats → System → System
give_back pid deadline moved none s = record s {
  lock = some moved;
  procs = put pid (checking deadline) s.procs;
}
give_back pid deadline moved (some newer) s = go_to s pid (checking deadline)

-- The comparison in `release`; `finally` closes the descriptor.
let_go : ℕ → Stats → Option Stats → System → System
let_go pid fd none s = go_to s pid outside
let_go pid fd (some f) s =
    if f.ino == fd.ino then go_to s pid (unlinking fd) else go_to s pid outside

-- The next step of a process.
pub advance : ℕ → ℕ → Pc → System → System
unfolding open_lock look_at move_away give_back let_go
advance pid ino outside s = s
advance pid ino (opening deadline) s = open_lock pid ino deadline s.lock s
advance pid ino (looking deadline) s = look_at pid deadline s.lock s
advance pid ino (moving deadline seen) s = move_away pid deadline seen s.lock s
advance pid ino (returning deadline moved) s = give_back pid deadline moved s.lock s
advance pid ino (checking deadline) s =
    if ltb deadline s.now
    then go_to s pid outside
    else go_to s pid (asleep deadline (s.now + retry_ms))
advance pid ino (asleep deadline until) s =
    if leb until s.now then go_to s pid (opening deadline) else s
advance pid ino (holding fd) s = let_go pid fd s.lock s
advance pid ino (unlinking fd) s = record s { lock = none; procs = put pid outside s.procs }

-- The call of withFileLock
enter : ℕ → Pc → System → System
enter pid outside s = go_to s pid (opening (s.now + wait_limit_ms))
enter pid _ s = s

fail_open : ℕ → Pc → System → System
fail_open pid (opening deadline) s = go_to s pid outside
fail_open pid _ s = s

pub step : System → Input → System
unfolding advance enter fail_open
step s (ticks ms) = record s { now = s.now + ms }
step s (enters pid) = enter pid (s.procs pid) s
step s (moves pid ino) = advance pid ino (s.procs pid) s
step s (fails pid) = fail_open pid (s.procs pid) s
step s (crashes pid) = go_to s pid outside

pub run : System → List Input → System
unfolding step
run s [] = s
run s (input ∷ inputs) = run (step s input) inputs

-- No lock file, every process outside.
abbrev pub start : ℕ → System
start at = record { now = at; lock = none; procs = λ _. outside }
