-- ===== src/FileLock/Local.antt =====
-- What a step of a process in packages/backend/src/lib/file-lock.ts leaves alone.
use vpp_blockchain.Base.{
  ℕ, ◌+◌, ◌≡◌, refl, false, Option, none, some, ◌==◌, Bool-cases, inl, inr, leb, ltb,
}
use vpp_blockchain.FileLock.{
  Stats, Pc, System, outside, opening, looking, moving, returning, checking, asleep, holding,
  unlinking, put, advance, go_to, open_lock, look_at, move_away, give_back, let_go,
}

-- What a step of a process leaves alone.
pub record Local (pid : ℕ) (s t : System) : Type 0 where
  pub clock : t.now ≡ s.now
  pub others : (i : ℕ) → (i == pid) ≡ false → t.procs i ≡ s.procs i

go_to-Local : (pid : ℕ) (pc : Pc) (s : System) → Local pid s (go_to s pid pc)
go_to-Local pid pc s = record { clock = refl; others = λ i e. rw e refl }

set-Local :
    (pid : ℕ) (pc : Pc) (s : System) (o : Option Stats)
    → Local pid s (record s { lock = o; procs = put pid pc s.procs })
set-Local pid pc s o = record { clock = refl; others = λ i e. rw e refl }

same-Local : (pid : ℕ) (s : System) → Local pid s s
same-Local pid s = record { clock = refl; others = λ i e. refl }

open_lock-Local :
    (pid ino deadline : ℕ) (o : Option Stats) (s : System)
    → Local pid s (open_lock pid ino deadline o s)
unfolding open_lock
open_lock-Local pid ino deadline none s = set-Local pid _ s _
open_lock-Local pid ino deadline (some f) s = go_to-Local pid _ s

look_at-Local :
    (pid deadline : ℕ) (o : Option Stats) (s : System) → Local pid s (look_at pid deadline o s)
unfolding look_at
look_at-Local pid deadline none s = go_to-Local pid _ s
look_at-Local pid deadline (some f) s = elim (Bool-cases (leb s.now (f.mtime_ms + 10000))) [
  | inl e ↦ rw e (go_to-Local pid _ s)
  | inr e ↦ rw e (go_to-Local pid _ s)
]

move_away-Local :
    (pid deadline : ℕ) (seen : Stats) (o : Option Stats) (s : System)
    → Local pid s (move_away pid deadline seen o s)
unfolding move_away
move_away-Local pid deadline seen none s = go_to-Local pid _ s
move_away-Local pid deadline seen (some f) s = set-Local pid _ s _

give_back-Local :
    (pid deadline : ℕ) (moved : Stats) (o : Option Stats) (s : System)
    → Local pid s (give_back pid deadline moved o s)
unfolding give_back
give_back-Local pid deadline moved none s = set-Local pid _ s _
give_back-Local pid deadline moved (some f) s = go_to-Local pid _ s

let_go-Local :
    (pid : ℕ) (fd : Stats) (o : Option Stats) (s : System) → Local pid s (let_go pid fd o s)
unfolding let_go
let_go-Local pid fd none s = go_to-Local pid _ s
let_go-Local pid fd (some f) s = elim (Bool-cases (f.ino == fd.ino)) [
  | inl e ↦ rw e (go_to-Local pid _ s)
  | inr e ↦ rw e (go_to-Local pid _ s)
]

pub advance-Local : (pid ino : ℕ) (pc : Pc) (s : System) → Local pid s (advance pid ino pc s)
unfolding advance
advance-Local pid ino outside s = same-Local pid s
advance-Local pid ino (opening deadline) s = open_lock-Local pid ino deadline s.lock s
advance-Local pid ino (looking deadline) s = look_at-Local pid deadline s.lock s
advance-Local pid ino (moving deadline seen) s = move_away-Local pid deadline seen s.lock s
advance-Local pid ino (returning deadline moved) s = give_back-Local pid deadline moved s.lock s
advance-Local pid ino (checking deadline) s = elim (Bool-cases (ltb deadline s.now)) [
  | inl e ↦ rw e (go_to-Local pid _ s)
  | inr e ↦ rw e (go_to-Local pid _ s)
]
advance-Local pid ino (asleep deadline until) s = elim (Bool-cases (leb until s.now)) [
  | inl e ↦ rw e (go_to-Local pid _ s)
  | inr e ↦ rw e (same-Local pid s)
]
advance-Local pid ino (holding fd) s = let_go-Local pid fd s.lock s
advance-Local pid ino (unlinking fd) s = set-Local pid outside s none
