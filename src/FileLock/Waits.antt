-- ===== src/FileLock/Waits.antt =====
-- The loop of withFileLock in packages/backend/src/lib/file-lock.ts ends.
use native.Mathlib.Nat.{le_trans}
use vpp_blockchain.Base.{
  ℕ, ◌+◌, ◌-◌, ◌*◌, ◌/◌, ◌≤◌, ◌≡◌, refl, ap, subst, Bool, true, false, ◌&&◌, Option, none, some,
  List, [], ◌∷◌, arith, ◌==◌, ==_iff, Bool-cases, inl, inr, leb, if◌then◌else◌,
}
use vpp_blockchain.FileLock.{
  Stats, Pc, System, Input, ticks, enters, moves, fails, crashes, outside, opening, looking, moving,
  returning, checking, asleep, holding, unlinking, step, advance, go_to, open_lock, look_at,
  move_away, give_back, let_go, same_stats, enter, fail_open,
}
use vpp_blockchain.FileLock.Local.{advance-Local}

-- In the loop of withFileLock, without the lock so far.
abbrev pub waiting : Pc → Bool
waiting outside = false
waiting (holding fd) = false
waiting (unlinking fd) = false
waiting _ = true

-- The process can make a step: it is not in sleepSync.
abbrev pub awake : Pc → ℕ → Bool
awake (asleep deadline until) now = leb until now
awake _ now = true

-- The process is in the loop all the time.
abbrev pub StaysWaiting : ℕ → System → List Input → Type 0
StaysWaiting pid s [] = waiting (s.procs pid) ≡ true
StaysWaiting pid s (input ∷ inputs) =
    (waiting (s.procs pid) ≡ true) × StaysWaiting pid (step s input) inputs

abbrev pub is_turn : ℕ → System → Input → Bool
is_turn pid s (moves p ino) = p == pid && awake (s.procs pid) s.now
is_turn pid s _ = false

-- The number of steps that the process takes.
unfoldable pub turns : ℕ → System → List Input → ℕ
turns pid s [] = 0
turns pid s (input ∷ inputs) =
    (if is_turn pid s input then 1 else 0) + turns pid (step s input) inputs

-- How many rounds the deadline leaves.
abbrev rounds : ℕ → ℕ → ℕ
rounds deadline now = (deadline + 10 - now) / 5

abbrev rank : Pc → ℕ → ℕ
rank (opening deadline) now = 6 * rounds deadline now + 5
rank (looking deadline) now = 6 * rounds deadline now + 4
rank (moving deadline seen) now = 6 * rounds deadline now + 3
rank (returning deadline moved) now = 6 * rounds deadline now + 2
rank (checking deadline) now = 6 * rounds deadline now + 1
rank (asleep deadline until) now = 6 * rounds deadline until + 6
rank _ now = 0

rank_later : (pc : Pc) (now ms : ℕ) → rank pc (now + ms) ≤ rank pc now
rank_later outside now ms = omega arith
rank_later (opening d) now ms = omega arith
rank_later (looking d) now ms = omega arith
rank_later (moving d seen) now ms = omega arith
rank_later (returning d moved) now ms = omega arith
rank_later (checking d) now ms = omega arith
rank_later (asleep d until) now ms = omega arith
rank_later (holding fd) now ms = omega arith
rank_later (unlinking fd) now ms = omega arith

-- An own step of a process that goes on waiting costs one.
Paid : ℕ → Pc → System → System → Type 0
Paid pid pc s t =
    waiting (t.procs pid) ≡ true
    → (if awake pc s.now then 1 else 0) + rank (t.procs pid) t.now ≤ rank pc s.now

open_lock-Paid :
    (pid ino deadline : ℕ) (o : Option Stats) (s : System)
    → Paid pid (opening deadline) s (open_lock pid ino deadline o s)
unfolding open_lock Paid
open_lock-Paid pid ino deadline none s w = ground arith
open_lock-Paid pid ino deadline (some f) s w = ground arith

look_at-Paid :
    (pid deadline : ℕ) (o : Option Stats) (s : System)
    → Paid pid (looking deadline) s (look_at pid deadline o s)
unfolding look_at Paid
look_at-Paid pid deadline none s w = ground arith
look_at-Paid pid deadline (some f) s w = ground arith

move_away-Paid :
    (pid deadline : ℕ) (seen : Stats) (o : Option Stats) (s : System)
    → Paid pid (moving deadline seen) s (move_away pid deadline seen o s)
unfolding move_away Paid
move_away-Paid pid deadline seen none s w = ground arith
move_away-Paid pid deadline seen (some f) s w = elim (Bool-cases (same_stats f seen)) [
  | inl e ↦ ground arith
  | inr e ↦ ground arith
]

give_back-Paid :
    (pid deadline : ℕ) (moved : Stats) (o : Option Stats) (s : System)
    → Paid pid (returning deadline moved) s (give_back pid deadline moved o s)
unfolding give_back Paid
give_back-Paid pid deadline moved none s w = ground arith
give_back-Paid pid deadline moved (some f) s w = ground arith

let_go-Paid :
    (pid : ℕ) (fd : Stats) (o : Option Stats) (s : System)
    → Paid pid (holding fd) s (let_go pid fd o s)
unfolding let_go Paid
let_go-Paid pid fd none s w = ground arith
let_go-Paid pid fd (some f) s w = ground arith

advance-Paid :
    (pid ino : ℕ) (pc : Pc) (s : System) → s.procs pid ≡ pc → Paid pid pc s (advance pid ino pc s)
unfolding advance Paid
advance-Paid pid ino outside s e w = absurd (ground arith)
advance-Paid pid ino (opening deadline) s e w = open_lock-Paid pid ino deadline s.lock s w
advance-Paid pid ino (looking deadline) s e w = look_at-Paid pid deadline s.lock s w
advance-Paid pid ino (moving deadline seen) s e w = move_away-Paid pid deadline seen s.lock s w
advance-Paid pid ino (returning deadline moved) s e w = give_back-Paid pid deadline moved s.lock s w
advance-Paid pid ino (checking deadline) s e w = ground arith
advance-Paid pid ino (asleep deadline until) s e w = ground arith
advance-Paid pid ino (holding fd) s e w = let_go-Paid pid fd s.lock s w
advance-Paid pid ino (unlinking fd) s e w = ground arith

-- A call and a failed openSync of any process leave a process that goes on waiting where it is.
module _ (i pid : ℕ) (s : System) (before : waiting (s.procs i) ≡ true) where
  enter-waiting : (pc : Pc) → s.procs pid ≡ pc → (enter pid pc s).procs i ≡ s.procs i
  unfolding enter
  enter-waiting outside e = elim (Bool-cases (i == pid)) [
    | inl own ↦ absurd (ground (arith, ap s.procs ((==_iff i pid).0 own)))
    | inr other ↦ rw other refl
  ]
  enter-waiting (opening deadline) e = refl
  enter-waiting (looking deadline) e = refl
  enter-waiting (moving deadline seen) e = refl
  enter-waiting (returning deadline moved) e = refl
  enter-waiting (checking deadline) e = refl
  enter-waiting (asleep deadline until) e = refl
  enter-waiting (holding fd) e = refl
  enter-waiting (unlinking fd) e = refl

  outside-waiting :
      waiting ((go_to s pid outside).procs i) ≡ true → (go_to s pid outside).procs i ≡ s.procs i
  outside-waiting after = elim (Bool-cases (i == pid)) [
    | inl own ↦ absurd (ground (arith, after, own))
    | inr other ↦ rw other refl
  ]

  fail-waiting :
      (pc : Pc)
      → waiting ((fail_open pid pc s).procs i) ≡ true
      → (fail_open pid pc s).procs i ≡ s.procs i
  unfolding fail_open
  fail-waiting (opening deadline) after = outside-waiting after
  fail-waiting outside after = refl
  fail-waiting (looking deadline) after = refl
  fail-waiting (moving deadline seen) after = refl
  fail-waiting (returning deadline moved) after = refl
  fail-waiting (checking deadline) after = refl
  fail-waiting (asleep deadline until) after = refl
  fail-waiting (holding fd) after = refl
  fail-waiting (unlinking fd) after = refl

enter-now : (pid : ℕ) (pc : Pc) (s : System) → (enter pid pc s).now ≡ s.now
unfolding enter
enter-now pid pc s = ground arith

fail-now : (pid : ℕ) (pc : Pc) (s : System) → (fail_open pid pc s).now ≡ s.now
unfolding fail_open
fail-now pid pc s = ground arith

-- What a step costs a process that goes on waiting.
Costs : ℕ → System → Input → Type 0
Costs i s input =
    waiting ((step s input).procs i) ≡ true
    → (if is_turn i s input then 1 else 0) + rank ((step s input).procs i) (step s input).now
      ≤ rank (s.procs i) s.now

own-Costs : (i ino : ℕ) (s : System) → Costs i s (moves i ino)
unfolding Costs step Paid
own-Costs i ino s after =
    ground (arith, advance-Paid i ino (s.procs i) s refl after, (==_iff i i).1 refl)

other-Costs : (i pid ino : ℕ) (s : System) → (i == pid) ≡ false → Costs i s (moves pid ino)
unfolding Costs step
other-Costs i pid ino s other after =
    let same = advance-Local pid ino (s.procs pid) s in
    let idle : (pid == i) ≡ false = ground arith in
    rw (idle, same.others i other, same.clock) (omega arith)

-- No step gives a waiting process more turns, and each own one takes one.
step-Costs : (i : ℕ) (s : System) (input : Input) → waiting (s.procs i) ≡ true → Costs i s input
unfolding Costs step
step-Costs i s (ticks ms) before after = omega (arith, rank_later (s.procs i) s.now ms)
step-Costs i s (enters pid) before after =
    rw (enter-waiting i pid s before (s.procs pid) refl, enter-now pid (s.procs pid) s)
      (omega arith)
step-Costs i s (moves pid ino) before after = elim (Bool-cases (i == pid)) [
  | inl own ↦ subst (λ p. Costs i s (moves p ino)) ((==_iff i pid).0 own) (own-Costs i ino s) after
  | inr other ↦ other-Costs i pid ino s other after
]
step-Costs i s (fails pid) before after =
    rw (fail-waiting i pid s before (s.procs pid) after, fail-now pid (s.procs pid) s) (omega arith)
step-Costs i s (crashes pid) before after = rw (outside-waiting i pid s before after) (omega arith)

turns-rank :
    (i : ℕ) (s : System) (inputs : List Input)
    → StaysWaiting i s inputs
    → turns i s inputs ≤ rank (s.procs i) s.now
unfolding turns Costs
turns-rank i s [] stays = omega arith
turns-rank i s (input ∷ inputs) stays =
    let rest = turns-rank i (step s input) inputs stays.1 in
    omega (arith, rest, step-Costs i s input stays.0 (still inputs (step s input) stays.1))
  where
    still : (l : List Input) (t : System) → StaysWaiting i t l → waiting (t.procs i) ≡ true
    still [] t h = h
    still (x ∷ l) t h = h.0

entered :
    (i : ℕ) (s : System) (pc : Pc)
    → pc ≡ outside
    → rank ((enter i pc s).procs i) (enter i pc s).now ≤ 3617
unfolding enter
entered i s pc out = ground (arith, (==_iff i i).1 refl)

-- A call of withFileLock takes at most 3617 steps, each with at most one system call on the lock's path,
-- before it has the lock or throws, however the other processes run.
pub wait-Ends :
    (i : ℕ) (s : System) (inputs : List Input)
    → s.procs i ≡ outside
    → StaysWaiting i (step s (enters i)) inputs
    → turns i (step s (enters i)) inputs ≤ 3617
unfolding step
wait-Ends i s inputs out stays =
    le_trans (turns-rank i (step s (enters i)) inputs stays) (entered i s (s.procs i) out)
