-- ===== src/Events/Lock.antt =====
-- packages/backend/src/services/json-file-event-store.ts: the lock `syncing` over all runs.
use vpp_blockchain.Base.{
  ℕ, ◌+◌, ◌-◌, ◌≤◌, ◌≡◌, refl, subst, ◌⊎◌, inl, inr, Bool, true, false, ◌&&◌, not, Option, List, [],
  ◌∷◌, ltb, leb, ◌==◌, if◌then◌else◌, Bool-cases, arith, Text, codes,
}
use vpp_blockchain.Base.Exec.{Result, ok, throw}
use vpp_blockchain.Events.{File}
use vpp_blockchain.Events.Sync.{
  Batch, Outcome, caught_up, behind, failed, Phase, absent, reading_head, reading_role, fetching,
  stamping, ended, Task, next_block, Input, Answer, batch, range_rejected, broken, block_numbers,
  System, Moment, sync_called, head_read, role_read, fetched, stamped, watchdog, settled, step, run,
  move, next_window, open_window, apply_window, start_run, sync, release_lock, give_up, settle,
  head_step, role_step, on_batch, on_rejection, fetch_step, stamp_step, expire, watchdog_step,
  settle_step, sync_timeout_ms,
}
use vpp_blockchain.Events.Effects.{if_both}
use vpp_blockchain.Events.Mirror.{boot, reached}

abbrev is_absent : Phase → Bool
is_absent absent = true
is_absent _ = false

-- The run is somewhere, and `runLocked` has not settled for it.
abbrev IsPending : Task → Type 0
IsPending t = (t.pending ≡ true) × (is_absent t.phase ≡ false)

-- While the lock is taken, its holder is a run that has not settled.
abbrev Locked : System → Type 0
Locked s = s.syncing ≡ true → IsPending (s.tasks s.lock_holder)

-- A run that goes on to another await.
move-Locked :
    (g : ℕ) (p : Phase) (s : System) → is_absent p ≡ false → Locked s → Locked (move g p s)
move-Locked g p s a l h = elim (Bool-cases (s.lock_holder == g)) [
  | inl t ↦
      let e : s.lock_holder ≡ g = ground arith in
      rw (t, if◌then◌else◌) (subst (λ j. (s.tasks j).pending ≡ true) e (l h).0, a)
  | inr t ↦ rw (t, if◌then◌else◌) (l h)
]

release-Locked : (g : ℕ) (s : System) → Locked s → Locked (release_lock g s)
release-Locked g s l = elim (Bool-cases (s.lock_holder == g)) [
  | inl t ↦ rw (t, if◌then◌else◌) (λ h. absurd (cc))
  | inr t ↦ rw (t, if◌then◌else◌) l
]

sync-Locked : (now : ℕ) (s : System) → Locked s → Locked (sync now s)
unfolding sync start_run
sync-Locked now s l =
    if_both Locked (s.syncing && ltb (now - s.sync_started_at) sync_timeout_ms) _ (start_run now s)
      (λ _. l)
      (λ _ h.
        let own : (s.run_generation + 1 == s.run_generation + 1) ≡ true = ground arith in
        rw (own, if◌then◌else◌) (refl, refl))

next_window-present :
    (d latest to_block : ℕ) (m : Moment) → is_absent (next_window d latest to_block m) ≡ false
next_window-present d latest to_block m =
    if_both (λ p. is_absent p ≡ false) (leb (to_block + 1) latest) _ _
      (λ _. if_both (λ p. is_absent p ≡ false) (leb d m.now) _ _ (λ _. refl) (λ _. refl))
      (λ _. refl)

apply_window-Locked :
    (g d latest to_block : ℕ) (b : Batch) (ts : ℕ → ℕ) (m : Moment) (s : System)
    → Locked s
    → Locked (apply_window g d latest to_block b ts m s)
unfolding apply_window
apply_window-Locked g d latest to_block b ts m s l =
    if_both Locked (not (g == s.run_generation)) _ _ (λ _. move-Locked g (ended behind) s refl l)
      (λ _.
        if_both Locked m.writable _ _
          (λ _.
            move-Locked g (next_window d latest to_block m) s
              (next_window-present d latest to_block m) l)
          (λ _. move-Locked g (ended (failed m.write_error)) s refl l))

head_step-Locked :
    (deploy g : ℕ) (r : Result Text ℕ) (p : Phase) (s : System)
    → Locked s
    → Locked (head_step deploy g r p s)
unfolding head_step
head_step-Locked deploy g (ok latest) (reading_head d) s l =
    let next = next_block deploy s.store in
    if_both Locked (ltb latest next) _ _ (λ _. move-Locked g (ended (caught_up latest)) s refl l)
      (λ _. move-Locked g (reading_role d latest next) s refl l)
head_step-Locked deploy g (throw e) (reading_head d) s l = move-Locked g (ended (failed e)) s refl l
head_step-Locked deploy g r p s l = l

role_step-Locked :
    (g : ℕ) (r : Result Text Text) (m : Moment) (p : Phase) (s : System)
    → Locked s
    → Locked (role_step g r m p s)
unfolding role_step
role_step-Locked g (ok hash) m (reading_role d latest from_block) s l =
    move-Locked g (open_window d latest from_block m) s refl l
role_step-Locked g (throw e) m (reading_role d latest from_block) s l =
    move-Locked g (ended (failed e)) s refl l
role_step-Locked g r m p s l = l

batch-Locked :
    (g d latest from_block to_block : ℕ) (b : Batch) (m : Moment) (blocks : List ℕ) (s : System)
    → Locked s
    → Locked (on_batch g d latest from_block to_block b m blocks s)
unfolding on_batch
batch-Locked g d latest from_block to_block b m [] s l =
    apply_window-Locked g d latest to_block b (λ _. 0) m s l
batch-Locked g d latest from_block to_block b m (_ ∷ _) s l =
    move-Locked g (stamping d latest from_block to_block b) s refl l

fetch_step-Locked :
    (g : ℕ) (a : Answer) (m : Moment) (p : Phase) (s : System)
    → Locked s
    → Locked (fetch_step g a m p s)
unfolding fetch_step on_rejection
fetch_step-Locked g (batch b) m (fetching d latest from_block to_block) s l =
    batch-Locked g d latest from_block to_block b m (block_numbers b) s l
fetch_step-Locked g (range_rejected e) m (fetching d latest from_block to_block) s l =
    if_both Locked (ltb from_block to_block) _ _
      (λ _.
        if_both Locked (leb d m.now) _ _ (λ _. move-Locked g (ended behind) s refl l)
          (λ _. move-Locked g (open_window d latest from_block m) s refl l))
      (λ _. move-Locked g (ended (failed e)) s refl l)
fetch_step-Locked g (broken e) m (fetching d latest from_block to_block) s l =
    move-Locked g (ended (failed e)) s refl l
fetch_step-Locked g a m p s l = l

stamp_step-Locked :
    (g : ℕ) (r : Result Text (ℕ → Option ℕ)) (m : Moment) (p : Phase) (s : System)
    → Locked s
    → Locked (stamp_step g r m p s)
unfolding stamp_step
stamp_step-Locked g (ok answers) m (stamping d latest from_block to_block b) s l =
    apply_window-Locked g d latest to_block b _ m s l
stamp_step-Locked g (throw e) m (stamping d latest from_block to_block b) s l =
    move-Locked g (ended (failed e)) s refl l
stamp_step-Locked g r m p s l = l

watchdog_step-Locked :
    (g now : ℕ) (p : Phase) (s : System) → Locked s → Locked (watchdog_step g now p s)
unfolding watchdog_step expire
watchdog_step-Locked g now absent s l = l
watchdog_step-Locked g now (ended outcome) s l = l
watchdog_step-Locked g now p s l =
    if_both Locked _ (release_lock g (give_up g (codes "sync watchdog (>45000ms)") s)) s
      (λ _. release-Locked g s l) (λ _. l)

settle-Locked :
    (g now : ℕ) (outcome : Outcome) (s : System) → Locked s → Locked (settle g now outcome s)
unfolding settle
settle-Locked g now (caught_up head) s l = release-Locked g s l
settle-Locked g now behind s l = release-Locked g s l
settle-Locked g now (failed e) s l = release-Locked g s l

settle_step-Locked :
    (g now : ℕ) (p : Phase) (s : System) → Locked s → Locked (settle_step g now p s)
unfolding settle_step
settle_step-Locked g now (ended outcome) s l =
    if_both Locked (s.tasks g).pending _ s (λ _. settle-Locked g now outcome s l) (λ _. l)
settle_step-Locked g now p s l = l

step-Locked : (deploy : ℕ) (i : Input) (s : System) → Locked s → Locked (step deploy i s)
unfolding step
step-Locked deploy (sync_called m) s l = sync-Locked m.now s l
step-Locked deploy (head_read g r m) s l = head_step-Locked deploy g r _ s l
step-Locked deploy (role_read g r m) s l = role_step-Locked g _ m _ s l
step-Locked deploy (fetched g a m) s l = fetch_step-Locked g a m _ s l
step-Locked deploy (stamped g r m) s l = stamp_step-Locked g r m _ s l
step-Locked deploy (watchdog g m) s l = watchdog_step-Locked g m.now _ s l
step-Locked deploy (settled g m) s l = settle_step-Locked g m.now _ s l

run-Locked : (deploy : ℕ) (is : List Input) (s : System) → Locked s → Locked (run deploy is s)
unfolding run
run-Locked deploy [] s l = l
run-Locked deploy (i ∷ is) s l = run-Locked deploy is (step deploy i s) (step-Locked deploy i s l)

own_lock : (s : System) → (s.lock_holder == s.lock_holder) ≡ true
own_lock s = ground arith

settle-frees :
    (now : ℕ) (outcome : Outcome) (s : System)
    → (settle s.lock_holder now outcome s).syncing ≡ false
unfolding settle
settle-frees now (caught_up head) s = rw (own_lock s, if◌then◌else◌) refl
settle-frees now behind s = rw (own_lock s, if◌then◌else◌) refl
settle-frees now (failed e) s = rw (own_lock s, if◌then◌else◌) refl

expire-frees :
    (now : ℕ) (s : System)
    → (s.tasks s.lock_holder).pending ≡ true
    → (s.tasks s.lock_holder).started_at + sync_timeout_ms ≤ now
    → (expire s.lock_holder now s).syncing ≡ false
unfolding expire
expire-frees now s pending late =
    let fires : leb ((s.tasks s.lock_holder).started_at + sync_timeout_ms) now ≡ true =
      ground arith in
    rw (pending, fires, own_lock s, if◌then◌else◌) refl

-- The holder gives the lock back when it settles, or when its timer fires.
freed :
    (now : ℕ) (p : Phase) (s : System)
    → (s.tasks s.lock_holder).pending ≡ true
    → is_absent p ≡ false
    → (s.tasks s.lock_holder).started_at + sync_timeout_ms ≤ now
    → ((watchdog_step s.lock_holder now p s).syncing ≡ false)
      ⊎ ((settle_step s.lock_holder now p s).syncing ≡ false)
unfolding watchdog_step settle_step
freed now absent s pending present late = absurd (cc)
freed now (ended outcome) s pending present late =
    inr (rw (pending, if◌then◌else◌) (settle-frees now outcome s))
freed now p s pending present late = inl (expire-frees now s pending late)

-- The lock never leaks: in every state that the runs of a process reach, if the lock is taken and 45
-- seconds have passed since its holder was started, the lock is given back by the timer of the
-- holder, or by the end of `runLocked` if the holder has ended.
pub lock-released :
    (deploy : ℕ) (writable : Bool) (file : File) (is : List Input) (m : Moment)
    → (reached deploy writable file is).syncing ≡ true
    → ((reached deploy writable file is).tasks
          (reached deploy writable file is).lock_holder).started_at
        + sync_timeout_ms
      ≤ m.now
    → ((step deploy
          (watchdog (reached deploy writable file is).lock_holder m)
          (reached deploy writable file is)).syncing
        ≡ false)
      ⊎ ((step deploy
            (settled (reached deploy writable file is).lock_holder m)
            (reached deploy writable file is)).syncing
          ≡ false)
unfolding step
lock-released deploy writable file is m taken late =
    let s = reached deploy writable file is in
    let (pending, present) = run-Locked deploy is (boot writable file) (λ h. absurd (cc)) taken in
    freed m.now (s.tasks s.lock_holder).phase s pending present late
