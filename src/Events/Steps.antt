-- ===== src/Events/Steps.antt =====
-- packages/backend/src/services/json-file-event-store.ts: `sync`, and what the runs of the store do
-- after each of their awaits, in any order.
use vpp_blockchain.Base.{
  ℕ, ◌+◌, ◌-◌, ◌≤◌, ◌<◌, ◌≡◌, refl, subst, inl, inr, ◌&&◌, Option, none, some, List, [], ◌∷◌, ltb,
  leb, ◌==◌, if◌then◌else◌, Bool-cases, arith, Text, codes,
}
use vpp_blockchain.Base.Exec.{Result, ok, throw}
use vpp_blockchain.Events.Window.{Chain, IsWindow}
use vpp_blockchain.Events.Sync.{
  Batch, Outcome, caught_up, behind, failed, Phase, absent, reading_head, reading_role, fetching,
  stamping, ended, next_block, Input, Answer, batch, range_rejected, broken, block_numbers, System,
  Moment, sync_called, head_read, role_read, fetched, stamped, watchdog, settled, step, run,
  open_window, start_run, sync, release_lock, give_up, settle, head_step, role_step, on_batch,
  on_rejection, fetch_step, stamp_step, expire, watchdog_step, settle_step, sync_timeout_ms,
}
use vpp_blockchain.Events.Invariant.{
  Aligned, same-Inv, start-Inv, bump-Inv, started_run, IsAnswer, HonestInput, Honest,
}
use vpp_blockchain.Events.Progress.{Valid, Kept, apply_window-Kept, move-Kept, open_window-Aligned}

module _ (chain : Chain) (deploy : ℕ) where
  Aligned-at :
      (g : ℕ) (p : Phase) (s : System)
      → Valid chain deploy s
      → (s.tasks g).phase ≡ p
      → s.run_generation ≡ g
      → Aligned chain (next_block deploy s.store) p
  Aligned-at g p s v q e =
      subst (Aligned chain (next_block deploy s.store)) q
        (subst (λ j. Aligned chain (next_block deploy s.store) (s.tasks j).phase) e v.aligned)

  unchanged : (s : System) → Valid chain deploy s → Kept chain deploy s s
  unchanged s v = (v, omega arith)

  sync-Kept : (now : ℕ) (s : System) → Valid chain deploy s → Kept chain deploy s (sync now s)
  unfolding sync start_run
  sync-Kept now s v =
      elim (Bool-cases (s.syncing && ltb (now - s.sync_started_at) sync_timeout_ms)) [
        | inl t ↦ rw (t, if◌then◌else◌) (unchanged s v)
        | inr t ↦ rw (t, if◌then◌else◌) (start-Inv _ now v, omega arith)
      ]

  head_step-Kept :
      (g : ℕ) (r : Result Text ℕ) (p : Phase) (s : System)
      → Valid chain deploy s
      → (s.tasks g).phase ≡ p
      → Kept chain deploy s (head_step deploy g r p s)
  unfolding head_step
  head_step-Kept g (ok latest) (reading_head d) s v q =
      let h = started_run g _ v q (λ e. cc) in
      elim (Bool-cases (ltb latest (next_block deploy s.store))) [
        | inl t ↦
            rw (t, if◌then◌else◌)
              (move-Kept chain deploy g (ended (caught_up latest)) s h (λ _. tt) (ground arith) v)
        | inr t ↦
            rw (t, if◌then◌else◌)
              (move-Kept chain deploy g (reading_role d latest (next_block deploy s.store)) s h
                (λ _. (refl, ground arith)) tt v)
      ]
  head_step-Kept g (throw e) (reading_head d) s v q =
      move-Kept chain deploy g _ s (started_run g _ v q (λ e. cc)) (λ _. tt) tt v
  head_step-Kept g r p s v q = unchanged s v

  role_step-Kept :
      (g : ℕ) (r : Result Text Text) (m : Moment) (p : Phase) (s : System)
      → Valid chain deploy s
      → (s.tasks g).phase ≡ p
      → Kept chain deploy s (role_step g r m p s)
  unfolding role_step
  role_step-Kept g (ok hash) m (reading_role d latest from_block) s v q =
      move-Kept chain deploy g (open_window d latest from_block m)
        (record s { admin_role_hash = some hash }) (started_run g _ v q (λ e. cc))
        (λ e.
          let (at, h) = Aligned-at g _ s v q e in
          open_window-Aligned chain deploy d latest from_block m s.store at h)
        tt v
  role_step-Kept g (throw e) m (reading_role d latest from_block) s v q =
      move-Kept chain deploy g _ s (started_run g _ v q (λ e. cc)) (λ _. tt) tt v
  role_step-Kept g r m p s v q = unchanged s v

  -- The answer to the queries of a window.
  batch-Kept :
      (g d latest from_block to_block : ℕ) (b : Batch) (m : Moment) (blocks : List ℕ) (s : System)
      → 0 < deploy
      → IsWindow chain from_block (to_block + 1 - from_block) b
      → Valid chain deploy s
      → (s.tasks g).phase ≡ fetching d latest from_block to_block
      → Kept chain deploy s (on_batch g d latest from_block to_block b m blocks s)
  unfolding on_batch
  batch-Kept g d latest from_block to_block b m [] s positive w v q =
      apply_window-Kept chain deploy g d latest from_block to_block b (λ _. 0) m s positive
        (started_run g _ v q (λ e. cc)) (λ e. (Aligned-at g _ s v q e, w)) v
  batch-Kept g d latest from_block to_block b m (_ ∷ _) s positive w v q =
      move-Kept chain deploy g _ s (started_run g _ v q (λ e. cc))
        (λ e. (Aligned-at g _ s v q e, w)) tt v

  rejection-Kept :
      (g d latest from_block to_block : ℕ) (e : Text) (m : Moment) (s : System)
      → Valid chain deploy s
      → (s.tasks g).phase ≡ fetching d latest from_block to_block
      → Kept chain deploy s (on_rejection g d latest from_block to_block e m s)
  unfolding on_rejection
  rejection-Kept g d latest from_block to_block e m s v q =
      let h = started_run g _ v q (λ e. cc) in
      elim (Bool-cases (ltb from_block to_block)) [
        | inl t ↦ elim (Bool-cases (leb d m.now)) [
          | inl late ↦
              rw (t, late, if◌then◌else◌)
                (move-Kept chain deploy g (ended behind) s h (λ _. tt) tt v)
          | inr early ↦
              rw (t, early, if◌then◌else◌)
                (move-Kept chain deploy g (open_window d latest from_block m) s h
                  (λ e.
                    let (at, a, b) = Aligned-at g _ s v q e in
                    open_window-Aligned chain deploy d latest from_block m s.store at (omega arith))
                  tt v)
        ]
        | inr t ↦
            rw (t, if◌then◌else◌) (move-Kept chain deploy g (ended (failed e)) s h (λ _. tt) tt v)
      ]

  fetch_step-Kept :
      (g : ℕ) (a : Answer) (m : Moment) (p : Phase) (s : System)
      → 0 < deploy
      → IsAnswer chain a p
      → Valid chain deploy s
      → (s.tasks g).phase ≡ p
      → Kept chain deploy s (fetch_step g a m p s)
  unfolding fetch_step
  fetch_step-Kept g (batch b) m (fetching d latest from_block to_block) s positive w v q =
      batch-Kept g d latest from_block to_block b m (block_numbers b) s positive w v q
  fetch_step-Kept g (range_rejected e) m (fetching d latest from_block to_block) s positive w v q =
      rejection-Kept g d latest from_block to_block e m s v q
  fetch_step-Kept g (broken e) m (fetching d latest from_block to_block) s positive w v q =
      move-Kept chain deploy g _ s (started_run g _ v q (λ e. cc)) (λ _. tt) tt v
  fetch_step-Kept g a m p s positive w v q = unchanged s v

  stamp_step-Kept :
      (g : ℕ) (r : Result Text (ℕ → Option ℕ)) (m : Moment) (p : Phase) (s : System)
      → 0 < deploy
      → Valid chain deploy s
      → (s.tasks g).phase ≡ p
      → Kept chain deploy s (stamp_step g r m p s)
  unfolding stamp_step
  stamp_step-Kept g (ok answers) m (stamping d latest from_block to_block b) s positive v q =
      apply_window-Kept chain deploy g d latest from_block to_block b _ m s positive
        (started_run g _ v q (λ e. cc)) (Aligned-at g _ s v q) v
  stamp_step-Kept g (throw e) m (stamping d latest from_block to_block b) s positive v q =
      move-Kept chain deploy g _ s (started_run g _ v q (λ e. cc)) (λ _. tt) tt v
  stamp_step-Kept g r m p s positive v q = unchanged s v

  release-Kept :
      (g : ℕ) (s : System)
      → g ≤ s.run_generation
      → Valid chain deploy s
      → Kept chain deploy s (release_lock g s)
  release-Kept g s h v = (same-Inv g _ h (Aligned-at g _ s v refl) (v.told g) v, omega arith)

  given_up :
      (g : ℕ) (e : Text) (s : System)
      → g ≤ s.run_generation
      → Valid chain deploy s
      → Kept chain deploy s (release_lock g (give_up g e s))
  given_up g e s h v = elim (Bool-cases (s.run_generation == g)) [
    | inl t ↦
        rw (t, if◌then◌else◌)
          (release-Kept g
            (record s { run_generation = s.run_generation + 1; last_sync_error = some e })
            (omega arith) (bump-Inv v))
    | inr t ↦ rw (t, if◌then◌else◌) (release-Kept g (record s { last_sync_error = some e }) h v)
  ]

  settle-Kept :
      (g now : ℕ) (outcome : Outcome) (s : System)
      → g ≤ s.run_generation
      → Valid chain deploy s
      → Kept chain deploy s (settle g now outcome s)
  unfolding settle
  settle-Kept g now (caught_up head) s h v =
      release-Kept g (record s { last_sync_error = none; last_successful_sync_at = now }) h v
  settle-Kept g now behind s h v = release-Kept g (record s { last_sync_error = none }) h v
  settle-Kept g now (failed e) s h v = given_up g e s h v

  settle_step-Kept :
      (g now : ℕ) (p : Phase) (s : System)
      → Valid chain deploy s
      → (s.tasks g).phase ≡ p
      → Kept chain deploy s (settle_step g now p s)
  unfolding settle_step
  settle_step-Kept g now (ended outcome) s v q = elim (Bool-cases (s.tasks g).pending) [
    | inl t ↦ rw (t, if◌then◌else◌) (settle-Kept g now outcome s (started_run g _ v q (λ e. cc)) v)
    | inr t ↦ rw (t, if◌then◌else◌) (unchanged s v)
  ]
  settle_step-Kept g now p s v q = unchanged s v

  expire-Kept :
      (g now : ℕ) (s : System)
      → g ≤ s.run_generation
      → Valid chain deploy s
      → Kept chain deploy s (expire g now s)
  unfolding expire
  expire-Kept g now s h v =
      elim (Bool-cases
        ((s.tasks g).pending && leb ((s.tasks g).started_at + sync_timeout_ms) now)) [
          | inl t ↦ rw (t, if◌then◌else◌) (given_up g (codes "sync watchdog (>45000ms)") s h v)
          | inr t ↦ rw (t, if◌then◌else◌) (unchanged s v)
        ]

  watchdog_step-Kept :
      (g now : ℕ) (p : Phase) (s : System)
      → Valid chain deploy s
      → (s.tasks g).phase ≡ p
      → Kept chain deploy s (watchdog_step g now p s)
  unfolding watchdog_step
  watchdog_step-Kept g now absent s v q = unchanged s v
  watchdog_step-Kept g now (ended outcome) s v q = unchanged s v
  watchdog_step-Kept g now p s v q = expire-Kept g now s (started_run g _ v q (λ e. cc)) v

  pub step-Kept :
      (i : Input) (s : System)
      → 0 < deploy
      → HonestInput chain i s
      → Valid chain deploy s
      → Kept chain deploy s (step deploy i s)
  unfolding step
  step-Kept (sync_called m) s positive w v = sync-Kept m.now s v
  step-Kept (head_read g r m) s positive w v = head_step-Kept g r _ s v refl
  step-Kept (role_read g r m) s positive w v = role_step-Kept g _ m _ s v refl
  step-Kept (fetched g a m) s positive w v = fetch_step-Kept g a m _ s positive w v refl
  step-Kept (stamped g r m) s positive w v = stamp_step-Kept g r m _ s positive v refl
  step-Kept (watchdog g m) s positive w v = watchdog_step-Kept g m.now _ s v refl
  step-Kept (settled g m) s positive w v = settle_step-Kept g m.now _ s v refl

  pub run-Kept :
      (is : List Input) (s : System)
      → 0 < deploy
      → Honest chain deploy is s
      → Valid chain deploy s
      → Kept chain deploy s (run deploy is s)
  unfolding run
  run-Kept [] s positive w v = unchanged s v
  run-Kept (i ∷ is) s positive (w, ws) v =
      let (v', a) = step-Kept i s positive w v in
      let (v'', b) = run-Kept is (step deploy i s) positive ws v' in (v'', omega arith)
