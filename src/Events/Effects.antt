-- ===== src/Events/Effects.antt =====
-- packages/backend/src/services/json-file-event-store.ts: what one step of the runs does to the rows
-- and to the file, and to the lock.
use vpp_blockchain.Base.{
  ℕ, ◌≡◌, refl, ap, ◌⊎◌, inl, inr, Bool, true, false, not, Option, none, some, List, [], ◌∷◌, ltb,
  leb, ◌==◌, if◌then◌else◌, arith, Text, codes,
}
use vpp_blockchain.Base.Exec.{Result, ok, throw}
use vpp_blockchain.Events.{saved}
use vpp_blockchain.Events.Sync.{
  Batch, Outcome, caught_up, behind, failed, Phase, absent, reading_head, reading_role, fetching,
  stamping, ended, next_block, Input, Answer, batch, range_rejected, broken, block_numbers, System,
  Moment, sync_called, head_read, role_read, fetched, stamped, watchdog, settled, step,
  record_window, apply_window, start_run, sync, release_lock, give_up, settle, head_step, role_step,
  on_batch, on_rejection, fetch_step, stamp_step, expire, watchdog_step, settle_step,
}

-- The run that an input belongs to.
abbrev pub run_of : Input → Option ℕ
run_of (sync_called m) = none
run_of (head_read g r m) = some g
run_of (role_read g r m) = some g
run_of (fetched g a m) = some g
run_of (stamped g r m) = some g
run_of (watchdog g m) = some g
run_of (settled g m) = some g

-- A window was recorded, by the run of the current generation.
pub record Written (o : Option ℕ) (s t : System) : Type 0 where
  pub own : o ≡ some s.run_generation
  pub timestamps : ℕ → ℕ
  pub window : Batch
  pub to_block : ℕ
  pub rows : t.store ≡ record_window timestamps window to_block s.store
  pub disk : (t.file ≡ s.file) ⊎ (t.file ≡ saved t.store)

abbrev pub Effect : Option ℕ → System → System → Type 0
Effect o s t = ((t.store ≡ s.store) × (t.file ≡ s.file)) ⊎ Written o s t

pub if_both {ℓ} :
    {A : Type ℓ} (P : A → Type 0) (b : Bool) (x y : A)
    → (b ≡ true → P x)
    → (b ≡ false → P y)
    → P (if b then x else y)
if_both P true x y p q = p refl
if_both P false x y p q = q refl

module _ (o : Option ℕ) (s : System) where
  none_of : Effect o s s
  none_of = inl (refl, refl)

  either : (b : Bool) (t u : System) → Effect o s t → Effect o s u → Effect o s (if b then t else u)
  either b t u e f = if_both (Effect o s) b t u (λ _. e) (λ _. f)

  given_up-Effect : (g : ℕ) (e : Text) → Effect o s (release_lock g (give_up g e s))
  given_up-Effect g e = inl (refl, refl)

  settle-Effect : (g now : ℕ) (outcome : Outcome) → Effect o s (settle g now outcome s)
  unfolding settle
  settle-Effect g now (caught_up head) = inl (refl, refl)
  settle-Effect g now behind = inl (refl, refl)
  settle-Effect g now (failed e) = inl (refl, refl)

apply_window-Effect :
    (g d latest to_block : ℕ) (b : Batch) (ts : ℕ → ℕ) (m : Moment) (s : System)
    → Effect (some g) s (apply_window g d latest to_block b ts m s)
unfolding apply_window
apply_window-Effect g d latest to_block b ts m s =
    if_both (Effect (some g) s) (not (g == s.run_generation)) _ _ (λ _. inl (refl, refl))
      (λ h.
        let own : some g ≡ some s.run_generation = ap some (ground arith) in
        if_both (Effect (some g) s) m.writable _ _
          (λ _. inr (record {
            own = own;
            timestamps = ts;
            window = b;
            to_block = to_block;
            rows = refl;
            disk = inr refl;
          }))
          (λ _. inr (record {
            own = own;
            timestamps = ts;
            window = b;
            to_block = to_block;
            rows = refl;
            disk = inl refl;
          })))

module _ (g : ℕ) (s : System) where
  head_step-Effect :
      (deploy : ℕ) (r : Result Text ℕ) (p : Phase) → Effect (some g) s (head_step deploy g r p s)
  unfolding head_step
  head_step-Effect deploy (ok latest) (reading_head d) =
      either (some g) s (ltb latest (next_block deploy s.store)) _ _ (inl (refl, refl))
        (inl (refl, refl))
  head_step-Effect deploy (throw e) (reading_head d) = inl (refl, refl)
  head_step-Effect deploy r p = inl (refl, refl)

  role_step-Effect :
      (r : Result Text Text) (m : Moment) (p : Phase) → Effect (some g) s (role_step g r m p s)
  unfolding role_step
  role_step-Effect (ok hash) m (reading_role d latest from_block) = inl (refl, refl)
  role_step-Effect (throw e) m (reading_role d latest from_block) = inl (refl, refl)
  role_step-Effect r m p = inl (refl, refl)

  batch-Effect :
      (d latest from_block to_block : ℕ) (b : Batch) (m : Moment) (blocks : List ℕ)
      → Effect (some g) s (on_batch g d latest from_block to_block b m blocks s)
  unfolding on_batch
  batch-Effect d latest from_block to_block b m [] =
      apply_window-Effect g d latest to_block b (λ _. 0) m s
  batch-Effect d latest from_block to_block b m (_ ∷ _) = inl (refl, refl)

  rejection-Effect :
      (d latest from_block to_block : ℕ) (e : Text) (m : Moment)
      → Effect (some g) s (on_rejection g d latest from_block to_block e m s)
  unfolding on_rejection
  rejection-Effect d latest from_block to_block e m =
      either (some g) s (ltb from_block to_block) _ _
        (either (some g) s (leb d m.now) _ _ (inl (refl, refl)) (inl (refl, refl)))
        (inl (refl, refl))

  fetch_step-Effect :
      (a : Answer) (m : Moment) (p : Phase) → Effect (some g) s (fetch_step g a m p s)
  unfolding fetch_step
  fetch_step-Effect (batch b) m (fetching d latest from_block to_block) =
      batch-Effect d latest from_block to_block b m (block_numbers b)
  fetch_step-Effect (range_rejected e) m (fetching d latest from_block to_block) =
      rejection-Effect d latest from_block to_block e m
  fetch_step-Effect (broken e) m (fetching d latest from_block to_block) = inl (refl, refl)
  fetch_step-Effect a m p = inl (refl, refl)

  stamp_step-Effect :
      (r : Result Text (ℕ → Option ℕ)) (m : Moment) (p : Phase)
      → Effect (some g) s (stamp_step g r m p s)
  unfolding stamp_step
  stamp_step-Effect (ok answers) m (stamping d latest from_block to_block b) =
      apply_window-Effect g d latest to_block b _ m s
  stamp_step-Effect (throw e) m (stamping d latest from_block to_block b) = inl (refl, refl)
  stamp_step-Effect r m p = inl (refl, refl)

  watchdog_step-Effect : (now : ℕ) (p : Phase) → Effect (some g) s (watchdog_step g now p s)
  unfolding watchdog_step expire
  watchdog_step-Effect now absent = inl (refl, refl)
  watchdog_step-Effect now (ended outcome) = inl (refl, refl)
  watchdog_step-Effect now p =
      either (some g) s _ _ _ (given_up-Effect (some g) s g (codes "sync watchdog (>45000ms)"))
        (inl (refl, refl))

  settle_step-Effect : (now : ℕ) (p : Phase) → Effect (some g) s (settle_step g now p s)
  unfolding settle_step
  settle_step-Effect now (ended outcome) =
      either (some g) s (s.tasks g).pending _ _ (settle-Effect (some g) s g now outcome)
        (inl (refl, refl))
  settle_step-Effect now p = inl (refl, refl)

pub step-Effect : (deploy : ℕ) (i : Input) (s : System) → Effect (run_of i) s (step deploy i s)
unfolding step sync start_run
step-Effect deploy (sync_called m) s = either none s _ _ _ (inl (refl, refl)) (inl (refl, refl))
step-Effect deploy (head_read g r m) s = head_step-Effect g s deploy r _
step-Effect deploy (role_read g r m) s = role_step-Effect g s _ m _
step-Effect deploy (fetched g a m) s = fetch_step-Effect g s a m _
step-Effect deploy (stamped g r m) s = stamp_step-Effect g s r m _
step-Effect deploy (watchdog g m) s = watchdog_step-Effect g s m.now _
step-Effect deploy (settled g m) s = settle_step-Effect g s m.now _
