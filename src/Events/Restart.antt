-- ===== src/Events/Restart.antt =====
-- packages/backend/src/services/json-file-event-store.ts: the store of a process from `load` on, and
-- the file that it leaves to the next process.
use vpp_blockchain.Base.{
  ℕ, ◌≤◌, ◌<◌, ◌≡◌, refl, sym, ◌∙◌, subst, ◌≢◌, ◌⊎◌, inl, inr, Bool, List, [], ◌∷◌,
}
use vpp_blockchain.Events.{
  EventStoreData, empty_store, File, missing, unreadable, parsed, saved, deduplicated, Loaded, load,
  load_from, read_store,
}
use vpp_blockchain.Events.Window.{Chain}
use vpp_blockchain.Events.Sync.{
  Phase, ended, caught_up, behind, failed, Input, System, Moment, next_block, settled, settle_step,
  settle, step, run,
}
use vpp_blockchain.Events.Invariant.{Told, Honest}
use vpp_blockchain.Events.Progress.{Valid}
use vpp_blockchain.Events.Steps.{step-Kept, run-Kept}
use vpp_blockchain.Events.Effects.{step-Effect, if_both}
use vpp_blockchain.Events.Mirror.{
  Mirrors, boot, reached, deduplicated-Mirrors, empty-Mirrors, load_from-store,
}

load_from-file :
    (writable : Bool) (file : File) (s : EventStoreData)
    → ((load_from writable file s).file ≡ file)
      ⊎ ((load_from writable file s).file ≡ saved (deduplicated s))
load_from-file writable file s =
    if_both {A = Loaded} (λ l. (l.file ≡ file) ⊎ (l.file ≡ saved (deduplicated s))) _ _ _
      (λ _. inr refl) (λ _. inl refl)

module _ (chain : Chain) (deploy : ℕ) where
  boot-Valid :
      (writable : Bool) (file : File)
      → Mirrors chain deploy (load writable file empty_store).store
      → Valid chain deploy (boot writable file)
  boot-Valid writable file m = record {
    started = m.started;
    held = m.held;
    aligned = tt;
    told = λ g. tt;
    fresh = λ g h. refl;
  }

  -- What the next process would load.
  abbrev Recoverable : Bool → File → Type 0
  Recoverable again file = Mirrors chain deploy (load again file empty_store).store

  loaded-Mirrors :
      (again : Bool) (file : File) (s : EventStoreData)
      → Mirrors chain deploy s
      → Mirrors chain deploy (load_from again file s).store
  loaded-Mirrors again file s m =
      subst (Mirrors chain deploy) (sym (load_from-store again file s))
        (deduplicated-Mirrors chain deploy s m)

  saved-Recoverable :
      (again : Bool) (s : EventStoreData) → Mirrors chain deploy s → Recoverable again (saved s)
  saved-Recoverable again s m = loaded-Mirrors again (saved s) s m

  reload-Recoverable :
      (again writable : Bool) (file : File) (s : EventStoreData)
      → Mirrors chain deploy (load_from writable file s).store
      → Recoverable again file
      → Recoverable again (load_from writable file s).file
  reload-Recoverable again writable file s m kept =
      let m' = subst (Mirrors chain deploy) (load_from-store writable file s) m in
      elim (load_from-file writable file s) [
        | inl e ↦ subst (Recoverable again) (sym e) kept
        | inr e ↦ subst (Recoverable again) (sym e) (saved-Recoverable again (deduplicated s) m')
      ]

  boot-Recoverable :
      (again writable : Bool) (file : File)
      → Mirrors chain deploy (load writable file empty_store).store
      → Recoverable again (boot writable file).file
  boot-Recoverable again writable missing m = empty-Mirrors chain deploy
  boot-Recoverable again writable unreadable m =
      reload-Recoverable again writable unreadable empty_store m
        (loaded-Mirrors again unreadable empty_store (empty-Mirrors chain deploy))
  boot-Recoverable again writable (parsed p) m =
      reload-Recoverable again writable (parsed p) (read_store p) m (
        subst (Mirrors chain deploy)
          (load_from-store writable (parsed p) (read_store p)
            ∙ sym (load_from-store again (parsed p) (read_store p)))
          m)

  step-Recoverable :
      (again : Bool) (i : Input) (s : System)
      → Valid chain deploy (step deploy i s)
      → Recoverable again s.file
      → Recoverable again (step deploy i s).file
  step-Recoverable again i s v kept =
      let written : Recoverable again (saved (step deploy i s).store) =
        saved-Recoverable again (step deploy i s).store
          (record { started = v.started; held = v.held }) in
      elim (step-Effect deploy i s) [
        | inl (_, e) ↦ subst (Recoverable again) (sym e) kept
        | inr w ↦ elim w.disk [
          | inl e ↦ subst (Recoverable again) (sym e) kept
          | inr e ↦ subst (Recoverable again) (sym e) written
        ]
      ]

  runs-Recoverable :
      (again : Bool) (is : List Input) (s : System)
      → 0 < deploy
      → Honest chain deploy is s
      → Valid chain deploy s
      → Recoverable again s.file
      → Recoverable again (run deploy is s).file
  unfolding run
  runs-Recoverable again [] s positive w v kept = kept
  runs-Recoverable again (i ∷ is) s positive (w, ws) v kept =
      let v' = (step-Kept chain deploy i s positive w v).0 in
      runs-Recoverable again is (step deploy i s) positive ws v'
        (step-Recoverable again i s v' kept)

-- A run that makes the store count as fresh has ended at the head.
fresh_of :
    {next : ℕ} (g now : ℕ) (p : Phase) (s : System)
    → (s.tasks g).phase ≡ p
    → Told next p
    → (settle_step g now p s).last_successful_sync_at ≢ s.last_successful_sync_at
    → (head : ℕ) × ((s.tasks g).phase ≡ ended (caught_up head)) × (head < next)
unfolding settle_step settle
fresh_of g now (ended (caught_up head)) s q t changed = (head, q, t)
fresh_of g now (ended behind) s q t changed = absurd (
    changed (
      if_both {A = System} (λ u. u.last_successful_sync_at ≡ s.last_successful_sync_at) _ _ _
        (λ _. refl) (λ _. refl)))
fresh_of g now (ended (failed e)) s q t changed = absurd (
    changed (
      if_both {A = System} (λ u. u.last_successful_sync_at ≡ s.last_successful_sync_at) _ _ _
        (λ _. refl) (λ _. refl)))
fresh_of g now p s q t changed = absurd (changed refl)

-- If the deployment block is set, above 0, what was loaded mirrors the chain, and the queries are
-- answered with the logs of the blocks they ask for: after any interleaving of runs, the store has rows with exactly the keys of the events of
-- the blocks from the deployment to the last synced one, or none before the first window.
pub run-Mirrors :
    (chain : Chain) (deploy : ℕ) (writable : Bool) (file : File) (is : List Input)
    → 0 < deploy
    → Mirrors chain deploy (load writable file empty_store).store
    → Honest chain deploy is (boot writable file)
    → Mirrors chain deploy (reached deploy writable file is).store
run-Mirrors chain deploy writable file is positive m w =
    let (v, _) =
      run-Kept chain deploy is (boot writable file) positive w
        (boot-Valid chain deploy writable file m) in
    record { started = v.started; held = v.held }

-- If the deployment block is set, above 0, what was loaded mirrors the chain, and the queries are
-- answered with the logs of the blocks they ask for: after any interleaving of runs, whenever the process
-- ends, and whichever writes of the file failed, the store that the next process loads mirrors the chain
-- too.
pub run-Recoverable :
    (chain : Chain) (deploy : ℕ) (writable again : Bool) (file : File) (is : List Input)
    → 0 < deploy
    → Mirrors chain deploy (load writable file empty_store).store
    → Honest chain deploy is (boot writable file)
    → Mirrors chain deploy (load again (reached deploy writable file is).file empty_store).store
run-Recoverable chain deploy writable again file is positive m w =
    runs-Recoverable chain deploy again is (boot writable file) positive w
      (boot-Valid chain deploy writable file m)
      (boot-Recoverable chain deploy again writable file m)

-- Under the same conditions, an input never moves the last synced block back.
pub step-grows :
    (chain : Chain) (deploy : ℕ) (writable : Bool) (file : File) (is : List Input) (i : Input)
    → 0 < deploy
    → Mirrors chain deploy (load writable file empty_store).store
    → Honest chain deploy is (boot writable file)
    → Honest chain deploy (i ∷ []) (reached deploy writable file is)
    → (reached deploy writable file is).store.last_synced_block
      ≤ (step deploy i (reached deploy writable file is)).store.last_synced_block
step-grows chain deploy writable file is i positive m w (w', _) =
    let (v, _) =
      run-Kept chain deploy is (boot writable file) positive w
        (boot-Valid chain deploy writable file m) in
    (step-Kept chain deploy i (reached deploy writable file is) positive w' v).1

-- If the deployment block is set, above 0, what was loaded mirrors the chain, and the queries are
-- answered with the logs of the blocks they ask for: when a run settles and so counts the store as fresh,
-- the store has reached the head of the chain that this run read.
pub settled-fresh :
    (chain : Chain) (deploy g : ℕ) (writable : Bool) (file : File) (is : List Input) (m : Moment)
    → 0 < deploy
    → Mirrors chain deploy (load writable file empty_store).store
    → Honest chain deploy is (boot writable file)
    → (step deploy (settled g m) (reached deploy writable file is)).last_successful_sync_at
      ≢ (reached deploy writable file is).last_successful_sync_at
    → (head : ℕ) × (((reached deploy writable file is).tasks g).phase ≡ ended (caught_up head))
      × (head < next_block deploy (reached deploy writable file is).store)
settled-fresh chain deploy g writable file is m positive mirrors w changed =
    let s = reached deploy writable file is in
    let (v, _) =
      run-Kept chain deploy is (boot writable file) positive w
        (boot-Valid chain deploy writable file mirrors) in
    fresh_of g m.now _ s refl (v.told g) (unfold step in changed)
