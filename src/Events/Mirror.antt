-- ===== src/Events/Mirror.antt =====
-- packages/backend/src/services/json-file-event-store.ts: the rows of the store and of its file, over
-- all runs and across restarts.
use vpp_blockchain.Base.{
  ℕ, ◌+◌, ◌-◌, ◌≤◌, ◌≡◌, refl, sym, ◌∙◌, subst, ◌≢◌, inl, inr, Bool, false, none, some, List, [],
  ◌∷◌, map, arith, Text, has, length,
}
use vpp_blockchain.LogReader.Coverage.{logs}
use vpp_blockchain.Events.{
  EventStoreData, empty_store, File, missing, unreadable, parsed, saved, unique, survey_key,
  points_key, role_key, deduplicated, Loaded, load, load_from, read_store,
}
use vpp_blockchain.Events.Keys.{Distinct, unique-Distinct, unique_of_Distinct, unique-has}
use vpp_blockchain.Events.Window.{Chain, Holds}
use vpp_blockchain.Events.Sync.{push_window, Input, System, no_task, next_block, step, run}
use vpp_blockchain.Events.Effects.{run_of, step-Effect, if_both}

-- The store has rows with exactly the keys of the events of all blocks before the next one.
pub record Mirrors (chain : Chain) (deploy : ℕ) (s : EventStoreData) : Type 0 where
  pub started : deploy ≤ next_block deploy s
  pub held : Holds chain deploy (next_block deploy s - deploy) s

pub record NoRepeats (s : EventStoreData) : Type 0 where
  pub surveys : Distinct (map survey_key s.survey_registered)
  pub points : Distinct (map points_key s.points_awarded)
  pub roles : Distinct (map role_key s.role_changes)

-- A new process, after `load`.
abbrev pub boot : Bool → File → System
boot writable file =
    let loaded = load writable file empty_store in
    record {
      store = loaded.store;
      file = loaded.file;
      syncing = false;
      sync_started_at = 0;
      last_successful_sync_at = 0;
      last_sync_error = none;
      admin_role_hash = none;
      run_generation = 0;
      lock_holder = 0;
      tasks = λ _. no_task;
    }

deduplicated-NoRepeats : (s : EventStoreData) → NoRepeats (deduplicated s)
deduplicated-NoRepeats s = record {
  surveys = unique-Distinct survey_key [] s.survey_registered;
  points = unique-Distinct points_key [] s.points_awarded;
  roles = unique-Distinct role_key [] s.role_changes;
}

-- The process after the inputs.
abbrev pub reached : ℕ → Bool → File → List Input → System
reached deploy writable file is = run deploy is (boot writable file)

unique-all :
    {A : Type 0} (key : A → Text) (xs : List A) → Distinct (map key xs) → unique key [] xs ≡ xs
unfolding has
unique-all key xs d = unique_of_Distinct key [] xs d (λ k q. refl)

-- The store that `load` makes of a file that can be read.
pub load_from-store :
    (writable : Bool) (file : File) (s : EventStoreData)
    → (load_from writable file s).store ≡ deduplicated s
load_from-store writable file s =
    if_both {A = Loaded} (λ l. l.store ≡ deduplicated s) _ _ _ (λ _. refl) (λ _. refl)

load-NoRepeats : (writable : Bool) (file : File) → NoRepeats (load writable file empty_store).store
load-NoRepeats writable missing = record { surveys = tt; points = tt; roles = tt }
load-NoRepeats writable unreadable =
    subst NoRepeats (sym (load_from-store writable unreadable empty_store))
      (deduplicated-NoRepeats empty_store)
load-NoRepeats writable (parsed p) =
    subst NoRepeats (sym (load_from-store writable (parsed p) (read_store p)))
      (deduplicated-NoRepeats (read_store p))

-- A file written by `save` from a store without repeated rows is loaded as the same store, without
-- an error, and is left as it is.
pub load-saved :
    (writable : Bool) (s old : EventStoreData)
    → NoRepeats s
    → load writable (saved s) old ≡ record { store = s; file = saved s; threw = false }
load-saved writable s old d =
    let none_gone : length s.survey_registered
          + length s.points_awarded
          + length s.role_changes
          - length s.survey_registered
          - length s.points_awarded
          - length s.role_changes
        ≡ 0 =
      omega arith in
    rw
      (
        unique-all survey_key s.survey_registered d.surveys,
        unique-all points_key s.points_awarded d.points,
        unique-all role_key s.role_changes d.roles,
        none_gone,
      )
      refl

step-NoRepeats :
    (deploy : ℕ) (i : Input) (s : System) → NoRepeats s.store → NoRepeats (step deploy i s).store
step-NoRepeats deploy i s d = elim (step-Effect deploy i s) [
  | inl (e, _) ↦ subst NoRepeats (sym e) d
  | inr w ↦ subst NoRepeats (sym w.rows) (
      let d' = deduplicated-NoRepeats (push_window w.timestamps w.window s.store) in
      record { surveys = d'.surveys; points = d'.points; roles = d'.roles })
]

run-Distinct :
    (deploy : ℕ) (is : List Input) (s : System)
    → NoRepeats s.store
    → NoRepeats (run deploy is s).store
unfolding run
run-Distinct deploy [] s d = d
run-Distinct deploy (i ∷ is) s d =
    run-Distinct deploy is (step deploy i s) (step-NoRepeats deploy i s d)

-- Whatever the file, and however its runs are interleaved, abandoned and answered: no survey
-- registration, no claim and no role change is ever in the store twice.
pub run-NoRepeats :
    (deploy : ℕ) (writable : Bool) (file : File) (is : List Input)
    → NoRepeats (reached deploy writable file is).store
run-NoRepeats deploy writable file is =
    run-Distinct deploy is (boot writable file) (load-NoRepeats writable file)

some-inj : {a b : ℕ} → some a ≡ some b → a ≡ b
some-inj e = cc

-- An input of a run that is not the one of the current generation changes neither the store nor its
-- file.
pub step-stale :
    (deploy g : ℕ) (i : Input) (s : System)
    → run_of i ≡ some g
    → g ≢ s.run_generation
    → ((step deploy i s).store ≡ s.store) × ((step deploy i s).file ≡ s.file)
step-stale deploy g i s e n = elim (step-Effect deploy i s) [
  | inl same ↦ same
  | inr w ↦ absurd (n (some-inj (sym e ∙ w.own)))
]

pub deduplicated-Mirrors :
    (chain : Chain) (deploy : ℕ) (s : EventStoreData)
    → Mirrors chain deploy s
    → Mirrors chain deploy (deduplicated s)
unfolding has
deduplicated-Mirrors chain deploy s m = record {
  started = m.started;
  held = record {
    surveys = λ k. ground (arith, unique-has survey_key k [] s.survey_registered, m.held.surveys k);
    points = λ k. ground (arith, unique-has points_key k [] s.points_awarded, m.held.points k);
    roles = λ k. ground (arith, unique-has role_key k [] s.role_changes, m.held.roles k);
  };
}

pub empty-Mirrors : (chain : Chain) (deploy : ℕ) → Mirrors chain deploy empty_store
unfolding has logs
empty-Mirrors chain deploy =
    let none_yet : deploy - deploy ≡ 0 = omega arith in
    record {
      started = omega arith;
      held = rw none_yet (record { surveys = λ k. refl; points = λ k. refl; roles = λ k. refl });
    }
