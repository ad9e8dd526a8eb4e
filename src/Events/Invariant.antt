-- ===== src/Events/Invariant.antt =====
-- packages/backend/src/services/json-file-event-store.ts: what the runs of the store keep, over the
-- store, the counter of the runs and the runs.
use vpp_blockchain.Base.{
  ℕ, ◌+◌, ◌-◌, ◌≤◌, ◌<◌, ◌≡◌, sym, ◌∙◌, subst, ◌≢◌, inl, inr, true, List, [], ◌∷◌, ltb, ◌==◌,
  if◌then◌else◌, Bool-cases, arith,
}
use vpp_blockchain.Events.{EventStoreData}
use vpp_blockchain.Events.Window.{Chain, IsWindow, Holds}
use vpp_blockchain.Events.Sync.{
  caught_up, behind, failed, Phase, absent, reading_head, reading_role, fetching, stamping, ended,
  Task, put, next_block, Input, fetched, Answer, batch, System, step,
}

-- A window begins with the next block and ends at the head or before.
abbrev pub Placed : ℕ → ℕ → ℕ → ℕ → Type 0
Placed next latest from_block to_block =
    (from_block ≡ next) × (from_block ≤ to_block) × (to_block ≤ latest)

-- The run of the current generation goes on where the store ends.
abbrev pub Aligned : Chain → ℕ → Phase → Type 0
Aligned chain next (reading_role deadline latest from_block) =
    (from_block ≡ next) × (from_block ≤ latest)
Aligned chain next (fetching deadline latest from_block to_block) =
    Placed next latest from_block to_block
Aligned chain next (stamping deadline latest from_block to_block b) =
    Placed next latest from_block to_block × IsWindow chain from_block (to_block + 1 - from_block) b
Aligned chain next _ = Unit {0}

-- A run that says it has caught up read a head that the store has reached.
abbrev pub Told : ℕ → Phase → Type 0
Told next (ended (caught_up head)) = head < next
Told next _ = Unit {0}

pub record Inv (chain : Chain) (deploy : ℕ) (store : EventStoreData) (gen : ℕ) (tasks : ℕ → Task)
    : Type 0 where
  pub started : deploy ≤ next_block deploy store
  pub held : Holds chain deploy (next_block deploy store - deploy) store
  pub aligned : Aligned chain (next_block deploy store) (tasks gen).phase
  pub told : (g : ℕ) → Told (next_block deploy store) (tasks g).phase
  pub fresh : (g : ℕ) → gen < g → (tasks g).phase ≡ absent

-- The answers of the queries are the logs of the blocks that the run asked for.
abbrev pub IsAnswer : Chain → Answer → Phase → Type 0
IsAnswer chain (batch b) (fetching deadline latest from_block to_block) =
    IsWindow chain from_block (to_block + 1 - from_block) b
IsAnswer chain a phase = Unit {0}

abbrev pub HonestInput : Chain → Input → System → Type 0
HonestInput chain (fetched g a m) s = IsAnswer chain a (s.tasks g).phase
HonestInput chain _ s = Unit {0}

abbrev pub Honest : Chain → ℕ → List Input → System → Type 0
Honest chain deploy [] s = Unit {0}
Honest chain deploy (i ∷ is) s = HonestInput chain i s × Honest chain deploy is (step deploy i s)

Told-grow : {next next' : ℕ} (p : Phase) → next ≤ next' → Told next p → Told next' p
Told-grow (ended (caught_up head)) h t = omega arith
Told-grow (ended behind) h t = tt
Told-grow (ended (failed e)) h t = tt
Told-grow absent h t = tt
Told-grow (reading_head d) h t = tt
Told-grow (reading_role d l f) h t = tt
Told-grow (fetching d l f w) h t = tt
Told-grow (stamping d l f w b) h t = tt

put-elim :
    (P : Phase → Type 0) (tasks : ℕ → Task) (g j : ℕ) (t : Task)
    → (j ≡ g → P t.phase)
    → P (tasks j).phase
    → P (put tasks g t j).phase
put-elim P tasks g j t here there = elim (Bool-cases (j == g)) [
  | inl e ↦ rw (e, if◌then◌else◌) (here (ground arith))
  | inr e ↦ rw (e, if◌then◌else◌) there
]

module _ {chain : Chain} {deploy : ℕ} {store : EventStoreData} {gen : ℕ} {tasks : ℕ → Task} where
  pub same-Inv :
      (g : ℕ) (t : Task)
      → g ≤ gen
      → (gen ≡ g → Aligned chain (next_block deploy store) t.phase)
      → Told (next_block deploy store) t.phase
      → Inv chain deploy store gen tasks
      → Inv chain deploy store gen (put tasks g t)
  same-Inv g t h a told inv = record {
    started = inv.started;
    held = inv.held;
    aligned = put-elim (Aligned chain (next_block deploy store)) tasks g gen t a inv.aligned;
    told = λ j. put-elim (Told (next_block deploy store)) tasks g j t (λ _. told) (inv.told j);
    fresh =
        λ j q. put-elim (λ p. p ≡ absent) tasks g j t (λ e. absurd (omega arith)) (inv.fresh j q);
  }

  pub grown-Inv :
      (t : Task) (store' : EventStoreData)
      → next_block deploy store ≤ next_block deploy store'
      → Holds chain deploy (next_block deploy store' - deploy) store'
      → Aligned chain (next_block deploy store') t.phase
      → Told (next_block deploy store') t.phase
      → Inv chain deploy store gen tasks
      → Inv chain deploy store' gen (put tasks gen t)
  grown-Inv t store' h held a told inv = record {
    started = omega (arith, inv.started, h);
    held = held;
    aligned = let same : (gen == gen) ≡ true = ground arith in rw (same, if◌then◌else◌) a;
    told = λ j.
        put-elim (Told (next_block deploy store')) tasks gen j t (λ _. told)
          (Told-grow (tasks j).phase h (inv.told j));
    fresh =
        λ j q. put-elim (λ p. p ≡ absent) tasks gen j t (λ e. absurd (omega arith)) (inv.fresh j q);
  }

  pub start-Inv :
      (d now : ℕ)
      → Inv chain deploy store gen tasks
      → Inv chain deploy store (gen + 1) (
          put tasks (gen + 1) (record { phase = reading_head d; started_at = now; pending = true }))
  start-Inv d now inv =
      let t : Task = record { phase = reading_head d; started_at = now; pending = true } in
      record {
        started = inv.started;
        held = inv.held;
        aligned =
            let same : (gen + 1 == gen + 1) ≡ true = ground arith in rw (same, if◌then◌else◌) tt;
        told = λ j.
            put-elim (Told (next_block deploy store)) tasks (gen + 1) j t (λ _. tt) (inv.told j);
        fresh = λ j q.
            put-elim (λ p. p ≡ absent) tasks (gen + 1) j t (λ e. absurd (omega arith))
              (inv.fresh j (omega arith));
      }

  -- The counter of the runs goes up without a run.
  pub bump-Inv : Inv chain deploy store gen tasks → Inv chain deploy store (gen + 1) tasks
  bump-Inv inv = record {
    started = inv.started;
    held = inv.held;
    aligned =
        subst (Aligned chain (next_block deploy store)) (sym (inv.fresh (gen + 1) (omega arith)))
          tt;
    told = inv.told;
    fresh = λ j q. inv.fresh j (omega arith);
  }

  -- A run that is somewhere has been started.
  pub started_run :
      (g : ℕ) (p : Phase)
      → Inv chain deploy store gen tasks
      → (tasks g).phase ≡ p
      → p ≢ absent
      → g ≤ gen
  started_run g p inv q n = elim (Bool-cases (ltb gen g)) [
    | inl t ↦ absurd (n (sym q ∙ inv.fresh g (ground arith)))
    | inr t ↦ ground arith
  ]
