-- ===== src/Events/Progress.antt =====
-- packages/backend/src/services/json-file-event-store.ts: every step of the runs of the store, against
-- the logs of the chain.
use vpp_blockchain.Base.{
  ℕ, ◌+◌, ◌-◌, ◌≤◌, ◌<◌, ◌≡◌, sym, subst, inl, inr, true, not, leb, ◌==◌, if◌then◌else◌, Bool-cases,
  arith,
}
use vpp_blockchain.Events.{EventStoreData}
use vpp_blockchain.Events.Window.{Chain, IsWindow, Holds, record_window-Holds}
use vpp_blockchain.Events.Sync.{
  Batch, behind, Phase, ended, next_block, System, Moment, move, window_size, open_window,
  next_window, record_window, apply_window,
}
use vpp_blockchain.Events.Invariant.{Aligned, Told, Placed, Inv, same-Inv, grown-Inv}

module _ (chain : Chain) (deploy : ℕ) where
  abbrev pub Valid : System → Type 0
  Valid s = Inv chain deploy s.store s.run_generation s.tasks

  -- The system is valid and the store has not gone back.
  abbrev pub Kept : System → System → Type 0
  Kept s t = Valid t × (s.store.last_synced_block ≤ t.store.last_synced_block)

window_size-positive : (w : ℕ) → 1 ≤ window_size w
window_size-positive w = omega arith

next_window-Told :
    (d latest to_block : ℕ) (m : Moment) → Told (to_block + 1) (next_window d latest to_block m)
next_window-Told d latest to_block m = elim (Bool-cases (leb (to_block + 1) latest)) [
  | inl t ↦ elim (Bool-cases (leb d m.now)) [
    | inl late ↦ rw (t, late, if◌then◌else◌) tt
    | inr early ↦ rw (t, early, if◌then◌else◌) tt
  ]
  | inr t ↦ rw (t, if◌then◌else◌) (ground arith)
]

module _ (chain : Chain) (deploy : ℕ) where
  pub move-Kept :
      (g : ℕ) (p : Phase) (s : System)
      → g ≤ s.run_generation
      → (s.run_generation ≡ g → Aligned chain (next_block deploy s.store) p)
      → Told (next_block deploy s.store) p
      → Valid chain deploy s
      → Kept chain deploy s (move g p s)
  move-Kept g p s h a t v = (same-Inv g _ h a t v, omega arith)

  pub open_window-Aligned :
      (d latest from_block : ℕ) (m : Moment) (store : EventStoreData)
      → from_block ≡ next_block deploy store
      → from_block ≤ latest
      → Aligned chain (next_block deploy store) (open_window d latest from_block m)
  open_window-Aligned d latest from_block m store e h =
      (e, omega (arith, window_size-positive m.window), omega arith)

  next_window-Aligned :
      (d latest to_block : ℕ) (m : Moment) (store : EventStoreData)
      → to_block + 1 ≡ next_block deploy store
      → Aligned chain (next_block deploy store) (next_window d latest to_block m)
  next_window-Aligned d latest to_block m store e = elim (Bool-cases (leb (to_block + 1) latest)) [
    | inl t ↦ elim (Bool-cases (leb d m.now)) [
      | inl late ↦ rw (t, late, if◌then◌else◌) tt
      | inr early ↦
          rw (t, early, if◌then◌else◌)
            (open_window-Aligned d latest (to_block + 1) m store e (ground arith))
    ]
    | inr t ↦ rw (t, if◌then◌else◌) tt
  ]

  -- The store once the window of the current run is recorded.
  recorded :
      (from_block to_block : ℕ) (b : Batch) (ts : ℕ → ℕ) (store : EventStoreData)
      → 0 < deploy
      → deploy ≤ next_block deploy store
      → from_block ≡ next_block deploy store
      → from_block ≤ to_block
      → IsWindow chain from_block (to_block + 1 - from_block) b
      → Holds chain deploy (next_block deploy store - deploy) store
      → Holds chain deploy (to_block + 1 - deploy) (record_window ts b to_block store)
  recorded from_block to_block b ts store positive started e h w held =
      let n = next_block deploy store in
      let at : deploy + (n - deploy) ≡ from_block = omega arith in
      let count : n - deploy + (to_block + 1 - from_block) ≡ to_block + 1 - deploy = omega arith in
      rw count at (
        record_window-Holds chain ts deploy (n - deploy) (to_block + 1 - from_block) to_block b
          store held (rw at w))

  next_block-recorded :
      (from_block to_block : ℕ) (b : Batch) (ts : ℕ → ℕ) (store : EventStoreData)
      → 0 < to_block
      → next_block deploy (record_window ts b to_block store) ≡ to_block + 1
  next_block-recorded from_block to_block b ts store h = ground arith

  -- A window of the run that may write.
  apply_current :
      (d latest from_block to_block : ℕ) (b : Batch) (ts : ℕ → ℕ) (m : Moment) (s : System)
      → 0 < deploy
      → Placed (next_block deploy s.store) latest from_block to_block
      → IsWindow chain from_block (to_block + 1 - from_block) b
      → Valid chain deploy s
      → Kept chain deploy s (apply_window s.run_generation d latest to_block b ts m s)
  unfolding apply_window
  apply_current d latest from_block to_block b ts m s positive (e, h, l) w v =
      let store = record_window ts b to_block s.store in
      let own : (s.run_generation == s.run_generation) ≡ true = ground arith in
      let next = next_block-recorded from_block to_block b ts s.store (omega (arith, v.started)) in
      let held = recorded from_block to_block b ts s.store positive v.started e h w v.held in
      let held' : Holds chain deploy (next_block deploy store - deploy) store =
        subst (λ n. Holds chain deploy (n - deploy) store) (sym next) held in
      let grows : s.store.last_synced_block ≤ to_block = ground arith in
      elim (Bool-cases m.writable) [
        | inl t ↦
            rw (own, t, not, if◌then◌else◌)
              (
                grown-Inv _ store (omega (arith, next)) held'
                    (next_window-Aligned d latest to_block m store (sym next))
                    (subst (λ n. Told n (next_window d latest to_block m)) (sym next)
                      (next_window-Told d latest to_block m))
                    v,
                grows,
              )
        | inr t ↦
            rw (own, t, not, if◌then◌else◌)
              (grown-Inv _ store (omega (arith, next)) held' tt tt v, grows)
      ]

  pub apply_window-Kept :
      (g d latest from_block to_block : ℕ) (b : Batch) (ts : ℕ → ℕ) (m : Moment) (s : System)
      → 0 < deploy
      → g ≤ s.run_generation
      → (s.run_generation ≡ g
          → Placed (next_block deploy s.store) latest from_block to_block
            × IsWindow chain from_block (to_block + 1 - from_block) b)
      → Valid chain deploy s
      → Kept chain deploy s (apply_window g d latest to_block b ts m s)
  apply_window-Kept g d latest from_block to_block b ts m s positive h w v =
      elim (Bool-cases (g == s.run_generation)) [
        | inl t ↦
            let e : s.run_generation ≡ g = ground arith in
            let (placed, window) = w e in
            subst (λ g. Kept chain deploy s (apply_window g d latest to_block b ts m s)) e
              (apply_current d latest from_block to_block b ts m s positive placed window v)
        | inr t ↦
            unfold apply_window in
            rw (t, not, if◌then◌else◌) (move-Kept g (ended behind) s h (λ _. tt) tt v)
      ]
