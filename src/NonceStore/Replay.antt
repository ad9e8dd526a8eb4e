-- ===== src/NonceStore/Replay.antt =====
-- Several server processes over one nonce file of packages/backend/src/services/nonce-store.ts: each
-- keeps its own cache, and any of them may run the next operation, restart, or find the disk full.
use vpp_blockchain.Base.{
  ℕ, suc, ◌≡◌, ◌≢◌, Bool, true, false, Option, none, some, List, [], ◌∷◌, arith, Text, text_eq,
  text_eq_iff, ◌==◌, if◌then◌else◌, inl, inr, Bool-cases, All,
}
use vpp_blockchain.Base.Exec.{ok}
use vpp_blockchain.NonceStore.{
  Disk, CacheState, Proc, same_version, composite_key, mark_used, release_nonce, is_used,
  get_used_count,
}
use vpp_blockchain.NonceStore.Steps.{
  composite_key-colon, composite_key-inj, Moves, load-Moves, mark_used-Moves, mark_used-Holds,
  release_nonce-Moves, release_nonce-Holds, is_used-load, get_used_count-load, mark_used-grants,
  mark_used-refuses, mark_used-key,
}
use vpp_blockchain.NonceStore.Load.{Below, CacheFresh, CacheHolds, FileHolds, Holds, load-Holds}

pub record System : Type 0 where
  pub disk : Disk
  pub caches : ℕ → Option CacheState

-- Process `pid` runs one synchronous function.
unfoldable pub on {ℓ} : {A : Type ℓ} → ℕ → (Proc → A × Proc) → System → A × System
on pid f s =
    let (r, p) = f (record { disk = s.disk; cache = s.caches pid }) in
    (r, record { disk = p.disk; caches = λ i. if i == pid then p.cache else s.caches i })

pub data Op : Type 0 where
  marks releases : ℕ → Bool → ℕ → Text → Op
  checks : ℕ → ℕ → Text → Op
  counts restarts : ℕ → Op
  disk_turns : Bool → Op

unfoldable pub step : System → Op → System
unfolding on
step s (marks pid locked survey_id nonce) = (on pid (mark_used locked survey_id nonce) s).1
step s (releases pid locked survey_id nonce) = (on pid (release_nonce locked survey_id nonce) s).1
step s (checks pid survey_id nonce) = (on pid (is_used survey_id nonce) s).1
step s (counts pid) = (on pid get_used_count s).1
step s (restarts pid) = record s { caches = λ i. if i == pid then none else s.caches i }
step s (disk_turns writable) = record s { disk = record s.disk { writable = writable } }

pub run : System → List Op → System
unfolding step
run s [] = s
run s (op ∷ ops) = run (step s op) ops

-- The operation does not give back this nonce of this survey.
abbrev pub Keeps : ℕ → Text → Op → Type 0
Keeps survey_id nonce (releases pid locked i n) = (i ≡ survey_id → n ≡ nonce → ⊥)
Keeps survey_id nonce _ = Unit {0}

-- Every cache is at most as new as the file.
pub record Valid (s : System) : Type 0 where
  pub fresh : (i : ℕ) → CacheFresh s.disk.stamp (s.caches i)

-- The key is in the file and in every cache that is current.
pub record Held (key : Text) (s : System) : Type 0 where
  pub fresh : (i : ℕ) → CacheFresh s.disk.stamp (s.caches i)
  pub file : FileHolds key s.disk.file
  pub cached : (i : ℕ) → CacheHolds key s.disk.stamp (s.caches i)

abbrev view : ℕ → System → Proc
view pid s = record { disk = s.disk; cache = s.caches pid }

fresh_later :
    (p q : Proc) (c : Option CacheState)
    → Moves p q
    → CacheFresh p.disk.stamp c
    → CacheFresh q.disk.stamp c
fresh_later p q none m h = tt
fresh_later p q (some c) m h = below c.version h
  where
    below : (v : Option ℕ) → Below v p.disk.stamp → Below v q.disk.stamp
    below none h = tt
    below (some v) h = ground (arith, m.stamp)

holds_later :
    (key : Text) (p q : Proc) (c : Option CacheState)
    → Moves p q
    → CacheFresh p.disk.stamp c
    → CacheHolds key p.disk.stamp c
    → CacheHolds key q.disk.stamp c
unfolding same_version
holds_later key p q none m h k = tt
holds_later key p q (some c) m h k = ground (arith, m.stamp, h, k)

on-Valid {ℓ} :
    {A : Type ℓ} (pid : ℕ) (f : Proc → A × Proc) (s : System)
    → Valid s
    → Moves (view pid s) (f (view pid s)).1
    → Valid (on pid f s).1
unfolding on
on-Valid pid f s v m = record {
  fresh = λ i. elim (Bool-cases (i == pid)) [
    | inl e ↦ rw e m.fresh
    | inr e ↦ rw e (fresh_later (view pid s) (f (view pid s)).1 (s.caches i) m (v.fresh i))
  ];
}

on-Held {ℓ} :
    {A : Type ℓ} (key : Text) (pid : ℕ) (f : Proc → A × Proc) (s : System)
    → Held key s
    → Moves (view pid s) (f (view pid s)).1
    → Holds key (f (view pid s)).1
    → Held key (on pid f s).1
unfolding on
on-Held key pid f s v m h = record {
  fresh = λ i. elim (Bool-cases (i == pid)) [
    | inl e ↦ rw e m.fresh
    | inr e ↦ rw e (fresh_later (view pid s) (f (view pid s)).1 (s.caches i) m (v.fresh i))
  ];
  file = h.file;
  cached = λ i. elim (Bool-cases (i == pid)) [
    | inl e ↦ rw e h.cache
    | inr e ↦
        rw e
          (holds_later key (view pid s) (f (view pid s)).1 (s.caches i) m (v.fresh i) (v.cached i))
  ];
}

-- If no cache is newer than the file, then none is after any operation of any process.
pub step-Valid : (s : System) (op : Op) → Valid s → Valid (step s op)
unfolding step
step-Valid s (marks pid locked survey_id nonce) v =
    on-Valid pid (mark_used locked survey_id nonce) s v
      (mark_used-Moves locked survey_id nonce (view pid s) (v.fresh pid))
step-Valid s (releases pid locked survey_id nonce) v =
    on-Valid pid (release_nonce locked survey_id nonce) s v
      (release_nonce-Moves locked survey_id nonce (view pid s) (v.fresh pid))
step-Valid s (checks pid survey_id nonce) v =
    on-Valid pid (is_used survey_id nonce) s v
      (rw (is_used-load survey_id nonce (view pid s)) (load-Moves (view pid s) (v.fresh pid)))
step-Valid s (counts pid) v =
    on-Valid pid get_used_count s v
      (rw (get_used_count-load (view pid s)) (load-Moves (view pid s) (v.fresh pid)))
step-Valid s (restarts pid) v = record {
  fresh = λ i. elim (Bool-cases (i == pid)) [ inl e ↦ rw e tt | inr e ↦ rw e (v.fresh i) ];
}
step-Valid s (disk_turns writable) v = record { fresh = v.fresh }

-- Distinct pairs of survey and nonce have distinct keys.
other_key :
    (m n : ℕ) (x y key : Text)
    → composite_key n y ≡ ok key
    → (m ≡ n → x ≡ y → ⊥)
    → (j : Text) → composite_key m x ≡ ok j
    → text_eq j key ≡ false
other_key m n x y key k differ j e = elim (Bool-cases (text_eq j key)) [
  | inl t ↦
      let same = composite_key-inj m n x y (rw ((text_eq_iff j key).0 t) at e) k in
      absurd (differ same.0 same.1)
  | inr f ↦ f
]

-- An operation that does not give the nonce back keeps it redeemed.
pub step-Held :
    (s : System) (op : Op) (survey_id : ℕ) (nonce key : Text)
    → composite_key survey_id nonce ≡ ok key
    → Keeps survey_id nonce op
    → Held key s
    → Held key (step s op)
unfolding step
step-Held s (marks pid locked i n) survey_id nonce key k keep v =
    on-Held key pid (mark_used locked i n) s v
      (mark_used-Moves locked i n (view pid s) (v.fresh pid))
      (mark_used-Holds key locked i n (view pid s) (composite_key-colon survey_id nonce key k)
        (record { file = v.file; cache = v.cached pid }))
step-Held s (releases pid locked i n) survey_id nonce key k keep v =
    on-Held key pid (release_nonce locked i n) s v
      (release_nonce-Moves locked i n (view pid s) (v.fresh pid))
      (release_nonce-Holds key locked i n (view pid s) (composite_key-colon survey_id nonce key k)
        (other_key i survey_id n nonce key k keep) (record { file = v.file; cache = v.cached pid }))
step-Held s (checks pid i n) survey_id nonce key k keep v =
    on-Held key pid (is_used i n) s v
      (rw (is_used-load i n (view pid s)) (load-Moves (view pid s) (v.fresh pid)))
      (rw (is_used-load i n (view pid s))
        (load-Holds key (view pid s) (record { file = v.file; cache = v.cached pid })))
step-Held s (counts pid) survey_id nonce key k keep v =
    on-Held key pid get_used_count s v
      (rw (get_used_count-load (view pid s)) (load-Moves (view pid s) (v.fresh pid)))
      (rw (get_used_count-load (view pid s))
        (load-Holds key (view pid s) (record { file = v.file; cache = v.cached pid })))
step-Held s (restarts pid) survey_id nonce key k keep v = record {
  fresh = λ i. elim (Bool-cases (i == pid)) [ inl e ↦ rw e tt | inr e ↦ rw e (v.fresh i) ];
  file = v.file;
  cached = λ i. elim (Bool-cases (i == pid)) [ inl e ↦ rw e tt | inr e ↦ rw e (v.cached i) ];
}
step-Held s (disk_turns writable) survey_id nonce key k keep v = record {
  fresh = v.fresh;
  file = v.file;
  cached = v.cached;
}

run-Held :
    (s : System) (ops : List Op) (survey_id : ℕ) (nonce key : Text)
    → composite_key survey_id nonce ≡ ok key
    → All (Keeps survey_id nonce) ops
    → Held key s
    → Held key (run s ops)
unfolding run
run-Held s [] survey_id nonce key k keep h = h
run-Held s (op ∷ ops) survey_id nonce key k keep h =
    run-Held (step s op) ops survey_id nonce key k keep.1
      (step-Held s op survey_id nonce key k keep.0 h)

-- A cache from before a write is not used after it.
outdated : (key : Text) (n : ℕ) (c : Option CacheState) → CacheFresh n c → CacheHolds key (suc n) c
unfolding same_version
outdated key n none h = tt
outdated key n (some c) h = ground (arith, h)

-- The system right after a process was told that it consumed the nonce.
pub granted-Held :
    (s : System) (pid : ℕ) (locked : Bool) (survey_id : ℕ) (nonce key : Text)
    → Valid s
    → composite_key survey_id nonce ≡ ok key
    → (on pid (mark_used locked survey_id nonce) s).0 ≡ ok true
    → Held key (on pid (mark_used locked survey_id nonce) s).1
unfolding on
granted-Held s pid locked survey_id nonce key v k e =
    let p = view pid s in
    let (h, moved) = mark_used-grants locked survey_id nonce p key k e in
    let m = mark_used-Moves locked survey_id nonce p (v.fresh pid) in
    let q = (mark_used locked survey_id nonce p).1 in
    record {
      fresh = λ i. elim (Bool-cases (i == pid)) [
        | inl e ↦ rw e m.fresh
        | inr e ↦ rw e (fresh_later p q (s.caches i) m (v.fresh i))
      ];
      file = h.file;
      cached = λ i. elim (Bool-cases (i == pid)) [
        | inl e ↦ rw e h.cache
        | inr e ↦ rw (e, moved) (outdated key s.disk.stamp (s.caches i) (v.fresh i))
      ];
    }

-- In a system whose caches are not newer than the file: once a process was told that it consumed a nonce
-- of a survey, no process is told so again, after
-- any operations of any processes (restarts, failed writes and lock timeouts included), as long as
-- none of them gives back that nonce of that survey.
pub mark_used_once :
    (s : System) (p q : ℕ) (lock_p lock_q : Bool) (survey_id : ℕ) (nonce : Text) (ops : List Op)
    → Valid s
    → (on p (mark_used lock_p survey_id nonce) s).0 ≡ ok true
    → All (Keeps survey_id nonce) ops
    → (on q
        (mark_used lock_q survey_id nonce)
        (run (on p (mark_used lock_p survey_id nonce) s).1 ops)).0
      ≢ ok true
unfolding on
mark_used_once s p q lock_p lock_q survey_id nonce ops v e keep =
    let (key, k) = mark_used-key lock_p survey_id nonce (view p s) true e in
    let h =
      run-Held _ ops survey_id nonce key k keep
        (granted-Held s p lock_p survey_id nonce key v k e) in
    mark_used-refuses lock_q survey_id nonce _ key k (record { file = h.file; cache = h.cached q })
