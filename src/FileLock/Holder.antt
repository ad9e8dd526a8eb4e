-- ===== src/FileLock/Holder.antt =====
-- Who has the lock of packages/backend/src/lib/file-lock.ts.
use vpp_blockchain.Base.{
  ℕ, ◌+◌, ◌≤◌, ◌≡◌, refl, Bool, true, false, Option, none, some, List, [], ◌∷◌, arith, ◌==◌, ==_iff,
  ap, sym, ◌∙◌, Bool-cases, inl, inr,
}
use vpp_blockchain.FileLock.{
  Stats, Pc, System, Input, ticks, crashes, outside, moving, returning, holding, unlinking,
  stale_lock_ms, put, step, start, go_to,
}

-- The descriptor of a process that has the lock.
abbrev pub held_by : Pc → Option Stats
held_by (holding fd) = some fd
held_by (unlinking fd) = some fd
held_by _ = none

-- The process is not breaking a lock.
abbrev pub breaks : Pc → Bool
breaks (moving deadline seen) = true
breaks (returning deadline moved) = true
breaks _ = false

-- Who has the lock gives it back within `stale_lock_ms`, and does not end before.
abbrev pub IsPrompt : System → Input → Type 0
IsPrompt s (ticks ms) =
    (i : ℕ) (fd : Stats) → held_by (s.procs i) ≡ some fd → s.now + ms ≤ fd.mtime_ms + stale_lock_ms
IsPrompt s (crashes pid) = held_by (s.procs pid) ≡ none
IsPrompt s _ = Unit {0}

abbrev pub ArePrompt : System → List Input → Type 0
ArePrompt s [] = Unit {0}
ArePrompt s (input ∷ inputs) = IsPrompt s input × ArePrompt (step s input) inputs

-- The lock file is there exactly while one process has it, and it is fresh.
pub record Valid (s : System) : Type 0 where
  pub locked :
      (i : ℕ) (fd : Stats)
      → held_by (s.procs i) ≡ some fd
      → (s.lock ≡ some fd) × (s.now ≤ fd.mtime_ms + stale_lock_ms)
  pub single :
      (i j : ℕ) (a b : Stats) → held_by (s.procs i) ≡ some a → held_by (s.procs j) ≡ some b → i ≡ j
  pub owned : (f : Stats) → s.lock ≡ some f → (i : ℕ) × (held_by (s.procs i) ≡ some f)
  pub calm : (i : ℕ) → breaks (s.procs i) ≡ false

pub start-Valid : (at : ℕ) → Valid (start at)
start-Valid at = record {
  locked = λ i fd h. cc;
  single = λ i j a b h k. cc;
  owned = λ f h. cc;
  calm = λ i. refl;
}

module _ (s : System) (pid : ℕ) (v : Valid s) where
  pub same_process : (i : ℕ) → (i == pid) ≡ true → s.procs i ≡ s.procs pid
  same_process i e = ap s.procs ((==_iff i pid).0 e)

  -- A process without the lock goes on without it.
  pub pass-Valid :
      (pc : Pc)
      → held_by (s.procs pid) ≡ none
      → held_by pc ≡ none
      → breaks pc ≡ false
      → Valid (go_to s pid pc)
  pass-Valid pc before after quiet = record {
    locked = λ i fd h. v.locked i fd (stays i fd h);
    single = λ i j a b h k. v.single i j a b (stays i a h) (stays j b k);
    owned = λ f h. let o = v.owned f h in (o.0, keeps o.0 f o.1);
    calm = λ i. ground (arith, quiet, v.calm i);
  }
    where
      stays :
          (i : ℕ) (fd : Stats)
          → held_by (put pid pc s.procs i) ≡ some fd
          → held_by (s.procs i) ≡ some fd
      stays i fd h = ground (arith, h, after)

      keeps :
          (i : ℕ) (fd : Stats)
          → held_by (s.procs i) ≡ some fd
          → held_by (put pid pc s.procs i) ≡ some fd
      keeps i fd h = elim (Bool-cases (i == pid)) [
        | inl e ↦ absurd (cc (h, before, ap held_by (same_process i e)))
        | inr e ↦ rw e h
      ]

  -- A process with the lock keeps it.
  pub keep-Valid :
      (pc : Pc) (own : Stats)
      → held_by (s.procs pid) ≡ some own
      → held_by pc ≡ some own
      → breaks pc ≡ false
      → Valid (go_to s pid pc)
  keep-Valid pc own before after quiet = record {
    locked = λ i fd h. v.locked i fd (stays i fd h);
    single = λ i j a b h k. v.single i j a b (stays i a h) (stays j b k);
    owned = λ f h. let o = v.owned f h in (o.0, same o.0 ∙ o.1);
    calm = λ i. ground (arith, quiet, v.calm i);
  }
    where
      same : (i : ℕ) → held_by (put pid pc s.procs i) ≡ held_by (s.procs i)
      same i = elim (Bool-cases (i == pid)) [
        | inl e ↦ rw e (after ∙ sym before ∙ sym (ap held_by (same_process i e)))
        | inr e ↦ rw e refl
      ]

      stays :
          (i : ℕ) (fd : Stats)
          → held_by (put pid pc s.procs i) ≡ some fd
          → held_by (s.procs i) ≡ some fd
      stays i fd h = sym (same i) ∙ h

  -- While there is no lock file nobody has the lock, and a process that makes one is the only one.
  pub take-Valid :
      (ino : ℕ)
      → s.lock ≡ none
      → let f : Stats = record { ino = ino; mtime_ms = s.now } in
        Valid (record s { lock = some f; procs = put pid (holding f) s.procs })
  take-Valid ino free = record {
    locked = λ i fd h. ground (arith, h, idle i);
    single = λ i j a b h k. only i a h ∙ sym (only j b k);
    owned = λ f h. (pid, ground (arith, h));
    calm = λ i. ground (arith, v.calm i);
  }
    where
      idle : (i : ℕ) → held_by (s.procs i) ≡ none
      idle i = unheld (held_by (s.procs i)) refl
        where
          unheld : (o : Option Stats) → held_by (s.procs i) ≡ o → o ≡ none
          unheld none e = refl
          unheld (some fd) e = absurd (cc ((v.locked i fd e).0, free))

      only :
          (i : ℕ) (fd : Stats)
          → held_by (put pid (holding (record { ino = ino; mtime_ms = s.now })) s.procs i) ≡ some fd
          → i ≡ pid
      only i fd h = ground (arith, h, idle i)

  -- Who has the lock unlinks it.
  pub leave-Valid :
      (own : Stats)
      → held_by (s.procs pid) ≡ some own
      → Valid (record s { lock = none; procs = put pid outside s.procs })
  leave-Valid own held = record {
    locked = λ i fd h. absurd (gone i fd h);
    single = λ i j a b h k. absurd (gone i a h);
    owned = λ f h. cc;
    calm = λ i. ground (arith, v.calm i);
  }
    where
      gone : (i : ℕ) (fd : Stats) → held_by (put pid outside s.procs i) ≡ some fd → ⊥
      gone i fd h = ground (arith, h, v.single i pid fd own, held)
