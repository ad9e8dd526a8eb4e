-- ===== src/NonceStore/Outcomes.antt =====
-- What single calls of packages/backend/src/services/nonce-store.ts return after a release and on a
-- file that cannot be parsed.
use vpp_blockchain.Base.{
  ℕ, suc, ◌≡◌, refl, true, false, none, some, arith, Text, text_eq_refl, has, delete, has-delete,
  inl, inr, Bool-cases, Option, Option-cases, subst, ap, ◌≢◌, ◌==◌, ==_iff,
}
use vpp_blockchain.Base.Exec.{ok, throw, bind_cases}
use vpp_blockchain.NonceStore.Load.{load-disk}
use vpp_blockchain.NonceStore.Steps.{mark_used_lem}
use vpp_blockchain.NonceStore.{
  garbage, CacheState, Proc, corrupt_file, file_version, same_version, read_file, load, save,
  composite_key, mark_locked, mark_loaded, mark_used, release_locked, release_loaded, release_nonce,
  is_used, get_used_count, with_file_lock,
}

-- A second `load` returns what the first one cached.
load-load : (p : Proc) (c : CacheState) → (load p).0 ≡ ok c → load (load p).1 ≡ (ok c, (load p).1)
unfolding load read_file file_version same_version
load-load p c e = ground arith

load_current :
    (p : Proc) (c : CacheState)
    → p.cache ≡ some c
    → same_version c.version (file_version p.disk) ≡ true
    → load p ≡ (ok c, p)
unfolding load
load_current p c e v = ground arith

-- The process has nothing cached from the version of the file that is on disk.
abbrev pub HasNoCurrent : Option CacheState → ℕ → Type 0
HasNoCurrent none stamp = Unit {0}
HasNoCurrent (some c) stamp = c.version ≢ some stamp

other_version : (v : Option ℕ) (n : ℕ) → v ≢ some n → same_version v (some n) ≡ false
unfolding same_version
other_version none n h = refl
other_version (some v) n h = elim (Bool-cases (v == n)) [
  | inl t ↦ absurd (h (ap some ((==_iff v n).0 t)))
  | inr f ↦ f
]

load_garbage :
    (p : Proc)
    → p.disk.file ≡ some garbage
    → HasNoCurrent p.cache p.disk.stamp
    → load p ≡ (throw corrupt_file, p)
unfolding load read_file file_version
load_garbage p file old = elim (Option-cases p.cache) [
  | inl q ↦ ground (arith, file, q)
  | inr (c, q) ↦
      let other : c.version ≢ some p.disk.stamp = subst (λ o. HasNoCurrent o p.disk.stamp) q old in
      ground (arith, file, q, other_version c.version p.disk.stamp other)
]

mark_absent :
    (key : Text) (c : CacheState) (p : Proc)
    → load p ≡ (ok c, p)
    → has key c.used ≡ false
    → p.disk.writable ≡ true
    → (mark_locked key p).0 ≡ ok true
unfolding mark_locked mark_loaded save
mark_absent key c p l absent w = rw (l, absent) (ground (arith, w))

mark_after_release_loaded :
    (key : Text) (c : CacheState) (p : Proc)
    → load p ≡ (ok c, p)
    → p.disk.writable ≡ true
    → (mark_locked key (release_loaded key c p).1).0 ≡ ok true
unfolding release_loaded save file_version same_version
mark_after_release_loaded key c p l w = elim (Bool-cases (has key c.used)) [
  | inl there ↦
      simp (there, w)
        (mark_absent key (record { used = delete key c.used; version = some (suc p.disk.stamp) }) _
          (load_current _ _ refl (ground arith))
          (ground (arith, has-delete key key c.used, text_eq_refl key)) refl)
  | inr absent ↦ rw absent (mark_absent key c p l absent w)
]

-- A nonce that was given back can be redeemed again by the process that gave it back, when its
-- next call gets the lock and the disk takes the write.
pub mark_used-release_nonce :
    (survey_id : ℕ) (nonce : Text) (p : Proc)
    → p.disk.writable ≡ true
    → (release_nonce true survey_id nonce p).0 ≡ ok tt
    → (mark_used true survey_id nonce (release_nonce true survey_id nonce p).1).0 ≡ ok true
unfolding release_nonce release_locked with_file_lock
mark_used-release_nonce survey_id nonce p w =
    bind_cases (λ r. r.0 ≡ ok tt → (mark_used true survey_id nonce r.1).0 ≡ ok true)
      (composite_key survey_id nonce, p) (λ key. with_file_lock true (release_locked key))
      (λ e _ bad. absurd (cc))
      (λ key k.
        bind_cases (λ r. r.0 ≡ ok tt → (mark_used true survey_id nonce r.1).0 ≡ ok true) (load p)
          (release_loaded key) (λ e _ bad. absurd (cc))
          (λ c e _.
            rw (mark_used_lem true survey_id nonce _ key k)
              (mark_after_release_loaded key c (load p).1 (load-load p c e) (rw (load-disk p) w))))

-- While the nonce file cannot be parsed: in a process that has nothing cached, or something from another
-- version of the file, every call for a valid pair that gets the lock throws CORRUPT_NONCE_FILE and
-- changes nothing, so no nonce is taken for unused.
pub corrupt_closed :
    (survey_id : ℕ) (nonce key : Text) (p : Proc)
    → composite_key survey_id nonce ≡ ok key
    → p.disk.file ≡ some garbage
    → HasNoCurrent p.cache p.disk.stamp
    → (is_used survey_id nonce p ≡ (throw corrupt_file, p))
      × (mark_used true survey_id nonce p ≡ (throw corrupt_file, p))
      × (release_nonce true survey_id nonce p ≡ (throw corrupt_file, p))
      × (get_used_count p ≡ (throw corrupt_file, p))
unfolding is_used mark_used mark_locked release_nonce release_locked get_used_count with_file_lock
corrupt_closed survey_id nonce key p k file old =
    let l = load_garbage p file old in (rw (l), rw (k, l), rw (k, l), rw l)
