-- ===== src/NonceStore/Steps.antt =====
-- What each synchronous function of packages/backend/src/services/nonce-store.ts does to the file and
-- to the cache of its process.
use vpp_blockchain.Base.{
  ℕ, suc, ◌≡◌, ◌≢◌, refl, ap, ◌∙◌, Bool, true, false, some, [], ◌∷◌, arith, Text, text_eq,
  text_eq_refl, includes, includes-append, has, add, delete, has-add, has-delete, ◌⊎◌, length,
  show_nat,
}
use vpp_blockchain.Base.Exec.{ok, ◌>>=◌, bind_cases, lift, pure}
use vpp_blockchain.NonceStore.{
  CacheState, Proc, load, save, composite_key, mark_locked, mark_loaded, release_loaded, mark_used,
  release_locked, release_nonce, is_used, get_used_count, with_file_lock,
}
use vpp_blockchain.Base.Decimal.{show_nat_split}
use vpp_blockchain.NonceStore.Load.{
  CacheFresh, Holds, FileHolds-save, load-disk, load-CacheFresh, load-Holds, load-has, load-cache,
}

-- The composite key contains a colon, and determines the survey and the nonce.
pub composite_key-colon :
    (survey_id : ℕ) (nonce key : Text)
    → composite_key survey_id nonce ≡ ok key
    → includes b':' key ≡ true
unfolding composite_key includes
composite_key-colon survey_id [] key h = ground arith
composite_key-colon survey_id (c ∷ nonce) key h =
    ground (arith, includes-append b':' (show_nat survey_id) (b':' ∷ c ∷ nonce))

-- Two pairs of a survey and a nonce that are given the same key are the same pair.
pub composite_key-inj :
    (m n : ℕ) (x y : Text) {key : Text}
    → composite_key m x ≡ ok key
    → composite_key n y ≡ ok key
    → (m ≡ n) × (x ≡ y)
unfolding composite_key
composite_key-inj m n [] y hx hy = absurd (ground arith)
composite_key-inj m n (a ∷ x) [] hx hy = absurd (ground arith)
composite_key-inj m n (a ∷ x) (b ∷ y) hx hy =
    show_nat_split b':' m n (a ∷ x) (b ∷ y) (omega arith) (ground arith)

-- How one function may move the disk and the process's own cache.
pub record Moves (p q : Proc) : Type 0 where
  pub stamp :
      (q.disk.stamp ≡ p.disk.stamp) × (q.disk.file ≡ p.disk.file)
      ⊎ (q.disk.stamp ≡ suc p.disk.stamp)
  pub fresh : CacheFresh q.disk.stamp q.cache

mark_loaded-Moves :
    (j : Text) (c : CacheState) (p : Proc)
    → p.cache ≡ some c
    → CacheFresh p.disk.stamp p.cache
    → Moves p (mark_loaded j c p).1
unfolding mark_loaded save
mark_loaded-Moves j c p e h = ground arith

mark_loaded-Holds :
    (key j : Text) (c : CacheState) (p : Proc)
    → includes b':' key ≡ true
    → has key c.used ≡ true
    → Holds key p
    → Holds key (mark_loaded j c p).1
unfolding mark_loaded save
mark_loaded-Holds key j c p colon hc h = record {
  file = ground (arith, FileHolds-save key (add j c.used) colon, has-add j key c.used, h.file);
  cache = ground (arith, has-add j key c.used, h.cache);
}

pub load-Moves : (p : Proc) → CacheFresh p.disk.stamp p.cache → Moves p (load p).1
load-Moves p h = ground (arith, load-disk p, load-CacheFresh p h)

-- Moves over `load`, then over what follows it.
load_then : (p : Proc) {r : Proc} → CacheFresh p.disk.stamp p.cache → Moves (load p).1 r → Moves p r
load_then p h m = ground (arith, load-disk p, m.stamp, m.fresh)

release_loaded-Moves :
    (j : Text) (c : CacheState) (p : Proc)
    → p.cache ≡ some c
    → CacheFresh p.disk.stamp p.cache
    → Moves p (release_loaded j c p).1
unfolding release_loaded save
release_loaded-Moves j c p e h = ground arith

release_loaded-Holds :
    (key j : Text) (c : CacheState) (p : Proc)
    → includes b':' key ≡ true
    → text_eq j key ≡ false
    → has key c.used ≡ true
    → Holds key p
    → Holds key (release_loaded j c p).1
unfolding release_loaded save
release_loaded-Holds key j c p colon ne hc h = record {
  file =
      ground (arith, FileHolds-save key (delete j c.used) colon, has-delete j key c.used, h.file);
  cache = ground (arith, has-delete j key c.used, h.cache);
}

stays-Moves : (p : Proc) → CacheFresh p.disk.stamp p.cache → Moves p p
stays-Moves p h = ground arith

pub mark_used-Moves :
    (locked : Bool) (survey_id : ℕ) (nonce : Text) (p : Proc)
    → CacheFresh p.disk.stamp p.cache
    → Moves p (mark_used locked survey_id nonce p).1
unfolding mark_used mark_locked
mark_used-Moves locked survey_id nonce p h =
    bind_cases (λ r. Moves p r.1) (composite_key survey_id nonce, p)
      (λ key. with_file_lock locked (mark_locked key)) (λ e _. stays-Moves p h)
      (λ key _. go key locked)
  where
    go : (key : Text) (b : Bool) → Moves p (with_file_lock b (mark_locked key) p).1
    go key false = stays-Moves p h
    go key true =
        bind_cases (λ r. Moves p r.1) (load p) (mark_loaded key) (λ e _. load-Moves p h)
          (λ c e. load_then p h (
            mark_loaded-Moves key c (load p).1 (load-cache p c e)
              (rw (load-disk p) (load-CacheFresh p h))))

pub mark_used-Holds :
    (key : Text) (locked : Bool) (survey_id : ℕ) (nonce : Text) (p : Proc)
    → includes b':' key ≡ true
    → Holds key p
    → Holds key (mark_used locked survey_id nonce p).1
unfolding mark_used mark_locked
mark_used-Holds key locked survey_id nonce p colon h =
    bind_cases (λ r. Holds key r.1) (composite_key survey_id nonce, p)
      (λ j. with_file_lock locked (mark_locked j)) (λ e _. h) (λ j _. go j locked)
  where
    go : (j : Text) (b : Bool) → Holds key (with_file_lock b (mark_locked j) p).1
    go j false = h
    go j true =
        bind_cases (λ r. Holds key r.1) (load p) (mark_loaded j) (λ e _. load-Holds key p h)
          (λ c e.
            mark_loaded-Holds key j c (load p).1 colon (load-has key p c h e) (load-Holds key p h))

pub release_nonce-Moves :
    (locked : Bool) (survey_id : ℕ) (nonce : Text) (p : Proc)
    → CacheFresh p.disk.stamp p.cache
    → Moves p (release_nonce locked survey_id nonce p).1
unfolding release_nonce release_locked
release_nonce-Moves locked survey_id nonce p h =
    bind_cases (λ r. Moves p r.1) (composite_key survey_id nonce, p)
      (λ key. with_file_lock locked (release_locked key)) (λ e _. stays-Moves p h)
      (λ key _. go key locked)
  where
    go : (key : Text) (b : Bool) → Moves p (with_file_lock b (release_locked key) p).1
    go key false = stays-Moves p h
    go key true =
        bind_cases (λ r. Moves p r.1) (load p) (release_loaded key) (λ e _. load-Moves p h)
          (λ c e. load_then p h (
            release_loaded-Moves key c (load p).1 (load-cache p c e)
              (rw (load-disk p) (load-CacheFresh p h))))

-- Releasing another nonce, or the same nonce of another survey, keeps the key.
pub release_nonce-Holds :
    (key : Text) (locked : Bool) (survey_id : ℕ) (nonce : Text) (p : Proc)
    → includes b':' key ≡ true
    → ((j : Text) → composite_key survey_id nonce ≡ ok j → text_eq j key ≡ false)
    → Holds key p
    → Holds key (release_nonce locked survey_id nonce p).1
unfolding release_nonce release_locked
release_nonce-Holds key locked survey_id nonce p colon ne h =
    bind_cases (λ r. Holds key r.1) (composite_key survey_id nonce, p)
      (λ j. with_file_lock locked (release_locked j)) (λ e _. h) (λ j e. go j (ne j e) locked)
  where
    go :
        (j : Text)
        → text_eq j key ≡ false
        → (b : Bool) → Holds key (with_file_lock b (release_locked j) p).1
    go j ne false = h
    go j ne true =
        bind_cases (λ r. Holds key r.1) (load p) (release_loaded j) (λ e _. load-Holds key p h)
          (λ c e.
            release_loaded-Holds key j c (load p).1 colon ne (load-has key p c h e)
              (load-Holds key p h))

pub is_used-load :
    (survey_id : ℕ) (nonce : Text) (p : Proc) → (is_used survey_id nonce p).1 ≡ (load p).1
unfolding is_used
is_used-load survey_id nonce p =
    bind_cases (λ r. r.1 ≡ (load p).1) (load p)
      (λ state. lift (composite_key survey_id nonce) >>= λ key. pure (has key state.used))
      (λ e _. refl)
      (λ c _.
        bind_cases (λ r. r.1 ≡ (load p).1) (composite_key survey_id nonce, (load p).1)
          (λ key. pure (has key c.used)) (λ e _. refl) (λ key _. refl))

pub get_used_count-load : (p : Proc) → (get_used_count p).1 ≡ (load p).1
unfolding get_used_count
get_used_count-load p =
    bind_cases (λ r. r.1 ≡ (load p).1) (load p) (λ state. pure (length state.used)) (λ e _. refl)
      (λ c _. refl)

mark_loaded-grants :
    (key : Text) (c : CacheState) (p : Proc)
    → includes b':' key ≡ true
    → (mark_loaded key c p).0 ≡ ok true
    → Holds key (mark_loaded key c p).1 × ((mark_loaded key c p).1.disk.stamp ≡ suc p.disk.stamp)
unfolding mark_loaded save
mark_loaded-grants key c p colon e = (
  record {
    file = ground (
      arith,
      FileHolds-save key (add key c.used) colon,
      has-add key key c.used,
      text_eq_refl key,
    );
    cache = ground (arith, has-add key key c.used, text_eq_refl key);
  },
  ground arith,
)

pub mark_used_lem :
    (locked : Bool) (survey_id : ℕ) (nonce : Text) (p : Proc) (key : Text)
    → composite_key survey_id nonce ≡ ok key
    → mark_used locked survey_id nonce p ≡ with_file_lock locked (mark_locked key) p
unfolding mark_used
mark_used_lem locked survey_id nonce p key k = rw k

mark_locked-grants :
    (key : Text) (p : Proc)
    → includes b':' key ≡ true
    → (mark_locked key p).0 ≡ ok true
    → Holds key (mark_locked key p).1 × ((mark_locked key p).1.disk.stamp ≡ suc p.disk.stamp)
unfolding mark_locked
mark_locked-grants key p colon =
    bind_cases (λ r. r.0 ≡ ok true → Holds key r.1 × (r.1.disk.stamp ≡ suc p.disk.stamp)) (load p)
      (mark_loaded key) (λ e _ bad. absurd (cc))
      (λ c _ good.
        let (h, s) = mark_loaded-grants key c (load p).1 colon good in
        (h, s ∙ ap (λ d. suc d.stamp) (load-disk p)))

-- A call that returns true has put the key into the file, as a new version.
pub mark_used-grants :
    (locked : Bool) (survey_id : ℕ) (nonce : Text) (p : Proc) (key : Text)
    → composite_key survey_id nonce ≡ ok key
    → (mark_used locked survey_id nonce p).0 ≡ ok true
    → Holds key (mark_used locked survey_id nonce p).1
      × ((mark_used locked survey_id nonce p).1.disk.stamp ≡ suc p.disk.stamp)
unfolding with_file_lock
mark_used-grants false survey_id nonce p key k e =
    absurd (ground (arith, mark_used_lem false survey_id nonce p key k))
mark_used-grants true survey_id nonce p key k e =
    let same = mark_used_lem true survey_id nonce p key k in
    rw same (mark_locked-grants key p (composite_key-colon survey_id nonce key k) (rw same at e))

mark_loaded-refuses :
    (key : Text) (c : CacheState) (p : Proc)
    → has key c.used ≡ true
    → (mark_loaded key c p).0 ≢ ok true
unfolding mark_loaded
mark_loaded-refuses key c p h e = ground arith

mark_locked-refuses : (key : Text) (p : Proc) → Holds key p → (mark_locked key p).0 ≢ ok true
unfolding mark_locked
mark_locked-refuses key p h =
    bind_cases (λ r. r.0 ≢ ok true) (load p) (mark_loaded key) (λ e _ bad. cc)
      (λ c e. mark_loaded-refuses key c (load p).1 (load-has key p c h e))

-- A held key is refused, whatever the process had cached.
pub mark_used-refuses :
    (locked : Bool) (survey_id : ℕ) (nonce : Text) (p : Proc) (key : Text)
    → composite_key survey_id nonce ≡ ok key
    → Holds key p
    → (mark_used locked survey_id nonce p).0 ≢ ok true
unfolding with_file_lock
mark_used-refuses false survey_id nonce p key k h e =
    ground (arith, mark_used_lem false survey_id nonce p key k)
mark_used-refuses true survey_id nonce p key k h e =
    mark_locked-refuses key p h (rw (mark_used_lem true survey_id nonce p key k) at e)

-- A call that returned anything has a composite key.
pub mark_used-key :
    (locked : Bool) (survey_id : ℕ) (nonce : Text) (p : Proc) (b : Bool)
    → (mark_used locked survey_id nonce p).0 ≡ ok b
    → (key : Text) × (composite_key survey_id nonce ≡ ok key)
unfolding mark_used
mark_used-key locked survey_id nonce p b =
    bind_cases (λ r. r.0 ≡ ok b → (key : Text) × (composite_key survey_id nonce ≡ ok key))
      (composite_key survey_id nonce, p) (λ key. with_file_lock locked (mark_locked key))
      (λ e _ bad. absurd (cc)) (λ key e _. (key, e))
