-- ===== src/NonceStore.antt =====
-- packages/backend/src/services/nonce-store.ts: the set of redeemed nonces, kept in one JSON file
-- and cached by each server process. A process runs its synchronous functions to the end; the
-- critical section under the file lock is one step of the system. `readFileSync`, `JSON.parse`
-- and `atomicWriteJson` are read off the model of the disk; a write draws a version of the file
-- that was not seen before.
mod Load
pub mod Steps
pub mod Replay
pub mod Outcomes
mod Tests
use vpp_blockchain.Base.{
  ℕ, zero, suc, ◌+◌, ◌≡◌, refl, Bool, true, false, Option, none, some, List, [], ◌∷◌, ◌++◌, map,
  ◌==◌, ltb, if◌then◌else◌, Text, show_nat, includes, has, add, delete, length,
}
use vpp_blockchain.Base.Exec.{Result, ok, throw, Exec, pure, raise, lift, ◌>>=◌, ◌>>◌}

pub data StoreError : Type 0 where
  invalid_survey_id invalid_nonce corrupt_file lock_timeout write_failed : StoreError

-- An element of the parsed `used` array.
pub data Item : Type 0 where
  str : Text → Item
  other : Item

-- What reading and parsing the file gives.
pub data Content : Type 0 where
  garbage : Content
  no_array : Content
  array : List Item → Content

pub record Disk : Type 0 where
  pub file : Option Content
  pub stamp : ℕ
  pub writable : Bool

pub record CacheState : Type 0 where
  pub used : List Text
  pub version : Option ℕ

-- What one process sees: the shared disk and its module variable `cache`.
pub record Proc : Type 0 where
  pub disk : Disk
  pub cache : Option CacheState

abbrev pub Store : Type 0 → Type 0
Store A = Exec Proc StoreError A

-- fileVersion(NONCES_PATH)
pub file_version : Disk → Option ℕ
file_version d = elim d.file [ none ↦ none | some _ ↦ some d.stamp ]

unfoldable pub same_version : Option ℕ → Option ℕ → Bool
same_version none none = true
same_version none (some w) = false
same_version (some v) none = false
same_version (some v) (some w) = v == w

pub composite_key : ℕ → Text → Result StoreError Text
composite_key survey_id [] = if survey_id == 0 then throw invalid_survey_id else throw invalid_nonce
composite_key survey_id (c ∷ nonce) =
    if survey_id == 0 then throw invalid_survey_id else ok (show_nat survey_id ++ b':' ∷ c ∷ nonce)

-- The loop of `load` over the parsed array.
pub collect : List Text → List Item → List Text
collect set [] = set
collect set (str item ∷ rest) = collect (if includes b':' item then add item set else set) rest
collect set (other ∷ rest) = collect set rest

pub read_file : Option Content → Store CacheState
unfolding file_version collect
read_file none p =
    let c : CacheState = record { used = []; version = none } in (ok c, record p { cache = some c })
read_file (some garbage) p = (throw corrupt_file, p)
read_file (some no_array) p =
    let c : CacheState = record { used = []; version = file_version p.disk } in
    (ok c, record p { cache = some c })
read_file (some (array items)) p =
    let c : CacheState = record { used = collect [] items; version = file_version p.disk } in
    (ok c, record p { cache = some c })

pub load : Store CacheState
unfolding file_version same_version read_file
load p = elim p.cache [
  | none ↦ read_file p.disk.file p
  | some c ↦
      if same_version c.version (file_version p.disk) then (ok c, p) else read_file p.disk.file p
]

-- The order by code units, and `Array.from(set).sort()`.
text_lt : Text → Text → Bool
text_lt a [] = false
text_lt [] (y ∷ ys) = true
text_lt (x ∷ xs) (y ∷ ys) = if x == y then text_lt xs ys else ltb x y

insert_sorted : Text → List Text → List Text
unfolding text_lt
insert_sorted a [] = a ∷ []
insert_sorted a (x ∷ xs) = if text_lt x a then x ∷ insert_sorted a xs else a ∷ x ∷ xs

pub sort : List Text → List Text
unfolding insert_sorted
sort [] = []
sort (x ∷ xs) = insert_sorted x (sort xs)

-- atomicWriteJson(NONCES_PATH, file), then `state.version = fileVersion(NONCES_PATH)`
pub save : CacheState → Store (Unit {0})
unfolding sort
save state p =
    if p.disk.writable
    then (
      ok tt,
      record {
        disk = record p.disk {
          file = some (array (map str (sort state.used)));
          stamp = suc p.disk.stamp;
        };
        cache = some (record state { version = some (suc p.disk.stamp) });
      },
    )
    else (throw write_failed, p)

-- `state` is the cached object itself: a change of its set is seen through `cache`.
pub change_set : CacheState → List Text → Store CacheState
change_set state set p =
    let c : CacheState = record state { used = set } in (ok c, record p { cache = some c })

-- withFileLock(NONCES_PATH, fn): `locked` says whether the lock was obtained in time.
pub with_file_lock : {A : Type 0} → Bool → Store A → Store A
with_file_lock true fn = fn
with_file_lock false fn = raise lock_timeout

pub is_used : ℕ → Text → Store Bool
is_used survey_id nonce = do
  state ← load
  key ← lift (composite_key survey_id nonce)
  pure (has key state.used)

-- The part of the critical section after `load`.
pub mark_loaded : Text → CacheState → Store Bool
unfolding change_set
mark_loaded key state p =
    if has key state.used
    then (ok false, p)
    else (do state' ← change_set state (add key state.used); save state'; pure true) p

pub mark_locked : Text → Store Bool
mark_locked key = do state ← load; mark_loaded key state

pub mark_used : Bool → ℕ → Text → Store Bool
unfolding with_file_lock
mark_used locked survey_id nonce = do
  key ← lift (composite_key survey_id nonce)
  with_file_lock locked (mark_locked key)

pub release_loaded : Text → CacheState → Store (Unit {0})
unfolding change_set
release_loaded key state p =
    if has key state.used
    then (do state' ← change_set state (delete key state.used); save state') p
    else (ok tt, p)

pub release_locked : Text → Store (Unit {0})
release_locked key = do state ← load; release_loaded key state

pub release_nonce : Bool → ℕ → Text → Store (Unit {0})
unfolding with_file_lock
release_nonce locked survey_id nonce = do
  key ← lift (composite_key survey_id nonce)
  with_file_lock locked (release_locked key)

pub get_used_count : Store ℕ
get_used_count = do state ← load; pure (length state.used)
