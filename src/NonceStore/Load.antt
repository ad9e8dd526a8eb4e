-- ===== src/NonceStore/Load.antt =====
-- Reading and writing the file of packages/backend/src/services/nonce-store.ts, and what is said
-- there of a key in the file and in a cache.
use vpp_blockchain.Base.{
  ℕ, ◌≤◌, ◌≡◌, refl, true, false, ◌||◌, Option, none, some, List, [], ◌∷◌, map, arith, Text,
  text_eq, text_eq_iff, includes, has, add, has-add, ◌⊎◌,
}
use vpp_blockchain.Base.Exec.{ok}
use vpp_blockchain.NonceStore.{
  str, Content, garbage, no_array, array, CacheState, Proc, file_version, same_version, collect,
  read_file, load, sort, insert_sorted, save,
}

abbrev pub Below : Option ℕ → ℕ → Type 0
Below none n = Unit {0}
Below (some v) n = v ≤ n

-- No cache names a version later than the last write.
abbrev pub CacheFresh : ℕ → Option CacheState → Type 0
CacheFresh n none = Unit {0}
CacheFresh n (some c) = Below c.version n

-- A cache that `load` would still use has the key.
abbrev pub CacheHolds : Text → ℕ → Option CacheState → Type 0
CacheHolds key n none = Unit {0}
CacheHolds key n (some c) = (same_version c.version (some n) ≡ false) ⊎ (has key c.used ≡ true)

abbrev pub FileHolds : Text → Option Content → Type 0
FileHolds key none = ⊥
FileHolds key (some garbage) = ⊥
FileHolds key (some no_array) = ⊥
FileHolds key (some (array items)) = has key (collect [] items) ≡ true

pub record Holds (key : Text) (p : Proc) : Type 0 where
  pub file : FileHolds key p.disk.file
  pub cache : CacheHolds key p.disk.stamp p.cache

has-insert_sorted :
    (key a : Text) (l : List Text) → has key (insert_sorted a l) ≡ (text_eq a key || has key l)
unfolding insert_sorted has
has-insert_sorted key a [] = refl
has-insert_sorted key a (x ∷ l) = ground (arith, has-insert_sorted key a l)

pub has-sort : (key : Text) (l : List Text) → has key (sort l) ≡ has key l
unfolding sort has
has-sort key [] = refl
has-sort key (x ∷ l) = ground (arith, has-insert_sorted key x (sort l), has-sort key l)

has-collect :
    (key : Text) (acc l : List Text)
    → includes b':' key ≡ true
    → has key (collect acc (map str l)) ≡ (has key acc || has key l)
unfolding collect has
has-collect key acc [] h = ground arith
has-collect key acc (x ∷ l) h = ground (
  arith,
  has-collect key (add x acc) l h,
  has-collect key acc l h,
  has-add x key acc,
  text_eq_iff x key,
)

pub FileHolds-save :
    (key : Text) (l : List Text)
    → includes b':' key ≡ true
    → has key l ≡ true
    → FileHolds key (some (array (map str (sort l))))
unfolding has
FileHolds-save key l colon h = rw (has-collect key [] (sort l) colon, has-sort key l) h

-- `load` either throws or returns a set; the disk stays, and the cache is fresh.
pub load-disk : (p : Proc) → (load p).1.disk ≡ p.disk
unfolding load read_file
load-disk p = ground arith

pub load-CacheFresh :
    (p : Proc) → CacheFresh p.disk.stamp p.cache → CacheFresh p.disk.stamp (load p).1.cache
unfolding load read_file file_version
load-CacheFresh p h = ground arith

pub load-Holds : (key : Text) (p : Proc) → Holds key p → Holds key (load p).1
unfolding load read_file file_version same_version
load-Holds key p h = record {
  file = ground (arith, h.file, h.cache);
  cache = ground (arith, h.file, h.cache);
}

pub load-has :
    (key : Text) (p : Proc) (c : CacheState)
    → Holds key p
    → (load p).0 ≡ ok c
    → has key c.used ≡ true
unfolding load read_file file_version same_version
load-has key p c h e = ground (arith, h.file, h.cache)

-- The set that `load` returns is the one that the process then caches.
pub load-cache : (p : Proc) (c : CacheState) → (load p).0 ≡ ok c → (load p).1.cache ≡ some c
unfolding load read_file
load-cache p c e = ground arith

-- Writing the set with the key in it establishes that the key is held.
pub save-Holds :
    (key : Text) (c : CacheState) (p : Proc)
    → includes b':' key ≡ true
    → has key c.used ≡ true
    → (save c p).0 ≡ ok tt
    → Holds key (save c p).1
unfolding save same_version
save-Holds key c p colon h e = record {
  file = ground (arith, FileHolds-save key c.used colon h);
  cache = ground (arith, h);
}
