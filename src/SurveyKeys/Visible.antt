-- ===== src/SurveyKeys/Visible.antt =====
-- What the processes of the server read from packages/backend/src/services/survey-keys.ts after a
-- key was made, replaced or removed.
use vpp_blockchain.Base.{
  ℕ, suc, ◌≤◌, ◌≡◌, ◌≢◌, refl, ◌∙◌, Bool, true, Option, none, some, map, arith, ◌==◌, ==_iff, Text,
  text_eq, text_eq_iff, text_eq_refl, show_nat, if◌then◌else◌, inl, inr, Bool-cases, Option-cases,
}
use vpp_blockchain.Base.Exec.{Result, ok}
use vpp_blockchain.Base.Decimal.{show_nat_inj}
use vpp_blockchain.NonceStore.{same_version}
use vpp_blockchain.SurveyKeys.{
  KeyError, SurveyKeyRecord, members, Keys, KeyDisk, KeyProc, key_file_version, file_keys, reload,
  load, entry_of, commit, to_key, with_key_lock, look_up, create_locked, rotate_locked,
  delete_locked, on_key, create_key, rotate_key, delete_key,
}
use vpp_blockchain.SurveyKeys.Entries.{cleaned-map}
use vpp_blockchain.Base.Table.{find, put, remove, find-put, find-remove}

-- A cache that is not newer than the file at a version.
abbrev pub NotNewer : Option ℕ → ℕ → Type 0
NotNewer none n = Unit {0}
NotNewer (some v) n = v ≤ n

-- A process with any cache over a disk.
abbrev pub reader : KeyDisk → Option Keys → Option ℕ → KeyProc
reader disk cache version = record { disk = disk; cache = cache; cache_version = version }

load-stale :
    (d : KeyDisk) (file : Keys) (n : ℕ) (w : Bool) (cache : Option Keys) (version : Option ℕ)
    → NotNewer version n
    → (load (
        reader
          (record { file = some (members (map entry_of file)); stamp = suc n; writable = w })
          cache
          version)).0
      ≡ file
unfolding load reload file_keys key_file_version same_version
load-stale d file n w none version h = cleaned-map file
load-stale d file n w (some c) none h = cleaned-map file
load-stale d file n w (some c) (some v) h = ground (arith, cleaned-map file)

text_eq-show_nat : (j i : ℕ) → text_eq (show_nat j) (show_nat i) ≡ (j == i)
text_eq-show_nat j i = ground (
  arith,
  show_nat_inj j i,
  text_eq_iff (show_nat j) (show_nat i),
  text_eq_refl (show_nat i),
  ==_iff j i,
)

load-disk_same : (p : KeyProc) → (load p).1.disk ≡ p.disk
unfolding load reload
load-disk_same p = elim (Option-cases p.cache) [
  | inl q ↦ rw (q, load) refl
  | inr (keys, q) ↦ elim (Bool-cases (same_version p.cache_version (key_file_version p.disk))) [
    | inl t ↦ rw (q, t, load) refl
    | inr t ↦ rw (q, t, load) refl
  ]
]

look_up_lem : (j : ℕ) (p : KeyProc) → j ≢ 0 → (look_up j p).0 ≡ ok (find (show_nat j) (load p).0)
unfolding look_up to_key
look_up_lem j p positive = elim (Bool-cases (j == 0)) [
  | inl t ↦ absurd (positive ((==_iff j 0).0 t))
  | inr f ↦ rw (f, look_up, to_key) refl
]

-- After a committed write, every process whose cache is not newer than the file before it looks
-- members up in what was written.
commit-look_up :
    {A : Type 0} (file : Keys) (a b : A) (p : KeyProc) (j : ℕ) (cache : Option Keys)
    (version : Option ℕ)
    → (commit file a p).0 ≡ ok b
    → NotNewer version p.disk.stamp
    → j ≢ 0
    → (look_up j (reader (commit file a p).1.disk cache version)).0 ≡ ok (find (show_nat j) file)
unfolding commit
commit-look_up file a b p j cache version e h positive = elim (Bool-cases p.disk.writable) [
  | inl w ↦
      rw
        (
          w,
          commit,
          look_up_lem j _ positive,
          load-stale p.disk file p.disk.stamp true cache version h,
        )
        refl
  | inr w ↦ absurd (let bad = rw (w, commit) at e in cc)
]

-- After a committed write, the process that wrote looks members up in what it wrote.
commit-own :
    {A : Type 0} (file : Keys) (a b : A) (p : KeyProc) (j : ℕ)
    → (commit file a p).0 ≡ ok b
    → j ≢ 0
    → (look_up j (commit file a p).1).0 ≡ ok (find (show_nat j) file)
unfolding commit load key_file_version same_version
commit-own file a b p j e positive = elim (Bool-cases p.disk.writable) [
  | inl w ↦ rw (w, commit, look_up_lem j _ positive) (ground arith)
  | inr w ↦ absurd (let bad = rw (w, commit) at e in cc)
]

create_locked_lem :
    (k : Text) (fresh : SurveyKeyRecord) (p : KeyProc) (key : Text)
    → (create_locked k fresh p).0 ≡ ok key
    → create_locked k fresh p ≡ commit (put k fresh (load p).0) fresh.key (load p).1
unfolding create_locked
create_locked_lem k fresh p key e = elim (Option-cases (find k (load p).0)) [
  | inl q ↦ rw (q, create_locked) refl
  | inr (r, q) ↦ absurd (let bad = rw (q, create_locked) at e in cc)
]

rotate_locked_lem :
    (k : Text) (fresh : SurveyKeyRecord) (p : KeyProc) (key : Text)
    → (rotate_locked k fresh p).0 ≡ ok key
    → rotate_locked k fresh p ≡ commit (put k fresh (load p).0) fresh.key (load p).1
unfolding rotate_locked
rotate_locked_lem k fresh p key e = elim (Option-cases (find k (load p).0)) [
  | inl q ↦ absurd (let bad = rw (q, rotate_locked) at e in cc)
  | inr (r, q) ↦ rw (q, rotate_locked) refl
]

delete_locked_lem :
    (k : Text) (p : KeyProc)
    → (delete_locked k p).0 ≡ ok true
    → delete_locked k p ≡ commit (remove k (load p).0) true (load p).1
unfolding delete_locked
delete_locked_lem k p e = elim (Option-cases (find k (load p).0)) [
  | inl q ↦ absurd (let bad = rw (q, delete_locked) at e in cc)
  | inr (r, q) ↦ rw (q, delete_locked) refl
]

on_key_lem :
    {A : Type 0} (locked : Bool) (i : ℕ) (fn : Text → KeyProc → Result KeyError A × KeyProc)
    (p : KeyProc) (a : A)
    → (on_key locked i fn p).0 ≡ ok a
    → on_key locked i fn p ≡ fn (show_nat i) p
unfolding on_key to_key with_key_lock
on_key_lem locked i fn p a e = elim (Bool-cases (i == 0)) [
  | inl t ↦ absurd (let bad = rw (t, on_key, to_key) at e in cc)
  | inr f ↦ elim (Bool-cases locked) [
    | inl l ↦ rw (f, l, on_key, to_key, with_key_lock) refl
    | inr l ↦ absurd (let bad = rw (f, l, on_key, to_key, with_key_lock) at e in cc)
  ]
]

-- What a process with an older cache reads after a committed write.
written-look_up :
    {A : Type 0} (file : Keys) (a b : A) (p : KeyProc) (out : Result KeyError A × KeyProc) (j : ℕ)
    (cache : Option Keys) (version : Option ℕ)
    → out ≡ commit file a (load p).1
    → out.0 ≡ ok b
    → NotNewer version p.disk.stamp
    → j ≢ 0
    → (look_up j (reader out.1.disk cache version)).0 ≡ ok (find (show_nat j) file)
written-look_up file a b p out j cache version e r h positive =
    let d = load-disk_same p in
    rw (e) (commit-look_up file a b (load p).1 j cache version (rw (e) at r) (rw (d) h) positive)

-- After a key was made, every process, whatever cache it has from before, finds the new key under its
-- survey and, under every other survey, what the process that made it found.
pub create_key-look_up :
    (locked : Bool) (i j : ℕ) (fresh : SurveyKeyRecord) (key : Text) (p : KeyProc)
    (cache : Option Keys) (version : Option ℕ)
    → (create_key locked i fresh p).0 ≡ ok key
    → NotNewer version p.disk.stamp
    → j ≢ 0
    → (look_up j (reader (create_key locked i fresh p).1.disk cache version)).0
      ≡ (if j == i then ok (some fresh) else (look_up j p).0)
unfolding create_key
create_key-look_up locked i j fresh key p cache version e h positive =
    let k = show_nat i in
    let on = on_key_lem locked i (λ n. create_locked n fresh) p key e in
    let inner : (create_locked k fresh p).0 ≡ ok key = rw (on) at e in
    let wrote = on ∙ create_locked_lem k fresh p key inner in
    let seen =
      written-look_up (put k fresh (load p).0) fresh.key key p (create_key locked i fresh p) j cache
        version wrote e h positive in
    rw
      (
        seen,
        find-put (show_nat j) k fresh (load p).0,
        text_eq-show_nat j i,
        look_up_lem j p positive,
      )
      (ground arith)

-- The same after a key was replaced.
pub rotate_key-look_up :
    (locked : Bool) (i j : ℕ) (fresh : SurveyKeyRecord) (key : Text) (p : KeyProc)
    (cache : Option Keys) (version : Option ℕ)
    → (rotate_key locked i fresh p).0 ≡ ok key
    → NotNewer version p.disk.stamp
    → j ≢ 0
    → (look_up j (reader (rotate_key locked i fresh p).1.disk cache version)).0
      ≡ (if j == i then ok (some fresh) else (look_up j p).0)
unfolding rotate_key
rotate_key-look_up locked i j fresh key p cache version e h positive =
    let k = show_nat i in
    let on = on_key_lem locked i (λ n. rotate_locked n fresh) p key e in
    let inner : (rotate_locked k fresh p).0 ≡ ok key = rw (on) at e in
    let wrote = on ∙ rotate_locked_lem k fresh p key inner in
    let seen =
      written-look_up (put k fresh (load p).0) fresh.key key p (rotate_key locked i fresh p) j cache
        version wrote e h positive in
    rw
      (
        seen,
        find-put (show_nat j) k fresh (load p).0,
        text_eq-show_nat j i,
        look_up_lem j p positive,
      )
      (ground arith)

-- After a key was removed, the process that removed it, and every process whose cache is not newer than
-- the file was before, finds none under its survey and, under every other survey number above 0, what
-- the process that removed it found before.
pub delete_key-look_up :
    (locked : Bool) (i j : ℕ) (p : KeyProc) (cache : Option Keys) (version : Option ℕ)
    → (delete_key locked i p).0 ≡ ok true
    → NotNewer version p.disk.stamp
    → j ≢ 0
    → let left = if j == i then ok none else (look_up j p).0 in
      ((look_up j (delete_key locked i p).1).0 ≡ left)
      × ((look_up j (reader (delete_key locked i p).1.disk cache version)).0 ≡ left)
unfolding delete_key
delete_key-look_up locked i j p cache version e h positive =
    let k = show_nat i in
    let on = on_key_lem locked i delete_locked p true e in
    let inner : (delete_locked k p).0 ≡ ok true = rw (on) at e in
    let wrote = on ∙ delete_locked_lem k p inner in
    let own : (look_up j (delete_key locked i p).1).0
        ≡ ok (find (show_nat j) (remove k (load p).0)) =
      rw (wrote)
        (commit-own (remove k (load p).0) true true (load p).1 j (rw (wrote) at e) positive) in
    let seen =
      written-look_up (remove k (load p).0) true true p (delete_key locked i p) j cache version
        wrote e h positive in
    let found : ok (find (show_nat j) (remove k (load p).0))
        ≡ (if j == i then ok none else (look_up j p).0) =
      rw (find-remove (show_nat j) k (load p).0, text_eq-show_nat j i, look_up_lem j p positive)
        (ground arith) in
    (own ∙ found, seen ∙ found)
