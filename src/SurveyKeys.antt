-- ===== src/SurveyKeys.antt =====
-- packages/backend/src/services/survey-keys.ts: the HMAC key of each survey, kept in one JSON file
-- and cached by each server process. Random numbers and the time are arguments; a write draws a
-- version of the file that was not seen before.
pub mod Entries
pub mod Visible
mod Tests
use vpp_blockchain.Base.{
  ℕ, suc, ◌+◌, ◌≡◌, Bool, true, false, ◌&&◌, not, Option, none, some, List, [], ◌∷◌, map, ◌==◌, ltb,
  leb, if◌then◌else◌, Text, text_eq, show_nat,
}
use vpp_blockchain.Base.Exec.{Result, ok, throw}
use vpp_blockchain.Base.Table.{find, put, remove}
use vpp_blockchain.Base.Int.{ℤ, pos, negsuc, parse_int}
use vpp_blockchain.NonceStore.{same_version}

pub data KeyError : Type 0 where
  invalid_id key_present no_key lock_failed disk_failed : KeyError

pub record SurveyKeyRecord : Type 0 where
  pub key : Text
  pub created_at : ℕ

-- What a member of the parsed `keys` object is.
pub data Entry : Type 0 where
  valid : SurveyKeyRecord → Entry
  malformed : Entry

pub data Parsed : Type 0 where
  unreadable no_keys : Parsed
  members : List (Text × Entry) → Parsed

-- The `keys` object, by survey id.
abbrev pub Keys : Type 0
Keys = List (Text × SurveyKeyRecord)

pub record KeyDisk : Type 0 where
  pub file : Option Parsed
  pub stamp : ℕ
  pub writable : Bool

-- The shared disk and the module variables `cache` and `cacheVersion` of one process.
pub record KeyProc : Type 0 where
  pub disk : KeyDisk
  pub cache : Option Keys
  pub cache_version : Option ℕ

pub key_file_version : KeyDisk → Option ℕ
key_file_version d = elim d.file [ none ↦ none | some _ ↦ some d.stamp ]

-- The loop of `load` over the parsed members.
pub cleaned : List (Text × Entry) → Keys
cleaned [] = []
cleaned ((k, valid r) ∷ rest) = (k, r) ∷ cleaned rest
cleaned ((k, malformed) ∷ rest) = cleaned rest

-- What `load` takes from the file; a file that cannot be parsed counts as empty.
pub file_keys : Option Parsed → Keys
unfolding cleaned
file_keys (some (members l)) = cleaned l
file_keys _ = []

reload : KeyProc → Keys × KeyProc
unfolding file_keys key_file_version
reload p =
    let keys = file_keys p.disk.file in
    (keys, record p { cache = some keys; cache_version = key_file_version p.disk })

pub load : KeyProc → Keys × KeyProc
unfolding reload
load p = elim p.cache [
  | none ↦ reload p
  | some keys ↦
      if same_version p.cache_version (key_file_version p.disk) then (keys, p) else reload p
]

abbrev pub entry_of : Text × SurveyKeyRecord → Text × Entry
entry_of member = (member.0, valid member.1)

-- The cached object has been changed to `file`; save(file); return a
pub commit : {A : Type 0} → Keys → A → KeyProc → Result KeyError A × KeyProc
commit file a p =
    if p.disk.writable
    then (
      ok a,
      record {
        disk = record p.disk {
          file = some (members (map entry_of file));
          stamp = suc p.disk.stamp;
        };
        cache = some file;
        cache_version = some (suc p.disk.stamp);
      },
    )
    else (throw disk_failed, record p { cache = some file })

pub to_key : ℕ → Result KeyError Text
to_key survey_id = if survey_id == 0 then throw invalid_id else ok (show_nat survey_id)

-- withFileLock(KEYS_PATH, fn); `locked` says whether the lock was obtained in time.
pub with_key_lock :
    {A : Type 0}
    → Bool
    → (KeyProc → Result KeyError A × KeyProc)
    → KeyProc
    → Result KeyError A × KeyProc
with_key_lock true fn p = fn p
with_key_lock false fn p = (throw lock_failed, p)

key_of : Option SurveyKeyRecord → Option Text
key_of none = none
key_of (some r) = some r.key

created_of : Option SurveyKeyRecord → Option ℕ
created_of none = none
created_of (some r) = some r.created_at

-- `file.keys[toKey(surveyId)]` of the file that `load` gives.
pub look_up : ℕ → KeyProc → Result KeyError (Option SurveyKeyRecord) × KeyProc
unfolding to_key
look_up survey_id p =
    let (file, q) = load p in
    elim (to_key survey_id) [ ok k ↦ (ok (find k file), q) | throw e ↦ (throw e, q) ]

-- getSurveyKey(surveyId) !== null
present : Option SurveyKeyRecord → Bool
present none = false
present (some r) = true

map_result : {A B : Type 0} → (A → B) → Result KeyError A × KeyProc → Result KeyError B × KeyProc
map_result f (ok a, p) = (ok (f a), p)
map_result f (throw e, p) = (throw e, p)

pub get_survey_key : ℕ → KeyProc → Result KeyError (Option Text) × KeyProc
unfolding look_up key_of map_result
get_survey_key survey_id p = map_result key_of (look_up survey_id p)

pub get_key_created_at : ℕ → KeyProc → Result KeyError (Option ℕ) × KeyProc
unfolding look_up created_of map_result
get_key_created_at survey_id p = map_result created_of (look_up survey_id p)

pub has_key : ℕ → KeyProc → Result KeyError Bool × KeyProc
unfolding look_up map_result present
has_key survey_id p = map_result present (look_up survey_id p)

-- The critical section of `createKey`.
pub create_locked : Text → SurveyKeyRecord → KeyProc → Result KeyError Text × KeyProc
unfolding commit load
create_locked k fresh p =
    let (file, q) = load p in
    elim (find k file) [
      | some r ↦ (throw key_present, q)
      | none ↦ commit (put k fresh file) fresh.key q
    ]

-- The critical section of `rotateKey`.
pub rotate_locked : Text → SurveyKeyRecord → KeyProc → Result KeyError Text × KeyProc
unfolding commit load
rotate_locked k fresh p =
    let (file, q) = load p in
    elim (find k file) [ none ↦ (throw no_key, q) | some r ↦ commit (put k fresh file) fresh.key q ]

-- The critical section of `deleteKey`.
pub delete_locked : Text → KeyProc → Result KeyError Bool × KeyProc
unfolding commit load
delete_locked k p =
    let (file, q) = load p in
    elim (find k file) [ none ↦ (ok false, q) | some r ↦ commit (remove k file) true q ]

-- `const k = toKey(surveyId); return withFileLock(KEYS_PATH, …)`
pub on_key :
    {A : Type 0}
    → Bool
    → ℕ
    → (Text → KeyProc → Result KeyError A × KeyProc)
    → KeyProc
    → Result KeyError A × KeyProc
unfolding to_key with_key_lock
on_key locked survey_id fn p = elim (to_key survey_id) [
  | throw e ↦ (throw e, p)
  | ok k ↦ with_key_lock locked (fn k) p
]

pub create_key : Bool → ℕ → SurveyKeyRecord → KeyProc → Result KeyError Text × KeyProc
unfolding on_key
create_key locked survey_id fresh p = on_key locked survey_id (λ k. create_locked k fresh) p

pub rotate_key : Bool → ℕ → SurveyKeyRecord → KeyProc → Result KeyError Text × KeyProc
unfolding on_key
rotate_key locked survey_id fresh p = on_key locked survey_id (λ k. rotate_locked k fresh) p

pub delete_key : Bool → ℕ → KeyProc → Result KeyError Bool × KeyProc
unfolding on_key
delete_key locked survey_id p = on_key locked survey_id delete_locked p
