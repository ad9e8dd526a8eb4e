-- ===== src/AdminLabels.antt =====
-- packages/backend/src/services/admin-labels.ts: the names that operators give to administrators, in one
-- JSON file and in the cache of the process. `get_address` is ethers.getAddress, and `none` its error.
mod Tidy
pub mod Kept
pub mod Rows
mod Tests
use vpp_blockchain.Base.{
  ℕ, ◌≡◌, Bool, true, false, Option, none, some, List, [], ◌∷◌, map, ltb, if◌then◌else◌, Text,
  text_eq, to_lower_case, length,
}
use vpp_blockchain.Base.Exec.{Result, ok, throw}
use vpp_blockchain.Base.Table.{find, put, remove}
use vpp_blockchain.Sessions.Cookie.{trim}

abbrev pub max_label_length : ℕ
max_label_length = 64

-- LabelMap
abbrev pub Labels : Type 0
Labels = List (Text × Text)

-- A member whose value is no string is `none`; `unreadable` is text that is no JSON object.
pub data LabelFile : Type 0 where
  missing unreadable : LabelFile
  parsed : List (Text × Option Text) → LabelFile

-- The file, and the module variable `cache` of a process.
pub record LabelProc : Type 0 where
  pub file : LabelFile
  pub cache : Option Labels

pub data LabelError : Type 0 where
  too_long invalid_address disk_failed : LabelError

abbrev pub new_process : LabelFile → LabelProc
new_process file = record { file = file; cache = none }

abbrev pub entry_of : Text × Text → Text × Option Text
entry_of (k, v) = (k, some v)

-- What `save` writes, as it is parsed again.
abbrev pub saved : Labels → LabelFile
saved labels = parsed (map entry_of labels)

module _ (get_address : Text → Option Text) where
  put_normalized : Option Text → Text → Labels → Labels
  put_normalized none value labels = labels
  put_normalized (some k) value labels = put k value labels

  -- The loop of `load`
  pub normalized : List (Text × Option Text) → Labels → Labels
  unfolding put_normalized
  normalized [] labels = labels
  normalized ((k, none) ∷ rest) labels = normalized rest labels
  normalized ((k, some value) ∷ rest) labels =
      normalized rest (put_normalized (get_address k) value labels)

  pub file_labels : LabelFile → Labels
  unfolding normalized
  file_labels missing = []
  file_labels unreadable = []
  file_labels (parsed members) = normalized members []

  labels_of : LabelFile → Option Labels → Labels
  unfolding file_labels
  labels_of file (some labels) = labels
  labels_of file none = file_labels file

  -- The labels that `load` returns; they are the cache from then on.
  pub load : LabelProc → Labels
  unfolding labels_of
  load p = labels_of p.file p.cache

  abbrev pub loaded : LabelProc → LabelProc
  loaded p = record p { cache = some (load p) }

  answer : Option Text → Labels → Result LabelError (Option Text)
  answer none labels = throw invalid_address
  answer (some k) labels = ok (find k labels)

  pub get_label : Text → LabelProc → Result LabelError (Option Text) × LabelProc
  unfolding answer
  get_label address p = (answer (get_address address) (load p), loaded p)

  -- save(map), where `map` is the cache and already changed
  commit : Bool → Labels → Option Text → LabelProc → Result LabelError (Option Text) × LabelProc
  commit true labels label p = (ok label, record p { file = saved labels; cache = some labels })
  commit false labels label p = (throw disk_failed, record p { cache = some labels })

  clear_label : Bool → Text → Option Text → LabelProc → Result LabelError (Option Text) × LabelProc
  unfolding commit
  clear_label writable k none p = (ok none, p)
  clear_label writable k (some old) p = commit writable (remove k (load p)) none p

  change_label : Bool → Text → Text → LabelProc → Result LabelError (Option Text) × LabelProc
  unfolding commit clear_label
  change_label writable k [] p = clear_label writable k (find k (load p)) p
  change_label writable k (c ∷ label) p =
      commit writable (put k (c ∷ label) (load p)) (some (c ∷ label)) p

  set_normalized :
      Bool → Option Text → Text → LabelProc → Result LabelError (Option Text) × LabelProc
  unfolding change_label
  set_normalized writable none label p = (throw invalid_address, p)
  set_normalized writable (some k) label p = change_label writable k label p

  -- setLabel, where the flag says whether the file can be written
  pub set_label : Bool → Text → Text → LabelProc → Result LabelError (Option Text) × LabelProc
  unfolding set_normalized
  set_label writable address label p =
      if ltb max_label_length (length (trim label))
      then (throw too_long, p)
      else set_normalized writable (get_address address) (trim label) (loaded p)

  pub data Op : Type 0 where
    gets : Text → Op
    sets : (writable : Bool) → (address label : Text) → Op

  pub step : Op → LabelProc → LabelProc
  step (gets address) p = (get_label address p).1
  step (sets writable address label) p = (set_label writable address label p).1

  -- The calls of a process, one after the other.
  pub run : List Op → LabelProc → LabelProc
  unfolding step
  run [] p = p
  run (op ∷ ops) p = run ops (step op p)
