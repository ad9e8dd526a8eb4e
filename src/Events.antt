-- ===== src/Events.antt =====
-- packages/backend/src/services/event-store.types.ts and the data of
-- packages/backend/src/services/json-file-event-store.ts: the rows of the cache, the events of the
-- chain they are made from, the removal of repeated rows, `load` and `save`, and what is read off
-- the cache. Points are in hundredths. A parsed file may lack an array.
pub mod Keys
pub mod Sync
pub mod Window
pub mod Invariant
mod Progress
mod Steps
mod Effects
pub mod Mirror
pub mod Restart
mod Lock
pub mod Queries
mod Admins
mod Source
pub mod Fallback
mod Tests
use vpp_blockchain.Base.{
  ℕ, zero, ◌+◌, ◌-◌, ◌*◌, ◌/◌, Bool, true, false, ◌&&◌, ◌||◌, not, Option, none, some, List, [],
  ◌∷◌, ◌++◌, map, ltb, leb, ◌==◌, if◌then◌else◌, Text, text_eq, codes, show_nat, to_lower_case, has,
  add, delete, length, drop,
}

pub record SurveyArgs : Type 0 where
  pub survey_id : ℕ
  pub raw : ℕ
  pub max_claims : ℕ

pub record PointsArgs : Type 0 where
  pub wallet : Text
  pub survey_id : ℕ
  pub raw : ℕ

-- An event with its decoded arguments and the name in its fragment, when it has them.
pub record ChainEvent (A : Type 0) : Type 0 where
  pub block : ℕ
  pub index : ℕ
  pub tx_hash : Text
  pub args : Option A
  pub name : Option Text

pub record StoredSurveyEvent : Type 0 where
  pub survey_id : ℕ
  pub points : ℕ
  pub max_claims : ℕ
  pub block_number : ℕ
  pub tx_hash : Text
  pub timestamp : ℕ

pub record StoredPointsEvent : Type 0 where
  pub wallet : Text
  pub survey_id : ℕ
  pub points : ℕ
  pub block_number : ℕ
  pub tx_hash : Text
  pub timestamp : ℕ

pub data Change : Type 0 where
  grant revoke : Change

pub record StoredRoleEvent : Type 0 where
  pub change : Change
  pub account : Text
  pub block_number : ℕ
  pub log_index : ℕ

pub record EventStoreData : Type 0 where
  pub last_synced_block : ℕ
  pub survey_registered : List StoredSurveyEvent
  pub points_awarded : List StoredPointsEvent
  pub role_changes : List StoredRoleEvent

abbrev pub empty_store : EventStoreData
empty_store = record {
  last_synced_block = 0;
  survey_registered = [];
  points_awarded = [];
  role_changes = [];
}

-- A place on the chain: a block and the index of a log in it.
abbrev pub Position : Type 0
Position = ℕ × ℕ

-- whether `x.blockNumber - y.blockNumber || x.index - y.index` is negative
abbrev pub before : Position → Position → Bool
before x y = ltb x.0 y.0 || (x.0 == y.0 && ltb x.1 y.1)

module _ {A : Type 0} (at : A → Position) where
  unfoldable pub insert : A → List A → List A
  insert x [] = x ∷ []
  insert x (y ∷ ys) =
      let rest = insert x ys in if before (at y) (at x) then y ∷ rest else x ∷ y ∷ ys

  -- a stable sort
  unfoldable pub sort : List A → List A
  unfolding insert
  sort [] = []
  sort (x ∷ xs) = insert x (sort xs)

abbrev pub event_at : {A : Type 0} → ChainEvent A → Position
event_at e = (e.block, e.index)

abbrev pub merge_in_chain_order :
    {A : Type 0} → List (ChainEvent A) → List (ChainEvent A) → List (ChainEvent A)
merge_in_chain_order a [] = a
merge_in_chain_order a (x ∷ b) = sort event_at (a ++ x ∷ b)

-- name?.endsWith('Centi')
abbrev pub is_centi : Option Text → Bool
is_centi none = false
is_centi (some name) = text_eq (drop (length name - 5) name) (codes "Centi")

abbrev pub decimal_points : Option Text → ℕ → ℕ
decimal_points name raw = if is_centi name then raw else raw * 100

abbrev pub push_row : {R : Type 0} → Option R → List R → List R
push_row none rows = rows
push_row (some r) rows = r ∷ rows

-- What the loop over `events` pushes, where an event without arguments is passed over.
abbrev pub pushed : {E R : Type 0} → (E → Option R) → List E → List R
pushed row [] = []
pushed row (e ∷ es) = push_row (row e) (pushed row es)

abbrev pub survey_row : (ℕ → ℕ) → ChainEvent SurveyArgs → Option StoredSurveyEvent
survey_row timestamps e = elim e.args [
  | none ↦ none
  | some a ↦ some (record {
    survey_id = a.survey_id;
    points = decimal_points e.name a.raw;
    max_claims = a.max_claims;
    block_number = e.block;
    tx_hash = e.tx_hash;
    timestamp = timestamps e.block;
  })
]

abbrev pub points_row : (ℕ → ℕ) → ChainEvent PointsArgs → Option StoredPointsEvent
points_row timestamps e = elim e.args [
  | none ↦ none
  | some a ↦ some (record {
    wallet = a.wallet;
    survey_id = a.survey_id;
    points = decimal_points e.name a.raw;
    block_number = e.block;
    tx_hash = e.tx_hash;
    timestamp = timestamps e.block;
  })
]

abbrev pub role_row : Change → ChainEvent Text → Option StoredRoleEvent
role_row change e = elim e.args [
  | none ↦ none
  | some account ↦
      some
        (record { change = change; account = account; block_number = e.block; log_index = e.index })
]

abbrev pub survey_key : StoredSurveyEvent → Text
survey_key e = to_lower_case e.tx_hash ++ b':' ∷ show_nat e.survey_id

abbrev pub points_key : StoredPointsEvent → Text
points_key e =
    to_lower_case e.tx_hash ++ b':' ∷ to_lower_case e.wallet ++ b':' ∷ show_nat e.survey_id

abbrev pub change_text : Change → Text
change_text grant = codes "grant"
change_text revoke = codes "revoke"

abbrev pub role_key : StoredRoleEvent → Text
role_key e =
    show_nat e.block_number
    ++ b':' ∷ show_nat e.log_index
    ++ b':' ∷ change_text e.change
    ++ b':' ∷ to_lower_case e.account

-- `unique` of `dropDuplicates` with the keys seen so far; adding a key that was seen changes nothing.
unfoldable pub unique : {A : Type 0} → (A → Text) → List Text → List A → List A
unique key seen [] = []
unique key seen (x ∷ xs) =
    let rest = unique key (add (key x) seen) xs in if has (key x) seen then rest else x ∷ rest

abbrev pub deduplicated : EventStoreData → EventStoreData
deduplicated s = record s {
  survey_registered = unique survey_key [] s.survey_registered;
  points_awarded = unique points_key [] s.points_awarded;
  role_changes = unique role_key [] s.role_changes;
}

abbrev pub row_count : EventStoreData → ℕ
row_count s = length s.survey_registered + length s.points_awarded + length s.role_changes

-- The store afterwards, and the number of entries removed.
abbrev pub drop_duplicates : EventStoreData → EventStoreData × ℕ
drop_duplicates s =
    let t = deduplicated s in
    (t, row_count s - length t.survey_registered - length t.points_awarded - length t.role_changes)

-- data/events.json
pub record ParsedStore : Type 0 where
  pub last_synced_block : ℕ
  pub survey_registered : Option (List StoredSurveyEvent)
  pub points_awarded : Option (List StoredPointsEvent)
  pub role_changes : Option (List StoredRoleEvent)

pub data File : Type 0 where
  missing unreadable : File
  parsed : ParsedStore → File

-- The file that `save` writes.
abbrev pub saved : EventStoreData → File
saved s = parsed (record {
  last_synced_block = s.last_synced_block;
  survey_registered = some s.survey_registered;
  points_awarded = some s.points_awarded;
  role_changes = some s.role_changes;
})

-- value ??= []
abbrev pub or_empty : {A : Type 0} → Option (List A) → List A
or_empty none = []
or_empty (some xs) = xs

abbrev pub read_store : ParsedStore → EventStoreData
read_store p = record {
  last_synced_block = p.last_synced_block;
  survey_registered = or_empty p.survey_registered;
  points_awarded = or_empty p.points_awarded;
  role_changes = or_empty p.role_changes;
}

-- The store and the file after `load`, and whether `save` threw; `writable` tells if a write of the
-- file succeeds.
pub record Loaded : Type 0 where
  pub store : EventStoreData
  pub file : File
  pub threw : Bool

abbrev pub load_from : Bool → File → EventStoreData → Loaded
load_from writable file s =
    let (t, removed) = drop_duplicates s in
    if ltb 0 removed && writable
    then record { store = t; file = saved t; threw = false }
    else record { store = t; file = file; threw = ltb 0 removed }

abbrev pub load : Bool → File → EventStoreData → Loaded
load writable missing s = record { store = s; file = missing; threw = false }
load writable unreadable s = load_from writable unreadable empty_store
load writable (parsed p) s = load_from writable (parsed p) (read_store p)
