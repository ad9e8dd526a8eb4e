-- ===== src/AdminLabels/Rows.antt =====
-- packages/backend/src/routes/admin.ts: the list of the administrators with their labels, and the route that
-- sets one. Both run after the middleware that checks the administrator.
use vpp_blockchain.Base.{
  ◌≡◌, refl, ap, ◌∙◌, subst, Bool, Option, none, some, List, [], ◌∷◌, leb, if◌then◌else◌, Text,
  text_eq, to_lower_case, Bool-cases, inl, inr, length,
}
use vpp_blockchain.Base.Exec.{Result, ok, throw}
use vpp_blockchain.Base.Table.{find, put, find-put}
use vpp_blockchain.Events.{EventStoreData, ChainEvent}
use vpp_blockchain.Events.Queries.{is_ready, get_current_admins}
use vpp_blockchain.Events.Fallback.{get_admin_addresses}
use vpp_blockchain.AdminLabels.{
  Labels, LabelFile, LabelProc, LabelError, new_process, load, set_label, Op, run, max_label_length,
}
use vpp_blockchain.AdminLabels.Tidy.{IsTidy, put-IsTidy, load-IsTidy, run-IsTidy}
use vpp_blockchain.AdminLabels.Kept.{HasSet, set_label-HasSet, reloaded, cached}

pub record AdminEntry : Type 0 where
  pub address : Text
  pub label : Option Text
  pub is_minter : Bool

-- What the route answers with when it fails: a body that labelSchema refuses, or what `setLabel` throws.
pub data RouteError : Type 0 where
  validation_error : RouteError
  label_error : LabelError → RouteError

-- The list that GET / shows, after the sync that it may wait for; `granted` and `revoked` are what the chain
-- answers while the event store is cold.
unfoldable pub listed_admins :
    EventStoreData → (granted revoked : List (ChainEvent Text)) → List Text
listed_admins store granted revoked =
    if is_ready store then get_current_admins store else get_admin_addresses granted revoked

module _ (get_address : Text → Option Text) where
  -- One row of buildEntries; `none` is an error of getAddress.
  row : Text → Labels → Option Text → Option (List AdminEntry) → Option (List AdminEntry)
  row minter labels (some checksum) (some entries) = some (
      record {
        address = checksum;
        label = find checksum labels;
        is_minter = text_eq (to_lower_case checksum) (to_lower_case minter);
      }
      ∷ entries)
  row minter labels _ _ = none

  pub build_entries : (minter : Text) → Labels → List Text → Option (List AdminEntry)
  unfolding row
  build_entries minter labels [] = some []
  build_entries minter labels (raw ∷ addresses) =
      row minter labels (get_address raw) (build_entries minter labels addresses)

  unfoldable pub answered :
      Text → Result LabelError (Option Text) → Result RouteError (Text × Option Text)
  answered checksum (ok label) = ok (checksum, label)
  answered checksum (throw e) = throw (label_error e)

  unfoldable pub set_checked :
      Bool → Option Text → Text → LabelProc → Result RouteError (Text × Option Text) × LabelProc
  unfolding answered
  set_checked writable none label p = (throw validation_error, p)
  set_checked writable (some checksum) label p =
      let (result, left) = set_label get_address writable checksum label p in
      (answered checksum result, left)

  -- PUT /label, where a body whose members are no strings is `none`. The schema's isAddress holds exactly of
  -- what getAddress takes.
  unfoldable pub put_label :
      Bool → Option (Text × Text) → LabelProc → Result RouteError (Text × Option Text) × LabelProc
  unfolding set_checked
  put_label writable none p = (throw validation_error, p)
  put_label writable (some (address, label)) p =
      if leb (length label) max_label_length
      then set_checked writable (get_address address) label p
      else (throw validation_error, p)

-- The list with the label of one address replaced.
abbrev relabel_entry : Text → Text → AdminEntry → AdminEntry
relabel_entry checksum r e = if text_eq e.address checksum then record e { label = some r } else e

abbrev relabel_all : Text → Text → List AdminEntry → List AdminEntry
relabel_all checksum r [] = []
relabel_all checksum r (e ∷ es) = relabel_entry checksum r e ∷ relabel_all checksum r es

abbrev pub relabel : Text → Text → Option (List AdminEntry) → Option (List AdminEntry)
relabel checksum r none = none
relabel checksum r (some entries) = some (relabel_all checksum r entries)

module _ (get_address : Text → Option Text) where
  row-relabel :
      (minter checksum r : Text) (m l : Labels) (o : Option Text)
      (entries : Option (List AdminEntry))
      → ((j : Text) → find j l ≡ (if text_eq j checksum then some r else find j m))
      → row get_address minter l o (relabel checksum r entries)
        ≡ relabel checksum r (row get_address minter m o entries)
  unfolding row
  row-relabel minter checksum r m l none none found = refl
  row-relabel minter checksum r m l none (some entries) found = refl
  row-relabel minter checksum r m l (some j) none found = refl
  row-relabel minter checksum r m l (some j) (some entries) found =
      rw (found j)
        (elim (Bool-cases (text_eq j checksum)) [ inl e ↦ rw e refl | inr d ↦ rw d refl ])

  build_entries-relabel :
      (minter checksum r : Text) (m l : Labels) (addresses : List Text)
      → ((j : Text) → find j l ≡ (if text_eq j checksum then some r else find j m))
      → build_entries get_address minter l addresses
        ≡ relabel checksum r (build_entries get_address minter m addresses)
  unfolding build_entries
  build_entries-relabel minter checksum r m l [] found = refl
  build_entries-relabel minter checksum r m l (raw ∷ addresses) found =
      ap (row get_address minter l (get_address raw))
        (build_entries-relabel minter checksum r m l addresses found)
      ∙ row-relabel minter checksum r m l (get_address raw)
          (build_entries get_address minter m addresses) found

  -- What a request to set a label has done when it is answered with one.
  put_label-HasSet :
      (writable : Bool) (address label checksum r : Text) (p q : LabelProc)
      → put_label get_address writable (some (address, label)) p ≡ (ok (checksum, some r), q)
      → (get_address address ≡ some checksum) × HasSet get_address checksum label r p q
  unfolding put_label set_checked answered
  put_label-HasSet writable address label checksum r p q h =
      elim (Bool-cases (leb (length label) max_label_length)) [
        | inr long ↦ absurd (cc (rw long at h))
        | inl short ↦ by_address (get_address address) refl (rw short at h)
      ]
    where
      by_result :
          (o : Text) (out : Result LabelError (Option Text) × LabelProc)
          → get_address address ≡ some o
          → set_label get_address writable o label p ≡ out
          → answered get_address o out.0 ≡ ok (checksum, some r)
          → out.1 ≡ q
          → (get_address address ≡ some checksum) × HasSet get_address checksum label r p q
      by_result o (throw e, left) a s h l = absurd (cc h)
      by_result o (ok none, left) a s h l = absurd (cc h)
      by_result o (ok (some label'), left) a s h l =
          let place : o ≡ checksum = cc h in
          let given : label' ≡ r = cc h in
          let set : set_label get_address writable checksum label p ≡ (ok (some r), q) =
            rw (← place, ← given, ← l) s in
          (rw (← place) a, set_label-HasSet get_address writable checksum label r p q set)

      by_address :
          (o : Option Text)
          → get_address address ≡ o
          → set_checked get_address writable o label p ≡ (ok (checksum, some r), q)
          → (get_address address ≡ some checksum) × HasSet get_address checksum label r p q
      by_address none e h = absurd (cc h)
      by_address (some o) e h =
          by_result o (set_label get_address writable o label p) e refl
            (ap (λ (z : Result RouteError (Text × Option Text) × LabelProc). z.0) h)
            (ap (λ (z : Result RouteError (Text × Option Text) × LabelProc). z.1) h)

-- ethers.getAddress gives an address that is its own. When the route answers with a label, after any calls
-- of the process: the list that this process and every one started later show is the list from before with
-- that label in the rows of that address.
pub put_label-listed :
    (get_address : Text → Option Text)
    → ((a k : Text) → get_address a ≡ some k → get_address k ≡ some k)
    → (file : LabelFile) (ops : List (Op get_address)) (writable : Bool)
      (address label checksum r minter : Text) (q : LabelProc) (addresses : List Text)
    → let p = run get_address ops (new_process file) in
      put_label get_address writable (some (address, label)) p ≡ (ok (checksum, some r), q)
      → let before = build_entries get_address minter (load get_address p) addresses in
        (build_entries get_address minter (load get_address q) addresses
          ≡ relabel checksum r before)
        × (build_entries get_address minter (load get_address (new_process q.file)) addresses
            ≡ relabel checksum r before)
put_label-listed get_address normal file ops writable address label checksum r minter q addresses
      h =
    let p = run get_address ops (new_process file) in
    let (named, s) = put_label-HasSet get_address writable address label checksum r p q h in
    let m = put s.key r (load get_address p) in
    let own : s.key ≡ checksum = cc (s.normalizes, normal address checksum named) in
    let t : IsTidy get_address m =
      put-IsTidy get_address s.key r (load get_address p) (normal checksum s.key s.normalizes) (
        load-IsTidy get_address normal p
          (run-IsTidy get_address normal ops (new_process file) tt)) in
    let found : (j : Text)
        → find j m ≡ (if text_eq j checksum then some r else find j (load get_address p)) =
      λ j.
        subst (λ k. find j m ≡ (if text_eq j k then some r else find j (load get_address p))) own
          (find-put j s.key r (load get_address p)) in
    (
      build_entries-relabel get_address minter checksum r (load get_address p) (load get_address q)
          addresses (λ j. ap (find j) (cached get_address q m s.cache) ∙ found j),
      build_entries-relabel get_address minter checksum r (load get_address p)
          (load get_address (new_process q.file)) addresses
          (λ j.
            ap (λ f. find j (load get_address (new_process f))) s.file
            ∙ (reloaded get_address j m t ∙ found j)),
    )
