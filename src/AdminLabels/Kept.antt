-- ===== src/AdminLabels/Kept.antt =====
-- Labels of packages/backend/src/services/admin-labels.ts that were set.
use vpp_blockchain.Base.{
  ◌≡◌, refl, ap, ◌∙◌, Bool, true, false, Option, none, some, List, [], ◌∷◌, ltb, if◌then◌else◌,
  Text, text_eq, Bool-cases, inl, inr, length,
}
use vpp_blockchain.Base.Exec.{ok}
use vpp_blockchain.Base.Table.{find, put, find-put}
use vpp_blockchain.Sessions.Cookie.{trim}
use vpp_blockchain.AdminLabels.{
  Labels, LabelFile, LabelProc, new_process, saved, file_labels, labels_of, load, loaded, answer,
  get_label, commit, clear_label, change_label, set_normalized, set_label, Op, run,
  max_label_length,
}
use vpp_blockchain.AdminLabels.Tidy.{
  or_else, IsTidy, put-IsTidy, find-normalized, load-IsTidy, run-IsTidy,
}

-- Whether two addresses are the same one.
unfoldable pub same_address : Option Text → Option Text → Bool
same_address none o = false
same_address (some a) none = false
same_address (some a) (some b) = text_eq a b

module _ (get_address : Text → Option Text) where
  -- What a call of `setLabel` that returns a label has done.
  pub record HasSet (a label r : Text) (p q : LabelProc) : Type 0 where
    pub key : Text
    pub normalizes : get_address a ≡ some key
    pub trims : r ≡ trim label
    pub file : q.file ≡ saved (put key r (load get_address p))
    pub cache : q.cache ≡ some (put key r (load get_address p))

  change_label-HasSet :
      (writable : Bool) (a label k t r : Text) (p q : LabelProc)
      → get_address a ≡ some k
      → t ≡ trim label
      → change_label get_address writable k t (loaded get_address p) ≡ (ok (some r), q)
      → HasSet a label r p q
  unfolding change_label clear_label commit load labels_of
  change_label-HasSet writable a label k [] r p q n e h =
      absurd (cleared writable (find k (load get_address p)) h)
    where
      cleared :
          (w : Bool) (o : Option Text)
          → clear_label get_address w k o (loaded get_address p) ≡ (ok (some r), q)
          → ⊥
      cleared w none h = cc h
      cleared true (some old) h = cc h
      cleared false (some old) h = cc h
  change_label-HasSet true a label k (c ∷ t) r p q n e h =
      let same : r ≡ c ∷ t = cc h in
      record {
        key = k;
        normalizes = n;
        trims = same ∙ e;
        file = rw same (cc h);
        cache = rw same (cc h);
      }
  change_label-HasSet false a label k (c ∷ t) r p q n e h = absurd (cc h)

  pub set_label-HasSet :
      (writable : Bool) (a label r : Text) (p q : LabelProc)
      → set_label get_address writable a label p ≡ (ok (some r), q)
      → HasSet a label r p q
  unfolding set_label set_normalized
  set_label-HasSet writable a label r p q h =
      elim (Bool-cases (ltb max_label_length (length (trim label)))) [
        | inl long ↦ absurd (cc (rw long at h))
        | inr short ↦ by_address (get_address a) refl (rw short at h)
      ]
    where
      by_address :
          (o : Option Text)
          → get_address a ≡ o
          → set_normalized get_address writable o (trim label) (loaded get_address p)
            ≡ (ok (some r), q)
          → HasSet a label r p q
      by_address none e h = absurd (cc h)
      by_address (some k) e h = change_label-HasSet writable a label k (trim label) r p q e refl h

  -- What a call of `getLabel` answers after the set, with the labels `l` that the process loads.
  answers :
      (a r key : Text) (o : Option Text) (p : LabelProc) (l : Labels)
      → get_address a ≡ some key
      → ((j : Text) → find j l ≡ find j (put key r (load get_address p)))
      → answer get_address o l ≡ (
          if same_address o (get_address a)
          then ok (some r)
          else answer get_address o (load get_address p))
  unfolding answer same_address
  answers a r key none p l n found = refl
  answers a r key (some j) p l n found =
      rw (n, found j, find-put j key r (load get_address p))
        (elim (Bool-cases (text_eq j key)) [ inl e ↦ rw e refl | inr d ↦ rw d refl ])

  pub reloaded :
      (j : Text) (m : Labels)
      → IsTidy get_address m
      → find j (load get_address (new_process (saved m))) ≡ find j m
  unfolding load labels_of file_labels find
  reloaded j m t = find-normalized get_address j m [] t ∙ whole (find j m)
    where
      whole : (o : Option Text) → or_else o none ≡ o
      whole none = refl
      whole (some v) = refl

  pub cached : (p : LabelProc) (m : Labels) → p.cache ≡ some m → load get_address p ≡ m
  unfolding load labels_of
  cached p m e = ap (labels_of get_address p.file) e

  -- ethers.getAddress gives an address that is its own. Whatever a process did before and whatever of it
  -- failed: when a call of setLabel returns a label, it is the one that was given without the spaces
  -- around it, and this process and every one started later answer with it for that address, however it
  -- is spelled, and for every other as this process did before.
  pub set_label-kept :
      ((a k : Text) → get_address a ≡ some k → get_address k ≡ some k)
      → (file : LabelFile) (ops : List (Op get_address)) (writable : Bool) (address label r : Text)
        (q : LabelProc) (b : Text)
      → let p = run get_address ops (new_process file) in
        set_label get_address writable address label p ≡ (ok (some r), q)
        → let expected =
            if same_address (get_address b) (get_address address)
            then ok (some r)
            else (get_label get_address b p).0 in
          (r ≡ trim label)
          × ((get_label get_address b q).0 ≡ expected)
          × ((get_label get_address b (new_process q.file)).0 ≡ expected)
  unfolding get_label
  set_label-kept normal file ops writable address label r q b h =
      let p = run get_address ops (new_process file) in
      let s = set_label-HasSet writable address label r p q h in
      let m = put s.key r (load get_address p) in
      let t : IsTidy get_address m =
        put-IsTidy get_address s.key r (load get_address p) (normal address s.key s.normalizes) (
          load-IsTidy get_address normal p
            (run-IsTidy get_address normal ops (new_process file) tt)) in
      (
        s.trims,
        answers address r s.key (get_address b) p (load get_address q) s.normalizes
            (λ j. ap (find j) (cached q m s.cache)),
        answers address r s.key (get_address b) p (load get_address (new_process q.file))
            s.normalizes
            (λ j. ap (λ f. find j (load get_address (new_process f))) s.file ∙ reloaded j m t),
      )
