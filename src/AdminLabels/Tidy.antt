-- ===== src/AdminLabels/Tidy.antt =====
-- The tables that packages/backend/src/services/admin-labels.ts keeps: their keys are normalized, and each
-- stands there once.
use vpp_blockchain.Base.{
  ◌≡◌, refl, ap, ◌∙◌, Bool, true, false, Option, none, some, List, [], ◌∷◌, map, arith, ltb, Text,
  text_eq, text_eq_iff, Bool-cases, inl, inr, length,
}
use vpp_blockchain.Base.Table.{find, put, remove, find-put, find-remove}
use vpp_blockchain.Sessions.Cookie.{trim}
use vpp_blockchain.AdminLabels.{
  Labels, LabelFile, missing, unreadable, parsed, LabelProc, entry_of, put_normalized, normalized,
  file_labels, labels_of, load, loaded, get_label, commit, clear_label, change_label,
  set_normalized, set_label, Op, gets, sets, step, run, max_label_length,
}

-- The first of two results that there is.
abbrev pub or_else : Option Text → Option Text → Option Text
or_else (some v) o = some v
or_else none o = o

module _ (get_address : Text → Option Text) where
  -- Every key is normalized, and stands there once.
  abbrev pub IsTidy : Labels → Type 0
  IsTidy [] = Unit {0}
  IsTidy ((k, v) ∷ rest) = (get_address k ≡ some k) × (find k rest ≡ none) × IsTidy rest

  abbrev pub IsTidyCache : Option Labels → Type 0
  IsTidyCache none = Unit {0}
  IsTidyCache (some labels) = IsTidy labels

  pub put-IsTidy :
      (k v : Text) (l : Labels) → get_address k ≡ some k → IsTidy l → IsTidy (put k v l)
  unfolding put find
  put-IsTidy k v [] n t = (n, refl, tt)
  put-IsTidy k v ((j, w) ∷ l) n t = elim (Bool-cases (text_eq k j)) [
    | inl e ↦ rw e (n, ap (λ i. find i l) ((text_eq_iff k j).0 e) ∙ t.1, t.2)
    | inr d ↦
        let apart : find j (put k v l) ≡ none =
          ground (arith, find-put j k v l, text_eq_iff j k, text_eq_iff k j, t.1) in
        rw d (t.0, apart, put-IsTidy k v l n t.2)
  ]

  remove-IsTidy : (k : Text) (l : Labels) → IsTidy l → IsTidy (remove k l)
  unfolding remove
  remove-IsTidy k [] t = tt
  remove-IsTidy k ((j, w) ∷ l) t = elim (Bool-cases (text_eq k j)) [
    | inl e ↦ rw e (remove-IsTidy k l t.2)
    | inr d ↦
        let apart : find j (remove k l) ≡ none = ground (arith, find-remove j k l, t.1) in
        rw d (t.0, apart, remove-IsTidy k l t.2)
  ]

  -- A tidy table is read back from the file.
  pub find-normalized :
      (j : Text) (m l : Labels)
      → IsTidy m
      → find j (normalized get_address (map entry_of m) l) ≡ or_else (find j m) (find j l)
  unfolding normalized put_normalized find
  find-normalized j [] l t = refl
  find-normalized j ((k, v) ∷ m) l t = rw (t.0) (find-normalized j m (put k v l) t.2 ∙ first)
    where
      first : or_else (find j m) (find j (put k v l)) ≡ or_else (find j ((k, v) ∷ m)) (find j l)
      first = elim (Bool-cases (text_eq j k)) [
        | inl e ↦
            let there : find j m ≡ none = ap (λ i. find i m) ((text_eq_iff j k).0 e) ∙ t.1 in
            rw (find-put j k v l, e, there) refl
        | inr d ↦ rw (find-put j k v l, d) refl
      ]

  module _ (normal : (a k : Text) → get_address a ≡ some k → get_address k ≡ some k) where
    put_normalized-IsTidy :
        (a : Text) (o : Option Text) (v : Text) (l : Labels)
        → get_address a ≡ o
        → IsTidy l
        → IsTidy (put_normalized get_address o v l)
    unfolding put_normalized
    put_normalized-IsTidy a none v l e t = t
    put_normalized-IsTidy a (some k) v l e t = put-IsTidy k v l (normal a k e) t

    normalized-IsTidy :
        (members : List (Text × Option Text)) (l : Labels)
        → IsTidy l
        → IsTidy (normalized get_address members l)
    unfolding normalized
    normalized-IsTidy [] l t = t
    normalized-IsTidy ((k, none) ∷ rest) l t = normalized-IsTidy rest l t
    normalized-IsTidy ((k, some v) ∷ rest) l t =
        normalized-IsTidy rest (put_normalized get_address (get_address k) v l)
          (put_normalized-IsTidy k (get_address k) v l refl t)

    file_labels-IsTidy : (file : LabelFile) → IsTidy (file_labels get_address file)
    unfolding file_labels
    file_labels-IsTidy missing = tt
    file_labels-IsTidy unreadable = tt
    file_labels-IsTidy (parsed members) = normalized-IsTidy members [] tt

    labels_of-IsTidy :
        (file : LabelFile) (cache : Option Labels)
        → IsTidyCache cache
        → IsTidy (labels_of get_address file cache)
    unfolding labels_of
    labels_of-IsTidy file none t = file_labels-IsTidy file
    labels_of-IsTidy file (some l) t = t

    pub load-IsTidy : (p : LabelProc) → IsTidyCache p.cache → IsTidy (load get_address p)
    unfolding load
    load-IsTidy p t = labels_of-IsTidy p.file p.cache t

    commit-IsTidy :
        (writable : Bool) (l : Labels) (r : Option Text) (p : LabelProc)
        → IsTidy l
        → IsTidyCache (commit get_address writable l r p).1.cache
    unfolding commit
    commit-IsTidy true l r p t = t
    commit-IsTidy false l r p t = t

    clear_label-IsTidy :
        (writable : Bool) (k : Text) (o : Option Text) (p : LabelProc)
        → IsTidyCache p.cache
        → IsTidyCache (clear_label get_address writable k o p).1.cache
    unfolding clear_label
    clear_label-IsTidy writable k none p t = t
    clear_label-IsTidy writable k (some old) p t =
        commit-IsTidy writable (remove k (load get_address p)) none p
          (remove-IsTidy k (load get_address p) (load-IsTidy p t))

    change_label-IsTidy :
        (writable : Bool) (k label : Text) (p : LabelProc)
        → get_address k ≡ some k
        → IsTidyCache p.cache
        → IsTidyCache (change_label get_address writable k label p).1.cache
    unfolding change_label
    change_label-IsTidy writable k [] p n t =
        clear_label-IsTidy writable k (find k (load get_address p)) p t
    change_label-IsTidy writable k (c ∷ label) p n t =
        commit-IsTidy writable (put k (c ∷ label) (load get_address p)) (some (c ∷ label)) p
          (put-IsTidy k (c ∷ label) (load get_address p) n (load-IsTidy p t))

    set_normalized-IsTidy :
        (writable : Bool) (a : Text) (o : Option Text) (label : Text) (p : LabelProc)
        → get_address a ≡ o
        → IsTidyCache p.cache
        → IsTidyCache (set_normalized get_address writable o label p).1.cache
    unfolding set_normalized
    set_normalized-IsTidy writable a none label p e t = t
    set_normalized-IsTidy writable a (some k) label p e t =
        change_label-IsTidy writable k label p (normal a k e) t

    set_label-IsTidy :
        (writable : Bool) (a label : Text) (p : LabelProc)
        → IsTidyCache p.cache
        → IsTidyCache (set_label get_address writable a label p).1.cache
    unfolding set_label
    set_label-IsTidy writable a label p t =
        elim (Bool-cases (ltb max_label_length (length (trim label)))) [
          | inl long ↦ rw long t
          | inr short ↦ rw short (
              set_normalized-IsTidy writable a (get_address a) (trim label) (loaded get_address p)
                refl (load-IsTidy p t))
        ]

    pub run-IsTidy :
        (ops : List (Op get_address)) (p : LabelProc)
        → IsTidyCache p.cache
        → IsTidyCache (run get_address ops p).cache
    unfolding run step get_label
    run-IsTidy [] p t = t
    run-IsTidy (gets a ∷ ops) p t = run-IsTidy ops (loaded get_address p) (load-IsTidy p t)
    run-IsTidy (sets writable a label ∷ ops) p t =
        run-IsTidy ops (set_label get_address writable a label p).1
          (set_label-IsTidy writable a label p t)
