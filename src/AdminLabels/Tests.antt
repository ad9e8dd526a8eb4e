-- ===== src/AdminLabels/Tests.antt =====
-- Runs of packages/backend/src/services/admin-labels.ts.
use vpp_blockchain.Base.{
  ◌≡◌, refl, sym, true, false, Option, none, some, List, [], ◌∷◌, Text, codes, text_eq,
  to_lower_case, if◌then◌else◌, Bool-cases, inl, inr,
}
use vpp_blockchain.Base.Exec.{ok}
use vpp_blockchain.Base.Int.{is_space}
use vpp_blockchain.Base.Table.{find, put, remove}
use vpp_blockchain.Sessions.Cookie.{trim, trim_start, trim_end}
use vpp_blockchain.AdminLabels.{
  LabelFile, missing, parsed, LabelProc, new_process, put_normalized, normalized, file_labels,
  labels_of, load, answer, get_label, commit, clear_label, change_label, set_normalized, set_label,
  Op, gets, sets, step, run,
}
use vpp_blockchain.AdminLabels.Kept.{same_address}
use vpp_blockchain.AdminLabels.Rows.{
  AdminEntry, build_entries, put_label, set_checked, answered, relabel, put_label-listed,
}

-- Two addresses, in any case.
abbrev get_address : Text → Option Text
get_address a =
    if text_eq (to_lower_case a) (codes "0xa")
    then some (codes "0xA")
    else if text_eq (to_lower_case a) (codes "0xb")
    then some (codes "0xB")
    else none

get_address_twice : (a k : Text) → get_address a ≡ some k → get_address k ≡ some k
unfolding to_lower_case text_eq
get_address_twice a k h = elim (Bool-cases (text_eq (to_lower_case a) (codes "0xa"))) [
  | inl e ↦ let same : codes "0xA" ≡ k = cc (rw e at h) in rw (sym same) refl
  | inr d ↦ elim (Bool-cases (text_eq (to_lower_case a) (codes "0xb"))) [
    | inl e ↦ let same : codes "0xB" ≡ k = cc (rw (d, e) at h) in rw (sym same) refl
    | inr n ↦ absurd (cc (rw (d, n) at h))
  ]
]

-- A file with an address that is none and a label that is no text.
abbrev file : LabelFile
file = parsed (
    (codes "0xa", some (codes "Jasmin"))
    ∷ (codes "nobody", some (codes "x"))
    ∷ (codes "0xb", none)
    ∷ [])

-- The disk is full for a while.
abbrev ops : List (Op get_address)
ops = sets false (codes "0xB") (codes "Ada") ∷ gets (codes "0xa") ∷ []

abbrev before : LabelProc
before = run get_address ops (new_process file)

abbrev after : LabelProc
after = (set_label get_address true (codes "0XA") (codes " Gerrit ") before).1

sets_label :
    put_label get_address true (some (codes "0XA", codes " Gerrit ")) before
    ≡ (ok (codes "0xA", some (codes "Gerrit")), after)
unfolding put_label set_checked answered set_label set_normalized change_label clear_label commit
    get_label answer load labels_of file_labels normalized put_normalized run step trim trim_start
    trim_end find put remove text_eq to_lower_case same_address is_space
sets_label = refl

-- The list of both, the second of which is the minter.
abbrev both : Option (List AdminEntry)
both =
    build_entries get_address (codes "0xb") (load get_address before)
      (codes "0xa" ∷ codes "0xB" ∷ [])

put_label-listed_example :
    (build_entries get_address
        (codes "0xb")
        (load get_address after)
        (codes "0xa" ∷ codes "0xB" ∷ [])
      ≡ relabel (codes "0xA") (codes "Gerrit") both)
    × (build_entries get_address
          (codes "0xb")
          (load get_address (new_process after.file))
          (codes "0xa" ∷ codes "0xB" ∷ [])
        ≡ relabel (codes "0xA") (codes "Gerrit") both)
put_label-listed_example =
    put_label-listed get_address get_address_twice file ops true (codes "0XA") (codes " Gerrit ")
      (codes "0xA") (codes "Gerrit") (codes "0xb") after (codes "0xa" ∷ codes "0xB" ∷ []) sets_label

-- A process that runs beside another keeps its cache, and writes the labels of the other away.
abbrev other : LabelProc
other = record {
  file = (set_label get_address true (codes "0xA") (codes "Ann") (new_process missing)).1.file;
  cache = some [];
}

lost_label :
    (get_label get_address
      (codes "0xA")
      (new_process (set_label get_address true (codes "0xB") (codes "Bob") other).1.file)).0
    ≡ ok none
unfolding set_label set_normalized change_label clear_label commit get_label answer load labels_of
    file_labels normalized put_normalized run step trim trim_start trim_end find put remove text_eq
    to_lower_case same_address is_space
lost_label = refl
