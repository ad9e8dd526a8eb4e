-- ===== src/SurveyKeys/Tests.antt =====
-- Concrete runs of the key store.
use vpp_blockchain.Base.{◌≡◌, refl, arith, true, none, text_eq, show_nat, codes}
use vpp_blockchain.Base.Exec.{ok}
use vpp_blockchain.Base.Table.{find, put}
use vpp_blockchain.SurveyKeys.{
  SurveyKeyRecord, KeyProc, create_key, rotate_key, delete_key, look_up, create_locked,
  rotate_locked, delete_locked, on_key, to_key, with_key_lock, load, reload, file_keys, commit,
  key_file_version,
}
use vpp_blockchain.NonceStore.{same_version}
use vpp_blockchain.SurveyKeys.Visible.{reader, delete_key-look_up}

abbrev start : KeyProc
start = record {
  disk = record { file = none; stamp = 4; writable = true };
  cache = none;
  cache_version = none;
}

abbrev first : SurveyKeyRecord
first = record { key = codes "first"; created_at = 10 }

abbrev second : SurveyKeyRecord
second = record { key = codes "second"; created_at = 20 }

made : (create_key true 7 first start).0 ≡ ok (codes "first")
unfolding create_key on_key to_key with_key_lock create_locked load reload file_keys find commit
made = refl

abbrev owner : KeyProc
owner = (create_key true 7 first start).1

replaced : (rotate_key true 7 second owner).0 ≡ ok (codes "second")
unfolding create_key rotate_key on_key to_key with_key_lock create_locked rotate_locked load reload
    file_keys find put commit key_file_version show_nat text_eq same_version
replaced = refl

removed : (delete_key true 7 owner).0 ≡ ok true
unfolding create_key delete_key on_key to_key with_key_lock create_locked delete_locked load reload
    file_keys find put commit key_file_version show_nat text_eq same_version
removed = refl

delete_key-look_up_example :
    ((look_up 7 (delete_key true 7 owner).1).0 ≡ ok none)
    × ((look_up 7 (reader (delete_key true 7 owner).1.disk none none)).0 ≡ ok none)
delete_key-look_up_example =
    delete_key-look_up true 7 7 owner none none removed tt (λ e. absurd (omega arith))
