-- ===== src/NonceStore/Tests.antt =====
-- Concrete runs of the nonce store.
use vpp_blockchain.Base.{
  ◌≡◌, ◌≢◌, refl, arith, true, false, none, some, List, [], ◌∷◌, Text, codes, text_eq, show_nat,
  has, add,
}
use vpp_blockchain.Base.{includes}
use vpp_blockchain.Base.Exec.{ok, throw}
use vpp_blockchain.NonceStore.{
  Disk, garbage, array, str, Proc, mark_used, release_nonce, is_used, get_used_count, composite_key,
  corrupt_file, mark_locked, load, mark_loaded, save, release_locked, release_loaded,
}
use vpp_blockchain.NonceStore.Replay.{
  System, on, Op, marks, releases, restarts, disk_turns, run, Valid, mark_used_once,
}
use vpp_blockchain.NonceStore.Outcomes.{corrupt_closed, mark_used-release_nonce}

abbrev empty_disk : Disk
empty_disk = record { file = none; stamp = 0; writable = true }

abbrev start : System
start = record { disk = empty_disk; caches = λ i. none }

abbrev nonce : Text
nonce = codes "0123456789abcdef"

-- Another process consumes another nonce and gives it back, fails to write, and restarts.
abbrev operations : List Op
operations =
    marks 1 true 7 (codes "x")
    ∷ releases 1 true 7 (codes "x")
    ∷ disk_turns false
    ∷ marks 0 true 8 nonce
    ∷ restarts 0
    ∷ []

start-Valid : Valid start
start-Valid = record { fresh = λ i. tt }

first_grant : (on 0 (mark_used true 7 nonce) start).0 ≡ ok true
unfolding on mark_used composite_key mark_locked load mark_loaded has save add show_nat text_eq
first_grant = refl

mark_used_once_example :
    (on 1 (mark_used true 7 nonce) (run (on 0 (mark_used true 7 nonce) start).1 operations)).0
    ≢ ok true
mark_used_once_example =
    mark_used_once start 0 1 true true 7 nonce operations start-Valid first_grant
      (tt, ((λ _ same. absurd (cc)), (tt, (tt, (tt, tt)))))

-- The process of a server that just consumed the nonce.
abbrev consumed : Proc
consumed = (mark_used true 7 nonce (record { disk = empty_disk; cache = none })).1

given_back : (release_nonce true 7 nonce consumed).0 ≡ ok tt
unfolding release_nonce release_locked release_loaded mark_used composite_key mark_locked load
    mark_loaded has save add show_nat text_eq
given_back = refl

still_writable : consumed.disk.writable ≡ true
unfolding mark_used composite_key mark_locked load mark_loaded has save add show_nat text_eq
still_writable = refl

-- The file became unreadable after the process had cached it.
abbrev corrupt : Proc
corrupt = record {
  disk = record empty_disk { file = some garbage; stamp = 2 };
  cache = some (record { used = []; version = some 1 });
}

key : composite_key 7 nonce ≡ ok (codes "7:0123456789abcdef")
unfolding composite_key show_nat
key = refl

corrupt_closed_example :
    (is_used 7 nonce corrupt ≡ (throw corrupt_file, corrupt))
    × (mark_used true 7 nonce corrupt ≡ (throw corrupt_file, corrupt))
    × (release_nonce true 7 nonce corrupt ≡ (throw corrupt_file, corrupt))
    × (get_used_count corrupt ≡ (throw corrupt_file, corrupt))
corrupt_closed_example =
    corrupt_closed 7 nonce (codes "7:0123456789abcdef") corrupt key refl (λ e. ground arith)

-- A process that has redeemed the nonce gives it back.
abbrev redeemed : Proc
redeemed = record {
  disk = record empty_disk {
    file = some (array (str (codes "7:0123456789abcdef") ∷ []));
    stamp = 3;
  };
  cache = none;
}

released_once : (release_nonce true 7 nonce redeemed).0 ≡ ok tt
unfolding release_nonce release_locked release_loaded load save has text_eq show_nat composite_key
    includes add
released_once = refl

mark_used-release_nonce_example :
    (mark_used true 7 nonce (release_nonce true 7 nonce redeemed).1).0 ≡ ok true
mark_used-release_nonce_example = mark_used-release_nonce 7 nonce redeemed refl released_once
