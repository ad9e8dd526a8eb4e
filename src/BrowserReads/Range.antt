-- ===== src/BrowserReads/Range.antt =====
-- The places of the RPCs in packages/frontend/src/hooks/use-blockchain.ts.
use vpp_blockchain.Base.{
  ℕ, suc, ◌+◌, ◌%◌, ◌<◌, ◌≡◌, refl, Option, none, some, List, [], ◌∷◌, ◌==◌, ltb, Text, Bool-cases,
  inl, inr,
}
use native.Mathlib.Nat.{mod-lt}
use vpp_blockchain.Base.Exec.{ok, throw}
use vpp_blockchain.BrowserReads.{
  Outcome, answers, reverts, fails, Phase, unread, asking, settled, Reads, Event, calls, settles,
  put_phase, attempt_at, call, settle, step, run, new_page,
}

-- Every RPC that is asked, now or first by the next read, is one of the list.
pub record InRange (count : ℕ) (s : Reads) : Type 0 where
  pub counted : s.count ≡ count
  pub preferred : s.preferred < count
  pub asked : (id attempt index : ℕ) → s.phases id ≡ asking attempt index → index < count

module _ (count : ℕ) (some_rpc : 0 < count) where
  put-InRange :
      (id : ℕ) (phase : Phase) (s : Reads)
      → ((attempt index : ℕ) → phase ≡ asking attempt index → index < count)
      → InRange count s
      → InRange count (put_phase id phase s)
  put-InRange id phase s own v = record {
    counted = v.counted;
    preferred = v.preferred;
    asked = λ j attempt index h. elim (Bool-cases (j == id)) [
      | inl e ↦ own attempt index (rw e at h)
      | inr d ↦ v.asked j attempt index (rw d at h)
    ];
  }

  attempt_at-InRange :
      (id attempt : ℕ) (last : Option Text) (s : Reads)
      → InRange count s
      → InRange count (attempt_at id attempt last s)
  unfolding attempt_at
  attempt_at-InRange id attempt last s v = elim (Bool-cases (ltb attempt s.count)) [
    | inl e ↦ rw e (
        put-InRange id (asking attempt ((s.preferred + attempt) % s.count)) s
          (λ a index h.
            let same : index ≡ (s.preferred + attempt) % s.count = cc in
            let below : (s.preferred + attempt) % count < count =
              mod-lt (s.preferred + attempt) some_rpc in
            rw (same, v.counted) below)
          v)
    | inr d ↦ rw d (put-InRange id (settled (throw last)) s (λ a index h. absurd (cc h)) v)
  ]

  settle-InRange :
      (id : ℕ) (o : Outcome) (phase : Phase) (s : Reads)
      → s.phases id ≡ phase
      → InRange count s
      → InRange count (settle id o phase s)
  unfolding settle
  settle-InRange id (answers w) (asking attempt index) s e v =
      put-InRange id (settled (ok w)) (record s { preferred = index }) (λ a i h. absurd (cc h))
        (record { counted = v.counted; preferred = v.asked id attempt index e; asked = v.asked })
  settle-InRange id (reverts w) (asking attempt index) s e v =
      put-InRange id (settled (throw (some w))) s (λ a i h. absurd (cc h)) v
  settle-InRange id (fails w) (asking attempt index) s e v =
      attempt_at-InRange id (suc attempt) (some w) s v
  settle-InRange id (answers w) unread s e v = v
  settle-InRange id (reverts w) unread s e v = v
  settle-InRange id (fails w) unread s e v = v
  settle-InRange id (answers w) (settled r) s e v = v
  settle-InRange id (reverts w) (settled r) s e v = v
  settle-InRange id (fails w) (settled r) s e v = v

  call-InRange :
      (id : ℕ) (phase : Phase) (s : Reads) → InRange count s → InRange count (call id phase s)
  unfolding call
  call-InRange id unread s v = attempt_at-InRange id 0 none s v
  call-InRange id (asking a i) s v = v
  call-InRange id (settled r) s v = v

  pub run-InRange :
      (s : Reads) (events : List Event) → InRange count s → InRange count (run s events)
  unfolding run step
  run-InRange s [] v = v
  run-InRange s (calls id ∷ events) v =
      run-InRange (step s (calls id)) events (call-InRange id (s.phases id) s v)
  run-InRange s (settles id o ∷ events) v =
      run-InRange (step s (settles id o)) events (settle-InRange id o (s.phases id) s refl v)

  pub new_page-InRange : InRange count (new_page count)
  new_page-InRange = record {
    counted = refl;
    preferred = some_rpc;
    asked = λ id a i h. absurd (cc h);
  }
