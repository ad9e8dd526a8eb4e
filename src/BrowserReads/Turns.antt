-- ===== src/BrowserReads/Turns.antt =====
-- Which RPCs a read of packages/frontend/src/hooks/use-blockchain.ts asks.
use vpp_blockchain.Base.{
  ℕ, zero, suc, ◌+◌, ◌-◌, ◌%◌, ◌≤◌, ◌<◌, ◌≡◌, ◌≢◌, refl, ap, ◌∙◌, true, Option, List, [], ◌∷◌,
  arith, ==_iff, ltb, Text,
}
use native.Mathlib.Nat.{mod-lt}
use native.Mathlib.Decide.{ℕ_discrete}
use vpp_blockchain.Base.Exec.{Result, ok}
use vpp_blockchain.LogReader.Failover.{offset_hits}
use vpp_blockchain.BrowserReads.Range.{InRange, run-InRange, new_page-InRange}
use vpp_blockchain.BrowserReads.{
  Outcome, answers, reverts, fails, Phase, unread, asking, settled, Reads, Event, calls, settles,
  put_phase, attempt_at, settle, step, run, new_page,
}

-- A read whose every attempt is settled by what the RPC that it asks answers, without another read that
-- ends in between.
abbrev pub answered_by : (ℕ → Outcome) → ℕ → Phase → List Event
answered_by rpc id (asking attempt index) = settles id (rpc index) ∷ []
answered_by rpc id _ = []

unfoldable pub alone : (ℕ → Outcome) → ℕ → ℕ → Reads → Reads
alone rpc id zero s = s
alone rpc id (suc n) s = alone rpc id n (run s (answered_by rpc id (s.phases id)))

-- The read has its value from the RPC that the next read asks first.
pub record HasValue (rpc : ℕ → Outcome) (id : ℕ) (s : Reads) : Type 0 where
  pub value : Text
  pub result : s.phases id ≡ settled (ok value)
  pub source : rpc s.preferred ≡ answers value

module _ (rpc : ℕ → Outcome) (id : ℕ) where
  settled-alone :
      (n : ℕ) (s : Reads) (r : Result (Option Text) Text)
      → s.phases id ≡ settled r
      → alone rpc id n s ≡ s
  unfolding alone run
  settled-alone zero s r e = refl
  settled-alone (suc n) s r e = rw (e, run) (settled-alone n s r e)

  put_own : (phase : Phase) (s : Reads) → (put_phase id phase s).phases id ≡ phase
  put_own phase s = ground (arith, (==_iff id id).1 refl)

  value-HasValue :
      (n : ℕ) (s : Reads) (v : Text)
      → s.phases id ≡ settled (ok v)
      → rpc s.preferred ≡ answers v
      → HasValue rpc id (alone rpc id n s)
  value-HasValue n s v e source =
      rw (settled-alone n s (ok v) e) (record { value = v; result = e; source = source })

  next : Reads → Reads
  next s = run s (answered_by rpc id (s.phases id))

  next-answers :
      (s : Reads) (attempt index : ℕ) (v : Text)
      → s.phases id ≡ asking attempt index
      → rpc index ≡ answers v
      → next s ≡ put_phase id (settled (ok v)) (record s { preferred = index })
  unfolding next run step settle
  next-answers s attempt index v here e = rw (here, here, e) refl

  next-fails :
      (s : Reads) (attempt index : ℕ) (v : Text)
      → s.phases id ≡ asking attempt index
      → rpc index ≡ fails v
      → suc attempt < s.count
      → next s ≡ put_phase id (asking (suc attempt) ((s.preferred + suc attempt) % s.count)) s
  unfolding next run step settle attempt_at
  next-fails s attempt index v here e more =
      let going : ltb (suc attempt) s.count ≡ true = ground (arith, more) in
      rw (here, here, e, going) refl

  asks :
      (n attempt d : ℕ) (s : Reads)
      → s.phases id ≡ asking attempt ((s.preferred + attempt) % s.count)
      → attempt ≤ d
      → d < s.count
      → d < attempt + n
      → (v : Text) → rpc ((s.preferred + d) % s.count) ≡ answers v
      → ((i : ℕ) (e : Text) → rpc i ≢ reverts e)
      → HasValue rpc id (alone rpc id n s)
  unfolding alone next
  asks zero attempt d s here le lt left v hit plain = absurd (omega arith)
  asks (suc n) attempt d s here le lt left v hit plain =
      let index = (s.preferred + suc attempt) % s.count in
      by_outcome (rpc ((s.preferred + attempt) % s.count)) refl (λ below.
        asks n (suc attempt) d (put_phase id (asking (suc attempt) index) s)
          (put_own (asking (suc attempt) index) s) below lt (omega (arith, left)) v hit plain)
    where
      by_outcome :
          (o : Outcome)
          → rpc ((s.preferred + attempt) % s.count) ≡ o
          → (suc attempt ≤ d
              → HasValue rpc id (
                  alone rpc id n (
                    put_phase id (asking (suc attempt) ((s.preferred + suc attempt) % s.count)) s)))
          → HasValue rpc id (alone rpc id n (next s))
      by_outcome (answers w) e later =
          let t =
            put_phase id (settled (ok w))
              (record s { preferred = (s.preferred + attempt) % s.count }) in
          rw (next-answers s attempt ((s.preferred + attempt) % s.count) w here e) (
            value-HasValue n t w
              (put_own (settled (ok w))
                (record s { preferred = (s.preferred + attempt) % s.count }))
              e)
      by_outcome (reverts w) e later = absurd (plain ((s.preferred + attempt) % s.count) w e)
      by_outcome (fails w) e later = elim (ℕ_discrete attempt d) [
        | yes same ↦ absurd (clash (ap (λ k. rpc ((s.preferred + k) % s.count)) same ∙ hit))
        | no other ↦
            rw
              (next-fails s attempt ((s.preferred + attempt) % s.count) w here e
                (omega (arith, le, other, lt)))
              (later (omega (arith, le, other)))
      ]
        where
          clash : rpc ((s.preferred + attempt) % s.count) ≡ answers v → ⊥
          clash h = cc

  begun :
      (s : Reads)
      → s.phases id ≡ unread
      → 0 < s.count
      → step s (calls id) ≡ put_phase id (asking 0 ((s.preferred + 0) % s.count)) s
  unfolding step attempt_at
  begun s here some_rpc =
      let going : ltb 0 s.count ≡ true = ground (arith, some_rpc) in rw (here, step, going) refl

-- After any reads of a page, for a read during which no other one ends: if one RPC of the list answers and
-- none reverts, then after at most as many attempts as there are RPCs the read has the value of an RPC that
-- answered, and the next read asks that one first.
pub read-HasValue :
    (count : ℕ) (events : List Event) (rpc : ℕ → Outcome) (id i : ℕ) (v : Text)
    → (run (new_page count) events).phases id ≡ unread
    → i < count
    → rpc i ≡ answers v
    → ((j : ℕ) (e : Text) → rpc j ≢ reverts e)
    → HasValue rpc id (alone rpc id count (step (run (new_page count) events) (calls id)))
read-HasValue count events rpc id i v here lt hit plain =
    let s = run (new_page count) events in
    let some_rpc : 0 < count = omega (arith, lt) in
    let r : InRange count s =
      run-InRange count some_rpc (new_page count) events (new_page-InRange count some_rpc) in
    let valid : s.preferred < s.count = rw (r.counted) r.preferred in
    let low : i < s.count = rw (r.counted) lt in
    let d = (i + s.count - s.preferred) % s.count in
    let t = put_phase id (asking 0 ((s.preferred + 0) % s.count)) s in
    let below : d < s.count = mod-lt (i + s.count - s.preferred) (omega (arith, low)) in
    let hits : rpc ((s.preferred + d) % s.count) ≡ answers v =
      rw (offset_hits s.preferred i s.count low valid) hit in
    rw (begun rpc id s here (omega (arith, low))) (
      asks rpc id count 0 d t (put_own rpc id (asking 0 ((s.preferred + 0) % s.count)) s)
        (omega arith) below (omega (arith, below, r.counted)) v hits plain)
