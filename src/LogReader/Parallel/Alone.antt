-- ===== src/LogReader/Parallel/Alone.antt =====
-- A request of packages/backend/src/lib/log-reader.ts that runs alone, step by step and as one call.
use vpp_blockchain.Base.{
  ℕ, zero, suc, ◌+◌, ◌-◌, ◌%◌, ◌<◌, ◌≡◌, refl, sym, subst, Bool, true, false, ◌||◌, List, arith,
  ltb, ==_iff, if◌then◌else◌, Bool-cases, inl, inr,
}
use vpp_blockchain.Base.Exec.{Result, ok, throw, Result-cases}
use vpp_blockchain.Errors.{ErrorValue, nothing}
use vpp_blockchain.Errors.Range.{is_range_rejection}
use vpp_blockchain.LogReader.{
  Reader, Network, Run, ReadError, superseded, range_rejected, failed, record_success, shrink, ask,
  read_once,
}
use vpp_blockchain.LogReader.Parallel.{
  Answer, answers, throws, Phase, asking, ended, Requests, calls, settles, put_phase, give_up,
  next_attempt, settle, call, step, new_requests,
}

-- What becomes of a result when its logs are left out.
abbrev pub outcome : {T : Type 0} → Result ReadError (List T) → Result ReadError (Unit {0})
outcome (ok results) = ok tt
outcome (throw e) = throw e

abbrev pub reply_of : {T : Type 0} → Result ErrorValue (List T) → Answer
reply_of (ok results) = answers
reply_of (throw err) = throws err

module _ {T : Type 0} (net : Network T) (id from_block to_block : ℕ) where
  -- The attempt that the request waits for is the `k`-th one of the network.
  serve : ℕ → Phase → Requests → Requests
  serve k (asking requested attempt index refused) s =
      step s
        (settles id (reply_of (net.query k index from_block to_block)) (net.should_stop (k + 1)))
  serve k _ s = s

  -- A request whose every attempt is settled by what the network answers.
  pub drive : (left k : ℕ) → Requests → Requests
  unfolding serve
  drive zero k s = s
  drive (suc left) k s = drive left (k + 1) (serve k (s.phases id) s)

  put_own : (phase : Phase) (s : Requests) → (put_phase id phase s).phases id ≡ phase
  put_own phase s = ground (arith, (==_iff id id).1 refl)

  drive-ended :
      (left k : ℕ) (s : Requests) (r : Result ReadError (Unit {0}))
      → s.phases id ≡ ended r
      → drive left k s ≡ s
  unfolding drive
  drive-ended zero k s r e = refl
  drive-ended (suc left) k s r e = rw (e, serve) (drive-ended left (k + 1) s r e)

  -- The state of the reader and the result, as those of a call of `ask`.
  Agrees : Requests → Result ReadError (List T) × Run → Type 0
  Agrees s out = (s.reader ≡ out.1.reader) × (s.phases id ≡ ended (outcome out.0))

  ended-Agrees :
      (left k : ℕ) (s : Requests) (out : Result ReadError (List T) × Run)
      → Agrees s out
      → Agrees (drive left k s) out
  unfolding Agrees
  ended-Agrees left k s out h = rw (drive-ended left k s (outcome out.0) h.1) h

  blocks : ℕ
  blocks = to_block - from_block + 1

  drive-asking :
      (left k requested attempt index : ℕ) (refused : Bool) (t : Requests)
      → t.phases id ≡ asking requested attempt index refused
      → drive (suc left) k t
        ≡ drive left (k + 1) (
            settle id
              (reply_of (net.query k index from_block to_block))
              (net.should_stop (k + 1))
              (asking requested attempt index refused)
              t)
  unfolding drive serve step
  drive-asking left k requested attempt index refused t here = rw (here, serve, here) refl

  asked : ℕ → Bool → Requests → Requests
  asked attempt refused s =
      put_phase id
        (asking blocks attempt ((s.reader.preferred + attempt) % s.reader.source_count) refused) s

  -- After the attempt that starts now, where `again` is what holds after its failure.
  asked-Agrees :
      (left attempt k : ℕ) (last : ErrorValue) (refused : Bool) (s : Requests)
      → net.should_stop k ≡ false
      → ((err : ErrorValue)
          → Agrees
              (drive left (k + 1) (
                next_attempt id blocks
                  (attempt + 1)
                  err
                  (is_range_rejection err || refused)
                  (net.should_stop (k + 1))
                  (asked attempt refused s)))
              (ask net left
                (attempt + 1)
                from_block
                to_block
                err
                (is_range_rejection err || refused)
                (record { reader = s.reader; requests = k + 1 })))
      → Agrees (drive (suc left) k (asked attempt refused s)) (
          ask net
            (suc left)
            attempt
            from_block
            to_block
            last
            refused
            (record { reader = s.reader; requests = k }))
  unfolding Agrees ask settle blocks asked
  asked-Agrees left attempt k last refused s going again =
      let index = (s.reader.preferred + attempt) % s.reader.source_count in
      let t = asked attempt refused s in
      rw
        (drive-asking left k blocks attempt index refused t
          (put_own (asking blocks attempt index refused) s))
        (elim (Result-cases (net.query k index from_block to_block)) [
          | inl (results, q) ↦
              rw (going, q, ask)
                (ended-Agrees left (k + 1)
                  (put_phase id (ended (ok tt)) (record t {
                    reader = record_success blocks (record s.reader { preferred = index });
                  }))
                  (
                    ok results,
                    record {
                      reader = record_success blocks (record s.reader { preferred = index });
                      requests = k + 1;
                    },
                  )
                  (
                    refl,
                    put_own (ended (ok tt)) (record t {
                      reader = record_success blocks (record s.reader { preferred = index });
                    }),
                  ))
          | inr (err, q) ↦ rw (going, q, ask) (again err)
        ])

  -- No source is left.
  last-Agrees :
      (attempt k : ℕ) (last : ErrorValue) (refused : Bool) (s : Requests)
      → attempt ≡ s.reader.source_count
      → Agrees (next_attempt id blocks attempt last refused (net.should_stop k) s) (
          ask net 0 attempt from_block to_block last refused
            (record { reader = s.reader; requests = k }))
  unfolding Agrees next_attempt give_up ask blocks
  last-Agrees attempt k last true s total =
      let over : ltb attempt s.reader.source_count ≡ false = ground (arith, total) in
      rw over (
        refl,
        put_own (ended (throw (range_rejected last)))
            (record s { reader = shrink blocks s.reader }),
      )
  last-Agrees attempt k last false s total =
      let over : ltb attempt s.reader.source_count ≡ false = ground (arith, total) in
      rw over (refl, put_own (ended (throw (failed last))) s)

  stopped-Agrees :
      (left attempt k : ℕ) (last : ErrorValue) (refused : Bool) (s : Requests)
      → net.should_stop k ≡ true
      → Agrees (drive (suc left) k (put_phase id (ended (throw superseded)) s)) (
          ask net
            (suc left)
            attempt
            from_block
            to_block
            last
            refused
            (record { reader = s.reader; requests = k }))
  unfolding Agrees ask
  stopped-Agrees left attempt k last refused s t =
      rw (t, ask)
        (ended-Agrees (suc left) k (put_phase id (ended (throw superseded)) s)
          (throw superseded, record { reader = s.reader; requests = k })
          (refl, put_own (ended (throw superseded)) s))

  abbrev begun : ℕ → Bool → Requests → Bool → Requests
  begun attempt refused s stop =
      if stop then put_phase id (ended (throw superseded)) s else asked attempt refused s

  next_stopped :
      (attempt : ℕ) (last : ErrorValue) (refused stop : Bool) (s : Requests)
      → attempt < s.reader.source_count
      → next_attempt id blocks attempt last refused stop s ≡ begun attempt refused s stop
  unfolding next_attempt asked
  next_stopped attempt last refused stop s more =
      let going : ltb attempt s.reader.source_count ≡ true = ground (arith, more) in rw going refl

  -- Before an attempt
  next-Agrees :
      (left attempt k : ℕ) (last : ErrorValue) (refused : Bool) (s : Requests)
      → attempt + left ≡ s.reader.source_count
      → Agrees (drive left k (next_attempt id blocks attempt last refused (net.should_stop k) s)) (
          ask net left attempt from_block to_block last refused
            (record { reader = s.reader; requests = k }))
  unfolding drive asked
  next-Agrees zero attempt k last refused s total =
      last-Agrees attempt k last refused s (omega (arith, total))
  next-Agrees (suc left) attempt k last refused s total =
      let out =
        ask net (suc left) attempt from_block to_block last refused
          (record { reader = s.reader; requests = k }) in
      let next = next_stopped attempt last refused (net.should_stop k) s (omega (arith, total)) in
      subst (λ t. Agrees (drive (suc left) k t) out) (sym next)
        (elim (Bool-cases (net.should_stop k)) [
          | inl t ↦
              subst (λ b. Agrees (drive (suc left) k (begun attempt refused s b)) out) (sym t)
                (stopped-Agrees left attempt k last refused s t)
          | inr f ↦
              subst (λ b. Agrees (drive (suc left) k (begun attempt refused s b)) out) (sym f)
                (asked-Agrees left attempt k last refused s f (λ err.
                  next-Agrees left (attempt + 1) (k + 1) err (is_range_rejection err || refused)
                    (asked attempt refused s) (same (omega (arith, total)))))
        ])
    where
      same :
          attempt + 1 + left ≡ s.reader.source_count
          → attempt + 1 + left ≡ (asked attempt refused s).reader.source_count
      same e = e

-- A request that runs alone, from any state of the reader: one step at a time and as one call of `read_once`
-- it has the same result, its logs left out, and leaves the same reader.
pub alone-read_once :
    {T : Type 0} (net : Network T) (id from_block to_block k : ℕ) (reader : Reader)
    → let s =
        drive net id from_block to_block reader.source_count k
          (step (new_requests reader) (calls id (to_block - from_block + 1) (net.should_stop k))) in
      let out = read_once net from_block to_block (record { reader = reader; requests = k }) in
      (s.reader ≡ out.1.reader) × (s.phases id ≡ ended (outcome out.0))
unfolding step call read_once Agrees blocks
alone-read_once net id from_block to_block k reader =
    next-Agrees net id from_block to_block reader.source_count 0 k nothing false
      (new_requests reader) (omega arith)
