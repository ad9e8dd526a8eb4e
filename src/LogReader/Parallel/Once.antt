-- ===== src/LogReader/Parallel/Once.antt =====
-- The span of the reader of packages/backend/src/lib/log-reader.ts under requests at the same time.
use vpp_blockchain.Base.{
  ℕ, ◌+◌, ◌/◌, ◌%◌, ◌≤◌, ◌<◌, ◌≡◌, refl, min, max, Bool, true, false, ◌||◌, List, [], ◌∷◌, arith,
  ltb, ◌==◌, if◌then◌else◌, Bool-cases, inl, inr,
}
use native.Mathlib.Nat.{mod-lt}
use vpp_blockchain.Base.Exec.{ok, throw}
use vpp_blockchain.Errors.{ErrorValue, nothing}
use vpp_blockchain.Errors.Range.{is_range_rejection}
use vpp_blockchain.LogReader.{Reader, superseded, range_rejected, failed, record_success, shrink}
use vpp_blockchain.LogReader.Span.{Valid, record_success-Valid, shrink-Valid}
use vpp_blockchain.LogReader.Parallel.{
  Answer, answers, throws, Phase, unasked, asking, ended, Requests, Event, calls, settles,
  put_phase, give_up, next_attempt, settle, call, step, run, new_requests,
}

-- Every call asks for at least `n` blocks.
abbrev pub AreLarge : ℕ → List Event → Type 0
AreLarge n [] = Unit {0}
AreLarge n (calls id requested stop ∷ events) = (n ≤ requested) × AreLarge n events
AreLarge n (settles id reply stop ∷ events) = AreLarge n events

-- The span that one refusal of `n` blocks leaves.
abbrev pub shrunk_once : ℕ → Reader → ℕ
shrunk_once n r = max 1 (min r.span (n / 2))

record_success-le : (n : ℕ) (r : Reader) → r.span ≤ (record_success n r).span
unfolding record_success
record_success-le n r = ground arith

shrink-le :
    (floor n requested : ℕ) (r : Reader)
    → floor ≤ r.span
    → floor ≤ max 1 (n / 2)
    → n ≤ requested
    → floor ≤ (shrink requested r).span
unfolding shrink
shrink-le floor n requested r low half large = omega arith

-- What holds of the reader and of each request in progress.
record Kept (floor n : ℕ) (s : Requests) : Type 0 where
  valid : Valid s.reader
  low : floor ≤ s.reader.span
  asked :
      (id requested attempt index : ℕ) (refused : Bool)
      → s.phases id ≡ asking requested attempt index refused
      → (n ≤ requested) × (index < s.reader.source_count)

module _ (floor n : ℕ) (half : floor ≤ max 1 (n / 2)) where
  put-Kept :
      (id : ℕ) (phase : Phase) (r : Reader) (s : Requests)
      → Valid r
      → floor ≤ r.span
      → r.source_count ≡ s.reader.source_count
      → ((requested attempt index : ℕ) (refused : Bool)
          → phase ≡ asking requested attempt index refused
          → (n ≤ requested) × (index < r.source_count))
      → Kept floor n s
      → Kept floor n (put_phase id phase (record s { reader = r }))
  put-Kept id phase r s v low same own k = record {
    valid = v;
    low = low;
    asked = λ j requested attempt index refused h. elim (Bool-cases (j == id)) [
      | inl e ↦ own requested attempt index refused (rw e at h)
      | inr d ↦
          let old = k.asked j requested attempt index refused (rw d at h) in
          (old.0, omega (arith, old.1, same))
    ];
  }

  give_up-Kept :
      (id requested : ℕ) (last : ErrorValue) (refused : Bool) (s : Requests)
      → n ≤ requested
      → Kept floor n s
      → Kept floor n (give_up id requested last refused s)
  unfolding give_up
  give_up-Kept id requested last true s large k =
      let (v, same) = shrink-Valid requested s.reader k.valid in
      put-Kept id (ended (throw (range_rejected last))) (shrink requested s.reader) s v
        (shrink-le floor n requested s.reader k.low half large) same.count
        (λ r a i f h. absurd (cc h)) k
  give_up-Kept id requested last false s large k =
      put-Kept id (ended (throw (failed last))) s.reader s k.valid k.low refl
        (λ r a i f h. absurd (cc h)) k

  next_attempt-Kept :
      (id requested attempt : ℕ) (last : ErrorValue) (refused stop : Bool) (s : Requests)
      → n ≤ requested
      → Kept floor n s
      → Kept floor n (next_attempt id requested attempt last refused stop s)
  unfolding next_attempt
  next_attempt-Kept id requested attempt last refused stop s large k =
      elim (Bool-cases (ltb attempt s.reader.source_count)) [
        | inl more ↦ rw more (begun stop)
        | inr none_left ↦ rw none_left (give_up-Kept id requested last refused s large k)
      ]
    where
      begun :
          (b : Bool)
          → Kept floor n (
              if b
              then put_phase id (ended (throw superseded)) s
              else put_phase id
                  (asking requested attempt
                    ((s.reader.preferred + attempt) % s.reader.source_count)
                    refused)
                  s)
      begun true =
          put-Kept id (ended (throw superseded)) s.reader s k.valid k.low refl
            (λ r a i f h. absurd (cc h)) k
      begun false =
          put-Kept id
            (asking requested attempt ((s.reader.preferred + attempt) % s.reader.source_count)
              refused)
            s.reader s k.valid k.low refl
            (λ r a i f h.
              let blocks : requested ≡ r = cc in
              let place : (s.reader.preferred + attempt) % s.reader.source_count ≡ i = cc in
              let below : (s.reader.preferred + attempt) % s.reader.source_count
                  < s.reader.source_count =
                mod-lt (s.reader.preferred + attempt) k.valid.sources in
              (omega (arith, blocks, large), omega (arith, place, below)))
            k

  settle-Kept :
      (id : ℕ) (reply : Answer) (stop : Bool) (phase : Phase) (s : Requests)
      → s.phases id ≡ phase
      → Kept floor n s
      → Kept floor n (settle id reply stop phase s)
  unfolding settle
  settle-Kept id answers stop (asking requested attempt index refused) s e k =
      let moved : Reader = record s.reader { preferred = index } in
      let v : Valid moved = record {
        positive = k.valid.positive;
        bounded = k.valid.bounded;
        sources = k.valid.sources;
        preferred = (k.asked id requested attempt index refused e).1;
      } in
      let (w, same) = record_success-Valid requested moved v in
      put-Kept id (ended (ok tt)) (record_success requested moved) s w
        (omega (arith, k.low, record_success-le requested moved)) same.count
        (λ r a i f h. absurd (cc h)) k
  settle-Kept id (throws err) stop (asking requested attempt index refused) s e k =
      next_attempt-Kept id requested (attempt + 1) err (is_range_rejection err || refused) stop s
        (k.asked id requested attempt index refused e).0 k
  settle-Kept id answers stop unasked s e k = k
  settle-Kept id (throws err) stop unasked s e k = k
  settle-Kept id answers stop (ended r) s e k = k
  settle-Kept id (throws err) stop (ended r) s e k = k

  call-Kept :
      (id requested : ℕ) (stop : Bool) (phase : Phase) (s : Requests)
      → n ≤ requested
      → Kept floor n s
      → Kept floor n (call id requested stop phase s)
  unfolding call
  call-Kept id requested stop unasked s large k =
      next_attempt-Kept id requested 0 nothing false stop s large k
  call-Kept id requested stop (asking r a i f) s large k = k
  call-Kept id requested stop (ended r) s large k = k

  run-Kept :
      (s : Requests) (events : List Event)
      → AreLarge n events
      → Kept floor n s
      → Kept floor n (run s events)
  unfolding run step
  run-Kept s [] large k = k
  run-Kept s (calls id requested stop ∷ events) large k =
      run-Kept (step s (calls id requested stop)) events large.1
        (call-Kept id requested stop (s.phases id) s large.0 k)
  run-Kept s (settles id reply stop ∷ events) large k =
      run-Kept (step s (settles id reply stop)) events large
        (settle-Kept id reply stop (s.phases id) s refl k)

-- However many requests run at the same time, in whatever order their sources answer, refuse and fail:
-- if each asks for at least `n` blocks, the span is never smaller than after one refusal of `n` blocks;
-- and the reader stays valid, so its span is at most its largest one and every source asked is there.
pub run_shrinks_once :
    (n : ℕ) (reader : Reader) (events : List Event)
    → Valid reader
    → AreLarge n events
    → let after = (run (new_requests reader) events).reader in
      (shrunk_once n reader ≤ after.span) × Valid after
run_shrinks_once n reader events v large =
    let floor = shrunk_once n reader in
    let k : Kept floor n (new_requests reader) = record {
      valid = v;
      low = omega (arith, v.positive);
      asked = λ id r a i f h. absurd (cc h);
    } in
    let after = run-Kept floor n (omega arith) (new_requests reader) events large k in
    (after.low, after.valid)
