-- ===== src/LogReader/Rounds.antt =====
-- One round of the loop of `read` in packages/backend/src/lib/log-reader.ts, and its measure.
use vpp_blockchain.Base.{
  ℕ, zero, suc, ◌+◌, ◌-◌, ◌*◌, ◌≤◌, ◌<◌, ◌≡◌, refl, ap, ◌∙◌, min, max, Option, some, List, [], ◌++◌,
  arith, ltb, leb, inl, inr, Bool-cases,
}
use vpp_blockchain.Base.Exec.{Result, ok, throw, Result-cases}
use vpp_blockchain.Errors.{ErrorValue}
use vpp_blockchain.LogReader.Span.{Valid, Same, Asked, read_once-Asked}
use vpp_blockchain.LogReader.{
  Reader, Network, ReadError, range_rejected, failed, superseded, needs_a_source, Run, read_once,
  read_from, read,
}

-- The window that the next request of `read` asks for.
abbrev pub window_end : ℕ → ℕ → Run → ℕ
window_end a b s = min (a + s.reader.span - 1) b

abbrev pub Final : ℕ → ℕ → ReadError → Type 0
Final a to (range_rejected e) = to ≤ a
Final a to e = Unit {0}

module _ {T : Type 0} (net : Network T) where
  pub read_cases {κ} :
      (P : Option (Result ReadError (List T) × Run) → Type κ) (fuel a b : ℕ) (results : List T)
      (s : Run)
      → (b < a → P (some (ok results, s)))
      → ((more : List T)
          → a ≤ b
          → (read_once net a (window_end a b s) s).0 ≡ ok more
          → P (
              read_from net fuel
                (window_end a b s + 1)
                b
                (results ++ more)
                (read_once net a (window_end a b s) s).1))
      → ((e : ErrorValue)
          → a < window_end a b s
          → (read_once net a (window_end a b s) s).0 ≡ throw (range_rejected e)
          → P (read_from net fuel a b results (read_once net a (window_end a b s) s).1))
      → ((e : ReadError)
          → a ≤ b
          → Final a (window_end a b s) e
          → (read_once net a (window_end a b s) s).0 ≡ throw e
          → P (some (throw e, (read_once net a (window_end a b s) s).1)))
      → P (read_from net (suc fuel) a b results s)
  unfolding read_from
  read_cases P fuel a b results s done more again failing = elim (Bool-cases (leb a b)) [
    | inr out ↦ rw (out, read_from) (done (ground arith))
    | inl within ↦ elim (Result-cases (read_once net a (window_end a b s) s).0) [
      | inl (xs, q) ↦ rw (within, q, read_from) (more xs (ground arith) q)
      | inr (range_rejected e, q) ↦ elim (Bool-cases (ltb a (window_end a b s))) [
        | inl wide ↦ rw (within, q, wide, read_from) (again e (ground arith) q)
        | inr single ↦
            rw (within, q, single, read_from)
              (failing (range_rejected e) (ground arith) (ground arith) q)
      ]
      | inr (failed e, q) ↦ rw (within, q, read_from) (failing (failed e) (ground arith) tt q)
      | inr (superseded, q) ↦ rw (within, q, read_from) (failing superseded (ground arith) tt q)
      | inr (needs_a_source, q) ↦
          rw (within, q, read_from) (failing needs_a_source (ground arith) tt q)
    ]
  ]

abbrev pub enough_fuel : ℕ → ℕ → Reader → ℕ
enough_fuel a b r = (b + 1 - a) * (max 1 r.options.max_span + 1) + r.span + 1

measure_drop :
    (k k' m span span' : ℕ)
    → k' + 1 ≤ k
    → span' ≤ m
    → 1 ≤ span
    → k' * (m + 1) + span' < k * (m + 1) + span
measure_drop k k' m span span' h h' p = grind arith

advance_fuel :
    (fuel a b : ℕ) (s : Run) (q : Reader)
    → Valid s.reader
    → Valid q
    → Same s.reader q
    → a ≤ b
    → enough_fuel a b s.reader ≤ suc fuel
    → enough_fuel (window_end a b s + 1) b q ≤ fuel
advance_fuel fuel a b s q v w m within h =
    let o : max 1 q.options.max_span ≡ max 1 s.reader.options.max_span =
      ap (λ x. max 1 x.max_span) m.options in
    rw o (
      omega (
        arith,
        w.bounded,
        o,
        measure_drop (b + 1 - a) (b + 1 - (window_end a b s + 1)) (max 1 s.reader.options.max_span)
            s.reader.span q.span (omega arith) (omega (arith, w.bounded, o)) v.positive,
      ))

shrink_fuel :
    (fuel a b : ℕ) (r q : Reader)
    → Same r q
    → q.span < r.span
    → enough_fuel a b r ≤ suc fuel
    → enough_fuel a b q ≤ fuel
shrink_fuel fuel a b r q m less h =
    let o : max 1 q.options.max_span ≡ max 1 r.options.max_span =
      ap (λ x. max 1 x.max_span) m.options in
    rw o (omega arith)

refused_shrinks :
    {T : Type 0} (a b : ℕ) (s : Run) (out : Result ReadError (List T) × Run) (e : ErrorValue)
    → Valid s.reader
    → a < window_end a b s
    → Asked (window_end a b s - a + 1) s.reader out
    → out.0 ≡ throw (range_rejected e)
    → out.1.reader.span < s.reader.span
refused_shrinks a b s (throw (range_rejected x), t) e v wide h q = omega (arith, h.shrunk)
refused_shrinks a b s _ e v wide h q = absurd (cc)

-- What `read` gives: an outcome, with a reader that is valid and has the same sources and options.
pub record Ends {T : Type 0} (r : Reader) (out : Option (Result ReadError (List T) × Run))
    : Type 0 where
  pub outcome : Result ReadError (List T) × Run
  pub given : out ≡ some outcome
  pub valid : Valid outcome.1.reader
  pub same : Same r outcome.1.reader

Ends-Same :
    {T : Type 0} (r q : Reader) (out : Option (Result ReadError (List T) × Run))
    → Same r q
    → Ends q out
    → Ends r out
Ends-Same r q out m h = record {
  outcome = h.outcome;
  given = h.given;
  valid = h.valid;
  same = record { count = h.same.count ∙ m.count; options = h.same.options ∙ m.options };
}

module _ {T : Type 0} (net : Network T) where
  read_from-Ends :
      (fuel a b : ℕ) (results : List T) (s : Run)
      → Valid s.reader
      → enough_fuel a b s.reader ≤ fuel
      → Ends s.reader (read_from net fuel a b results s)
  read_from-Ends zero a b results s v h = absurd (omega arith)
  read_from-Ends (suc fuel) a b results s v h =
      let n = window_end a b s - a + 1 in
      let out = read_once net a (window_end a b s) s in
      let asked = read_once-Asked net a (window_end a b s) s v in
      read_cases net (Ends s.reader) fuel a b results s
        (λ _. record {
          outcome = (ok results, s);
          given = refl;
          valid = v;
          same = record { count = refl; options = refl };
        })
        (λ more within q. Ends-Same s.reader out.1.reader _ asked.same (
          read_from-Ends fuel (window_end a b s + 1) b (results ++ more) out.1 asked.valid
            (advance_fuel fuel a b s out.1.reader v asked.valid asked.same within h)))
        (λ e wide q. Ends-Same s.reader out.1.reader _ asked.same (
          read_from-Ends fuel a b results out.1 asked.valid (
            shrink_fuel fuel a b s.reader out.1.reader asked.same
              (refused_shrinks a b s out e v wide asked q) h)))
        (λ e _ _ _. record {
          outcome = (throw e, out.1);
          given = refl;
          valid = asked.valid;
          same = asked.same;
        })

  -- From a valid reader, and with a fuel of `enough_fuel` or more, `read` ends with an outcome,
  -- whatever the sources answer, and leaves a valid reader with the same sources and options.
  pub read-Ends :
      (fuel a b : ℕ) (s : Run)
      → Valid s.reader
      → enough_fuel a b s.reader ≤ fuel
      → Ends s.reader (read net fuel a b s)
  unfolding read
  read-Ends fuel a b s v h = read_from-Ends fuel a b [] s v h
