-- ===== src/LogReader/Coverage.antt =====
-- Which logs `read` of packages/backend/src/lib/log-reader.ts returns, for sources that answer with
-- the logs of the blocks they were asked for.
use vpp_blockchain.Base.{
  ℕ, zero, suc, ◌+◌, ◌-◌, ◌≤◌, ◌<◌, ◌≡◌, subst, ap, ◌∙◌, Bool, true, false, ◌||◌, Option, some,
  List, [], ◌++◌, arith,
}
use mathlib.Core.List.{append_assoc, append-nil}
use vpp_blockchain.Base.Exec.{Result, ok, throw}
use vpp_blockchain.Errors.{ErrorValue, nothing}
use vpp_blockchain.Errors.Range.{is_range_rejection}
use vpp_blockchain.LogReader.Rounds.{window_end, read_cases}
use vpp_blockchain.LogReader.Span.{Valid, read_once-Asked, ask_cases}
use vpp_blockchain.LogReader.{Network, ReadError, Run, ask, read_once, read_from, read}

-- The logs of `count` blocks from `from` on, where `chain` gives the logs of each block.
unfoldable pub logs : {T : Type 0} → (ℕ → List T) → ℕ → ℕ → List T
logs chain from zero = []
logs chain from (suc count) = chain from ++ logs chain (from + 1) count

-- A source answers a range with the logs of its blocks, or it throws.
pub record Honest {T : Type 0} (net : Network T) (chain : ℕ → List T) : Type 0 where
  pub answers :
      (n i a b : ℕ) (xs : List T) → net.query n i a b ≡ ok xs → xs ≡ logs chain a (b + 1 - a)

pub logs-append :
    {T : Type 0} (chain : ℕ → List T) (a m n : ℕ)
    → logs chain a m ++ logs chain (a + m) n ≡ logs chain a (m + n)
unfolding logs
logs-append chain a zero n =
    let e : a + 0 ≡ a = omega arith in rw e (let f : 0 + n ≡ n = omega arith in rw f)
logs-append chain a (suc m) n =
    let e : a + suc m ≡ a + 1 + m = omega arith in
    let f : suc m + n ≡ suc (m + n) = omega arith in
    rw (e, f) (append_assoc (chain a) _ _ ∙ ap (◌++◌ (chain a)) (logs-append chain (a + 1) m n))

collected_end :
    {T : Type 0} (chain : ℕ → List T) (a b : ℕ) (results ys : List T)
    → b < a
    → ys ≡ results
    → ys ≡ results ++ logs chain a (b + 1 - a)
unfolding logs
collected_end chain a b results ys out e =
    let none_left : b + 1 - a ≡ 0 = omega arith in rw (none_left, append-nil) e

collected_step :
    {T : Type 0} (chain : ℕ → List T) (a w b : ℕ) (results more ys : List T)
    → a ≤ w
    → w ≤ b
    → more ≡ logs chain a (w + 1 - a)
    → ys ≡ (results ++ more) ++ logs chain (w + 1) (b + 1 - (w + 1))
    → ys ≡ results ++ logs chain a (b + 1 - a)
collected_step chain a w b results more ys h h' m e =
    let next : a + (w + 1 - a) ≡ w + 1 = omega arith in
    let count : w + 1 - a + (b + 1 - (w + 1)) ≡ b + 1 - a = omega arith in
    let joined = logs-append chain a (w + 1 - a) (b + 1 - (w + 1)) in
    e ∙ append_assoc results more _ ∙ ap (◌++◌ results) (rw (← m, next, count) at joined)

module _ {T : Type 0} (net : Network T) (chain : ℕ → List T) (honest : Honest net chain) where
  abbrev Covers : ℕ → ℕ → Result ReadError (List T) → Type 0
  Covers a b (ok xs) = xs ≡ logs chain a (b + 1 - a)
  Covers a b (throw e) = Unit {0}

  ask-Covers :
      (left attempt a b : ℕ) (last : ErrorValue) (refused : Bool) (s : Run)
      → Covers a b (ask net left attempt a b last refused s).0
  unfolding ask
  ask-Covers zero attempt a b last true s = tt
  ask-Covers zero attempt a b last false s = tt
  ask-Covers (suc left) attempt a b last refused s =
      ask_cases net (λ r. Covers a b r.0) left attempt a b last refused s (λ _. tt)
        (λ xs q. honest.answers _ _ a b xs q)
        (λ err _.
          ask-Covers left (attempt + 1) a b err (is_range_rejection err || refused)
            (record s { requests = s.requests + 1 }))

  pub read_once-logs :
      (a b : ℕ) (s : Run) (xs : List T)
      → (read_once net a b s).0 ≡ ok xs
      → xs ≡ logs chain a (b + 1 - a)
  unfolding read_once
  read_once-logs a b s xs e =
      subst (Covers a b) e (ask-Covers s.reader.source_count 0 a b nothing false s)

  abbrev Collected : ℕ → ℕ → List T → Option (Result ReadError (List T) × Run) → Type 0
  Collected a b results out =
      (ys : List T) (t : Run) → out ≡ some (ok ys, t) → ys ≡ results ++ logs chain a (b + 1 - a)

  read_from-logs :
      (fuel a b : ℕ) (results : List T) (s : Run)
      → Valid s.reader
      → Collected a b results (read_from net fuel a b results s)
  read_from-logs zero a b results s v = λ ys t e. absurd (unfold read_from in cc)
  read_from-logs (suc fuel) a b results s v =
      let w = window_end a b s in
      let asked = read_once-Asked net a w s v in
      read_cases net (Collected a b results) fuel a b results s
        (λ out ys t e. collected_end chain a b results ys out (cc))
        (λ more within q ys t e.
          collected_step chain a (window_end a b s) b results more ys (omega (arith, v.positive))
            (omega arith) (read_once-logs a w s more q)
            (read_from-logs fuel (window_end a b s + 1) b (results ++ more) _ asked.valid ys t e))
        (λ x _ _. read_from-logs fuel a b results _ asked.valid) (λ x _ _ _ ys t e. absurd (cc))

  -- For a valid reader, and sources that either throw or answer with the logs of the blocks they are
  -- asked for: if `read` returns logs, they are those of exactly the requested blocks, in order.
  pub read-logs :
      (fuel a b : ℕ) (s : Run) (ys : List T) (t : Run)
      → Valid s.reader
      → read net fuel a b s ≡ some (ok ys, t)
      → ys ≡ logs chain a (b + 1 - a)
  unfolding read
  read-logs fuel a b s ys t v e = read_from-logs fuel a b [] s v ys t e
