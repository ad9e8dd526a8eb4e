-- ===== src/LogReader/Failover.antt =====
-- A request of packages/backend/src/lib/log-reader.ts when one of the sources answers.
use vpp_blockchain.Base.{
  ℕ, zero, suc, ◌+◌, ◌-◌, ◌%◌, ◌≤◌, ◌<◌, ◌≡◌, sym, ◌∙◌, Bool, false, ◌||◌, List, arith,
}
use mathlib.Core.Bool.{false≢true}
use native.Mathlib.Nat.{add-mod-mod, add-mod_right, mod-eq_of_lt}
use native.Mathlib.Decide.{ℕ_discrete}
use vpp_blockchain.Base.Exec.{Result, ok, throw}
use vpp_blockchain.Errors.{ErrorValue, nothing}
use vpp_blockchain.Errors.Range.{is_range_rejection}
use vpp_blockchain.LogReader.Span.{Valid, ask_cases}
use vpp_blockchain.LogReader.{Network, ReadError, Run, ask, read_once}

pub record Answers {T : Type 0} (net : Network T) (i a b : ℕ) : Type 0 where
  pub always : (n : ℕ) → (xs : List T) × (net.query n i a b ≡ ok xs)

abbrev pub Succeeds : {T : Type 0} → Result ReadError (List T) → Type 0
Succeeds (ok xs) = Unit {0}
Succeeds (throw e) = ⊥

pub offset_hits : (p i c : ℕ) → i < c → p < c → (p + (i + c - p) % c) % c ≡ i
offset_hits p i c h k =
    let whole : p + (i + c - p) ≡ i + c = omega arith in
    rw (add-mod-mod, whole, add-mod_right) (mod-eq_of_lt h)

module _ {T : Type 0} (net : Network T) (running : (n : ℕ) → net.should_stop n ≡ false) where
  ask-Succeeds :
      (left attempt d i a b : ℕ) (last : ErrorValue) (refused : Bool) (s : Run)
      → attempt + left ≡ s.reader.source_count
      → attempt ≤ d
      → d < s.reader.source_count
      → (s.reader.preferred + d) % s.reader.source_count ≡ i
      → Answers net i a b
      → Succeeds (ask net left attempt a b last refused s).0
  ask-Succeeds zero attempt d i a b last refused s total le lt hit ans = absurd (omega arith)
  ask-Succeeds (suc left) attempt d i a b last refused s total le lt hit ans =
      ask_cases net (λ r. Succeeds r.0) left attempt a b last refused s
        (λ t. absurd (false≢true (sym (running s.requests) ∙ t))) (λ xs q. tt)
        (λ err q. elim (ℕ_discrete attempt d) [
          | yes same ↦ let (xs, e) = ans.always s.requests in absurd (cc)
          | no other ↦
              ask-Succeeds left (attempt + 1) d i a b err (is_range_rejection err || refused)
                (record s { requests = s.requests + 1 }) (omega arith) (omega arith) lt hit ans
        ])

  -- For a valid reader that is never told to stop, and a request during which no other one ends: if one
  -- of its sources answers the range whenever it is asked, the request succeeds, whatever the other
  -- sources do.
  pub read_once-Succeeds :
      (i a b : ℕ) (s : Run)
      → Valid s.reader
      → i < s.reader.source_count
      → Answers net i a b
      → Succeeds (read_once net a b s).0
  unfolding read_once
  read_once-Succeeds i a b s v lt ans =
      ask-Succeeds s.reader.source_count 0
        ((i + s.reader.source_count - s.reader.preferred) % s.reader.source_count) i a b nothing
        false s (omega arith) (omega arith) (grind (arith, v.sources))
        (offset_hits s.reader.preferred i s.reader.source_count lt v.preferred) ans
