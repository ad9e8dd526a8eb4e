-- ===== src/BrowserReads/Tests.antt =====
-- Runs of packages/frontend/src/hooks/use-blockchain.ts.
use vpp_blockchain.Base.{
  ℕ, ◌≡◌, ◌≢◌, refl, some, List, [], ◌∷◌, ◌++◌, arith, ◌==◌, if◌then◌else◌, Text, codes, Bool-cases,
  inl, inr,
}
use vpp_blockchain.Base.Exec.{throw}
use vpp_blockchain.BrowserReads.{
  Outcome, answers, reverts, fails, asking, settled, Event, calls, settles, step, run, new_page,
}
use vpp_blockchain.BrowserReads.Turns.{HasValue, alone, read-HasValue}

-- Only the second RPC of the list works.
abbrev rpc : ℕ → Outcome
rpc i = if i == 1 then answers (codes "7") else fails (codes "down")

never_reverts : (j : ℕ) (e : Text) → rpc j ≢ reverts e
never_reverts j e h = elim (Bool-cases (j == 1)) [
  | inl one ↦ absurd (cc (rw one at h))
  | inr other ↦ absurd (cc (rw other at h))
]

-- The first read finds the first of three down, and the second read starts with the one that answered.
abbrev first_read : List Event
first_read = calls 0 ∷ settles 0 (rpc 0) ∷ settles 0 (rpc 1) ∷ []

starts_there : (run (new_page 3) (first_read ++ calls 1 ∷ [])).phases 1 ≡ asking 0 1
unfolding run
starts_there = refl

read-HasValue_example :
    HasValue rpc 5 (alone rpc 5 3 (step (run (new_page 3) first_read) (calls 5)))
unfolding run
read-HasValue_example =
    read-HasValue 3 first_read rpc 5 1 (codes "7") refl (omega arith) refl never_reverts

-- Another read ends in between: with two RPCs, the first of which is down, read 0 asks the first one twice
-- and fails, although the second one works.
abbrev two_reads : List Event
two_reads = calls 0 ∷ calls 1 ∷ settles 1 (rpc 0) ∷ settles 1 (rpc 1) ∷ settles 0 (rpc 0) ∷ []

asks_again : (run (new_page 2) two_reads).phases 0 ≡ asking 1 0
unfolding run
asks_again = refl

gives_up :
    (run (new_page 2) (two_reads ++ settles 0 (rpc 0) ∷ [])).phases 0
    ≡ settled (throw (some (codes "down")))
unfolding run
gives_up = refl
