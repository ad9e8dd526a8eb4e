-- ===== src/Cutover/Runs.antt =====
-- Runs of the script packages/contracts/scripts/finish-cutover.ts that may stop anywhere.
use vpp_blockchain.Base.{
  ℕ, zero, suc, ◌≤◌, ◌<◌, ◌≡◌, ◌≢◌, refl, ap, Bool, true, false, ◌||◌, ◌&&◌, not, some, List, [],
  ◌∷◌, arith, max, ◌==◌, ==_iff, if◌then◌else◌, length, ◌⊎◌, inl, inr,
}
use vpp_blockchain.Cutover.{
  Role, Chain, holds, grant, revoke, members, Tx, apply, Script, finished, reads, sends, run,
  ensure, withdraw, attempts, completed, stopped, Status,
}

pub holds-grant : (a b : ℕ) (xs : List ℕ) → holds b (grant a xs) ≡ (a == b || holds b xs)
unfolding holds grant
holds-grant a b xs = ground (arith, ==_iff a b, same)
  where
    same : a ≡ b → holds a xs ≡ holds b xs
    same e = ap (λ x. holds x xs) e

pub holds-revoke : (a b : ℕ) (xs : List ℕ) → holds b (revoke a xs) ≡ (not (a == b) && holds b xs)
unfolding holds revoke
holds-revoke a b [] = ground arith
holds-revoke a b (x ∷ xs) = ground (arith, holds-revoke a b xs)

-- Two holders are at least two.
pub two_holders :
    (a b : ℕ) (xs : List ℕ) → a ≢ b → holds a xs ≡ true → holds b xs ≡ true → 2 ≤ length xs
unfolding holds
two_holders a b [] d h k = absurd (cc h)
two_holders a b (x ∷ []) d h k = absurd (ground (arith, d, h, k))
two_holders a b (x ∷ y ∷ xs) d h k = omega arith

-- The most transactions that a run can send.
unfoldable pub most : Script → ℕ
most finished = 0
most (reads role a next) = max (most (next true)) (most (next false))
most (sends tx next) = suc (most next)

-- No transaction reverts, `I` holds before each, and `P` at the end.
unfoldable pub Safe : ℕ → (Chain → Type 0) → (Chain → Type 0) → Script → Chain → Type 0
Safe deployer I P finished c = P c
Safe deployer I P (reads role a next) c = Safe deployer I P (next (holds a (members role c))) c
Safe deployer I P (sends tx next) c =
    I c × ((c' : Chain) × (apply deployer tx c ≡ some c') × Safe deployer I P next c')

module _ (deployer : ℕ) (I P : Chain → Type 0) where
  -- How a run ends.
  Ends : ℕ → Script → Chain × Status → Type 0
  Ends k s r = ((r.1 ≡ completed) × P r.0) ⊎ ((r.1 ≡ stopped) × I r.0 × (k < most s))

  most-reads :
      (next : Bool → Script) (role : Role) (a : ℕ) (b : Bool)
      → most (next b) ≤ most (reads role a next)
  unfolding most
  most-reads next role a true = omega arith
  most-reads next role a false = omega arith

  run-Ends :
      (k : ℕ) (s : Script) (c : Chain) → Safe deployer I P s c → Ends k s (run deployer k s c)
  unfolding run Safe Ends most
  run-Ends k finished c h = inl (refl, h)
  run-Ends k (reads role a next) c h = elim (run-Ends k (next (holds a (members role c))) c h) [
    | inl done ↦ inl done
    | inr half ↦
        inr
          (half.0, half.1, omega (arith, half.2, most-reads next role a (holds a (members role c))))
  ]
  run-Ends zero (sends tx next) c h = inr (refl, h.0, omega arith)
  run-Ends (suc k) (sends tx next) c h =
      let (c', applied, safe) = h.1 in
      rw (applied, run)
        (elim (run-Ends k next c' safe) [
          | inl done ↦ inl done
          | inr half ↦ inr (half.0, half.1, omega (arith, half.2))
        ])

  attempts-Safe :
      (s : Script)
      → ((c : Chain) → I c → Safe deployer I P s c)
      → ((c : Chain) → P c → I c)
      → (ks : List ℕ) (c : Chain) → I c
      → I (attempts deployer s ks c)
  unfolding attempts Ends
  attempts-Safe s starts kept [] c i = i
  attempts-Safe s starts kept (k ∷ ks) c i =
      attempts-Safe s starts kept ks (run deployer k s c).0 (elim (run-Ends k s c (starts c i)) [
        | inl done ↦ kept (run deployer k s c).0 done.1
        | inr half ↦ half.1
      ])

  pub sends-Safe :
      (tx : Tx) (next : Script) (c d : Chain)
      → I c
      → apply deployer tx c ≡ some d
      → Safe deployer I P next d
      → Safe deployer I P (sends tx next) c
  unfolding Safe
  sends-Safe tx next c d i e s = (i, (d, e, s))

  pub ensure-Safe :
      (role : Role) (a : ℕ) (tx : Tx) (next : Script) (c : Chain)
      → (holds a (members role c) ≡ true → Safe deployer I P next c)
      → (holds a (members role c) ≡ false → Safe deployer I P (sends tx next) c)
      → Safe deployer I P (ensure role a tx next) c
  unfolding Safe
  ensure-Safe role a tx next c held lacking = go (holds a (members role c)) refl
    where
      go :
          (b : Bool)
          → holds a (members role c) ≡ b
          → Safe deployer I P (if b then next else sends tx next) c
      go true e = held e
      go false e = lacking e

  pub withdraw-Safe :
      (role : Role) (a : ℕ) (tx : Tx) (next : Script) (c : Chain)
      → (holds a (members role c) ≡ true → Safe deployer I P (sends tx next) c)
      → (holds a (members role c) ≡ false → Safe deployer I P next c)
      → Safe deployer I P (withdraw role a tx next) c
  unfolding Safe
  withdraw-Safe role a tx next c held lacking = go (holds a (members role c)) refl
    where
      go :
          (b : Bool)
          → holds a (members role c) ≡ b
          → Safe deployer I P (if b then sends tx next else next) c
      go true e = held e
      go false e = lacking e

  -- After any stopped runs one with enough transactions ends as it should.
  pub attempts-Ends :
      (s : Script)
      → ((c : Chain) → I c → Safe deployer I P s c)
      → ((c : Chain) → P c → I c)
      → (ks : List ℕ) (k : ℕ) (c : Chain) → I c
      → most s ≤ k
      → let r = run deployer k s (attempts deployer s ks c) in (r.1 ≡ completed) × P r.0
  unfolding Ends
  attempts-Ends s starts kept ks k c i enough =
      elim (run-Ends k s (attempts deployer s ks c)
        (starts (attempts deployer s ks c) (attempts-Safe s starts kept ks c i))) [
          | inl done ↦ done
          | inr half ↦ absurd (omega (arith, half.2, enough))
        ]
