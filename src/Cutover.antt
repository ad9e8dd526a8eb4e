-- ===== src/Cutover.antt =====
-- packages/contracts/scripts/finish-cutover.ts: the script that hands the roles of the new contract over
-- to the production wallets, and the part of packages/contracts/contracts/SurveyPointsV2.sol that it
-- calls. An address is the number that its text spells, so the script's comparisons in lower case
-- are comparisons of numbers. The script stops where a transaction reverts, and may be stopped
-- between two transactions. What it prints is not modelled.
mod Runs
mod Stages
mod Handover
mod Tests
use vpp_blockchain.Base.{
  ℕ, suc, zero, ◌+◌, Bool, true, false, ◌&&◌, ◌||◌, not, Option, none, some, List, [], ◌∷◌, ◌++◌,
  ◌==◌, ltb, leb, if◌then◌else◌, length,
}

pub data Role : Type 0 where
  default_admin admin minter : Role

-- The holders of each role.
pub record Chain : Type 0 where
  pub default_admins : List ℕ
  pub admins : List ℕ
  pub minters : List ℕ

unfoldable pub holds : ℕ → List ℕ → Bool
holds a [] = false
holds a (x ∷ xs) = x == a || holds a xs

-- _grantRole and _revokeRole
unfoldable pub grant : ℕ → List ℕ → List ℕ
unfolding holds
grant a xs = if holds a xs then xs else a ∷ xs

unfoldable pub revoke : ℕ → List ℕ → List ℕ
revoke a [] = []
revoke a (x ∷ xs) = let rest = revoke a xs in if x == a then rest else x ∷ rest

unfoldable pub members : Role → Chain → List ℕ
members default_admin c = c.default_admins
members admin c = c.admins
members minter c = c.minters

-- The transactions of the script, all sent by the deployer.
pub data Tx : Type 0 where
  grant_default_admin add_admin grant_minter revoke_minter remove_admin : ℕ → Tx
  renounce_default_admin : Tx

-- onlyRole(role): `none` is a revert.
only : Bool → Chain → Option Chain
only true c = some c
only false c = none

-- `removeAdmin` keeps the last holder of the role.
remove_if_held : ℕ → Bool → Chain → Option Chain
remove_if_held a false c = some c
remove_if_held a true c =
    if leb (length c.admins) 1 then none else some (record c { admins = revoke a c.admins })

-- What a transaction of the deployer does. Only DEFAULT_ADMIN_ROLE gives DEFAULT_ADMIN_ROLE; the two
-- other roles are administered by ADMIN_ROLE.
pub apply : ℕ → Tx → Chain → Option Chain
unfolding holds grant revoke only remove_if_held
apply deployer (grant_default_admin a) c =
    only (holds deployer c.default_admins) (record c { default_admins = grant a c.default_admins })
apply deployer (add_admin a) c =
    only (holds deployer c.admins && not (a == 0)) (record c { admins = grant a c.admins })
apply deployer (grant_minter a) c =
    only (holds deployer c.admins) (record c { minters = grant a c.minters })
apply deployer (revoke_minter a) c =
    only (holds deployer c.admins) (record c { minters = revoke a c.minters })
apply deployer (remove_admin a) c =
    if holds deployer c.admins && not (a == 0) then remove_if_held a (holds a c.admins) c else none
apply deployer renounce_default_admin c =
    some (record c { default_admins = revoke deployer c.default_admins })

-- A script: it reads roles, sends transactions and waits for each.
pub data Script : Type 0 where
  finished : Script
  reads : Role → ℕ → (Bool → Script) → Script
  sends : Tx → Script → Script

-- if (!(await v2.hasRole(role, a))) await (await v2.…).wait()
abbrev pub ensure : Role → ℕ → Tx → Script → Script
ensure role a tx rest = reads role a (λ held. if held then rest else sends tx rest)

-- if (await v2.hasRole(role, a)) await (await v2.…).wait()
abbrev pub withdraw : Role → ℕ → Tx → Script → Script
withdraw role a tx rest = reads role a (λ held. if held then sends tx rest else rest)

-- The environment variables, and what V1 says of each address of V1_ADMINS that is one.
pub record Env : Type 0 where
  pub deployer : ℕ
  pub admin_address : ℕ
  pub minter_address : ℕ
  pub keep_deployer_admin : Bool
  pub v1_admins : List (ℕ × Bool)

-- Step 1
pub migrate : ℕ → List (ℕ × Bool) → Script → Script
migrate deployer [] rest = rest
migrate deployer ((a, on_v1) ∷ more) rest =
    let next = migrate deployer more rest in
    if a == deployer then next else if not on_v1 then next else ensure admin a (add_admin a) next

-- The target admin of step 3
pub transfer_admin : Env → Script → Script
transfer_admin env rest =
    if env.deployer == env.admin_address
    then rest
    else ensure default_admin env.admin_address (grant_default_admin env.admin_address)
        (ensure admin env.admin_address (add_admin env.admin_address) rest)

-- The minter of step 3
pub transfer_minter : Env → Script → Script
transfer_minter env rest =
    if env.minter_address == env.deployer
    then rest
    else ensure minter env.minter_address (grant_minter env.minter_address) (
        if env.keep_deployer_admin
        then rest
        else withdraw minter env.deployer (revoke_minter env.deployer) rest)

-- The deployer gives up its roles.
pub renounce : Env → Script
renounce env =
    if env.deployer == env.admin_address || env.keep_deployer_admin
    then finished
    else withdraw admin env.deployer (remove_admin env.deployer)
        (withdraw default_admin env.deployer renounce_default_admin finished)

-- main, after the addresses are read
pub cutover : Env → Script
cutover env = migrate env.deployer env.v1_admins (
    transfer_admin env (
      transfer_minter env
        (ensure admin env.minter_address (add_admin env.minter_address) (renounce env))))

pub data Status : Type 0 where
  completed reverted stopped : Status

-- A run that is stopped when it would send one more than `k` transactions.
pub run : ℕ → ℕ → Script → Chain → Chain × Status
run deployer k finished c = (c, completed)
run deployer k (reads role a next) c = run deployer k (next (holds a (members role c))) c
run deployer zero (sends tx next) c = (c, stopped)
run deployer (suc k) (sends tx next) c = elim (apply deployer tx c) [
  | none ↦ (c, reverted)
  | some c' ↦ run deployer k next c'
]

-- Runs of the same script, each stopped after its number of transactions.
pub attempts : ℕ → Script → List ℕ → Chain → Chain
attempts deployer script [] c = c
attempts deployer script (k ∷ ks) c = attempts deployer script ks (run deployer k script c).0
