-- ===== src/Cutover/Tests.antt =====
-- packages/contracts/scripts/finish-cutover.ts at concrete inputs.
use vpp_blockchain.Base.{◌≡◌, refl, true, false, [], ◌∷◌, arith}
use vpp_blockchain.Cutover.{
  Chain, Env, holds, members, apply, run, attempts, migrate, transfer_admin, transfer_minter,
  renounce, cutover, completed,
}
use vpp_blockchain.Cutover.Stages.{IsProduction, IsReady, IsHandedOver}
use vpp_blockchain.Cutover.Handover.{cutover_completes}

-- The deployer is 1, the target admin 2, the minter 3; V1 has the admins 2, 3 and 5.
abbrev env : Env
env = record {
  deployer = 1;
  admin_address = 2;
  minter_address = 3;
  keep_deployer_admin = false;
  v1_admins = (1, true) ∷ (2, true) ∷ (3, true) ∷ (4, false) ∷ (5, true) ∷ [];
}

-- After the deployment the deployer has every role.
abbrev fresh : Chain
fresh = record { default_admins = 1 ∷ []; admins = 1 ∷ []; minters = 1 ∷ [] }

whole_run :
    run 1 12 (cutover env) fresh
    ≡ (record { default_admins = 2 ∷ []; admins = 5 ∷ 3 ∷ 2 ∷ []; minters = 3 ∷ [] }, completed)
unfolding run cutover migrate holds members apply transfer_admin transfer_minter renounce
whole_run = refl

env-IsProduction : IsProduction env
env-IsProduction = record {
  apart_admin = refl;
  apart_minter = refl;
  keeps_nothing = refl;
  some_admin = refl;
  some_minter = refl;
  some_deployer = refl;
  some_v1 = (refl, (refl, (refl, (refl, (refl, tt)))));
}

fresh-IsReady : IsReady env fresh
unfolding holds
fresh-IsReady = record { default_role = refl; admin_role = refl }

cutover_completes_example :
    ((run 1 12 (cutover env) (attempts 1 (cutover env) (2 ∷ 0 ∷ 5 ∷ []) fresh)).1 ≡ completed)
    × IsHandedOver env (run 1 12 (cutover env) (attempts 1 (cutover env) (2 ∷ 0 ∷ 5 ∷ []) fresh)).0
cutover_completes_example =
    cutover_completes env fresh (2 ∷ 0 ∷ 5 ∷ []) 12 env-IsProduction fresh-IsReady (omega arith)

-- Where the deployer is the minter, as by default, the backend's wallet is left without the role that the
-- script has just made sure of.
minter_loses_role :
    (run 1 12 (cutover (record env { minter_address = 1 })) fresh).0
    ≡ record { default_admins = 2 ∷ []; admins = 5 ∷ 3 ∷ 2 ∷ []; minters = 1 ∷ [] }
unfolding run cutover migrate holds members apply transfer_admin transfer_minter renounce
minter_loses_role = refl
