-- ===== src/Cutover/Handover.antt =====
-- The roles after packages/contracts/scripts/finish-cutover.ts, however often it was stopped.
use vpp_blockchain.Base.{
  ℕ, ◌+◌, ◌≤◌, ◌≡◌, ◌≢◌, refl, ap, subst, sym, ◌∙◌, Bool, true, false, ◌||◌, some, List, [], ◌∷◌,
  arith, ◌==◌, if◌then◌else◌, length, inl, inr, leb, Bool-cases,
}
use vpp_blockchain.Cutover.{
  Role, default_admin, admin, minter, Chain, holds, revoke, members, Tx, apply, Script, finished,
  run, attempts, completed, Env, ensure, withdraw, migrate, transfer_admin, transfer_minter,
  renounce, cutover, grant_default_admin, add_admin, grant_minter, revoke_minter, remove_admin,
  renounce_default_admin, remove_if_held,
}
use vpp_blockchain.Cutover.Runs.{
  holds-revoke, two_holders, Safe, ensure-Safe, withdraw-Safe, sends-Safe, most, attempts-Ends,
}
use vpp_blockchain.Cutover.Stages.{
  AreAdmins, Granted, IsReady, IsGiven, IsUnderway, IsHandedOver, IsProduction, Grows, S, Moved,
  IsReady-Grows, Grows-trans, AreAdmins-later, ensure_admin-Safe, migrate-Safe, ensure_default-Safe,
  transfer_minter-Safe,
}

AreAdmins-revoke :
    (deployer : ℕ) (l : List (ℕ × Bool)) (c : Chain)
    → AreAdmins deployer l c
    → AreAdmins deployer l (record c { admins = revoke deployer c.admins })
AreAdmins-revoke deployer [] c h = tt
AreAdmins-revoke deployer ((a, on_v1) ∷ more) c h =
    (ground (arith, h.0, holds-revoke deployer a c.admins), AreAdmins-revoke deployer more c h.1)

module _ (env : Env) (p : IsProduction env) where
  transfer_admin-Safe :
      (next : Script) (c : Chain)
      → IsReady env c
      → ((d : Chain)
          → Grows c d
          → holds env.admin_address d.default_admins ≡ true
          → holds env.admin_address d.admins ≡ true
          → S env next d)
      → S env (transfer_admin env next) c
  unfolding transfer_admin
  transfer_admin-Safe next c r k =
      let inner = ensure admin env.admin_address (add_admin env.admin_address) next in
      subst
        (λ b.
          S env
            (if b
              then next
              else ensure default_admin env.admin_address (grant_default_admin env.admin_address)
                  inner)
            c)
        (sym p.apart_admin)
        (ensure_default-Safe env env.admin_address inner c r (λ d g h.
          ensure_admin-Safe env env.admin_address next d (IsReady-Grows env c d g r) p.some_admin
            (λ x f m. k x (Grows-trans c d x g f) (f.defaults env.admin_address h) m)))

  -- The deployer gives up what it still has.
  drop_default-Safe :
      (c : Chain)
      → IsGiven env c
      → S env (withdraw default_admin env.deployer renounce_default_admin finished) c
  unfolding members apply Safe
  drop_default-Safe c g =
      let d : Chain = record c { default_admins = revoke env.deployer c.default_admins } in
      let still : holds env.admin_address d.default_admins ≡ true = ground (
        arith,
        holds-revoke env.deployer env.admin_address c.default_admins,
        g.granted.target_default,
        p.apart_admin,
      ) in
      let over : IsHandedOver env d = record {
        granted = record {
          target_default = still;
          target_admin = g.granted.target_admin;
          minter_minter = g.granted.minter_minter;
          minter_admin = g.granted.minter_admin;
          deployer_minter = g.granted.deployer_minter;
          migrated = AreAdmins-later env.deployer env.v1_admins c d (λ a h. h) g.granted.migrated;
        };
        no_admin = g.no_admin;
        no_default = ground (arith, holds-revoke env.deployer env.deployer c.default_admins);
      } in
      withdraw-Safe env.deployer (IsUnderway env) (IsHandedOver env) default_admin env.deployer
        renounce_default_admin finished c
        (λ e.
          sends-Safe env.deployer (IsUnderway env) (IsHandedOver env) renounce_default_admin
            finished c d (inr g) refl over)
        (λ e. record { granted = g.granted; no_admin = g.no_admin; no_default = e })

  -- The chain after the deployer lost its ADMIN_ROLE.
  removed-IsGiven :
      (c : Chain) → Granted env c → IsGiven env (record c { admins = revoke env.deployer c.admins })
  removed-IsGiven c g = record {
    granted = record {
      target_default = g.target_default;
      target_admin = ground (
        arith,
        holds-revoke env.deployer env.admin_address c.admins,
        g.target_admin,
        p.apart_admin,
      );
      minter_minter = g.minter_minter;
      minter_admin = ground (
        arith,
        holds-revoke env.deployer env.minter_address c.admins,
        g.minter_admin,
        p.apart_minter,
      );
      deployer_minter = g.deployer_minter;
      migrated = AreAdmins-revoke env.deployer env.v1_admins c g.migrated;
    };
    no_admin = ground (arith, holds-revoke env.deployer env.deployer c.admins);
  }

  -- The contract lets the deployer go, since the target admin is another holder.
  remove_admin-applies :
      (c : Chain)
      → holds env.deployer c.admins ≡ true
      → holds env.admin_address c.admins ≡ true
      → apply env.deployer (remove_admin env.deployer) c
        ≡ some (record c { admins = revoke env.deployer c.admins })
  unfolding apply remove_if_held
  remove_admin-applies c own other =
      let apart : env.deployer ≢ env.admin_address = λ e. ground (arith, e, p.apart_admin) in
      let two = two_holders env.deployer env.admin_address c.admins apart own other in
      let many : leb (length c.admins) 1 ≡ false = ground (arith, two) in
      rw (own, p.some_deployer) (rw many refl)

  renounce-Safe : (c : Chain) → Granted env c → IsUnderway env c → S env (renounce env) c
  unfolding members renounce
  renounce-Safe c g u =
      let last = withdraw default_admin env.deployer renounce_default_admin finished in
      let d : Chain = record c { admins = revoke env.deployer c.admins } in
      let goes : false ≡ (env.deployer == env.admin_address || env.keep_deployer_admin) =
        ground (arith, p.apart_admin, p.keeps_nothing) in
      subst
        (λ b.
          S env
            (if b then finished else withdraw admin env.deployer (remove_admin env.deployer) last)
            c)
        goes
        (withdraw-Safe env.deployer (IsUnderway env) (IsHandedOver env) admin env.deployer
          (remove_admin env.deployer) last c
          (λ e.
            sends-Safe env.deployer (IsUnderway env) (IsHandedOver env) (remove_admin env.deployer)
              last c d u (remove_admin-applies c e g.target_admin)
              (drop_default-Safe d (removed-IsGiven c g)))
          (λ e. drop_default-Safe c (record { granted = g; no_admin = e })))

  -- What is held already is left alone.
  held-Safe :
      (role : Role) (a : ℕ) (tx : Tx) (next : Script) (c : Chain)
      → holds a (members role c) ≡ true
      → S env next c
      → S env (ensure role a tx next) c
  held-Safe role a tx next c h s =
      ensure-Safe env.deployer (IsUnderway env) (IsHandedOver env) role a tx next c (λ _. s)
        (λ e. absurd (cc (e, h)))

  migrate-held :
      (l : List (ℕ × Bool)) (next : Script) (c : Chain)
      → AreAdmins env.deployer l c
      → S env next c
      → S env (migrate env.deployer l next) c
  unfolding migrate members
  migrate-held [] next c h s = s
  migrate-held ((a, on_v1) ∷ more) next c h s =
      let rest = migrate-held more next c h.1 s in
      elim (Bool-cases (a == env.deployer)) [
        | inl e ↦ rw e rest
        | inr e ↦ rw e (elim (Bool-cases on_v1) [
          | inl v ↦ rw v (
              held-Safe admin a (add_admin a) (migrate env.deployer more next) c
                (ground (arith, h.0, e, v)) rest)
          | inr v ↦ rw v rest
        ])
      ]

  -- After the last grant a run only has to take the deployer's rights away.
  given-Safe : (c : Chain) → Granted env c → IsUnderway env c → S env (cutover env) c
  unfolding cutover members transfer_admin transfer_minter
  given-Safe c g u =
      let relayer = ensure admin env.minter_address (add_admin env.minter_address) (renounce env) in
      let relayer-Safe : S env relayer c =
        held-Safe admin env.minter_address (add_admin env.minter_address) (renounce env) c
          g.minter_admin (renounce-Safe c g u) in
      let drop = withdraw minter env.deployer (revoke_minter env.deployer) relayer in
      let drop-Safe : S env drop c =
        withdraw-Safe env.deployer (IsUnderway env) (IsHandedOver env) minter env.deployer
          (revoke_minter env.deployer) relayer c (λ e. absurd (cc (e, g.deployer_minter)))
          (λ e. relayer-Safe) in
      let kept = if env.keep_deployer_admin then relayer else drop in
      let kept-Safe : S env kept c =
        subst (λ b. S env (if b then relayer else drop) c) (sym p.keeps_nothing) drop-Safe in
      let minters = ensure minter env.minter_address (grant_minter env.minter_address) kept in
      let minters-Safe : S env (transfer_minter env relayer) c =
        subst (λ b. S env (if b then relayer else minters) c) (sym p.apart_minter)
          (held-Safe minter env.minter_address (grant_minter env.minter_address) kept c
            g.minter_minter kept-Safe) in
      let next = transfer_minter env relayer in
      let inner = ensure admin env.admin_address (add_admin env.admin_address) next in
      let outer =
        ensure default_admin env.admin_address (grant_default_admin env.admin_address) inner in
      migrate-held env.v1_admins (transfer_admin env next) c g.migrated (
        subst (λ b. S env (if b then next else outer) c) (sym p.apart_admin)
          (held-Safe default_admin env.admin_address (grant_default_admin env.admin_address) inner c
            g.target_default
            (held-Safe admin env.admin_address (add_admin env.admin_address) next c g.target_admin
              minters-Safe)))

  -- What the steps have given when the deployer is about to go.
  granted_last :
      (d x y z : Chain)
      → AreAdmins env.deployer env.v1_admins d
      → Grows d x
      → holds env.admin_address x.default_admins ≡ true
      → holds env.admin_address x.admins ≡ true
      → Moved env x y
      → Grows y z
      → holds env.minter_address z.admins ≡ true
      → Granted env z
  granted_last d x y z migrated f default_held admin_held moved k m =
      let on : (a : ℕ) → holds a x.admins ≡ true → holds a z.admins ≡ true =
        λ a h. k.admins a (ap (holds a) moved.same_admins ∙ h) in
      record {
        target_default =
            k.defaults env.admin_address
              (ap (holds env.admin_address) moved.same_defaults ∙ default_held);
        target_admin = on env.admin_address admin_held;
        minter_minter = ap (holds env.minter_address) k.minters ∙ moved.minter_minter;
        minter_admin = m;
        deployer_minter = ap (holds env.deployer) k.minters ∙ moved.deployer_minter;
        migrated =
            AreAdmins-later env.deployer env.v1_admins d z (λ a h. on a (f.admins a h)) migrated;
      }

  ready-Safe : (c : Chain) → IsReady env c → S env (cutover env) c
  unfolding cutover
  ready-Safe c r =
      let relayer = ensure admin env.minter_address (add_admin env.minter_address) (renounce env) in
      migrate-Safe env env.v1_admins (transfer_admin env (transfer_minter env relayer)) c r
        p.some_v1
        (λ d g migrated.
          let rd = IsReady-Grows env c d g r in
          transfer_admin-Safe (transfer_minter env relayer) d rd (λ x f default_held admin_held.
            let rx = IsReady-Grows env d x f rd in
            transfer_minter-Safe env relayer x p rx (λ y moved.
              let ry : IsReady env y = record {
                default_role = ap (holds env.deployer) moved.same_defaults ∙ rx.default_role;
                admin_role = ap (holds env.deployer) moved.same_admins ∙ rx.admin_role;
              } in
              ensure_admin-Safe env env.minter_address (renounce env) y ry p.some_minter (λ z k m.
                renounce-Safe z (granted_last d x y z migrated f default_held admin_held moved k m)
                  (inl (IsReady-Grows env y z k ry))))))

  cutover-Safe : (c : Chain) → IsUnderway env c → S env (cutover env) c
  cutover-Safe c (inl r) = ready-Safe c r
  cutover-Safe c (inr g) = given-Safe c g.granted (inr g)

most-migrate :
    (deployer : ℕ) (l : List (ℕ × Bool)) (next : Script)
    → most (migrate deployer l next) ≤ length l + most next
unfolding migrate most
most-migrate deployer [] next = omega arith
most-migrate deployer ((a, on_v1) ∷ more) next = ground (arith, most-migrate deployer more next)

most-cutover : (env : Env) → most (cutover env) ≤ length env.v1_admins + 7
unfolding cutover most transfer_admin transfer_minter renounce
most-cutover env =
    let rest = transfer_admin env (
      transfer_minter env
        (ensure admin env.minter_address (add_admin env.minter_address) (renounce env))) in
    let few : most rest ≤ 7 = ground arith in
    omega (arith, most-migrate env.deployer env.v1_admins rest, few)

-- In a production handover of a chain on which the deployer has both administrator roles, a run that is
-- not stopped completes after any number of stopped runs: the target admin has both roles, the minter
-- can mint and administer, every migrated admin is one, and the deployer has no role left.
pub cutover_completes :
    (env : Env) (c : Chain) (ks : List ℕ) (k : ℕ)
    → IsProduction env
    → IsReady env c
    → length env.v1_admins + 7 ≤ k
    → let r = run env.deployer k (cutover env) (attempts env.deployer (cutover env) ks c) in
      (r.1 ≡ completed) × IsHandedOver env r.0
cutover_completes env c ks k p ready enough =
    attempts-Ends env.deployer (IsUnderway env) (IsHandedOver env) (cutover env)
      (cutover-Safe env p)
      (λ d over. inr (record { granted = over.granted; no_admin = over.no_admin })) ks k c
      (inl ready) (omega (arith, most-cutover env, enough))
