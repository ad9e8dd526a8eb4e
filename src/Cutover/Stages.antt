-- ===== src/Cutover/Stages.antt =====
-- The steps of packages/contracts/scripts/finish-cutover.ts on a chain where the deployer has its roles.
use vpp_blockchain.Base.{
  ℕ, ◌≡◌, refl, subst, sym, ◌∙◌, Bool, true, false, ◌||◌, not, List, [], ◌∷◌, arith, ◌==◌, ==_iff,
  if◌then◌else◌, ◌⊎◌, inl, inr, Bool-cases,
}
use vpp_blockchain.Cutover.{
  default_admin, admin, minter, Chain, holds, grant, revoke, members, apply, Script, Env, ensure,
  withdraw, migrate, transfer_minter, grant_default_admin, add_admin, grant_minter, revoke_minter,
  only,
}
use vpp_blockchain.Cutover.Runs.{
  holds-grant, holds-revoke, Safe, ensure-Safe, withdraw-Safe, sends-Safe,
}

-- The wallets that V1 calls admins.
abbrev pub AreAdmins : ℕ → List (ℕ × Bool) → Chain → Type 0
AreAdmins deployer [] c = Unit {0}
AreAdmins deployer ((a, on_v1) ∷ more) c =
    ((a == deployer || not on_v1 || holds a c.admins) ≡ true) × AreAdmins deployer more c

-- Everything but the deployer's own rights.
pub record Granted (env : Env) (c : Chain) : Type 0 where
  pub target_default : holds env.admin_address c.default_admins ≡ true
  pub target_admin : holds env.admin_address c.admins ≡ true
  pub minter_minter : holds env.minter_address c.minters ≡ true
  pub minter_admin : holds env.minter_address c.admins ≡ true
  pub deployer_minter : holds env.deployer c.minters ≡ false
  pub migrated : AreAdmins env.deployer env.v1_admins c

-- The deployer has the roles that it needs.
pub record IsReady (env : Env) (c : Chain) : Type 0 where
  pub default_role : holds env.deployer c.default_admins ≡ true
  pub admin_role : holds env.deployer c.admins ≡ true

-- Only the deployer's own rights may be left.
pub record IsGiven (env : Env) (c : Chain) : Type 0 where
  pub granted : Granted env c
  pub no_admin : holds env.deployer c.admins ≡ false

abbrev pub IsUnderway : Env → Chain → Type 0
IsUnderway env c = IsReady env c ⊎ IsGiven env c

pub record IsHandedOver (env : Env) (c : Chain) : Type 0 where
  pub granted : Granted env c
  pub no_admin : holds env.deployer c.admins ≡ false
  pub no_default : holds env.deployer c.default_admins ≡ false

abbrev pub NonZero : List (ℕ × Bool) → Type 0
NonZero [] = Unit {0}
NonZero ((a, on_v1) ∷ more) = ((a == 0) ≡ false) × NonZero more

-- The deployer is neither the target admin nor the minter and keeps nothing, and no address is zero.
pub record IsProduction (env : Env) : Type 0 where
  pub apart_admin : (env.deployer == env.admin_address) ≡ false
  pub apart_minter : (env.minter_address == env.deployer) ≡ false
  pub keeps_nothing : env.keep_deployer_admin ≡ false
  pub some_admin : (env.admin_address == 0) ≡ false
  pub some_minter : (env.minter_address == 0) ≡ false
  pub some_deployer : (env.deployer == 0) ≡ false
  pub some_v1 : NonZero env.v1_admins

-- Nobody loses a role of an administrator, and no minter changes.
pub record Grows (c d : Chain) : Type 0 where
  pub admins : (a : ℕ) → holds a c.admins ≡ true → holds a d.admins ≡ true
  pub defaults : (a : ℕ) → holds a c.default_admins ≡ true → holds a d.default_admins ≡ true
  pub minters : d.minters ≡ c.minters

Grows-refl : (c : Chain) → Grows c c
Grows-refl c = record { admins = λ a h. h; defaults = λ a h. h; minters = refl }

pub Grows-trans : (c d e : Chain) → Grows c d → Grows d e → Grows c e
Grows-trans c d e g h = record {
  admins = λ a k. h.admins a (g.admins a k);
  defaults = λ a k. h.defaults a (g.defaults a k);
  minters = h.minters ∙ g.minters;
}

pub AreAdmins-later :
    (deployer : ℕ) (l : List (ℕ × Bool)) (c d : Chain)
    → ((a : ℕ) → holds a c.admins ≡ true → holds a d.admins ≡ true)
    → AreAdmins deployer l c
    → AreAdmins deployer l d
AreAdmins-later deployer [] c d g h = tt
AreAdmins-later deployer ((a, on_v1) ∷ more) c d g h =
    (ground (arith, h.0, g a), AreAdmins-later deployer more c d g h.1)

module _ (env : Env) where
  abbrev pub S : Script → Chain → Type 0
  S = Safe env.deployer (IsUnderway env) (IsHandedOver env)

  pub IsReady-Grows : (c d : Chain) → Grows c d → IsReady env c → IsReady env d
  IsReady-Grows c d g r = record {
    default_role = g.defaults env.deployer r.default_role;
    admin_role = g.admins env.deployer r.admin_role;
  }

  add_admin-Grows : (a : ℕ) (c : Chain) → Grows c (record c { admins = grant a c.admins })
  add_admin-Grows a c = record {
    admins = λ b h. ground (arith, h, holds-grant a b c.admins);
    defaults = λ b h. h;
    minters = refl;
  }

  pub ensure_admin-Safe :
      (a : ℕ) (next : Script) (c : Chain)
      → IsReady env c
      → (a == 0) ≡ false
      → ((d : Chain) → Grows c d → holds a d.admins ≡ true → S next d)
      → S (ensure admin a (add_admin a) next) c
  unfolding members apply only
  ensure_admin-Safe a next c r z k =
      let d : Chain = record c { admins = grant a c.admins } in
      let held : holds a d.admins ≡ true = ground (arith, holds-grant a a c.admins, ==_iff a a) in
      ensure-Safe env.deployer (IsUnderway env) (IsHandedOver env) admin a (add_admin a) next c
        (k c (Grows-refl c))
        (λ e.
          sends-Safe env.deployer (IsUnderway env) (IsHandedOver env) (add_admin a) next c d (inl r)
            (rw (r.admin_role, z) refl) (k d (add_admin-Grows a c) held))

  pub migrate-Safe :
      (l : List (ℕ × Bool)) (next : Script) (c : Chain)
      → IsReady env c
      → NonZero l
      → ((d : Chain) → Grows c d → AreAdmins env.deployer l d → S next d)
      → S (migrate env.deployer l next) c
  unfolding migrate
  migrate-Safe [] next c r z k = k c (Grows-refl c) tt
  migrate-Safe ((a, on_v1) ∷ more) next c r z k = elim (Bool-cases (a == env.deployer)) [
    | inl e ↦ rw e (migrate-Safe more next c r z.1 (λ d g h. k d g (ground (arith, e), h)))
    | inr e ↦ rw e (elim (Bool-cases on_v1) [
      | inl v ↦ rw v (
          ensure_admin-Safe a (migrate env.deployer more next) c r z.0 (λ d g h.
            migrate-Safe more next d (IsReady-Grows c d g r) z.1
              (λ x f m. k x (Grows-trans c d x g f) (ground (arith, f.admins a h), m))))
      | inr v ↦ rw v (migrate-Safe more next c r z.1 (λ d g h. k d g (ground (arith, v), h)))
    ])
  ]

  pub ensure_default-Safe :
      (a : ℕ) (next : Script) (c : Chain)
      → IsReady env c
      → ((d : Chain) → Grows c d → holds a d.default_admins ≡ true → S next d)
      → S (ensure default_admin a (grant_default_admin a) next) c
  unfolding members apply only
  ensure_default-Safe a next c r k =
      let d : Chain = record c { default_admins = grant a c.default_admins } in
      let held : holds a d.default_admins ≡ true =
        ground (arith, holds-grant a a c.default_admins, ==_iff a a) in
      let grows : Grows c d = record {
        admins = λ b h. h;
        defaults = λ b h. ground (arith, h, holds-grant a b c.default_admins);
        minters = refl;
      } in
      ensure-Safe env.deployer (IsUnderway env) (IsHandedOver env) default_admin a
        (grant_default_admin a) next c (k c (Grows-refl c))
        (λ e.
          sends-Safe env.deployer (IsUnderway env) (IsHandedOver env) (grant_default_admin a) next c
            d (inl r) (rw r.default_role refl) (k d grows held))

  -- The chain after the minter was moved.
  pub record Moved (c d : Chain) : Type 0 where
    pub same_admins : d.admins ≡ c.admins
    pub same_defaults : d.default_admins ≡ c.default_admins
    pub minter_minter : holds env.minter_address d.minters ≡ true
    pub deployer_minter : holds env.deployer d.minters ≡ false

  withdraw_minter-Safe :
      (next : Script) (c : Chain)
      → IsReady env c
      → (env.minter_address == env.deployer) ≡ false
      → holds env.minter_address c.minters ≡ true
      → ((d : Chain) → Moved c d → S next d)
      → S (withdraw minter env.deployer (revoke_minter env.deployer) next) c
  unfolding members apply only
  withdraw_minter-Safe next c r apart has_minter k =
      let d : Chain = record c { minters = revoke env.deployer c.minters } in
      let moved : Moved c d = record {
        same_admins = refl;
        same_defaults = refl;
        minter_minter =
            ground
              (arith, has_minter, apart, holds-revoke env.deployer env.minter_address c.minters);
        deployer_minter = ground (arith, holds-revoke env.deployer env.deployer c.minters);
      } in
      withdraw-Safe env.deployer (IsUnderway env) (IsHandedOver env) minter env.deployer
        (revoke_minter env.deployer) next c
        (λ e.
          sends-Safe env.deployer (IsUnderway env) (IsHandedOver env) (revoke_minter env.deployer)
            next c d (inl r) (rw r.admin_role refl) (k d moved))
        (λ e. k c (record {
          same_admins = refl;
          same_defaults = refl;
          minter_minter = has_minter;
          deployer_minter = e;
        }))

  pub transfer_minter-Safe :
      (next : Script) (c : Chain)
      → IsProduction env
      → IsReady env c
      → ((d : Chain) → Moved c d → S next d)
      → S (transfer_minter env next) c
  unfolding members apply only transfer_minter
  transfer_minter-Safe next c p r k =
      let d : Chain = record c { minters = grant env.minter_address c.minters } in
      let held : holds env.minter_address d.minters ≡ true = ground (
        arith,
        holds-grant env.minter_address env.minter_address c.minters,
        ==_iff env.minter_address env.minter_address,
      ) in
      let ready : IsReady env d = record {
        default_role = r.default_role;
        admin_role = r.admin_role;
      } in
      let rest =
        if env.keep_deployer_admin
        then next
        else withdraw minter env.deployer (revoke_minter env.deployer) next in
      let rest-Safe : (x : Chain)
          → S (withdraw minter env.deployer (revoke_minter env.deployer) next) x
          → S rest x =
        λ x h.
          subst
            (λ b.
              S (if b then next else withdraw minter env.deployer (revoke_minter env.deployer) next)
                x)
            (sym p.keeps_nothing) h in
      let grant_it = ensure minter env.minter_address (grant_minter env.minter_address) rest in
      subst (λ b. S (if b then next else grant_it) c) (sym p.apart_minter)
        (ensure-Safe env.deployer (IsUnderway env) (IsHandedOver env) minter env.minter_address
          (grant_minter env.minter_address) rest c
          (λ e. rest-Safe c (withdraw_minter-Safe next c r p.apart_minter e k))
          (λ e.
            sends-Safe env.deployer (IsUnderway env) (IsHandedOver env)
              (grant_minter env.minter_address) rest c d (inl r) (rw r.admin_role refl)
              (rest-Safe d (
                withdraw_minter-Safe next d ready p.apart_minter held (λ x m. k x (record {
                  same_admins = m.same_admins;
                  same_defaults = m.same_defaults;
                  minter_minter = m.minter_minter;
                  deployer_minter = m.deployer_minter;
                }))))))
