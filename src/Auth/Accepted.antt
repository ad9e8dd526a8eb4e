-- ===== src/Auth/Accepted.antt =====
-- packages/backend/src/middleware/auth.ts: what stands behind an action that passes.
use vpp_blockchain.Base.{
  ℕ, ◌+◌, ◌≡◌, refl, sym, subst, inl, inr, Bool, true, false, not, none, some, [], ◌∷◌, ◌++◌,
  if◌then◌else◌, Bool-cases, Option-cases, Text, to_lower_case, starts_with,
}
use vpp_blockchain.Base.Exec.{Result, ok, throw}
use vpp_blockchain.Errors.{ErrorValue}
use vpp_blockchain.Sessions.{drop_expired, is_used_login, consume_login_nonce}
use vpp_blockchain.Auth.{
  Config, Request, AuthState, passed, Waiting, signed_role, asks, admin_signature, admin_message,
  check_time, message_time, verify_signed_request, require_admin_action, consume_action_signature,
  consumed, resume,
}

-- The request carries a timely message that names the action, signed by an address.
pub record Confirmed (cfg : Config) (now : ℕ) (description : Text) (req : Request) (w : Waiting)
    : Type 0 where
  pub message : Text
  pub signature : Text
  pub address : Text
  pub has_message : admin_message req ≡ some message
  pub has_signature : admin_signature req ≡ some signature
  pub names : starts_with (to_lower_case message) (to_lower_case description ++ b' ' ∷ []) ≡ true
  pub signed : cfg.verify_message message signature ≡ some address
  pub timely : check_time cfg.max_message_age_ms now (message_time message) ≡ none
  pub waiting : w ≡ signed_role address signature true

asks-inj : {v w : Waiting} → asks v ≡ asks w → v ≡ w
asks-inj e = cc

verified :
    (cfg : Config) (now : ℕ) (message signature : Text) (w : Waiting)
    → verify_signed_request cfg now message signature true ≡ asks w
    → (address : Text) × (cfg.verify_message message signature ≡ some address)
      × (check_time cfg.max_message_age_ms now (message_time message) ≡ none)
      × (w ≡ signed_role address signature true)
unfolding verify_signed_request
verified cfg now message signature w e =
    elim (Option-cases (cfg.verify_message message signature)) [
      | inl q ↦ let bad = rw (q, verify_signed_request) at e in absurd (cc)
      | inr (address, q) ↦
          elim (Option-cases (check_time cfg.max_message_age_ms now (message_time message))) [
            | inr (d, t) ↦ let bad = rw (q, t, verify_signed_request) at e in absurd (cc)
            | inl t ↦
                let good = rw (q, t, verify_signed_request) at e in
                (address, q, t, asks-inj (sym good))
          ]
    ]

pub confirmed :
    (cfg : Config) (now : ℕ) (description : Text) (req : Request) (w : Waiting)
    → require_admin_action cfg now description req ≡ asks w
    → Confirmed cfg now description req w
unfolding require_admin_action
confirmed cfg now description req w e = elim (Option-cases (admin_signature req)) [
  | inl q ↦ let bad = rw (q, require_admin_action) at e in absurd (cc)
  | inr (signature, q) ↦ elim (Option-cases (admin_message req)) [
    | inl r ↦ let bad = rw (q, r, require_admin_action) at e in absurd (cc)
    | inr (message, r) ↦
        elim (Bool-cases
          (starts_with (to_lower_case message) (to_lower_case description ++ b' ' ∷ []))) [
            | inr f ↦
                let bad = rw (q, r, f, require_admin_action, not, if◌then◌else◌) at e in absurd (cc)
            | inl t ↦
                let good = rw (q, r, t, require_admin_action, not, if◌then◌else◌) at e in
                let (address, signed, timely, waiting) =
                  verified cfg now message signature w good in
                record {
                  message = message;
                  signature = signature;
                  address = address;
                  has_message = r;
                  has_signature = q;
                  names = t;
                  signed = signed;
                  timely = timely;
                  waiting = waiting;
                }
          ]
  ]
]

-- The signature was not used before, and is taken down now.
pub record FirstUse (cfg : Config) (now : ℕ) (signature : Text) (s t : AuthState) : Type 0 where
  pub fresh :
      is_used_login (to_lower_case signature) (drop_expired now s.used_action_signatures) ≡ false
  pub taken :
      t.used_action_signatures
      ≡ drop_expired now s.used_action_signatures
        ++ (to_lower_case signature, now + cfg.max_message_age_ms + 120000) ∷ []

passed-inj : {a b : Text} → passed a ≡ passed b → a ≡ b
passed-inj e = cc

pub first_use :
    (cfg : Config) (now : ℕ) (address signature a : Text) (answer : Result ErrorValue Bool)
    (s : AuthState)
    → (resume cfg now (signed_role address signature true) answer s).0 ≡ passed a
    → (answer ≡ ok true)
      × (a ≡ address)
      × FirstUse cfg now signature s
          (resume cfg now (signed_role address signature true) answer s).1
unfolding resume consume_action_signature consume_login_nonce consumed
first_use cfg now address signature a (throw e) s h = absurd (cc)
first_use cfg now address signature a (ok false) s h = absurd (cc)
first_use cfg now address signature a (ok true) s h =
    let used = drop_expired now s.used_action_signatures in
    elim (Bool-cases (is_used_login (to_lower_case signature) used)) [
      | inl t ↦
          let bad =
            rw (t, resume, consume_action_signature, consume_login_nonce, consumed, if◌then◌else◌)
              at h in
          absurd (cc)
      | inr t ↦
          let good =
            rw (t, resume, consume_action_signature, consume_login_nonce, consumed, if◌then◌else◌)
              at h in
          (refl, passed-inj (sym good), record { fresh = t; taken = rw (t, if◌then◌else◌) refl })
    ]

-- An action passed: what the request carried, what the chain said, and that the signature is spent.
pub record Accepted (cfg : Config) (begun now : ℕ) (description : Text) (req : Request)
    (answer : Result ErrorValue Bool) (s t : AuthState) (a : Text) : Type 0 where
  pub signature : Text
  pub message : Text
  pub has_signature : admin_signature req ≡ some signature
  pub has_message : admin_message req ≡ some message
  pub names : starts_with (to_lower_case message) (to_lower_case description ++ b' ' ∷ []) ≡ true
  pub signed : cfg.verify_message message signature ≡ some a
  pub timely : check_time cfg.max_message_age_ms begun (message_time message) ≡ none
  pub is_admin : answer ≡ ok true
  pub first : FirstUse cfg now signature s t

-- If an action passes as one of an address: the request carries a message, within the age limit when it
-- came in, that begins with the action's description, up to case; the address signed it; the chain
-- answered that it is an admin; and the signature was not used before and is taken down as used.
pub action-Accepted :
    (cfg : Config) (begun now : ℕ) (description : Text) (req : Request) (w : Waiting)
    (answer : Result ErrorValue Bool) (s : AuthState) (a : Text)
    → require_admin_action cfg begun description req ≡ asks w
    → (resume cfg now w answer s).0 ≡ passed a
    → Accepted cfg begun now description req answer s (resume cfg now w answer s).1 a
action-Accepted cfg begun now description req w answer s a e h =
    let c = confirmed cfg begun description req w e in
    let (is_admin, same, first) =
      first_use cfg now c.address c.signature a answer s (rw (c.waiting) at h) in
    record {
      signature = c.signature;
      message = c.message;
      has_signature = c.has_signature;
      has_message = c.has_message;
      names = c.names;
      signed = rw same c.signed;
      timely = c.timely;
      is_admin = is_admin;
      first =
          subst (λ v. FirstUse cfg now c.signature s (resume cfg now v answer s).1) (sym c.waiting)
            first;
    }
