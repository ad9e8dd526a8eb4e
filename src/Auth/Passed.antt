-- ===== src/Auth/Passed.antt =====
-- packages/backend/src/middleware/auth.ts: exactly which actions pass.
use vpp_blockchain.Base.{
  ℕ, ◌+◌, ◌*◌, ◌≤◌, ◌≡◌, refl, sym, ◌∙◌, ap, ◌↔◌, Bool, true, false, not, Option, none, some, [],
  ◌∷◌, ◌++◌, if◌then◌else◌, arith, Text, to_lower_case, starts_with,
}
use vpp_blockchain.Base.Exec.{Result, ok}
use vpp_blockchain.Base.Int.{ℤ, pos, negsuc, pos_part, neg_part}
use vpp_blockchain.Errors.{ErrorValue}
use vpp_blockchain.Claim.{message_age}
use vpp_blockchain.Sessions.{drop_expired, is_used_login, consume_login_nonce}
use vpp_blockchain.Sessions.Unused.{IsUnused, is_used_login_iff}
use vpp_blockchain.Auth.{
  Config, Request, AuthState, passed, Waiting, signed_role, asks, admin_signature, admin_message,
  check_time, message_time, verify_signed_request, require_admin_action, consume_action_signature,
  consumed, resume,
}
use vpp_blockchain.Auth.Accepted.{confirmed, first_use}

starts_with_rest : (s p : Text) → starts_with s p ≡ true → (rest : Text) × (s ≡ p ++ rest)
unfolding starts_with
starts_with_rest s [] h = (s, refl)
starts_with_rest [] (c ∷ p) h = absurd (cc)
starts_with_rest (d ∷ s) (c ∷ p) h =
    let (rest, e) = starts_with_rest s p (ground arith) in (rest, ground (arith, e))

starts_with-append : (p rest : Text) → starts_with (p ++ rest) p ≡ true
unfolding starts_with
starts_with-append [] rest = refl
starts_with-append (c ∷ p) rest = ground (arith, starts_with-append p rest)

-- A number of seconds, for a message that came in at `begun` milliseconds: the time is at most
-- `max_age` ago and at most a minute ahead. A number above 999999999999 counts as milliseconds.
pub record IsTimely (max_age begun : ℕ) (timestamp : ℤ) : Type 0 where
  pub in_seconds : pos_part timestamp ≤ 999999999999
  pub not_old : begun + neg_part timestamp * 1000 ≤ pos_part timestamp * 1000 + max_age
  pub not_ahead : pos_part timestamp * 1000 ≤ begun + neg_part timestamp * 1000 + 60000

check_time-IsTimely :
    (max_age begun : ℕ) (timestamp : ℤ)
    → check_time max_age begun (some timestamp) ≡ none
    → IsTimely max_age begun timestamp
unfolding check_time message_age
check_time-IsTimely max_age begun (pos n) h = record {
  in_seconds = ground arith;
  not_old = ground arith;
  not_ahead = ground arith;
}
check_time-IsTimely max_age begun (negsuc n) h = record {
  in_seconds = ground arith;
  not_old = ground arith;
  not_ahead = ground arith;
}

IsTimely-check_time :
    (max_age begun : ℕ) (timestamp : ℤ)
    → IsTimely max_age begun timestamp
    → check_time max_age begun (some timestamp) ≡ none
unfolding check_time message_age
IsTimely-check_time max_age begun (pos n) t =
    let a = t.in_seconds in let b = t.not_old in let c = t.not_ahead in ground arith
IsTimely-check_time max_age begun (negsuc n) t =
    let a = t.in_seconds in let b = t.not_old in let c = t.not_ahead in ground arith

time_of :
    (max_age begun : ℕ) (o : Option ℤ)
    → check_time max_age begun o ≡ none
    → (timestamp : ℤ) × (o ≡ some timestamp) × IsTimely max_age begun timestamp
unfolding check_time
time_of max_age begun none h = absurd (cc)
time_of max_age begun (some timestamp) h =
    (timestamp, refl, check_time-IsTimely max_age begun timestamp h)

-- What stands behind an action that passes as one of the address `a`, and leaves the state `t`.
pub record Authorized (cfg : Config) (begun now : ℕ) (description : Text) (req : Request)
    (answer : Result ErrorValue Bool) (s t : AuthState) (a : Text) : Type 0 where
  pub signature : Text
  pub message : Text
  pub rest : Text
  pub timestamp : ℤ
  pub has_signature : admin_signature req ≡ some signature
  pub has_message : admin_message req ≡ some message
  pub names : to_lower_case message ≡ (to_lower_case description ++ b' ' ∷ []) ++ rest
  pub signed : cfg.verify_message message signature ≡ some a
  pub has_time : message_time message ≡ some timestamp
  pub timely : IsTimely cfg.max_message_age_ms begun timestamp
  pub is_admin : answer ≡ ok true
  pub unused : IsUnused now (to_lower_case signature) s.used_action_signatures
  pub taken : t ≡ record s {
    used_action_signatures =
        drop_expired now s.used_action_signatures
        ++ (to_lower_case signature, now + cfg.max_message_age_ms + 120000) ∷ [];
  }

resume_unused :
    (cfg : Config) (now : ℕ) (address signature : Text) (s : AuthState)
    → is_used_login (to_lower_case signature) (drop_expired now s.used_action_signatures) ≡ false
    → resume cfg now (signed_role address signature true) (ok true) s ≡ (
      passed address,
      record s {
        used_action_signatures =
            drop_expired now s.used_action_signatures
            ++ (to_lower_case signature, now + cfg.max_message_age_ms + 120000) ∷ [];
      },
    )
unfolding resume consume_action_signature consume_login_nonce consumed
resume_unused cfg now address signature s h =
    rw (h, resume, consume_action_signature, consume_login_nonce, consumed, if◌then◌else◌) refl

asks_authorized :
    (cfg : Config) (begun : ℕ) (description : Text) (req : Request) (message signature a : Text)
    → admin_signature req ≡ some signature
    → admin_message req ≡ some message
    → starts_with (to_lower_case message) (to_lower_case description ++ b' ' ∷ []) ≡ true
    → cfg.verify_message message signature ≡ some a
    → check_time cfg.max_message_age_ms begun (message_time message) ≡ none
    → require_admin_action cfg begun description req ≡ asks (signed_role a signature true)
unfolding require_admin_action verify_signed_request
asks_authorized cfg begun description req message signature a hs hm names signed timely =
    rw
      (
        hs, hm, names, signed, timely, require_admin_action, verify_signed_request, not,
        if◌then◌else◌,
      )
      refl

module _ (cfg : Config) (begun now : ℕ) (description : Text) (req : Request)
    (answer : Result ErrorValue Bool) (s t : AuthState) (a : Text) where
  abbrev Passes : Type 0
  Passes =
      (w : Waiting) × (require_admin_action cfg begun description req ≡ asks w)
      × (resume cfg now w answer s ≡ (passed a, t))

  passes-Authorized : Passes → Authorized cfg begun now description req answer s t a
  passes-Authorized (w, e, r) =
      let c = confirmed cfg begun description req w e in
      let h : (resume cfg now w answer s).0 ≡ passed a = ap (λ x. x.0) r in
      let (is_admin, same, first) =
        first_use cfg now c.address c.signature a answer s (rw (c.waiting) at h) in
      let (rest, names) = starts_with_rest _ _ c.names in
      let (timestamp, has_time, timely) = time_of cfg.max_message_age_ms begun _ c.timely in
      let ends = resume_unused cfg now c.address c.signature s first.fresh in
      record {
        signature = c.signature;
        message = c.message;
        rest = rest;
        timestamp = timestamp;
        has_signature = c.has_signature;
        has_message = c.has_message;
        names = names;
        signed = rw same c.signed;
        has_time = has_time;
        timely = timely;
        is_admin = is_admin;
        unused =
            (is_used_login_iff now (to_lower_case c.signature) s.used_action_signatures).0
              first.fresh;
        taken = ap (λ x. x.1) (sym (rw (c.waiting, is_admin) at r) ∙ ends);
      }

  authorized-Passes : Authorized cfg begun now description req answer s t a → Passes
  authorized-Passes p =
      let fresh =
        (is_used_login_iff now (to_lower_case p.signature) s.used_action_signatures).1 p.unused in
      let names : starts_with (to_lower_case p.message) (to_lower_case description ++ b' ' ∷ [])
          ≡ true =
        rw (p.names) (starts_with-append (to_lower_case description ++ b' ' ∷ []) p.rest) in
      let timely : check_time cfg.max_message_age_ms begun (message_time p.message) ≡ none =
        rw (p.has_time) (IsTimely-check_time cfg.max_message_age_ms begun p.timestamp p.timely) in
      (
        signed_role a p.signature true,
        asks_authorized cfg begun description req p.message p.signature a p.has_signature
            p.has_message names p.signed timely,
        rw (p.is_admin, p.taken) (resume_unused cfg now a p.signature s fresh),
      )

-- An action passes as one of an address, and leaves a state, exactly if: the request carries a message and
-- a signature; the message begins with the action's description and a space, up to case, and ends with a
-- time in seconds that is at most the age limit before the request came in and at most a minute after;
-- the address signed the message; the chain answered that it is an admin; every earlier use of the
-- signature, up to case, has expired; and the state is the old one without the expired uses, with this
-- use added until the age limit and two minutes are over.
pub action_passes_iff :
    (cfg : Config) (begun now : ℕ) (description : Text) (req : Request)
    (answer : Result ErrorValue Bool) (s t : AuthState) (a : Text)
    → ((w : Waiting) × (require_admin_action cfg begun description req ≡ asks w)
        × (resume cfg now w answer s ≡ (passed a, t)))
      ↔ Authorized cfg begun now description req answer s t a
action_passes_iff cfg begun now description req answer s t a = (
  passes-Authorized cfg begun now description req answer s t a,
  authorized-Passes cfg begun now description req answer s t a,
)
