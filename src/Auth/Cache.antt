-- ===== src/Auth/Cache.antt =====
-- packages/backend/src/middleware/auth.ts: the cache of the roles, and the requests that pass on it.
use vpp_blockchain.Base.{
  ℕ, ◌+◌, ◌-◌, ◌<◌, ◌≡◌, ◌≢◌, refl, ap, ◌∙◌, ◌⊎◌, inl, inr, Bool, true, false, not, Option, none,
  some, List, [], ◌∷◌, ltb, if◌then◌else◌, Bool-cases, Option-cases, arith, Text, text_eq,
  text_eq_iff, to_lower_case,
}
use vpp_blockchain.Base.Exec.{Result, ok, throw}
use vpp_blockchain.Base.Int.{ℤ, pos, ltb_ℤ}
use vpp_blockchain.Claim.{message_age, clock_skew}
use vpp_blockchain.Errors.{ErrorValue}
use vpp_blockchain.Sessions.{AdminSession, read_session}
use vpp_blockchain.Sessions.Cookie.{read_session_cookie}
use vpp_blockchain.Auth.{
  Config, Request, AuthState, Decision, passed, Waiting, session_role, signed_role, decided,
  admin_signature, admin_message, check_time, message_time, origin_allowed, cached_role, set_role,
  known_role, role_decision, verify_signed_request, require_admin, resume, consumed,
}
use vpp_blockchain.Auth.Replay.{Other, others_resume}

-- The other request is one for a session of an address with the key.
abbrev pub Answered : Text → Bool → ℕ → Other → Type 0
Answered key value at o =
    (address : Text) × (o ≡ (at, session_role address, ok value)) × (to_lower_case address ≡ key)

-- The chain answered so at that time, when it was asked for a session of an address with this key.
abbrev pub Heard : Text → Bool → ℕ → List Other → Type 0
Heard key value at [] = ⊥
Heard key value at (o ∷ rest) = Answered key value at o ⊎ Heard key value at rest

set_role-cached :
    (key k : Text) (v value : Bool) (t at : ℕ) (l : List (Text × Bool × ℕ))
    → cached_role key (set_role k v t l) ≡ some (value, at)
    → (k ≡ key) × (v ≡ value) × (t ≡ at) ⊎ (cached_role key l ≡ some (value, at))
unfolding cached_role set_role
set_role-cached key k v value t at [] e = elim (Bool-cases (text_eq k key)) [
  | inl q ↦ let same = rw (q, if◌then◌else◌) at e in inl ((text_eq_iff k key).0 q, cc, cc)
  | inr q ↦ let bad = rw (q, if◌then◌else◌) at e in absurd (cc)
]
set_role-cached key k v value t at ((x, u, w) ∷ l) e = elim (Bool-cases (text_eq x k)) [
  | inl q ↦ elim (Bool-cases (text_eq k key)) [
    | inl r ↦
        let same = rw (q, r, cached_role, set_role, if◌then◌else◌) at e in
        inl ((text_eq_iff k key).0 r, cc, cc)
    | inr r ↦
        let x_is : x ≡ k = (text_eq_iff x k).0 q in
        let other : text_eq x key ≡ false = ap (λ y. text_eq y key) x_is ∙ r in
        let rest = rw (q, r, cached_role, set_role, if◌then◌else◌) at e in
        inr (rw (other, if◌then◌else◌) rest)
  ]
  | inr q ↦ elim (Bool-cases (text_eq x key)) [
    | inl r ↦
        let same = rw (q, r, cached_role, set_role, if◌then◌else◌) at e in
        inr (rw (r, if◌then◌else◌) same)
    | inr r ↦
        let rest = rw (q, r, cached_role, set_role, if◌then◌else◌) at e in
        elim (set_role-cached key k v value t at l rest) [
          | inl found ↦ inl found
          | inr old ↦ inr (rw (r, if◌then◌else◌) old)
        ]
  ]
]

resume-cached :
    (cfg : Config) (key : Text) (value : Bool) (at now : ℕ) (w : Waiting)
    (answer : Result ErrorValue Bool) (s : AuthState)
    → cached_role key (resume cfg now w answer s).1.role_cache ≡ some (value, at)
    → Answered key value at (now, w, answer) ⊎ (cached_role key s.role_cache ≡ some (value, at))
unfolding resume consumed
resume-cached cfg key value at now (session_role address) (throw e) s h = inr h
resume-cached cfg key value at now (session_role address) (ok v) s h =
    elim (set_role-cached key (to_lower_case address) v value now at s.role_cache h) [
      | inl (k, e, t) ↦ inl (address, rw (e, t) refl, k)
      | inr q ↦ inr q
    ]
resume-cached cfg key value at now (signed_role address signature single) (throw e) s h = inr h
resume-cached cfg key value at now (signed_role address signature single) (ok false) s h = inr h
resume-cached cfg key value at now (signed_role address signature false) (ok true) s h = inr h
resume-cached cfg key value at now (signed_role address signature true) (ok true) s h = inr h

others-cached :
    (cfg : Config) (key : Text) (value : Bool) (at : ℕ) (others : List Other) (s : AuthState)
    → cached_role key (others_resume cfg others s).role_cache ≡ some (value, at)
    → Heard key value at others ⊎ (cached_role key s.role_cache ≡ some (value, at))
unfolding others_resume
others-cached cfg key value at [] s h = inr h
others-cached cfg key value at ((now, w, answer) ∷ rest) s h =
    elim (others-cached cfg key value at rest _ h) [
      | inl heard ↦ inl (inr heard)
      | inr q ↦ elim (resume-cached cfg key value at now w answer s q) [
        | inl found ↦ inl (inl found)
        | inr old ↦ inr old
      ]
    ]

-- A session stands behind the request, and the chain called its address an admin less than a minute
-- ago.
pub record Recent (cfg : Config) (now : ℕ) (req : Request) (others : List Other) (a : Text)
    : Type 0 where
  pub session : AdminSession
  pub is_session :
      read_session cfg.crypto cfg.secret now (read_session_cookie req.cookie) ≡ some session
  pub address : session.address ≡ a
  pub origin : origin_allowed cfg req ≡ true
  pub at : ℕ
  pub heard : Heard (to_lower_case a) true at others
  pub recent : now < at + 60000

known-cached :
    (now : ℕ) (address : Text) (value : Bool) (s : AuthState)
    → known_role now address s ≡ some value
    → (at : ℕ) × (cached_role (to_lower_case address) s.role_cache ≡ some (value, at))
      × (now < at + 60000)
unfolding known_role
known-cached now address value s e =
    elim (Option-cases (cached_role (to_lower_case address) s.role_cache)) [
      | inl q ↦ let bad = rw (q, known_role) at e in absurd (cc)
      | inr ((v, at), q) ↦ elim (Bool-cases (ltb (now - at) 60000)) [
        | inl t ↦
            let good = rw (q, t, known_role, if◌then◌else◌) at e in
            let v_is : v ≡ value = cc in (at, rw (← v_is) q, ground arith)
        | inr t ↦ let bad = rw (q, t, known_role, if◌then◌else◌) at e in absurd (cc)
      ]
    ]

decided-inj : {d e : Decision} → decided d ≡ decided e → d ≡ e
decided-inj q = cc

-- The checks of the time let nobody pass by themselves.
check_time-refuses :
    (max_age now : ℕ) (t : Option ℤ) (a : Text) → check_time max_age now t ≢ some (passed a)
unfolding check_time
check_time-refuses max_age now none a e = cc
check_time-refuses max_age now (some t) a e = elim (Bool-cases (ltb_ℤ (pos 999999999999) t)) [
  | inl p ↦ let bad = rw (p, check_time, if◌then◌else◌) at e in cc
  | inr p ↦ elim (Bool-cases (ltb_ℤ (pos max_age) (message_age now t))) [
    | inl q ↦ let bad = rw (p, q, check_time, if◌then◌else◌) at e in cc
    | inr q ↦ elim (Bool-cases (ltb_ℤ (message_age now t) clock_skew)) [
      | inl r ↦ let bad = rw (p, q, r, check_time, if◌then◌else◌) at e in cc
      | inr r ↦ let bad = rw (p, q, r, check_time, if◌then◌else◌) at e in cc
    ]
  ]
]

verified_asks :
    (cfg : Config) (now : ℕ) (message signature : Text) (single : Bool) (a : Text)
    → verify_signed_request cfg now message signature single ≢ decided (passed a)
unfolding verify_signed_request
verified_asks cfg now message signature single a e =
    elim (Option-cases (cfg.verify_message message signature)) [
      | inl q ↦ let bad = rw (q, verify_signed_request) at e in absurd (cc)
      | inr (address, q) ↦
          elim (Option-cases (check_time cfg.max_message_age_ms now (message_time message))) [
            | inl t ↦ let bad = rw (q, t, verify_signed_request) at e in absurd (cc)
            | inr (d, t) ↦
                let good = rw (q, t, verify_signed_request) at e in
                let is : d ≡ passed a = decided-inj good in
                check_time-refuses cfg.max_message_age_ms now (message_time message) a (rw is at t)
          ]
    ]

-- A known role lets the address of the session pass if it is that of an admin.
role_passed :
    (address a : Text) (value : Bool)
    → role_decision address value ≡ passed a
    → (value ≡ true) × (address ≡ a)
role_passed address a true e = (refl, cc)
role_passed address a false e = absurd (cc)

cached_pass :
    (cfg : Config) (now : ℕ) (req : Request) (others : List Other) (s : AuthState) (a : Text)
    (session : AdminSession) (value : Bool)
    → s.role_cache ≡ []
    → read_session cfg.crypto cfg.secret now (read_session_cookie req.cookie) ≡ some session
    → origin_allowed cfg req ≡ true
    → known_role now session.address (others_resume cfg others s) ≡ some value
    → role_decision session.address value ≡ passed a
    → Recent cfg now req others a
unfolding cached_role
cached_pass cfg now req others s a session value empty q o k d =
    let (granted, same) = role_passed session.address a value d in
    let (at, c, recent) = known-cached now session.address value (others_resume cfg others s) k in
    let key = ap to_lower_case same in
    elim (others-cached cfg (to_lower_case session.address) value at others s c) [
      | inr old ↦ absurd (let bad = rw (empty, cached_role) at old in cc)
      | inl heard ↦ record {
        session = session;
        is_session = q;
        address = same;
        origin = o;
        at = at;
        heard = rw (← key, ← granted) heard;
        recent = recent;
      }
    ]

-- If a request passes without asking the chain, in a process that began with an empty cache: its cookie
-- is a session of that address, its origin is allowed, and less than a minute ago the chain answered
-- that an address with the same key is an admin.
pub require_admin-Recent :
    (cfg : Config) (now : ℕ) (req : Request) (others : List Other) (s : AuthState) (a : Text)
    → s.role_cache ≡ []
    → require_admin cfg now req (others_resume cfg others s) ≡ decided (passed a)
    → Recent cfg now req others a
unfolding require_admin
require_admin-Recent cfg now req others s a empty e =
    let t = others_resume cfg others s in
    elim (Option-cases (read_session cfg.crypto cfg.secret now (read_session_cookie req.cookie))) [
      | inl q ↦ elim (Option-cases (admin_signature req)) [
        | inl g ↦ let bad = rw (q, g, require_admin) at e in absurd (cc)
        | inr (signature, g) ↦ elim (Option-cases (admin_message req)) [
          | inl m ↦ let bad = rw (q, g, m, require_admin) at e in absurd (cc)
          | inr (message, m) ↦
              absurd
                (verified_asks cfg now message signature false a (rw (q, g, m, require_admin) at e))
        ]
      ]
      | inr (session, q) ↦ elim (Bool-cases (origin_allowed cfg req)) [
        | inr o ↦ let bad = rw (q, o, require_admin, not, if◌then◌else◌) at e in absurd (cc)
        | inl o ↦ elim (Option-cases (known_role now session.address t)) [
          | inl k ↦ let bad = rw (q, o, k, require_admin, not, if◌then◌else◌) at e in absurd (cc)
          | inr (value, k) ↦
              let good = rw (q, o, k, require_admin, not, if◌then◌else◌) at e in
              cached_pass cfg now req others s a session value empty q o k (decided-inj good)
        ]
      ]
    ]
