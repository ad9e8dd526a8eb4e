-- ===== src/Sessions/Genuine.antt =====
-- Which tokens packages/backend/src/services/admin-session.ts accepts, and its login nonces.
use vpp_blockchain.Base.{
  ℕ, ◌*◌, ◌≤◌, ◌<◌, ◌≡◌, refl, Bool, true, false, ◌&&◌, not, some, List, [], ◌∷◌, ◌++◌, ltb, arith,
  Bool-cases, if◌then◌else◌, Text, text_eq, text_eq_iff, text_eq_refl, codes, inl, inr, ap, ltb→lt,
}
use vpp_blockchain.Sessions.{
  Crypto, AdminSession, mac, read_parts, read_session, split_dot, number_of, is_lower_address,
  is_number, UsedNonces, drop_expired, is_used_login, consume_login_nonce,
}

-- An address, an expiry and a signature stand behind a session.
pub record Backed (crypto : Crypto) (secret : Text) (now : ℕ) (parts : List Text) (s : AdminSession)
    : Type 0 where
  pub lower : Text
  pub exp : Text
  pub sig : Text
  pub rest : List Text
  pub split : parts ≡ lower ∷ exp ∷ sig ∷ rest
  pub signed : sig ≡ mac crypto secret (codes "session" ∷ lower ∷ exp ∷ [])
  pub address : s.address ≡ crypto.get_address lower
  pub expiry : s.expires_at ≡ number_of 0 exp * 1000
  pub alive : now < s.expires_at

last_two : (a b c d f : Bool) → (a && b && c && d && f) ≡ true → (d ≡ true) × (f ≡ true)
last_two true true true true true h = (refl, refl)
last_two false b c d f h = absurd (cc)
last_two true false c d f h = absurd (cc)
last_two true true false d f h = absurd (cc)
last_two true true true false f h = absurd (cc)
last_two true true true true false h = absurd (cc)

abbrev checks : Crypto → Text → ℕ → (lower exp sig : Text) → Bool
checks crypto secret now lower exp sig =
    not (text_eq sig [])
    && is_lower_address lower
    && is_number exp
    && text_eq sig (mac crypto secret (codes "session" ∷ lower ∷ exp ∷ []))
    && ltb now (number_of 0 exp * 1000)

read_parts-Backed :
    (crypto : Crypto) (secret : Text) (now : ℕ) (parts : List Text) (s : AdminSession)
    → read_parts crypto secret now parts ≡ some s
    → Backed crypto secret now parts s
unfolding read_parts
read_parts-Backed crypto secret now [] s e = absurd (cc)
read_parts-Backed crypto secret now (a ∷ []) s e = absurd (cc)
read_parts-Backed crypto secret now (a ∷ b ∷ []) s e = absurd (cc)
read_parts-Backed crypto secret now (lower ∷ exp ∷ sig ∷ rest) s e =
    elim (Bool-cases (checks crypto secret now lower exp sig)) [
      | inr t ↦ absurd (let bad = rw (t, read_parts, if◌then◌else◌) at e in cc)
      | inl t ↦
          let got = rw (t, read_parts, if◌then◌else◌) at e in
          let (signed, alive) =
            last_two (not (text_eq sig [])) (is_lower_address lower) (is_number exp)
              (text_eq sig (mac crypto secret (codes "session" ∷ lower ∷ exp ∷ [])))
              (ltb now (number_of 0 exp * 1000)) t in
          let same : s
              ≡ record { address = crypto.get_address lower; expires_at = number_of 0 exp * 1000 } =
            cc in
          record {
            lower = lower;
            exp = exp;
            sig = sig;
            rest = rest;
            split = refl;
            signed =
                (text_eq_iff sig (mac crypto secret (codes "session" ∷ lower ∷ exp ∷ []))).0 signed;
            address = ap (λ x. x.address) same;
            expiry = ap (λ x. x.expires_at) same;
            alive = rw (same) (ltb→lt now (number_of 0 exp * 1000) alive);
          }
    ]

-- A token that is accepted as a session of some address carries the signature of exactly its address and
-- expiry under the secret, and the session has not expired.
pub read_session-Backed :
    (crypto : Crypto) (secret : Text) (now : ℕ) (token : Text) (s : AdminSession)
    → read_session crypto secret now (some token) ≡ some s
    → Backed crypto secret now (split_dot [] token) s
unfolding read_session
read_session-Backed crypto secret now [] s e = absurd (cc)
read_session-Backed crypto secret now (c ∷ token) s e =
    read_parts-Backed crypto secret now (split_dot [] (c ∷ token)) s e

kept-append :
    (nonce : Text) (at later : ℕ) (l : UsedNonces)
    → later ≤ at
    → is_used_login nonce (drop_expired later (l ++ (nonce, at) ∷ [])) ≡ true
unfolding is_used_login drop_expired
kept-append nonce at later [] h = let r = text_eq_refl nonce in ground arith
kept-append nonce at later ((n, exp) ∷ l) h = ground (arith, kept-append nonce at later l h)

-- A login nonce that a process accepted is refused by it at any later time up to its expiry.
pub consume_login_nonce_once :
    (now later : ℕ) (nonce : Text) (expires_at other : ℕ) (used : UsedNonces)
    → (consume_login_nonce now nonce expires_at used).0 ≡ true
    → later ≤ expires_at
    → (consume_login_nonce later nonce other (consume_login_nonce now nonce expires_at used).1).0
      ≡ false
unfolding consume_login_nonce
consume_login_nonce_once now later nonce expires_at other used e h =
    elim (Bool-cases (is_used_login nonce (drop_expired now used))) [
      | inl t ↦ absurd (let bad = rw (t, consume_login_nonce, if◌then◌else◌) at e in cc)
      | inr t ↦
          rw
            (
              t,
              consume_login_nonce,
              if◌then◌else◌,
              kept-append nonce expires_at later (drop_expired now used) h,
            )
            refl
    ]
