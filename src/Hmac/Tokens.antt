-- ===== src/Hmac/Tokens.antt =====
-- On the messages and tokens of packages/backend/src/services/hmac.ts.
use vpp_blockchain.Base.{
  ℕ, ◌≡◌, refl, ap, Bool, true, false, List, [], ◌∷◌, arith, ◌==◌, ==_iff, if◌then◌else◌, Text,
  text_eq, text_eq_iff, text_eq_refl, length, includes, ◌↔◌, ◌≢◌, inl, inr, ◌++◌, ◌∙◌, codes,
  show_nat, Bool-cases, sym,
}
use vpp_blockchain.Base.Exec.{Result, ok, Result-cases}
use vpp_blockchain.Base.Decimal.{show_nat_split}
use vpp_blockchain.Hmac.{
  Primitives, Documented, TokenError, canonical_message, timing_safe_equal, issue_token,
  verify_token, is_url_safe, all_url_safe,
}

-- Two pairs of survey and nonce never share the message that is signed.
pub canonical_message-inj :
    (m n : ℕ) (x y message : Text)
    → canonical_message m x ≡ ok message
    → canonical_message n y ≡ ok message
    → (m ≡ n) × (x ≡ y)
unfolding canonical_message
canonical_message-inj m n [] y message hx hy = absurd (ground arith)
canonical_message-inj m n (a ∷ x) [] message hx hy = absurd (ground arith)
canonical_message-inj m n (a ∷ x) (b ∷ y) message hx hy =
    show_nat_split b'|' m n (a ∷ x) (b ∷ y) (omega arith) (ground arith)

-- The end of `verifyToken`, after the message was made.
checked : (provided digest : List ℕ) → Result TokenError Bool
unfolding timing_safe_equal
checked provided digest =
    if length provided == 32
    then if length digest == length provided then timing_safe_equal digest provided else ok false
    else ok false

checked-text_eq :
    (provided digest : List ℕ)
    → length digest ≡ 32
    → checked provided digest ≡ ok (text_eq digest provided)
unfolding checked timing_safe_equal
checked-text_eq provided digest size = elim (Bool-cases (text_eq digest provided)) [
  | inl t ↦
      let same = (text_eq_iff digest provided).0 t in rw (← same, size, text_eq_refl digest) refl
  | inr f ↦ ground (arith, f, size)
]

decided :
    (provided digest : List ℕ) (r : Result TokenError Bool)
    → r ≡ ok (text_eq digest provided)
    → ((r ≡ ok true) ↔ (provided ≡ digest)) × ((r ≡ ok false) ↔ (provided ≢ digest))
decided provided digest r e =
    let same = text_eq_iff digest provided in
    (
      (
        λ h. let t : text_eq digest provided ≡ true = cc in sym (same.0 t),
        λ h. e ∙ ap ok (same.1 (sym h)),
      ),
      (
        λ h p. let t = same.1 (sym p) in cc,
        λ h. elim (Bool-cases (text_eq digest provided)) [
          | inl t ↦ absurd (h (sym (same.0 t)))
          | inr f ↦ cc
        ],
      ),
    )

module _ (node : Primitives) (documented : Documented node) where
  verify_token-digest :
      (survey_id : ℕ) (nonce key token message : Text)
      → canonical_message survey_id nonce ≡ ok message
      → let digest = node.hmac (node.from_base64url key) message in
        verify_token node survey_id nonce key token
        ≡ ok (text_eq digest (node.from_base64url token))
  unfolding verify_token checked
  verify_token-digest survey_id nonce key token message made =
      rw (made, verify_token)
        (checked-text_eq (node.from_base64url token) (node.hmac (node.from_base64url key) message)
          (documented.digest_length (node.from_base64url key) message))

  -- With Node's functions as documented, for a survey whose number is not 0 and a nonce that is not empty:
  -- the check of a token never throws; it is true exactly if the token decodes to the digest, under the
  -- survey's key, of the text `v1|survey|nonce`, and false exactly if it does not.
  pub verify_token_iff :
      (survey_id : ℕ) (c : ℕ) (nonce key token : Text)
      → survey_id ≢ 0
      → let digest =
          node.hmac
            (node.from_base64url key)
            (codes "v1|" ++ show_nat survey_id ++ b'|' ∷ c ∷ nonce) in
        ((verify_token node survey_id (c ∷ nonce) key token ≡ ok true)
          ↔ (node.from_base64url token ≡ digest))
        × ((verify_token node survey_id (c ∷ nonce) key token ≡ ok false)
            ↔ (node.from_base64url token ≢ digest))
  unfolding canonical_message
  verify_token_iff survey_id c nonce key token positive =
      let message : Text = codes "v1|" ++ show_nat survey_id ++ b'|' ∷ c ∷ nonce in
      let made : canonical_message survey_id (c ∷ nonce) ≡ ok message = ground (arith, positive) in
      decided (node.from_base64url token) (node.hmac (node.from_base64url key) message) _
        (verify_token-digest survey_id (c ∷ nonce) key token message made)

  -- With Node's functions as documented: a token that was issued verifies for the survey, nonce and key
  -- that it was issued for.
  pub verify_token-issue_token :
      (survey_id : ℕ) (nonce key token : Text)
      → issue_token node survey_id nonce key ≡ ok token
      → verify_token node survey_id nonce key token ≡ ok true
  unfolding issue_token
  verify_token-issue_token survey_id nonce key token e =
      elim (Result-cases (canonical_message survey_id nonce)) [
        | inr (x, q) ↦ absurd (let bad = rw (q, issue_token) at e in cc)
        | inl (message, q) ↦
            let digest = node.hmac (node.from_base64url key) message in
            let issued = rw (q, issue_token) at e in
            let t : node.to_base64url digest ≡ token = cc in
            let decoded : node.from_base64url token ≡ digest =
              rw (← t) (documented.decode_encode digest) in
            verify_token-digest survey_id nonce key token message q
            ∙ ap ok ((text_eq_iff digest (node.from_base64url token)).1 (sym decoded))
      ]

-- A nonce of the accepted shape contains no separator of the composite key or of the signed message.
separator_free :
    (c : ℕ) (s : Text) → is_url_safe c ≡ false → all_url_safe s ≡ true → includes c s ≡ false
unfolding all_url_safe includes
separator_free c [] h a = refl
separator_free c (x ∷ s) h a = ground (arith, separator_free c s h, ==_iff x c)
