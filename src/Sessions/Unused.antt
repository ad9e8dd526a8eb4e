-- ===== src/Sessions/Unused.antt =====
-- The entries of the two maps that make a login nonce, and the signature of an action, single-use
-- (packages/backend/src/services/admin-session.ts and packages/backend/src/middleware/auth.ts).
use vpp_blockchain.Base.{
  ℕ, ◌<◌, ◌≡◌, refl, false, [], ◌∷◌, arith, All, ltb, Bool-cases, Text, text_eq, text_eq_iff, ◌↔◌,
  inl, inr, ltb→lt,
}
use vpp_blockchain.Sessions.{UsedNonces, drop_expired, is_used_login}

-- Every entry of the nonce has expired.
abbrev pub IsUnused : ℕ → Text → UsedNonces → Type 0
IsUnused now nonce used = All (λ entry. nonce ≡ entry.0 → entry.1 < now) used

fresh_entries :
    (now : ℕ) (nonce : Text) (used : UsedNonces)
    → is_used_login nonce (drop_expired now used) ≡ false
    → IsUnused now nonce used
unfolding is_used_login drop_expired
fresh_entries now nonce [] h = tt
fresh_entries now nonce ((n, exp) ∷ used) h = elim (Bool-cases (ltb exp now)) [
  | inl t ↦ (λ _. ltb→lt exp now t, fresh_entries now nonce used (ground (arith, h, t)))
  | inr f ↦ (
    λ e. ground (arith, h, f, (text_eq_iff nonce n).1 e),
    fresh_entries now nonce used (ground (arith, h, f)),
  )
]

entries_fresh :
    (now : ℕ) (nonce : Text) (used : UsedNonces)
    → IsUnused now nonce used
    → is_used_login nonce (drop_expired now used) ≡ false
unfolding is_used_login drop_expired
entries_fresh now nonce [] h = refl
entries_fresh now nonce ((n, exp) ∷ used) h = elim (Bool-cases (text_eq nonce n)) [
  | inl t ↦
      let late : exp < now = h.0 ((text_eq_iff nonce n).0 t) in
      ground (arith, entries_fresh now nonce used h.1, late)
  | inr f ↦ ground (arith, entries_fresh now nonce used h.1, f)
]

pub is_used_login_iff :
    (now : ℕ) (nonce : Text) (used : UsedNonces)
    → (is_used_login nonce (drop_expired now used) ≡ false) ↔ IsUnused now nonce used
is_used_login_iff now nonce used = (fresh_entries now nonce used, entries_fresh now nonce used)
