-- ===== src/Sessions/RoundTrip.antt =====
-- packages/backend/src/services/admin-session.ts: a session token is read back until it expires.
use mathlib.Core.List.{append_assoc, append-nil}
use vpp_blockchain.Base.{
  ℕ, ◌+◌, ◌*◌, ◌/◌, ◌≡◌, ◌≢◌, refl, sym, ◌∙◌, ap, true, false, &&_both, none, some, [], ◌∷◌, ◌++◌,
  ltb, ◌==◌, arith, if◌then◌else◌, Text, text_eq, text_eq_refl, codes, show_nat, to_lower_case,
  includes,
}
use vpp_blockchain.Sessions.{
  Crypto, mac, issue_session, read_parts, read_session, split_dot, number_of, is_lower_address,
  is_number, is_hex, all_of,
}
use vpp_blockchain.Sessions.Numbers.{number_of-show_nat, is_number-show_nat, without-show_nat}

split_dot_at :
    (part a b : Text)
    → includes b'.' a ≡ false
    → split_dot part (a ++ b'.' ∷ b) ≡ (part ++ a) ∷ split_dot [] b
unfolding split_dot includes
split_dot_at part [] b h = ap (λ t. t ∷ split_dot [] b) (sym (append-nil part))
split_dot_at part (c ∷ a) b h =
    let other : (c == b'.') ≡ false = ground (arith, h) in
    rw (other, if◌then◌else◌)
      (split_dot_at (part ++ c ∷ []) a b (ground (arith, h))
        ∙ ap (λ t. t ∷ split_dot [] b) (append_assoc part (c ∷ []) a))

split_dot_end : (part a : Text) → includes b'.' a ≡ false → split_dot part a ≡ (part ++ a) ∷ []
unfolding split_dot includes
split_dot_end part [] h = ap (λ t. t ∷ []) (sym (append-nil part))
split_dot_end part (c ∷ a) h =
    let other : (c == b'.') ≡ false = ground (arith, h) in
    rw (other, if◌then◌else◌)
      (split_dot_end (part ++ c ∷ []) a (ground (arith, h))
        ∙ ap (λ t. t ∷ []) (append_assoc part (c ∷ []) a))

hex_no_dot : (s : Text) → all_of is_hex s ≡ true → includes b'.' s ≡ false
unfolding all_of is_hex includes
hex_no_dot [] h = refl
hex_no_dot (c ∷ s) h =
    let (x, y) = &&_both (is_hex c) (all_of is_hex s) h in ground (arith, hex_no_dot s y)

address_no_dot : (s : Text) → is_lower_address s ≡ true → includes b'.' s ≡ false
unfolding is_lower_address includes
address_no_dot [] h = absurd (cc)
address_no_dot (a ∷ []) h = absurd (cc)
address_no_dot (a ∷ b ∷ s) h = ground (arith, h, hex_no_dot s)

read_text :
    (crypto : Crypto) (secret : Text) (now : ℕ) (lower rest : Text)
    → is_lower_address lower ≡ true
    → read_session crypto secret now (some (lower ++ rest))
      ≡ read_parts crypto secret now (split_dot [] (lower ++ rest))
unfolding read_session is_lower_address
read_text crypto secret now [] rest h = absurd (cc)
read_text crypto secret now (a ∷ lower) rest h = refl

split_token :
    (lower exp sig : Text)
    → includes b'.' lower ≡ false
    → includes b'.' exp ≡ false
    → includes b'.' sig ≡ false
    → split_dot [] (lower ++ b'.' ∷ exp ++ b'.' ∷ sig) ≡ lower ∷ exp ∷ sig ∷ []
split_token lower exp sig hl he hs =
    ap (split_dot []) (append_assoc lower (b'.' ∷ exp) (b'.' ∷ sig))
    ∙ split_dot_at [] lower (exp ++ b'.' ∷ sig) hl
    ∙ ap (λ l. lower ∷ l) (split_dot_at [] exp sig he)
    ∙ ap (λ l. lower ∷ exp ∷ l) (split_dot_end [] sig hs)

not_empty : (s : Text) → s ≢ [] → text_eq s [] ≡ false
unfolding text_eq
not_empty [] h = absurd (h refl)
not_empty (c ∷ s) h = refl

read_parts-issued :
    (crypto : Crypto) (secret : Text) (now : ℕ) (lower exp : Text)
    → let sig = mac crypto secret (codes "session" ∷ lower ∷ exp ∷ []) in
      sig ≢ []
      → is_lower_address lower ≡ true
      → is_number exp ≡ true
      → read_parts crypto secret now (lower ∷ exp ∷ sig ∷ []) ≡ (
          if ltb now (number_of 0 exp * 1000)
          then some
              (record { address = crypto.get_address lower; expires_at = number_of 0 exp * 1000 })
          else none)
unfolding read_parts
read_parts-issued crypto secret now lower exp filled valid digits =
    let sig = mac crypto secret (codes "session" ∷ lower ∷ exp ∷ []) in
    rw (not_empty sig filled, valid, digits, text_eq_refl sig, read_parts) refl

-- A token for an address that `getAddress` spells with 40 hexadecimal digits, where a digest is a text
-- without a dot that is not empty: before its expiry it is read back as the session that was issued with
-- it, and from its expiry on as none.
pub read_session-issue_session :
    (crypto : Crypto) (secret : Text) (hours issued now : ℕ) (address : Text)
    → is_lower_address (to_lower_case (crypto.get_address address)) ≡ true
    → ((key message : Text) → includes b'.' (crypto.hmac_hex key message) ≡ false)
    → ((key message : Text) → crypto.hmac_hex key message ≢ [])
    → read_session crypto secret now (some (issue_session crypto secret hours issued address).0) ≡ (
        if ltb now ((issued / 1000 + hours * 3600) * 1000)
        then some (issue_session crypto secret hours issued address).1
        else none)
unfolding issue_session mac
read_session-issue_session crypto secret hours issued now address valid plain filled =
    let lower = to_lower_case (crypto.get_address address) in
    let exp : ℕ = issued / 1000 + hours * 3600 in
    let sig = mac crypto secret (codes "session" ∷ lower ∷ show_nat exp ∷ []) in
    let parts : split_dot [] (lower ++ b'.' ∷ show_nat exp ++ b'.' ∷ sig)
        ≡ lower ∷ show_nat exp ∷ sig ∷ [] =
      split_token lower (show_nat exp) sig (address_no_dot lower valid)
        (without-show_nat b'.' exp refl) (plain secret _) in
    ap (λ t. read_session crypto secret now (some t))
      (append_assoc lower (b'.' ∷ show_nat exp) (b'.' ∷ sig))
    ∙ read_text crypto secret now lower (b'.' ∷ show_nat exp ++ b'.' ∷ sig) valid
    ∙ ap (λ t. read_parts crypto secret now (split_dot [] t))
        (sym (append_assoc lower (b'.' ∷ show_nat exp) (b'.' ∷ sig)))
    ∙ ap (read_parts crypto secret now) parts
    ∙ read_parts-issued crypto secret now lower (show_nat exp) (filled secret _) valid
        (is_number-show_nat exp)
    ∙ ap
        (λ n.
          if ltb now (n * 1000)
          then some (record { address = crypto.get_address lower; expires_at = n * 1000 })
          else none)
        (number_of-show_nat exp)
