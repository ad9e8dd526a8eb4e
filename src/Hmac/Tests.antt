-- ===== src/Hmac/Tests.antt =====
-- A concrete stand-in for Node's functions, and tokens issued with it.
use vpp_blockchain.Base.{
  ℕ, ◌+◌, ◌≡◌, refl, true, ◌↔◌, ◌≢◌, arith, false, List, [], ◌∷◌, Text, codes, show_nat,
}
use vpp_blockchain.Base.Exec.{ok}
use vpp_blockchain.Hmac.{Primitives, Documented, canonical_message, issue_token, verify_token}
use vpp_blockchain.Hmac.Tokens.{verify_token_iff, verify_token-issue_token}

abbrev sum : List ℕ → ℕ
sum [] = 0
sum (x ∷ xs) = x + sum xs

abbrev eight : ℕ → List ℕ → List ℕ
eight n rest = n ∷ n ∷ n ∷ n ∷ n ∷ n ∷ n ∷ n ∷ rest

-- The digest repeats a checksum; the codec is the identity.
abbrev node : Primitives
node = record {
  hmac = λ key message. let n = sum key + sum message in eight n (eight n (eight n (eight n [])));
  to_base64url = λ bytes. bytes;
  from_base64url = λ text. text;
}

node-Documented : Documented node
node-Documented = record { digest_length = λ key message. refl; decode_encode = λ bytes. refl }

abbrev nonce : Text
nonce = codes "0123456789abcdef"

abbrev message : Text
message = codes "v1|7|0123456789abcdef"

abbrev key : Text
key = codes "secret"

abbrev token : Text
token = node.hmac key message

verify_token_iff_example :
    ((verify_token node 7 nonce key token ≡ ok true) ↔ (token ≡ token))
    × ((verify_token node 7 nonce key token ≡ ok false) ↔ (token ≢ token))
unfolding show_nat
verify_token_iff_example =
    verify_token_iff node node-Documented 7 b'0' (codes "123456789abcdef") key token
      (λ e. absurd (omega arith))

issued : issue_token node 7 nonce key ≡ ok token
unfolding issue_token canonical_message show_nat
issued = refl

verify_token-issue_token_example : verify_token node 7 nonce key token ≡ ok true
verify_token-issue_token_example =
    verify_token-issue_token node node-Documented 7 nonce key token issued
