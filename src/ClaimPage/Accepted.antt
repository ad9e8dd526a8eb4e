-- ===== src/ClaimPage/Accepted.antt =====
-- What packages/frontend/src/pages/claim.tsx sends passes the checks of the message in
-- packages/backend/src/routes/claim.ts.
use mathlib.Core.List.{append_assoc, append-nil}
use vpp_blockchain.Base.{
  ℕ, suc, ◌+◌, ◌/◌, ◌≤◌, ◌<◌, ◌≡◌, leb, refl, ap, subst, sym, ◌∙◌, true, false, Option, none, some,
  [], ◌∷◌, ◌++◌, arith, Text, text_eq_iff, to_lower_case, show_nat, includes, codes, ◌==◌,
  if◌then◌else◌,
}
use vpp_blockchain.Base.Decimal.{includes-show_nat}
use vpp_blockchain.Base.Parse.{parse_int-show_nat}
use vpp_blockchain.Base.Int.{pos, parse_int, ltb_ℤ}
use vpp_blockchain.Hmac.{Primitives}
use vpp_blockchain.Server.{now, Prog, done, fail, call, ◌>>=◌}
use vpp_blockchain.Claim.{
  Ethers, Settings, ClaimRequest, last_part, message_age, clock_skew, check_message, ClaimBody,
  Json, num, str, claim_schema,
}
use vpp_blockchain.ClaimPage.{
  Link, Params, read_link, all_given, claim_message, number_of_text, claim_request,
}
use vpp_blockchain.Sessions.Numbers.{number_of-show_nat, is_number-show_nat}

last_part-colon : (part a b : Text) → last_part part (a ++ b':' ∷ b) ≡ last_part [] b
unfolding last_part
last_part-colon part [] b = refl
last_part-colon part (c ∷ a) b = last_part-colon (if c == b':' then [] else part ++ c ∷ []) a b

last_part-plain : (part a : Text) → includes b':' a ≡ false → last_part part a ≡ part ++ a
unfolding last_part includes
last_part-plain part [] h = sym (append-nil part)
last_part-plain part (c ∷ a) h =
    let other : (c == b':') ≡ false = ground (arith, h) in
    rw other (last_part-plain (part ++ c ∷ []) a (ground (arith, h)) ∙ append_assoc part (c ∷ []) a)

-- The result of a program that asks for the time only.
pub on_clock : {A : Type 0} → ℕ → Prog A → Option A
on_clock at (done a) = some a
on_clock at (fail e) = none
on_clock at (call now k) = on_clock at (k at)
on_clock at (call _ k) = none

-- The parameters of a link that the page takes are not empty.
data IsGiven : Link → Type 0 where
  given :
      (s n t : ℕ) (survey_id nonce token : Text)
      → IsGiven (record { survey_id = s ∷ survey_id; nonce = n ∷ nonce; token = t ∷ token })

all_given-IsGiven : (a b c : Option Text) (link : Link) → all_given a b c ≡ some link → IsGiven link
unfolding all_given
all_given-IsGiven none b c link e = absurd (cc e)
all_given-IsGiven (some []) b c link e = absurd (cc e)
all_given-IsGiven (some (s ∷ survey_id)) none c link e = absurd (cc e)
all_given-IsGiven (some (s ∷ survey_id)) (some []) c link e = absurd (cc e)
all_given-IsGiven (some (s ∷ survey_id)) (some (n ∷ nonce)) none link e = absurd (cc e)
all_given-IsGiven (some (s ∷ survey_id)) (some (n ∷ nonce)) (some []) link e = absurd (cc e)
all_given-IsGiven (some (s ∷ survey_id)) (some (n ∷ nonce)) (some (t ∷ token)) link e =
    subst IsGiven (cc e) (given s n t survey_id nonce token)

-- The timestamp that the backend finds is the one that the page wrote.
timestamp_found :
    (link : Link) (address : Text) (at : ℕ)
    → parse_int (last_part [] (claim_message link address at)) ≡ some (pos (at / 1000))
unfolding claim_message
timestamp_found link address at =
    let stamp = show_nat (at / 1000) in
    let cut : last_part [] (claim_message link address at) ≡ stamp =
      last_part-colon [] (codes "Claim:" ++ link.survey_id ++ b':' ∷ address) stamp
      ∙ last_part-plain [] stamp (includes-show_nat b':' (at / 1000) (omega arith)) in
    rw cut (parse_int-show_nat (at / 1000))

in_time :
    (at arrives limit : ℕ)
    → at ≤ arrives + 60000
    → arrives + 999 ≤ at + limit
    → (ltb_ℤ (pos limit) (message_age arrives (pos (at / 1000))) ≡ false)
      × (ltb_ℤ (message_age arrives (pos (at / 1000))) clock_skew ≡ false)
unfolding message_age
in_time at arrives limit early late = (ground arith, ground arith)

number_of_text-show_nat :
    (other_spelling : Text → Json) (n : ℕ)
    → n ≤ 9007199254740991
    → number_of_text other_spelling (show_nat n) ≡ num n
unfolding number_of_text
number_of_text-show_nat other_spelling n h =
    let small : leb n 9007199254740991 ≡ true = ground arith in
    rw (is_number-show_nat n, number_of-show_nat n, small) refl

abbrev body_with : Link → Json → (address signature : Text) → ℕ → ClaimBody
body_with link number address signature at = record {
  wallet_address = str address;
  survey_id = number;
  nonce = str link.nonce;
  token = str link.token;
  signature = str signature;
  message = str (claim_message link address at);
}

module _ (ethers : Ethers) (node : Primitives) (settings : Settings) where
  check_message-passes :
      (request : ClaimRequest) (signer : Text) (at arrives : ℕ)
      → parse_int (last_part [] request.message) ≡ some (pos (at / 1000))
      → ethers.verify_message request.message request.signature ≡ some signer
      → to_lower_case signer ≡ to_lower_case request.wallet_address
      → at ≤ arrives + 60000
      → arrives + 999 ≤ at + settings.max_message_age_ms
      → on_clock arrives (check_message ethers node settings request) ≡ some tt
  unfolding check_message on_clock ◌>>=◌
  check_message-passes request signer at arrives stamp verified own early late =
      let (young, ahead) = in_time at arrives settings.max_message_age_ms early late in
      let same =
        (text_eq_iff (to_lower_case signer) (to_lower_case request.wallet_address)).1 own in
      rw (stamp, verified) (ground (arith, young, ahead, same))

  -- The request that the schema makes of the body.
  abbrev pub parsed : Link → ℕ → (address signature : Text) → ℕ → ClaimRequest
  parsed link n address signature at = record {
    wallet_address = address;
    survey_id = n;
    nonce = link.nonce;
    token = link.token;
    signature = signature;
    message = claim_message link address at;
  }

  body-accepts :
      (link : Link) (n : ℕ) (address : Text) (c : ℕ) (signature : Text) (at : ℕ)
      → IsGiven link
      → ethers.is_address address ≡ true
      → claim_schema ethers (body_with link (num (suc n)) address (c ∷ signature) at)
        ≡ some (parsed link (suc n) address (c ∷ signature) at)
  unfolding claim_schema claim_message
  body-accepts link n address c signature at (given _ _ _ _ _ _) h =
      let positive : (suc n == 0) ≡ false = ground arith in rw (h, claim_schema, positive) refl

  schema-accepts :
      (other_spelling : Text → Json) (link : Link) (n : ℕ) (address : Text) (c : ℕ)
      (signature : Text) (at : ℕ)
      → IsGiven link
      → number_of_text other_spelling link.survey_id ≡ num (suc n)
      → ethers.is_address address ≡ true
      → claim_schema ethers (claim_request other_spelling link address (c ∷ signature) at)
        ≡ some (parsed link (suc n) address (c ∷ signature) at)
  unfolding claim_request
  schema-accepts other_spelling link n address c signature at filled number h =
      ap (λ j. claim_schema ethers (body_with link j address (c ∷ signature) at)) number
      ∙ body-accepts link n address c signature at filled h

  -- For a link with a nonce, a token and the number of a survey, as it is printed, from 1 to the largest
  -- safe integer: a claim that the page signs, with a signature that is not empty, with the wallet of its
  -- address, which ethers takes for an address, and that reaches the backend in time and from a clock at
  -- most a minute ahead, is read by the schema as the claim of that survey with the link's nonce and token,
  -- and passes the check of the message's time and the check of its signature.
  pub page-accepted :
      (other_spelling : Text → Json) (fragment query : Params) (link : Link) (n : ℕ)
      (address signer : Text) (c : ℕ) (signature : Text) (at arrives : ℕ)
      → read_link fragment query ≡ some link
      → link.survey_id ≡ show_nat (suc n)
      → n < 9007199254740991
      → ethers.is_address address ≡ true
      → ethers.verify_message (claim_message link address at) (c ∷ signature) ≡ some signer
      → to_lower_case signer ≡ to_lower_case address
      → at ≤ arrives + 60000
      → arrives + 999 ≤ at + settings.max_message_age_ms
      → (claim_schema ethers (claim_request other_spelling link address (c ∷ signature) at)
          ≡ some (parsed link (suc n) address (c ∷ signature) at))
        × (on_clock arrives
              (check_message ethers node settings (parsed link (suc n) address (c ∷ signature) at))
            ≡ some tt)
  unfolding read_link
  page-accepted other_spelling fragment query link n address signer c signature at arrives e printed
        safe valid verified own early late =
      let number : number_of_text other_spelling link.survey_id ≡ num (suc n) =
        rw printed (number_of_text-show_nat other_spelling (suc n) (omega arith)) in
      (
        schema-accepts other_spelling link n address c signature at (all_given-IsGiven _ _ _ link e)
            number valid,
        check_message-passes (parsed link (suc n) address (c ∷ signature) at) signer at arrives
            (timestamp_found link address at) verified own early late,
      )
