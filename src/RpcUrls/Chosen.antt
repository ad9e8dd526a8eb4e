-- ===== src/RpcUrls/Chosen.antt =====
-- The list that getEffectiveRpcUrls of packages/backend/src/services/blockchain.ts makes.
use vpp_blockchain.Base.{
  ◌≡◌, ◌≢◌, ◌↔◌, ◌⊎◌, All, refl, sym, ◌∙◌, Bool, true, false, ◌&&◌, ◌||◌, not, Option, none, some,
  List, [], ◌∷◌, ◌++◌, arith, if◌then◌else◌, Text, text_eq_iff, text_eq_refl, has, add, has-append,
  has-add, Bool-cases, inl, inr,
}
use vpp_blockchain.Events.Keys.{Distinct}
use vpp_blockchain.RpcUrls.Local.{IsLocal, some_local_iff}
use vpp_blockchain.RpcUrls.{
  known_base_fallbacks, read_urls, first_ones, include_fallbacks, get_effective_rpc_urls,
}

has-first_ones :
    (k : Text) (seen us : List Text) → has k (first_ones seen us) ≡ (not (has k seen) && has k us)
unfolding first_ones has
has-first_ones k seen [] = ground arith
has-first_ones k seen (u ∷ us) = ground (
  arith,
  has-first_ones k seen us,
  has-first_ones k (add u seen) us,
  has-add u k seen,
  text_eq_iff u k,
)

first_ones-Distinct : (seen us : List Text) → Distinct (first_ones seen us)
unfolding first_ones
first_ones-Distinct seen [] = tt
first_ones-Distinct seen (u ∷ us) = elim (Bool-cases (has u seen)) [
  | inl t ↦ rw (t, if◌then◌else◌) (first_ones-Distinct seen us)
  | inr f ↦
      let gone : has u (first_ones (add u seen) us) ≡ false =
        ground (arith, has-first_ones u (add u seen) us, has-add u u seen, text_eq_refl u) in
      rw (f, if◌then◌else◌) (gone, first_ones-Distinct (add u seen) us)
]

-- The URL that is asked first.
abbrev pub first_url : List Text → Option Text
first_url [] = none
first_url (u ∷ us) = some u

first_url-first_ones : (us : List Text) → first_url (first_ones [] us) ≡ first_url us
unfolding first_ones has
first_url-first_ones [] = refl
first_url-first_ones (u ∷ us) = refl

candidates_first :
    (hostname : Text → Option Text) (us : List Text)
    → first_url (if include_fallbacks hostname us then us ++ known_base_fallbacks else us)
      ≡ first_url us
candidates_first hostname [] = refl
candidates_first hostname (u ∷ us) = ground arith

-- The configured URLs to which the public ones are added.
abbrev pub IsPublicOnly : (Text → Option Text) → List Text → Type 0
IsPublicOnly hostname us = (us ≢ []) × All (λ u. IsLocal hostname u → ⊥) us

include_fallbacks_iff :
    (hostname : Text → Option Text) (us : List Text)
    → (include_fallbacks hostname us ≡ true) ↔ IsPublicOnly hostname us
include_fallbacks_iff hostname [] = (λ h. absurd (cc), λ p. absurd (p.0 refl))
include_fallbacks_iff hostname (u ∷ us) =
    let iff = some_local_iff hostname (u ∷ us) in
    (λ h. (λ e. cc, iff.0 (ground (arith, h))), λ p. ground (arith, iff.1 p.1))

has-used :
    (hostname : Text → Option Text) (rpc_url url : Text)
    → let configured = read_urls rpc_url in
      has url (get_effective_rpc_urls hostname rpc_url) ≡ (
        has url configured
        || (include_fallbacks hostname configured && has url known_base_fallbacks))
unfolding get_effective_rpc_urls has
has-used hostname rpc_url url =
    let configured = read_urls rpc_url in
    has-first_ones url [] (
      if include_fallbacks hostname configured
      then configured ++ known_base_fallbacks
      else configured)
    ∙ both (include_fallbacks hostname configured) configured
  where
    both :
        (b : Bool) (us : List Text)
        → has url (if b then us ++ known_base_fallbacks else us)
          ≡ (has url us || (b && has url known_base_fallbacks))
    both true us = has-append url us known_base_fallbacks
    both false us = ground arith

used_iff :
    (a b c : Bool) (P : Type 0)
    → (b ≡ true) ↔ P
    → ((a || (b && c)) ≡ true) ↔ ((a ≡ true) ⊎ (P × (c ≡ true)))
used_iff true b c P iff = (λ _. inl refl, λ _. refl)
used_iff false true true P iff = (λ _. inr (iff.0 refl, refl), λ _. refl)
used_iff false true false P iff = (λ h. absurd (cc), λ p. elim p [ inl h ↦ cc | inr q ↦ q.1 ])
used_iff false false c P iff = (λ h. absurd (cc), λ p. elim p [ inl h ↦ cc | inr q ↦ iff.1 q.0 ])

-- No RPC is used twice; the first one is the first that is configured; and a URL is used exactly if it is
-- configured, or is one of the public ones while some URL is configured and the host name of none of
-- them, as the URL parser gives it, is `localhost`, `127.0.0.1` or `::1` or ends with `.local`.
pub get_effective_rpc_urls_lem :
    (hostname : Text → Option Text) (rpc_url url : Text)
    → let configured = read_urls rpc_url in
      let used = get_effective_rpc_urls hostname rpc_url in
      Distinct used
      × (first_url used ≡ first_url configured)
      × ((has url used ≡ true) ↔ (
          (has url configured ≡ true)
          ⊎ (IsPublicOnly hostname configured × (has url known_base_fallbacks ≡ true))))
unfolding get_effective_rpc_urls
get_effective_rpc_urls_lem hostname rpc_url url =
    let configured = read_urls rpc_url in
    let candidates =
      if include_fallbacks hostname configured
      then configured ++ known_base_fallbacks
      else configured in
    let same = has-used hostname rpc_url url in
    let iff =
      used_iff (has url configured) (include_fallbacks hostname configured)
        (has url known_base_fallbacks) (IsPublicOnly hostname configured)
        (include_fallbacks_iff hostname configured) in
    (
      first_ones-Distinct [] candidates,
      first_url-first_ones candidates ∙ candidates_first hostname configured,
      (λ h. iff.0 (sym same ∙ h), λ p. same ∙ iff.1 p),
    )
