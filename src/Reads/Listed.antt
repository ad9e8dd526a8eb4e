-- ===== src/Reads/Listed.antt =====
-- packages/backend/src/services/survey-cache.ts: which surveys are listed.
use vpp_blockchain.Base.{
  ℕ, ◌≡◌, refl, ap, ◌&&◌, ◌||◌, not, List, [], ◌∷◌, ◌++◌, ◌==◌, Bool-cases, inl, inr, arith,
}
use vpp_blockchain.Reads.{has_id, not_known, survey_ids}

has_id-append : (i : ℕ) (a b : List ℕ) → has_id i (a ++ b) ≡ (has_id i a || has_id i b)
unfolding has_id
has_id-append i [] b = refl
has_id-append i (j ∷ a) b = ground (arith, has_id-append i a b)

has_id-not_known :
    (i : ℕ) (known ids : List ℕ)
    → has_id i (not_known known ids) ≡ (has_id i ids && not (has_id i known))
unfolding has_id not_known
has_id-not_known i known [] = refl
has_id-not_known i known (j ∷ ids) = elim (Bool-cases (i == j)) [
  | inl e ↦
      let same : i ≡ j = ground arith in
      ground (arith, has_id-not_known i known ids, ap (λ x. has_id x known) same)
  | inr e ↦ ground (arith, has_id-not_known i known ids)
]

-- The ids that are looked up are those of the events and those with a key.
pub survey_ids-has :
    (i : ℕ) (from_events keyed : List ℕ)
    → has_id i (survey_ids from_events keyed) ≡ (has_id i from_events || has_id i keyed)
unfolding survey_ids
survey_ids-has i from_events keyed = ground (
  arith,
  has_id-append i from_events (not_known from_events keyed),
  has_id-not_known i from_events keyed,
)
