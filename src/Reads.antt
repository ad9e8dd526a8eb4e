-- ===== src/Reads.antt =====
-- packages/backend/src/lib/pagination.ts, packages/backend/src/services/survey-cache.ts and
-- packages/backend/src/routes/points.ts. `Number` of a query parameter is a whole number, or none for
-- NaN. The answers of the chain are arguments.
pub mod Listed
pub mod Pages
use vpp_blockchain.Base.{
  ℕ, ◌+◌, ◌-◌, ◌*◌, ◌/◌, min, max, Bool, true, false, ◌||◌, not, Option, none, some, List, [], ◌∷◌,
  ◌++◌, map, ltb, ◌==◌, if◌then◌else◌, Text, length, take, drop,
}
use vpp_blockchain.Base.Exec.{Result, ok, throw}
use vpp_blockchain.Base.Int.{ℤ, pos, negsuc}
use vpp_blockchain.Errors.{ErrorValue}
use vpp_blockchain.Server.{SurveyRow}
use vpp_blockchain.Events.{StoredPointsEvent, StoredSurveyEvent, EventStoreData}
use vpp_blockchain.Events.Queries.{
  get_points_awarded_by_wallet, get_survey_registered_events, is_ready,
}

pub record PaginationParams : Type 0 where
  pub page : ℕ
  pub limit : ℕ

pub record PaginationMeta : Type 0 where
  pub page : ℕ
  pub limit : ℕ
  pub total : ℕ
  pub total_pages : ℕ

-- Math.max(1, n || fallback)
abbrev pub at_least_one : Option ℤ → ℕ → ℕ
at_least_one none fallback = max 1 fallback
at_least_one (some (pos n)) fallback = if n == 0 then max 1 fallback else max 1 n
at_least_one (some (negsuc n)) fallback = 1

-- !n
abbrev pub is_missing : Option ℤ → Bool
is_missing none = true
is_missing (some (pos n)) = n == 0
is_missing (some (negsuc n)) = false

unfoldable pub parse_pagination : (page limit : Option ℤ) → Option PaginationParams
parse_pagination page limit =
    if not (not (is_missing page) || not (is_missing limit))
    then none
    else some (record { page = at_least_one page 1; limit = min 100 (at_least_one limit 20) })

unfoldable pub paginate :
    {A : Type 0} → List A → Option PaginationParams → List A × Option PaginationMeta
paginate items none = (items, none)
paginate items (some p) = (
  take p.limit (drop ((p.page - 1) * p.limit) items),
  some (record {
    page = p.page;
    limit = p.limit;
    total = length items;
    total_pages = (length items + p.limit - 1) / p.limit;
  }),
)

pub record SurveyInfo : Type 0 where
  pub survey_id : ℕ
  pub row : SurveyRow

-- cachedSurveys and cacheExpiry
pub record SurveyCache : Type 0 where
  pub surveys : Option (List SurveyInfo)
  pub expiry : ℕ

abbrev pub invalidate_cache : SurveyCache
invalidate_cache = record { surveys = none; expiry = 0 }

-- known.has(id)
unfoldable pub has_id : ℕ → List ℕ → Bool
has_id i [] = false
has_id i (j ∷ js) = i == j || has_id i js

-- ids.filter((id) => !known.has(id))
unfoldable pub not_known : List ℕ → List ℕ → List ℕ
unfolding has_id
not_known known [] = []
not_known known (i ∷ is) =
    let rest = not_known known is in if has_id i known then rest else i ∷ rest

-- The surveys that are looked up: those of the events, then those with a key only.
unfoldable pub survey_ids : (from_events keyed : List ℕ) → List ℕ
unfolding not_known
survey_ids from_events keyed = from_events ++ not_known from_events keyed

-- loadSurvey, for what getSurveyInfo answers
abbrev pub load_survey : ℕ → SurveyRow → List SurveyInfo
load_survey i row = if row.registered_at == 0 then [] else record { survey_id = i; row = row } ∷ []

-- One lookup before the others; an error of any of them fails the whole.
abbrev pub joined :
    Result ErrorValue (List SurveyInfo)
    → Result ErrorValue (List SurveyInfo)
    → Result ErrorValue (List SurveyInfo)
joined (throw e) rest = throw e
joined (ok a) (throw e) = throw e
joined (ok a) (ok b) = ok (a ++ b)

abbrev pub looked_up : ℕ → Result ErrorValue SurveyRow → Result ErrorValue (List SurveyInfo)
looked_up i (throw e) = throw e
looked_up i (ok row) = ok (load_survey i row)

-- await Promise.all(ids.map(loadSurvey)) without the surveys that the chain has no record of
unfoldable pub load_surveys :
    (ℕ → Result ErrorValue SurveyRow) → List ℕ → Result ErrorValue (List SurveyInfo)
load_surveys info [] = ok []
load_surveys info (i ∷ is) = joined (looked_up i (info i)) (load_surveys info is)

-- getSurveysWithCache up to its awaits: the list that is still fresh.
unfoldable pub fresh_surveys : (now : ℕ) → SurveyCache → Option (List SurveyInfo)
fresh_surveys now c = if ltb now c.expiry then c.surveys else none

-- From the awaits on.
unfoldable pub keep_surveys :
    (now ttl : ℕ)
    → Result ErrorValue (List SurveyInfo)
    → SurveyCache
    → Result ErrorValue (List SurveyInfo) × SurveyCache
keep_surveys now ttl (throw e) c = (throw e, c)
keep_surveys now ttl (ok surveys) c =
    (ok surveys, record { surveys = some surveys; expiry = now + ttl })

-- The events that the list starts from: the store's, or those read from the chain.
abbrev pub survey_events :
    EventStoreData → Result ErrorValue (List StoredSurveyEvent) → Result ErrorValue (List ℕ)
survey_events s from_chain =
    if is_ready s
    then ok (map (λ e. e.survey_id) (get_survey_registered_events s))
    else (elim from_chain [ throw e ↦ throw e | ok es ↦ ok (map (λ e. e.survey_id) es) ])

-- An entry of the claim history.
pub record ClaimEntry : Type 0 where
  pub survey_id : ℕ
  pub points : ℕ
  pub timestamp : ℕ
  pub tx_hash : Text

abbrev pub claim_entry : StoredPointsEvent → ClaimEntry
claim_entry e = record {
  survey_id = e.survey_id;
  points = e.points;
  timestamp = e.timestamp;
  tx_hash = e.tx_hash;
}

-- The claims of a wallet: the store's, or those read from the chain.
abbrev pub claim_events :
    Text
    → EventStoreData
    → Result ErrorValue (List StoredPointsEvent)
    → Result ErrorValue (List StoredPointsEvent)
claim_events wallet s from_chain =
    if is_ready s then ok (get_points_awarded_by_wallet wallet s) else from_chain
