-- ===== src/Events/Fallback.antt =====
-- packages/backend/src/services/blockchain.ts: the events that are read from the RPC while the event
-- store is cold. The arguments are what `queryFilterChunked` answers for the whole chain; an
-- `EventLog` is an event with arguments.
use vpp_blockchain.Base.{
  ℕ, ◌-◌, ◌≡◌, sym, ap₂, ◌∙◌, ◌||◌, Option, none, some, List, [], ◌∷◌, ◌++◌, map, Text, has,
}
use vpp_blockchain.LogReader.Coverage.{logs}
use vpp_blockchain.Events.{
  SurveyArgs, PointsArgs, ChainEvent, Change, grant, revoke, StoredSurveyEvent, StoredPointsEvent,
  EventStoreData, Position, event_at, sort, pushed, survey_row, points_row, survey_key,
}
use vpp_blockchain.Events.Keys.{known, known-sort, known-append}
use vpp_blockchain.Events.Sync.{next_block}
use vpp_blockchain.Events.Window.{Chain, known-unstamped, survey-same}
use vpp_blockchain.Events.Mirror.{Mirrors}
use vpp_blockchain.Events.Queries.{apply_change, get_survey_registered_events}

-- getPointsAwardedEvents, where `timestamps` are those of the blocks
pub get_points_awarded_events :
    (ℕ → ℕ) → (whole fractional : List (ChainEvent PointsArgs)) → List StoredPointsEvent
get_points_awarded_events timestamps whole fractional =
    pushed (points_row timestamps) (sort event_at (whole ++ fractional))

-- getSurveyRegisteredEvents
pub get_survey_registered_from_chain :
    (ℕ → ℕ) → (whole fractional : List (ChainEvent SurveyArgs)) → List StoredSurveyEvent
get_survey_registered_from_chain timestamps whole fractional =
    pushed (survey_row timestamps) (sort event_at (whole ++ fractional))

-- { type, ...e }
abbrev pub Tagged : Type 0
Tagged = Change × ChainEvent Text

abbrev pub tag : Change → List (ChainEvent Text) → List Tagged
tag change = map (λ e. (change, e))

abbrev pub tagged_at : Tagged → Position
tagged_at e = event_at e.1

abbrev pub apply_tagged : Change → Option Text → List Text → List Text
apply_tagged change none admins = admins
apply_tagged change (some account) admins = apply_change change account admins

-- The loop of getAdminAddresses.
pub apply_all : List Tagged → List Text → List Text
apply_all [] admins = admins
apply_all ((change, e) ∷ es) admins = apply_all es (apply_tagged change e.args admins)

-- getAdminAddresses
pub get_admin_addresses : (granted revoked : List (ChainEvent Text)) → List Text
unfolding apply_all
get_admin_addresses granted revoked =
    apply_all (sort tagged_at (tag grant granted ++ tag revoke revoked)) []

-- A store that mirrors the chain, and the RPC when it answers with the logs of the same blocks, list
-- the same survey registrations, by transaction and survey.
pub fallback-agrees :
    (chain : Chain) (deploy : ℕ) (s : EventStoreData) (timestamps : ℕ → ℕ)
    (whole fractional : List (ChainEvent SurveyArgs)) (k : Text)
    → Mirrors chain deploy s
    → whole ≡ logs chain.surveys_whole deploy (next_block deploy s - deploy)
    → fractional ≡ logs chain.surveys_centi deploy (next_block deploy s - deploy)
    → has k (map survey_key (get_survey_registered_from_chain timestamps whole fractional))
      ≡ has k (map survey_key (get_survey_registered_events s))
unfolding get_survey_registered_from_chain get_survey_registered_events
fallback-agrees chain deploy s timestamps whole fractional k m w f =
    let row = survey_row (λ _. 0) in
    known-sort (survey_row timestamps) survey_key k (whole ++ fractional)
    ∙ known-unstamped (survey_row timestamps) row survey_key (survey-same timestamps) k
        (whole ++ fractional)
    ∙ known-append row survey_key k whole fractional
    ∙ ap₂ (λ a b. known row survey_key k a || known row survey_key k b) w f
    ∙ sym (m.held.surveys k)
