-- ===== src/Events/Window.antt =====
-- packages/backend/src/services/json-file-event-store.ts, `syncWindow`: the rows of the store after
-- a window, against the logs of the chain. A chain gives, for each of the six queries, the logs of
-- each block that match it.
use vpp_blockchain.Base.{
  ℕ, ◌+◌, ◌≡◌, refl, sym, ap, ◌∙◌, Bool, ◌||◌, inl, inr, Option, List, [], ◌∷◌, ◌++◌, map,
  Option-cases, arith, Text, has, has-append,
}
use mathlib.Core.List.{map-append}
use vpp_blockchain.LogReader.Coverage.{logs, logs-append}
use vpp_blockchain.Events.{
  SurveyArgs, PointsArgs, ChainEvent, EventStoreData, StoredRoleEvent, grant, revoke, pushed,
  push_row, survey_row, points_row, role_row, survey_key, points_key, role_key, unique,
  merge_in_chain_order,
}
use vpp_blockchain.Events.Keys.{known, known-append, known-cons, known-merge, unique-has}
use vpp_blockchain.Events.Sync.{Batch, record_window}

pub record Chain : Type 0 where
  pub surveys_whole : ℕ → List (ChainEvent SurveyArgs)
  pub surveys_centi : ℕ → List (ChainEvent SurveyArgs)
  pub points_whole : ℕ → List (ChainEvent PointsArgs)
  pub points_centi : ℕ → List (ChainEvent PointsArgs)
  pub grants : ℕ → List (ChainEvent Text)
  pub revokes : ℕ → List (ChainEvent Text)

-- The batch has the logs of `count` blocks from `from` on.
pub record IsWindow (chain : Chain) (from count : ℕ) (b : Batch) : Type 0 where
  pub surveys_whole : b.surveys_whole ≡ logs chain.surveys_whole from count
  pub surveys_centi : b.surveys_centi ≡ logs chain.surveys_centi from count
  pub points_whole : b.points_whole ≡ logs chain.points_whole from count
  pub points_centi : b.points_centi ≡ logs chain.points_centi from count
  pub grants : b.grants ≡ logs chain.grants from count
  pub revokes : b.revokes ≡ logs chain.revokes from count

module _ (chain : Chain) (k : Text) (from count : ℕ) where
  -- Whether some event of `count` blocks from `from` on makes a row with the key.
  abbrev pub survey_on_chain : Bool
  survey_on_chain =
      known (survey_row (λ _. 0)) survey_key k (logs chain.surveys_whole from count)
      || known (survey_row (λ _. 0)) survey_key k (logs chain.surveys_centi from count)

  abbrev pub points_on_chain : Bool
  points_on_chain =
      known (points_row (λ _. 0)) points_key k (logs chain.points_whole from count)
      || known (points_row (λ _. 0)) points_key k (logs chain.points_centi from count)

  abbrev pub role_on_chain : Bool
  role_on_chain =
      known (role_row grant) role_key k (logs chain.grants from count)
      || known (role_row revoke) role_key k (logs chain.revokes from count)

-- The store has rows with exactly the keys of the events of `count` blocks from `from` on.
pub record Holds (chain : Chain) (from count : ℕ) (s : EventStoreData) : Type 0 where
  pub surveys :
      (k : Text) → has k (map survey_key s.survey_registered) ≡ survey_on_chain chain k from count
  pub points :
      (k : Text) → has k (map points_key s.points_awarded) ≡ points_on_chain chain k from count
  pub roles : (k : Text) → has k (map role_key s.role_changes) ≡ role_on_chain chain k from count

-- The keys of a list of rows after more were pushed and repetitions dropped.
keys-pushed :
    {R : Type 0} (key : R → Text) (k : Text) (old more : List R)
    → has k (map key (unique key [] (old ++ more))) ≡ (has k (map key old) || has k (map key more))
unfolding has
keys-pushed key k old more = ground (
  arith,
  unique-has key k [] (old ++ more),
  map-append key old more,
  has-append k (map key old) (map key more),
)

module _ {A R : Type 0} (row unstamped : ChainEvent A → Option R) (key : R → Text)
    (same : (e : ChainEvent A)
      → map key (push_row (row e) []) ≡ map key (push_row (unstamped e) []))
    (k : Text) where
  -- The key of a row does not depend on its timestamp.
  pub known-unstamped : (es : List (ChainEvent A)) → known row key k es ≡ known unstamped key k es
  known-unstamped [] = refl
  known-unstamped (e ∷ es) = ground (
    arith,
    known-unstamped es,
    known-cons row key k e es,
    known-cons unstamped key k e es,
    ap (has k) (same e),
  )

  keys-merged :
      (old : List R) (a b : List (ChainEvent A))
      → has k (map key (unique key [] (old ++ pushed row (merge_in_chain_order a b))))
        ≡ (has k (map key old) || known unstamped key k a || known unstamped key k b)
  keys-merged old a b = ground (
    arith,
    keys-pushed key k old (pushed row (merge_in_chain_order a b)),
    known-merge row key k a b,
    known-unstamped a,
    known-unstamped b,
  )

pub survey-same :
    (ts : ℕ → ℕ) (e : ChainEvent SurveyArgs)
    → map survey_key (push_row (survey_row ts e) [])
      ≡ map survey_key (push_row (survey_row (λ _. 0) e) [])
survey-same ts e = elim (Option-cases e.args) [ inl q ↦ rw q refl | inr (a, q) ↦ rw q refl ]

points-same :
    (ts : ℕ → ℕ) (e : ChainEvent PointsArgs)
    → map points_key (push_row (points_row ts e) [])
      ≡ map points_key (push_row (points_row (λ _. 0) e) [])
points-same ts e = elim (Option-cases e.args) [ inl q ↦ rw q refl | inr (a, q) ↦ rw q refl ]

keys-changes :
    (k : Text) (old : List StoredRoleEvent) (grants revokes : List (ChainEvent Text))
    → has k (
        map role_key (
          unique role_key []
            ((old ++ pushed (role_row grant) grants) ++ pushed (role_row revoke) revokes)))
      ≡ (has k (map role_key old)
          || known (role_row grant) role_key k grants
          || known (role_row revoke) role_key k revokes)
keys-changes k old grants revokes =
    let g = pushed (role_row grant) grants in
    let r = pushed (role_row revoke) revokes in
    ground (
      arith,
      keys-pushed role_key k (old ++ g) r,
      map-append role_key old g,
      has-append k (map role_key old) (map role_key g),
    )

on_chain-append :
    {A R : Type 0} (row : ChainEvent A → Option R) (key : R → Text) (k : Text)
    (at : ℕ → List (ChainEvent A)) (from m n : ℕ)
    → known row key k (logs at from (m + n))
      ≡ (known row key k (logs at from m) || known row key k (logs at (from + m) n))
on_chain-append row key k at from m n =
    ap (known row key k) (sym (logs-append at from m n)) ∙ known-append row key k _ _

-- Rows from two queries, held for `m` blocks and extended by the answers for `n` more.
extended :
    {A R : Type 0} (row row' : ChainEvent A → Option R) (key : R → Text) (k : Text)
    (at at' : ℕ → List (ChainEvent A)) (from m n : ℕ) (held now : Bool) (b b' : List (ChainEvent A))
    → now ≡ (held || known row key k b || known row' key k b')
    → b ≡ logs at (from + m) n
    → b' ≡ logs at' (from + m) n
    → held ≡ (known row key k (logs at from m) || known row' key k (logs at' from m))
    → now ≡ (known row key k (logs at from (m + n)) || known row' key k (logs at' from (m + n)))
extended row row' key k at at' from m n held now b b' e f g h = ground (
  arith,
  on_chain-append row key k at from m n,
  on_chain-append row' key k at' from m n,
  ap (known row key k) f,
  ap (known row' key k) g,
)

pub record_window-Holds :
    (chain : Chain) (ts : ℕ → ℕ) (from m n to : ℕ) (b : Batch) (s : EventStoreData)
    → Holds chain from m s
    → IsWindow chain (from + m) n b
    → Holds chain from (m + n) (record_window ts b to s)
record_window-Holds chain ts from m n to b s h w = record {
  surveys = λ k.
      let row = survey_row (λ _. 0) in
      extended row row survey_key k chain.surveys_whole chain.surveys_centi from m n _ _ _ _
        (keys-merged (survey_row ts) row survey_key (survey-same ts) k s.survey_registered
          b.surveys_whole b.surveys_centi)
        w.surveys_whole w.surveys_centi (h.surveys k);
  points = λ k.
      let row = points_row (λ _. 0) in
      extended row row points_key k chain.points_whole chain.points_centi from m n _ _ _ _
        (keys-merged (points_row ts) row points_key (points-same ts) k s.points_awarded
          b.points_whole b.points_centi)
        w.points_whole w.points_centi (h.points k);
  roles = λ k.
      extended (role_row grant) (role_row revoke) role_key k chain.grants chain.revokes from m n _ _
        _ _ (keys-changes k s.role_changes b.grants b.revokes) w.grants w.revokes (h.roles k);
}
