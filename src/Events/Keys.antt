-- ===== src/Events/Keys.antt =====
-- packages/backend/src/services/json-file-event-store.ts: the keys that `unique`, the chain order
-- and the loops of `syncWindow` leave in a list of rows.
use vpp_blockchain.Base.{
  ◌≡◌, refl, ap, ◌∙◌, inl, inr, Bool, true, false, ◌||◌, Option, none, some, List, [], ◌∷◌, ◌++◌,
  map, if◌then◌else◌, Bool-cases, arith, Text, text_eq_iff, text_eq_refl, has, add, has-add,
}
use vpp_blockchain.Events.{
  before, insert, sort, ChainEvent, merge_in_chain_order, event_at, push_row, pushed, unique,
}

-- No text occurs twice.
abbrev pub Distinct : List Text → Type 0
Distinct [] = Unit
Distinct (x ∷ xs) = (has x xs ≡ false) × Distinct xs

added : (k : Text) (s : List Text) → has k (add k s) ≡ true
added k s = ground (arith, has-add k k s, text_eq_refl k)

module _ {A : Type 0} (key : A → Text) where
  pub unique-has :
      (k : Text) (seen : List Text) (xs : List A)
      → (has k (map key (unique key seen xs)) || has k seen) ≡ (has k (map key xs) || has k seen)
  unfolding unique has
  unique-has k seen [] = refl
  unique-has k seen (x ∷ xs) =
      ground
        (arith, unique-has k (add (key x) seen) xs, has-add (key x) k seen, text_eq_iff (key x) k)

  -- A key that was seen is not kept.
  unique-seen :
      (k : Text) (seen : List Text) (xs : List A)
      → has k seen ≡ true
      → has k (map key (unique key seen xs)) ≡ false
  unfolding unique has
  unique-seen k seen [] h = refl
  unique-seen k seen (x ∷ xs) h =
      ground
        (arith, unique-seen k (add (key x) seen) xs, has-add (key x) k seen, text_eq_iff (key x) k)

  pub unique-Distinct : (seen : List Text) (xs : List A) → Distinct (map key (unique key seen xs))
  unfolding unique
  unique-Distinct seen [] = tt
  unique-Distinct seen (x ∷ xs) = elim (Bool-cases (has (key x) seen)) [
    | inl t ↦ rw (t, if◌then◌else◌) (unique-Distinct (add (key x) seen) xs)
    | inr t ↦
        rw (t, if◌then◌else◌)
          (
            unique-seen (key x) (add (key x) seen) xs (ground (arith, added (key x) seen)),
            unique-Distinct (add (key x) seen) xs,
          )
  ]

  -- Rows whose keys are distinct and were not seen are all kept.
  pub unique_of_Distinct :
      (seen : List Text) (xs : List A)
      → Distinct (map key xs)
      → ((k : Text) → has k (map key xs) ≡ true → has k seen ≡ false)
      → unique key seen xs ≡ xs
  unfolding unique has
  unique_of_Distinct seen [] d h = refl
  unique_of_Distinct seen (x ∷ xs) d h =
      let new : has (key x) seen ≡ false = h (key x) (rw (text_eq_refl (key x)) refl) in
      rw (new, if◌then◌else◌)
        (ap (◌∷◌ x) (
          unique_of_Distinct (add (key x) seen) xs d.1
            (λ k q. ground (arith, h k, d.0, has-add (key x) k seen, text_eq_iff (key x) k))))

known-push :
    {R : Type 0} (key : R → Text) (k : Text) (o : Option R) (rows : List R)
    → has k (map key (push_row o rows)) ≡ (has k (map key (push_row o [])) || has k (map key rows))
unfolding has
known-push key k none rows = refl
known-push key k (some r) rows = ground arith

module _ {E R : Type 0} (row : E → Option R) (key : R → Text) (k : Text) where
  -- Whether a row with the key is pushed.
  abbrev pub known : List E → Bool
  known es = has k (map key (pushed row es))

  pub known-cons : (e : E) (es : List E) → known (e ∷ es) ≡ (known (e ∷ []) || known es)
  unfolding has
  known-cons e es = known-push key k (row e) (pushed row es)

  pub known-append : (a b : List E) → known (a ++ b) ≡ (known a || known b)
  unfolding has
  known-append [] b = refl
  known-append (e ∷ a) b = ground (arith, known-append a b, known-cons e (a ++ b), known-cons e a)

module _ {A R : Type 0} (row : ChainEvent A → Option R) (key : R → Text) (k : Text) where
  known-insert :
      (e : ChainEvent A) (es : List (ChainEvent A))
      → known row key k (insert event_at e es) ≡ known row key k (e ∷ es)
  unfolding insert
  known-insert e [] = refl
  known-insert e (f ∷ es) = elim (Bool-cases (before (event_at f) (event_at e))) [
    | inl t ↦
        rw (t, if◌then◌else◌)
          (ground (
            arith,
            known-insert e es,
            known-cons row key k f (insert event_at e es),
            known-cons row key k e (f ∷ es),
            known-cons row key k e es,
            known-cons row key k f es,
          ))
    | inr t ↦ rw (t, if◌then◌else◌) refl
  ]

  pub known-sort :
      (es : List (ChainEvent A)) → known row key k (sort event_at es) ≡ known row key k es
  unfolding sort
  known-sort [] = refl
  known-sort (e ∷ es) = ground (
    arith,
    known-sort es,
    known-insert e (sort event_at es),
    known-cons row key k e (sort event_at es),
    known-cons row key k e es,
  )

  pub known-merge :
      (a b : List (ChainEvent A))
      → known row key k (merge_in_chain_order a b) ≡ (known row key k a || known row key k b)
  unfolding has
  known-merge a [] = ground arith
  known-merge a (x ∷ b) = known-sort (a ++ x ∷ b) ∙ known-append row key k a (x ∷ b)
