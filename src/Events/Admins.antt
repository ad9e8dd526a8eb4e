-- ===== src/Events/Admins.antt =====
-- packages/backend/src/services/json-file-event-store.ts, `getCurrentAdmins`, against the last change
-- of an account among the rows of the store.
use vpp_blockchain.Base.{
  ◌≡◌, refl, ap, ◌∙◌, subst, inl, inr, Bool, true, false, Option, none, some, List, [], ◌∷◌,
  if◌then◌else◌, Bool-cases, Option-cases, arith, Text, All, text_eq, has, has-add, has-delete,
}
use vpp_blockchain.Events.{
  EventStoreData, StoredRoleEvent, Change, grant, revoke, before, insert, sort,
}
use vpp_blockchain.Events.Effects.{if_both}
use vpp_blockchain.Events.Queries.{change_at, apply_change, apply_changes, get_current_admins}

abbrev later_of : StoredRoleEvent → Option StoredRoleEvent → Option StoredRoleEvent
later_of e none = some e
later_of e (some f) = if before (change_at f) (change_at e) then some e else some f

-- The change of the account with the highest block and log index, and of several the last in the
-- list.
unfoldable pub latest_change : Text → List StoredRoleEvent → Option StoredRoleEvent
latest_change account [] = none
latest_change account (e ∷ es) =
    let rest = latest_change account es in
    if text_eq e.account account then later_of e rest else rest

abbrev pub is_grant : Change → Bool
is_grant grant = true
is_grant revoke = false

abbrev pub is_granted : Option StoredRoleEvent → Bool
is_granted none = false
is_granted (some e) = is_grant e.change

abbrev or_else : Option StoredRoleEvent → Option StoredRoleEvent → Option StoredRoleEvent
or_else none o = o
or_else (some e) o = some e

-- The last change of the account in the list, wherever it is on the chain.
unfoldable last_of : Text → List StoredRoleEvent → Option StoredRoleEvent
last_of account [] = none
last_of account (e ∷ es) =
    or_else (last_of account es) (if text_eq e.account account then some e else none)

abbrev granted_or : Bool → Option StoredRoleEvent → Bool
granted_or b none = b
granted_or b (some e) = is_grant e.change

granted_or-false : (o : Option StoredRoleEvent) → granted_or false o ≡ is_granted o
granted_or-false none = refl
granted_or-false (some e) = refl

apply_change-has :
    (account other : Text) (change : Change) (admins : List Text)
    → has account (apply_change change other admins)
      ≡ (if text_eq other account then is_grant change else has account admins)
apply_change-has account other grant admins = ground (arith, has-add other account admins)
apply_change-has account other revoke admins = has-delete other account admins

granted-or_else :
    (b t : Bool) (e : StoredRoleEvent) (o : Option StoredRoleEvent)
    → granted_or (if t then is_grant e.change else b) o
      ≡ granted_or b (or_else o (if t then some e else none))
granted-or_else b t e (some f) = refl
granted-or_else b true e none = refl
granted-or_else b false e none = refl

apply_changes-last :
    (account : Text) (es : List StoredRoleEvent) (admins : List Text)
    → has account (apply_changes es admins) ≡ granted_or (has account admins) (last_of account es)
unfolding apply_changes last_of
apply_changes-last account [] admins = refl
apply_changes-last account (e ∷ es) admins =
    apply_changes-last account es _
    ∙ ap (λ b. granted_or b (last_of account es))
        (apply_change-has account e.account e.change admins)
    ∙ granted-or_else (has account admins) (text_eq e.account account) e (last_of account es)

abbrev NotBefore : StoredRoleEvent → StoredRoleEvent → Type 0
NotBefore x z = before (change_at z) (change_at x) ≡ false

abbrev Sorted : List StoredRoleEvent → Type 0
Sorted [] = Unit
Sorted (y ∷ ys) = All (NotBefore y) ys × Sorted ys

some-inj : {e f : StoredRoleEvent} → some e ≡ some f → e ≡ f
some-inj q = cc

NotBefore-trans : (x y z : StoredRoleEvent) → NotBefore x y → NotBefore y z → NotBefore x z
NotBefore-trans x y z h k = ground arith

All-map :
    {P Q : StoredRoleEvent → Type 0} (f : (z : StoredRoleEvent) → P z → Q z)
    (es : List StoredRoleEvent)
    → All P es
    → All Q es
All-map f [] p = tt
All-map f (e ∷ es) p = (f e p.0, All-map f es p.1)

All-insert :
    (P : StoredRoleEvent → Type 0) (x : StoredRoleEvent) (es : List StoredRoleEvent)
    → P x
    → All P es
    → All P (insert change_at x es)
unfolding insert
All-insert P x [] p ps = (p, tt)
All-insert P x (y ∷ es) p ps =
    if_both (All P) (before (change_at y) (change_at x)) _ _ (λ _. (ps.0, All-insert P x es p ps.1))
      (λ _. (p, ps))

All-last :
    (P : StoredRoleEvent → Type 0) (account : Text) (es : List StoredRoleEvent)
    (f : StoredRoleEvent)
    → All P es
    → last_of account es ≡ some f
    → P f
unfolding last_of
All-last P account [] f ps e = absurd (cc)
All-last P account (y ∷ es) f ps e = elim (Option-cases (last_of account es)) [
  | inr (g, q) ↦
      let same : some g ≡ some f = rw q at e in
      subst P (some-inj same) (All-last P account es g ps.1 q)
  | inl q ↦ elim (Bool-cases (text_eq y.account account)) [
    | inl t ↦
        let same : some y ≡ some f = rw (q, t, if◌then◌else◌) at e in subst P (some-inj same) ps.0
    | inr t ↦ let gone : none ≡ some f = rw (q, t, if◌then◌else◌) at e in absurd (cc)
  ]
]

insert-Sorted :
    (x : StoredRoleEvent) (es : List StoredRoleEvent) → Sorted es → Sorted (insert change_at x es)
unfolding insert
insert-Sorted x [] s = (tt, tt)
insert-Sorted x (y ∷ es) s =
    if_both Sorted (before (change_at y) (change_at x)) _ _
      (λ t. (All-insert (NotBefore y) x es (ground arith) s.0, insert-Sorted x es s.1))
      (λ t. ((t, All-map (λ z. NotBefore-trans x y z t) es s.0), s))

sort-Sorted : (es : List StoredRoleEvent) → Sorted (sort change_at es)
unfolding sort
sort-Sorted [] = tt
sort-Sorted (e ∷ es) = insert-Sorted e (sort change_at es) (sort-Sorted es)

-- A change before the inserted one does not come after it.
passed :
    (x y : StoredRoleEvent) (own other : Bool) (o : Option StoredRoleEvent)
    → before (change_at y) (change_at x) ≡ true
    → or_else (if own then later_of x o else o) (if other then some y else none) ≡ (
        if own
        then later_of x (or_else o (if other then some y else none))
        else or_else o (if other then some y else none))
passed x y false other o h = refl
passed x y true false none h = refl
passed x y true true none h = rw (h, if◌then◌else◌) refl
passed x y true other (some f) h = elim (Bool-cases (before (change_at f) (change_at x))) [
  | inl t ↦ rw (t, if◌then◌else◌) refl
  | inr t ↦ rw (t, if◌then◌else◌) refl
]

-- A change in front of others that are not before it.
in_front :
    (x : StoredRoleEvent) (own : Bool) (o : Option StoredRoleEvent)
    → ((f : StoredRoleEvent) → o ≡ some f → NotBefore x f)
    → or_else o (if own then some x else none) ≡ (if own then later_of x o else o)
in_front x true none h = refl
in_front x false none h = refl
in_front x true (some f) h = rw (h f refl, if◌then◌else◌) refl
in_front x false (some f) h = refl

-- Where an insertion that keeps the order leaves the last change of the account.
last_of-insert :
    (account : Text) (x : StoredRoleEvent) (es : List StoredRoleEvent)
    → Sorted es
    → last_of account (insert change_at x es)
      ≡ (if text_eq x.account account then later_of x (last_of account es) else last_of account es)
unfolding insert last_of
last_of-insert account x [] s = refl
last_of-insert account x (y ∷ es) s = elim (Bool-cases (before (change_at y) (change_at x))) [
  | inl t ↦
      rw (t, if◌then◌else◌)
        (ap (λ o. or_else o (if text_eq y.account account then some y else none))
            (last_of-insert account x es s.1)
          ∙ passed x y (text_eq x.account account) (text_eq y.account account) (last_of account es)
              t)
  | inr t ↦
      rw (t, if◌then◌else◌)
        (in_front x (text_eq x.account account) (last_of account (y ∷ es)) (λ f.
          All-last (NotBefore x) account (y ∷ es) f
            (t, All-map (λ z. NotBefore-trans x y z t) es s.0)))
]

latest-last :
    (account : Text) (es : List StoredRoleEvent)
    → last_of account (sort change_at es) ≡ latest_change account es
unfolding latest_change sort last_of
latest-last account [] = refl
latest-last account (e ∷ es) =
    last_of-insert account e (sort change_at es) (sort-Sorted es)
    ∙ ap (λ o. if text_eq e.account account then later_of e o else o) (latest-last account es)

-- An account is among the current admins exactly if, of the role changes that the store holds, in whatever
-- order, the one of that account with the highest block and log index is a grant.
pub get_current_admins_iff :
    (account : Text) (s : EventStoreData)
    → has account (get_current_admins s) ≡ is_granted (latest_change account s.role_changes)
unfolding get_current_admins has
get_current_admins_iff account s =
    apply_changes-last account (sort change_at s.role_changes) []
    ∙ ap (granted_or false) (latest-last account s.role_changes)
    ∙ granted_or-false (latest_change account s.role_changes)
