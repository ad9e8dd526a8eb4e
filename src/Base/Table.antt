-- ===== src/Base/Table.antt =====
-- JavaScript objects that are used as tables: members under texts, each at most once after `put`.
use mathlib.Core.Path.{◌≡◌, refl}
use mathlib.Core.Option.{Option, none, some}
use mathlib.Core.List.{List, [], ◌∷◌}
use native.Mathlib.Omega.{arith}
use vpp_blockchain.Base.Tests.{if◌then◌else◌}
use vpp_blockchain.Base.Strings.{Text, text_eq, text_eq_iff, text_eq_refl}

abbrev pub Table : Type 0 → Type 0
Table A = List (Text × A)

-- o[k], and whether there is such a member
unfoldable pub find : {A : Type 0} → Text → Table A → Option A
find k [] = none
find k ((j, r) ∷ rest) = if text_eq k j then some r else find k rest

-- o[k] = r
unfoldable pub put : {A : Type 0} → Text → A → Table A → Table A
put k r [] = (k, r) ∷ []
put k r ((j, s) ∷ rest) = if text_eq k j then (k, r) ∷ rest else (j, s) ∷ put k r rest

-- delete o[k]
unfoldable pub remove : {A : Type 0} → Text → Table A → Table A
remove k [] = []
remove k ((j, s) ∷ rest) =
    let others = remove k rest in if text_eq k j then others else (j, s) ∷ others

-- Looking up after an assignment: the new value under its own key, the old ones elsewhere.
pub find-put :
    {A : Type 0} (j k : Text) (r : A) (l : Table A)
    → find j (put k r l) ≡ (if text_eq j k then some r else find j l)
unfolding find put
find-put j k r [] = refl
find-put j k r ((i, s) ∷ l) =
    ground
      (arith, find-put j k r l, text_eq_iff j k, text_eq_iff k i, text_eq_iff j i, text_eq_refl i)

pub find-remove :
    {A : Type 0} (j k : Text) (l : Table A)
    → find j (remove k l) ≡ (if text_eq j k then none else find j l)
unfolding find remove
find-remove j k [] = ground arith
find-remove j k ((i, s) ∷ l) =
    ground
      (arith, find-remove j k l, text_eq_iff j k, text_eq_iff k i, text_eq_iff j i, text_eq_refl i)
