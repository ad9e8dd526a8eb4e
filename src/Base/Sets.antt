-- ===== src/Base/Sets.antt =====
-- A JavaScript `Set<string>` as the list of its members in insertion order.
use mathlib.Core.Path.{◌≡◌, refl}
use mathlib.Core.Bool.{Bool, false, ◌||◌}
use mathlib.Core.List.{List, [], ◌∷◌, ◌++◌}
use native.Mathlib.Omega.{arith}
use vpp_blockchain.Base.Tests.{if◌then◌else◌}
use vpp_blockchain.Base.Strings.{Text, text_eq, text_eq_iff}

-- set.has(k)
unfoldable pub has : Text → List Text → Bool
has k [] = false
has k (x ∷ xs) = text_eq x k || has k xs

-- set.add(k)
unfoldable pub add : Text → List Text → List Text
unfolding has
add k s = if has k s then s else s ++ k ∷ []

-- the set without k, as after set.delete(k)
unfoldable pub delete : Text → List Text → List Text
delete k [] = []
delete k (x ∷ xs) = let rest = delete k xs in if text_eq x k then rest else x ∷ rest

pub has-append : (k : Text) (a b : List Text) → has k (a ++ b) ≡ (has k a || has k b)
unfolding has
has-append k [] b = refl
has-append k (x ∷ a) b = ground (arith, has-append k a b)

pub has-add : (k j : Text) (s : List Text) → has j (add k s) ≡ (text_eq k j || has j s)
unfolding has add
has-add k j s = ground (arith, has-append j s (k ∷ []), text_eq_iff k j)

pub has-delete :
    (k j : Text) (s : List Text) → has j (delete k s) ≡ (if text_eq k j then false else has j s)
unfolding has delete
has-delete k j [] = ground arith
has-delete k j (x ∷ s) =
    ground (arith, has-delete k j s, text_eq_iff x k, text_eq_iff x j, text_eq_iff k j)
