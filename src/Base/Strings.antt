-- ===== src/Base/Strings.antt =====
-- JavaScript strings as lists of UTF-16 code units, with the operations that the source calls:
-- comparison, `includes` of one character, `String(n)` of a whole number, `split(':')`,
-- `toLowerCase` on ASCII letters, `startsWith`.
use Prim.Native.Nat.{ℕ, zero, suc, ◌+◌, ◌/◌, ◌%◌}
use Prim.Native.Char.{code}
use Prim.Native.String.{String}
use mathlib.Core.Path.{◌≡◌, refl}
use mathlib.Core.Logic.{◌↔◌}
use mathlib.Core.Bool.{Bool, true, false, ◌&&◌, ◌||◌}
use mathlib.Core.List.{List, [], ◌∷◌, ◌++◌, map}
use native.Mathlib.Omega.{arith}
use vpp_blockchain.Base.Tests.{◌==◌, ==_iff, if◌then◌else◌, leb, ltb, &&_both}

abbrev pub Text : Type 0
Text = List ℕ

abbrev pub codes : String → Text
codes String.[] = []
codes (String.◌∷◌ c s) = code c ∷ codes s

-- a === b
unfoldable pub text_eq : Text → Text → Bool
text_eq [] [] = true
text_eq [] (y ∷ ys) = false
text_eq (x ∷ xs) [] = false
text_eq (x ∷ xs) (y ∷ ys) = x == y && text_eq xs ys

eq_of_text_eq : (a b : Text) → text_eq a b ≡ true → a ≡ b
unfolding text_eq
eq_of_text_eq [] [] h = refl
eq_of_text_eq [] (y ∷ ys) h = cc
eq_of_text_eq (x ∷ xs) [] h = cc
eq_of_text_eq (x ∷ xs) (y ∷ ys) h =
    let p = &&_both (x == y) (text_eq xs ys) h in cc ((==_iff x y).0 p.0, eq_of_text_eq xs ys p.1)

pub text_eq_refl : (a : Text) → text_eq a a ≡ true
unfolding text_eq
text_eq_refl [] = refl
text_eq_refl (x ∷ xs) = rw (text_eq_refl xs) (ground arith)

pub text_eq_iff : (a b : Text) → (text_eq a b ≡ true) ↔ (a ≡ b)
text_eq_iff a b = (eq_of_text_eq a b, λ e. rw e (text_eq_refl b))

-- s.includes(c) for a single character
unfoldable pub includes : ℕ → Text → Bool
includes c [] = false
includes c (x ∷ xs) = x == c || includes c xs

pub includes-append : (c : ℕ) (a b : Text) → includes c (a ++ b) ≡ (includes c a || includes c b)
unfolding includes
includes-append c [] b = refl
includes-append c (x ∷ a) b = ground (arith, includes-append c a b)

-- String(n) for a whole number; the fuel bounds the number of digits.
unfoldable pub show_digits : ℕ → ℕ → Text
show_digits zero n = []
show_digits (suc fuel) n =
    let front = show_digits fuel (n / 10) in
    if ltb n 10 then (b'0' + n) ∷ [] else front ++ (b'0' + n % 10) ∷ []

unfoldable pub show_nat : ℕ → Text
unfolding show_digits
show_nat n = show_digits (suc n) n

-- c in 'A'..'Z' becomes c in 'a'..'z'
abbrev pub to_lower_unit : ℕ → ℕ
to_lower_unit c = if leb b'A' c && leb c b'Z' then c + 32 else c

unfoldable pub to_lower_case : Text → Text
to_lower_case = map to_lower_unit

-- s.startsWith(prefix)
unfoldable pub starts_with : Text → Text → Bool
starts_with s [] = true
starts_with [] (p ∷ ps) = false
starts_with (c ∷ s) (p ∷ ps) = c == p && starts_with s ps
