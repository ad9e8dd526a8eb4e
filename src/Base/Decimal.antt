-- ===== src/Base/Decimal.antt =====
-- Lemmas on decimal printing, and on cutting a text at its first separator.
use vpp_blockchain.Base.{
  ℕ, zero, suc, ◌+◌, ◌-◌, ◌*◌, ◌/◌, ◌%◌, ◌<◌, ◌≡◌, refl, sym, ap, ◌∙◌, false, [], ◌∷◌, ◌++◌, arith,
  Text, show_nat, show_digits, includes, includes-append, ltb, Bool-cases, inl, inr,
}

-- The number that decimal digits spell.
unfoldable pub value : ℕ → Text → ℕ
value acc [] = acc
value acc (c ∷ s) = value (acc * 10 + (c - 48)) s

value-append : (acc : ℕ) (a b : Text) → value acc (a ++ b) ≡ value (value acc a) b
unfolding value
value-append acc [] b = refl
value-append acc (c ∷ a) b = value-append (acc * 10 + (c - 48)) a b

value-show_digits : (fuel n : ℕ) → n < fuel → value 0 (show_digits fuel n) ≡ n
unfolding value show_digits
value-show_digits zero n h = absurd (omega arith)
value-show_digits (suc f) n h = elim (Bool-cases (ltb n 10)) [
  | inl small ↦ rw small (omega arith)
  | inr large ↦
      rw (large, value-append 0 (show_digits f (n / 10)) ((48 + n % 10) ∷ []))
        (omega (arith, value-show_digits f (n / 10) (ground arith)))
]

pub value-show_nat : (n : ℕ) → value 0 (show_nat n) ≡ n
unfolding show_nat
value-show_nat n = value-show_digits (suc n) n (omega arith)

pub show_nat_inj : (m n : ℕ) → show_nat m ≡ show_nat n → m ≡ n
show_nat_inj m n h = sym (value-show_nat m) ∙ ap (value 0) h ∙ value-show_nat n

includes-show_digits : (c fuel n : ℕ) → 57 < c → includes c (show_digits fuel n) ≡ false
unfolding show_digits includes
includes-show_digits c zero n h = refl
includes-show_digits c (suc f) n h = elim (Bool-cases (ltb n 10)) [
  | inl small ↦ rw small (ground arith)
  | inr large ↦
      rw (large, includes-append c (show_digits f (n / 10)) ((48 + n % 10) ∷ []))
        (ground (arith, includes-show_digits c f (n / 10)))
]

-- A character above '9' does not occur in a printed number.
pub includes-show_nat : (c n : ℕ) → 57 < c → includes c (show_nat n) ≡ false
unfolding show_nat
includes-show_nat c n h = includes-show_digits c (suc n) n h

-- Two texts cut at the first separator agree on both sides.
pub split_at_first :
    (c : ℕ) (a b x y : Text)
    → includes c a ≡ false
    → includes c b ≡ false
    → a ++ c ∷ x ≡ b ++ c ∷ y
    → (a ≡ b) × (x ≡ y)
unfolding includes
split_at_first c [] [] x y ha hb e = (refl, cc)
split_at_first c [] (d ∷ b) x y ha hb e = absurd (ground (arith, e))
split_at_first c (d ∷ a) [] x y ha hb e = absurd (ground (arith, e))
split_at_first c (d ∷ a) (f ∷ b) x y ha hb e =
    let rest = split_at_first c a b x y (ground arith) (ground arith) (cc) in (cc (rest.0), rest.1)

-- `${n}` before a separator determines the number and what follows.
pub show_nat_split :
    (c m n : ℕ) (x y : Text)
    → 57 < c
    → show_nat m ++ c ∷ x ≡ show_nat n ++ c ∷ y
    → (m ≡ n) × (x ≡ y)
show_nat_split c m n x y h e =
    let parts =
      split_at_first c (show_nat m) (show_nat n) x y (includes-show_nat c m h)
        (includes-show_nat c n h) e in
    (show_nat_inj m n parts.0, parts.1)
