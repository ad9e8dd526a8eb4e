-- ===== src/Sessions/Numbers.antt =====
-- `/^\d+$/` and `Number` of what `String` printed of a whole number.
use vpp_blockchain.Base.{
  ℕ, ◌+◌, ◌-◌, ◌*◌, ◌≡◌, refl, ◌∙◌, true, false, includes, some, [], ◌∷◌, arith, Text, show_nat,
}
use vpp_blockchain.Base.Decimal.{value, value-show_nat}
use vpp_blockchain.Base.Int.{ℤ, pos, is_digit, parse_int}
use vpp_blockchain.Base.Parse.{AreDigits, show_nat-AreDigits, parse_int-show_nat}
use vpp_blockchain.Sessions.{all_of, is_number, number_of}

number_of-value : (n : ℕ) (s : Text) → number_of n s ≡ value n s
unfolding number_of value
number_of-value n [] = refl
number_of-value n (c ∷ s) = number_of-value (n * 10 + (c - 48)) s

pub number_of-show_nat : (n : ℕ) → number_of 0 (show_nat n) ≡ n
number_of-show_nat n = number_of-value 0 (show_nat n) ∙ value-show_nat n

all_digits : (s : Text) → AreDigits s → all_of is_digit s ≡ true
unfolding all_of
all_digits [] h = refl
all_digits (c ∷ s) h = ground (arith, h.0, all_digits s h.1)

is_number_of : (s : Text) (z : ℤ) → AreDigits s → parse_int s ≡ some z → is_number s ≡ true
unfolding is_number parse_int
is_number_of [] z h e = absurd (cc)
is_number_of (c ∷ s) z h e = all_digits (c ∷ s) h

pub is_number-show_nat : (n : ℕ) → is_number (show_nat n) ≡ true
is_number-show_nat n =
    is_number_of (show_nat n) (pos n) (show_nat-AreDigits n) (parse_int-show_nat n)

digits_without : (c : ℕ) (s : Text) → is_digit c ≡ false → AreDigits s → includes c s ≡ false
unfolding includes
digits_without c [] h d = refl
digits_without c (x ∷ s) h d = ground (arith, digits_without c s h d.1, d.0, h)

-- What is not a digit does not occur in a printed number.
pub without-show_nat : (c n : ℕ) → is_digit c ≡ false → includes c (show_nat n) ≡ false
without-show_nat c n h = digits_without c (show_nat n) h (show_nat-AreDigits n)
