-- ===== src/Base/Parse.antt =====
-- `parseInt` reads back what `String` printed, and the last part of a text after its colons.
use vpp_blockchain.Base.{
  ℕ, zero, suc, ◌+◌, ◌-◌, ◌*◌, ◌/◌, ◌%◌, ◌<◌, ◌≡◌, ap, ◌∙◌, Bool, true, false, some, [], ◌∷◌, ◌++◌,
  arith, All, Text, show_nat, show_digits, ltb, ◌==◌, Bool-cases, inl, inr,
}
use vpp_blockchain.Base.Int.{pos, is_digit, is_space, read_digits, unsigned, parse_int}

abbrev pub AreDigits : Text → Type 0
AreDigits = All (λ c. is_digit c ≡ true)

append-AreDigits : (a b : Text) → AreDigits a → AreDigits b → AreDigits (a ++ b)
append-AreDigits [] b h k = k
append-AreDigits (c ∷ a) b h k = (h.0, append-AreDigits a b h.1 k)

show_digits-AreDigits : (fuel n : ℕ) → AreDigits (show_digits fuel n)
unfolding show_digits
show_digits-AreDigits zero n = tt
show_digits-AreDigits (suc f) n = elim (Bool-cases (ltb n 10)) [
  | inl small ↦ rw small (ground arith, tt)
  | inr large ↦ rw large (
      append-AreDigits (show_digits f (n / 10)) ((48 + n % 10) ∷ [])
        (show_digits-AreDigits f (n / 10)) (ground arith, tt))
]

read_digits-append :
    (seen : Bool) (n d : ℕ) (a : Text)
    → AreDigits a
    → d < 10
    → (m : ℕ) → read_digits seen n a ≡ some m
    → read_digits seen n (a ++ (48 + d) ∷ []) ≡ some (m * 10 + d)
unfolding read_digits
read_digits-append seen n d [] h small m e = ground (arith, e)
read_digits-append seen n d (c ∷ a) h small m e =
    rw h.0 (read_digits-append true (n * 10 + (c - 48)) d a h.1 small m (rw h.0 at e))

read_digits-show_digits :
    (fuel n : ℕ) → n < fuel → read_digits false 0 (show_digits fuel n) ≡ some n
unfolding show_digits read_digits
read_digits-show_digits zero n h = absurd (omega arith)
read_digits-show_digits (suc f) n h = elim (Bool-cases (ltb n 10)) [
  | inl small ↦ rw small (one n (ground arith))
  | inr large ↦ rw large (
      read_digits-append false 0 (n % 10) (show_digits f (n / 10))
        (show_digits-AreDigits f (n / 10)) (omega arith) (n / 10)
        (read_digits-show_digits f (n / 10) (ground arith))
      ∙ ap some (omega arith))
]
  where
    one : (n : ℕ) → n < 10 → read_digits false 0 ((48 + n) ∷ []) ≡ some n
    one n h = ground arith

digits_first :
    (s : Text) (n : ℕ) → AreDigits s → read_digits false 0 s ≡ some n → parse_int s ≡ some (pos n)
unfolding parse_int read_digits is_space unsigned
digits_first [] n h e = absurd (cc e)
digits_first (c ∷ s) n h e =
    let here : is_digit c ≡ true = h.0 in
    let solid : is_space c ≡ false = ground (arith, here) in
    let unsigned_minus : (c == 45) ≡ false = ground (arith, here) in
    let unsigned_plus : (c == 43) ≡ false = ground (arith, here) in
    rw (solid, unsigned_minus, unsigned_plus) (ap unsigned e)

pub show_nat-AreDigits : (n : ℕ) → AreDigits (show_nat n)
unfolding show_nat
show_nat-AreDigits n = show_digits-AreDigits (suc n) n

pub parse_int-show_nat : (n : ℕ) → parse_int (show_nat n) ≡ some (pos n)
unfolding show_nat
parse_int-show_nat n =
    digits_first (show_digits (suc n) n) n (show_digits-AreDigits (suc n) n)
      (read_digits-show_digits (suc n) n (omega arith))
