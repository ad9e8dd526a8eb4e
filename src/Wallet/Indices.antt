-- ===== src/Wallet/Indices.antt =====
-- getRandomVerifyIndices of packages/frontend/src/lib/wallet.ts.
use vpp_blockchain.Base.{
  ℕ, suc, ◌%◌, ◌≤◌, ◌<◌, ◌≡◌, refl, ap, sym, subst, ◌∙◌, true, false, ◌||◌, List, [], ◌∷◌, ◌++◌,
  arith, All, Bool-cases, inl, inr, ◌==◌, ltb, leb, length, length-append, ◌⊎◌,
}
use vpp_blockchain.Base.Exec.{ok}
use vpp_blockchain.Wallet.{
  member, insert_number, sort_numbers, pick, add_index, get_random_verify_indices,
}

-- Strictly ascending from a bound on.
abbrev pub IsAscending : ℕ → List ℕ → Type 0
IsAscending low [] = Unit {0}
IsAscending low (x ∷ xs) = (low ≤ x) × IsAscending (suc x) xs

abbrev AreDistinct : List ℕ → Type 0
AreDistinct [] = Unit {0}
AreDistinct (x ∷ xs) = (member x xs ≡ false) × AreDistinct xs

member-append : (n : ℕ) (a b : List ℕ) → member n (a ++ b) ≡ (member n a || member n b)
unfolding member
member-append n [] b = refl
member-append n (x ∷ a) b = ground (arith, member-append n a b)

snoc-AreDistinct :
    (a : List ℕ) (n : ℕ) → AreDistinct a → member n a ≡ false → AreDistinct (a ++ n ∷ [])
unfolding member
snoc-AreDistinct [] n d h = (refl, tt)
snoc-AreDistinct (x ∷ a) n d h = (
  ground (arith, member-append x a (n ∷ []), d.0, h),
  snoc-AreDistinct a n d.1 (ground (arith, h)),
)

member-insert_number :
    (n x : ℕ) (xs : List ℕ) → member n (insert_number x xs) ≡ (x == n || member n xs)
unfolding member insert_number
member-insert_number n x [] = refl
member-insert_number n x (y ∷ ys) = ground (arith, member-insert_number n x ys)

insert_number-IsAscending :
    (low n : ℕ) (xs : List ℕ)
    → low ≤ n
    → member n xs ≡ false
    → IsAscending low xs
    → IsAscending low (insert_number n xs)
unfolding member insert_number
insert_number-IsAscending low n [] h m a = (h, tt)
insert_number-IsAscending low n (x ∷ xs) h m a = elim (Bool-cases (leb n x)) [
  | inl e ↦ rw e (h, (ground (arith, m), a.1))
  | inr e ↦
      rw e (a.0, insert_number-IsAscending (suc x) n xs (ground arith) (ground (arith, m)) a.1)
]

member-sort_numbers : (n : ℕ) (xs : List ℕ) → member n (sort_numbers xs) ≡ member n xs
unfolding member sort_numbers
member-sort_numbers n [] = refl
member-sort_numbers n (x ∷ xs) =
    member-insert_number n x (sort_numbers xs) ∙ ap (λ b. x == n || b) (member-sort_numbers n xs)

sort_numbers-IsAscending : (xs : List ℕ) → AreDistinct xs → IsAscending 0 (sort_numbers xs)
unfolding sort_numbers
sort_numbers-IsAscending [] d = tt
sort_numbers-IsAscending (x ∷ xs) d =
    insert_number-IsAscending 0 x (sort_numbers xs) (omega arith) (member-sort_numbers x xs ∙ d.0)
      (sort_numbers-IsAscending xs d.1)

length-insert_number : (n : ℕ) (xs : List ℕ) → length (insert_number n xs) ≡ suc (length xs)
unfolding insert_number
length-insert_number n [] = refl
length-insert_number n (x ∷ xs) = ground (arith, length-insert_number n xs)

length-sort_numbers : (xs : List ℕ) → length (sort_numbers xs) ≡ length xs
unfolding sort_numbers
length-sort_numbers [] = refl
length-sort_numbers (x ∷ xs) =
    length-insert_number x (sort_numbers xs) ∙ ap suc (length-sort_numbers xs)

AreBelow : List ℕ → Type 0
AreBelow xs = (n : ℕ) → member n xs ≡ true → n < 12

-- What the loop keeps: no index twice, none above eleven, at most `count` of them.
record Picked (count : ℕ) (xs : List ℕ) : Type 0 where
  distinct : AreDistinct xs
  below : AreBelow xs
  few : length xs ≤ count

pick_one-Picked :
    (count byte : ℕ) (xs : List ℕ)
    → length xs < count
    → Picked count xs
    → Picked count (add_index xs byte)
unfolding AreBelow member
pick_one-Picked count byte xs room p = elim (Bool-cases (member (byte % 12) xs)) [
  | inl e ↦ rw e p
  | inr e ↦ rw e (record {
    distinct = snoc-AreDistinct xs (byte % 12) p.distinct e;
    below = λ n m. ground (arith, m, member-append n xs (byte % 12 ∷ []), p.below n);
    few = omega (arith, length-append xs (byte % 12 ∷ []), room);
  })
]

pick-Picked : (count : ℕ) (xs bytes : List ℕ) → Picked count xs → Picked count (pick count xs bytes)
unfolding pick
pick-Picked count xs [] p = p
pick-Picked count xs (byte ∷ bytes) p = elim (Bool-cases (ltb (length xs) count)) [
  | inl e ↦ rw e (
      pick-Picked count (add_index xs byte) bytes
        (pick_one-Picked count byte xs (ground (arith, e)) p))
  | inr e ↦ rw e p
]

-- The loop never drops an index.
pick-keeps :
    (count n : ℕ) (xs bytes : List ℕ) → member n xs ≡ true → member n (pick count xs bytes) ≡ true
unfolding pick
pick-keeps count n xs [] h = h
pick-keeps count n xs (byte ∷ bytes) h = elim (Bool-cases (ltb (length xs) count)) [
  | inl e ↦ rw e (
      pick-keeps count n (add_index xs byte) bytes
        (ground (arith, h, member-append n xs (byte % 12 ∷ []))))
  | inr e ↦ rw e h
]

-- The index of every byte is in.
abbrev pub Covers : List ℕ → List ℕ → Type 0
Covers bytes xs = All (λ (b : ℕ). member (b % 12) xs ≡ true) bytes

IsFull : ℕ → List ℕ → List ℕ → Type 0
IsFull count bytes xs = (count ≤ length xs) ⊎ Covers bytes xs

pick-IsFull : (count : ℕ) (xs bytes : List ℕ) → IsFull count bytes (pick count xs bytes)
unfolding pick member IsFull
pick-IsFull count xs [] = inr tt
pick-IsFull count xs (byte ∷ bytes) = elim (Bool-cases (ltb (length xs) count)) [
  | inl e ↦
      let next = add_index xs byte in
      let here : member (byte % 12) next ≡ true =
        ground (arith, member-append (byte % 12) xs (byte % 12 ∷ [])) in
      let one : pick count next bytes ≡ pick count xs (byte ∷ bytes) = rw e refl in
      subst (IsFull count (byte ∷ bytes)) one (elim (pick-IsFull count next bytes) [
        | inl full ↦ inl full
        | inr all ↦ inr (pick-keeps count (byte % 12) next bytes here, all)
      ])
  | inr e ↦ rw e (inl (ground (arith, e)))
]

Covers-sort_numbers : (bytes xs : List ℕ) → Covers bytes xs → Covers bytes (sort_numbers xs)
Covers-sort_numbers [] xs h = tt
Covers-sort_numbers (b ∷ bytes) xs h =
    (member-sort_numbers (b % 12) xs ∙ h.0, Covers-sort_numbers bytes xs h.1)

-- What holds of the positions.
abbrev Verifies : ℕ → List ℕ → List ℕ → Type 0
Verifies count bytes is =
    IsAscending 0 is
    × ((n : ℕ) → member n is ≡ true → n < 12)
    × (length is ≤ count)
    × ((length is ≡ count) ⊎ Covers bytes is)

sorted-Verifies :
    (count : ℕ) (bytes : List ℕ) → Verifies count bytes (sort_numbers (pick count [] bytes))
unfolding AreBelow IsFull member
sorted-Verifies count bytes =
    let xs = pick count [] bytes in
    let none_yet : Picked count [] = record {
      distinct = tt;
      below = λ n m. cc;
      few = omega arith;
    } in
    let p = pick-Picked count [] bytes none_yet in
    let few : length (sort_numbers xs) ≤ count = omega (arith, length-sort_numbers xs, p.few) in
    (
      sort_numbers-IsAscending xs p.distinct,
      λ n m. p.below n (sym (member-sort_numbers n xs) ∙ m),
      few,
      elim (pick-IsFull count [] bytes) [
        | inl full ↦ inl (omega (arith, length-sort_numbers xs, few))
        | inr all ↦ inr (Covers-sort_numbers bytes xs all)
      ],
    )

-- The positions that the user has to confirm ascend strictly, lie below twelve, and are as many as
-- asked for, unless the random bytes do not name that many.
pub get_random_verify_indices_lem :
    (count : ℕ) (bytes is : List ℕ)
    → get_random_verify_indices count bytes ≡ ok is
    → IsAscending 0 is
      × ((n : ℕ) → member n is ≡ true → n < 12)
      × (length is ≤ count)
      × ((length is ≡ count) ⊎ Covers bytes is)
unfolding get_random_verify_indices
get_random_verify_indices_lem count bytes is h = elim (Bool-cases (ltb count 1 || ltb 12 count)) [
  | inl e ↦ absurd (cc (rw e at h))
  | inr e ↦ subst (Verifies count bytes) (cc (rw e at h)) (sorted-Verifies count bytes)
]
