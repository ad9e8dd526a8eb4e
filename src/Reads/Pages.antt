-- ===== src/Reads/Pages.antt =====
-- packages/backend/src/lib/pagination.ts: the pages of a list.
use vpp_blockchain.Base.{
  ℕ, zero, suc, ◌+◌, ◌-◌, ◌*◌, ◌/◌, ◌≤◌, ◌≡◌, refl, sym, ap, ◌∙◌, some, List, [], ◌∷◌, ◌++◌, arith,
  length, take, drop,
}
use native.Mathlib.Omega.{div_any}
use native.Mathlib.Nat.{mod-lt, mul_comm}
use vpp_blockchain.Reads.{paginate}

-- The first `n` pages, one after the other.
unfoldable pub first_pages : {A : Type 0} → List A → (limit n : ℕ) → List A
unfolding paginate
first_pages items limit zero = []
first_pages items limit (suc n) =
    first_pages items limit n ++ (paginate items (some (record { page = suc n; limit = limit }))).0

take_none : {A : Type 0} (n : ℕ) → (let none_left : List A = [] in take n none_left ≡ none_left)
take_none zero = refl
take_none (suc n) = refl

take-plus : {A : Type 0} (m n : ℕ) (xs : List A) → take m xs ++ take n (drop m xs) ≡ take (m + n) xs
take-plus zero n xs = let e : 0 + n ≡ n = omega arith in rw e refl
take-plus (suc m) n [] = take_none n ∙ sym (take_none (suc m + n))
take-plus (suc m) n (x ∷ xs) =
    let e : suc m + n ≡ suc (m + n) = omega arith in rw e (ap (◌∷◌ x) (take-plus m n xs))

-- The first pages put together are the beginning of the list, without gap or repetition.
pub first_pages-take :
    {A : Type 0} (items : List A) (limit n : ℕ) → first_pages items limit n ≡ take (n * limit) items
unfolding first_pages paginate
first_pages-take items limit zero = let e : 0 * limit ≡ 0 = omega arith in rw e refl
first_pages-take items limit (suc n) =
    let before : suc n - 1 ≡ n = omega arith in
    let count : n * limit + limit ≡ suc n * limit = omega arith in
    rw (first_pages-take items limit n, before, ← count) (take-plus (n * limit) limit items)

take-all : {A : Type 0} (n : ℕ) (xs : List A) → length xs ≤ n → take n xs ≡ xs
take-all zero [] h = refl
take-all zero (x ∷ xs) h = absurd (omega arith)
take-all (suc n) [] h = refl
take-all (suc n) (x ∷ xs) h = ap (◌∷◌ x) (take-all n xs (omega arith))

enough_pages : (total limit : ℕ) → 1 ≤ limit → total ≤ (total + limit - 1) / limit * limit
enough_pages total limit h = omega (
  arith,
  div_any (total + limit - 1) limit,
  mod-lt (total + limit - 1) h,
  mul_comm limit ((total + limit - 1) / limit),
)

-- For a limit of one or more, the pages up to the number of pages that is reported, put together, are
-- the whole list.
pub first_pages-all :
    {A : Type 0} (items : List A) (limit : ℕ)
    → 1 ≤ limit
    → first_pages items limit ((length items + limit - 1) / limit) ≡ items
first_pages-all items limit h =
    first_pages-take items limit ((length items + limit - 1) / limit)
    ∙ take-all _ items (enough_pages (length items) limit h)
