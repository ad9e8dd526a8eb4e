-- ===== src/Wallet/Phrase.antt =====
-- normalizeMnemonic of packages/frontend/src/lib/wallet.ts.
use vpp_blockchain.Base.{
  ℕ, ◌≡◌, refl, ap, ap₂, ◌∙◌, sym, false, List, [], ◌∷◌, ◌++◌, arith, Text, to_lower_case,
  to_lower_unit, All, Bool-cases, inl, inr,
}
use vpp_blockchain.Base.Int.{is_space}
use vpp_blockchain.Wallet.{words, join_space, normalize_mnemonic}
use mathlib.Core.List.{append_assoc, append-nil}

-- A character that normalizing leaves alone.
abbrev IsPlain : ℕ → Type 0
IsPlain c = (is_space c ≡ false) × (to_lower_unit c ≡ c)

abbrev IsWord : Text → Type 0
IsWord [] = ⊥
IsWord (c ∷ w) = IsPlain c × All IsPlain w

to_lower_unit_twice : (c : ℕ) → to_lower_unit (to_lower_unit c) ≡ to_lower_unit c
to_lower_unit_twice c = ground arith

IsLower : Text → Type 0
IsLower s = All (λ c. to_lower_unit c ≡ c) s

to_lower_case-IsLower : (s : Text) → IsLower (to_lower_case s)
unfolding to_lower_case IsLower
to_lower_case-IsLower [] = tt
to_lower_case-IsLower (c ∷ s) = (to_lower_unit_twice c, to_lower_case-IsLower s)

IsPlain-append : (a b : Text) → All IsPlain a → All IsPlain b → All IsPlain (a ++ b)
IsPlain-append [] b h k = k
IsPlain-append (x ∷ a) b h k = (h.0, IsPlain-append a b h.1 k)

words-IsWord : (word s : Text) → All IsPlain word → IsLower s → All IsWord (words word s)
unfolding words IsLower
words-IsWord [] [] h l = tt
words-IsWord (w ∷ word) [] h l = (h, tt)
words-IsWord [] (c ∷ s) h l = elim (Bool-cases (is_space c)) [
  | inl e ↦ rw e (words-IsWord [] s tt l.1)
  | inr e ↦ rw e (words-IsWord (c ∷ []) s ((e, l.0), tt) l.1)
]
words-IsWord (w ∷ word) (c ∷ s) h l = elim (Bool-cases (is_space c)) [
  | inl e ↦ rw e (h, words-IsWord [] s tt l.1)
  | inr e ↦ rw e (
      words-IsWord (w ∷ word ++ c ∷ []) s (h.0, IsPlain-append word (c ∷ []) h.1 ((e, l.0), tt))
        l.1)
]

lower_word : (w : Text) → All IsPlain w → to_lower_case w ≡ w
unfolding to_lower_case
lower_word [] h = refl
lower_word (c ∷ w) h = ap₂ ◌∷◌ h.0.1 (lower_word w h.1)

lower_append : (a b : Text) → to_lower_case (a ++ b) ≡ to_lower_case a ++ to_lower_case b
unfolding to_lower_case
lower_append [] b = refl
lower_append (c ∷ a) b = ap (λ t. to_lower_unit c ∷ t) (lower_append a b)

IsPlain-word : (w : Text) → IsWord w → All IsPlain w
IsPlain-word [] h = absurd h
IsPlain-word (c ∷ w) h = h

lower_join : (ws : List Text) → All IsWord ws → to_lower_case (join_space ws) ≡ join_space ws
unfolding join_space to_lower_case
lower_join [] h = refl
lower_join (w ∷ []) h = lower_word w (IsPlain-word w h.0)
lower_join (w ∷ v ∷ rest) h =
    lower_append w (b' ' ∷ join_space (v ∷ rest))
    ∙ ap₂ ◌++◌ (lower_word w (IsPlain-word w h.0)) (ap (λ t. b' ' ∷ t) (lower_join (v ∷ rest) h.1))

-- A word goes on until the next space.
words_inside :
    (a : ℕ) (word w rest : Text)
    → All IsPlain w
    → words (a ∷ word) (w ++ rest) ≡ words (a ∷ word ++ w) rest
unfolding words
words_inside a word [] rest h = ap (λ t. words (a ∷ t) rest) (sym (append-nil word))
words_inside a word (c ∷ w) rest h = rw h.0.0 (
    words_inside a (word ++ c ∷ []) w rest h.1
    ∙ ap (λ t. words (a ∷ t) rest) (append_assoc word (c ∷ []) w))

words_start :
    (c : ℕ) (w rest : Text) → IsWord (c ∷ w) → words [] (c ∷ w ++ rest) ≡ words (c ∷ w) rest
unfolding words
words_start c w rest h = rw h.0.0 (words_inside c [] w rest h.1)

words-join_space : (ws : List Text) → All IsWord ws → words [] (join_space ws) ≡ ws
unfolding words join_space is_space
words-join_space [] h = refl
words-join_space ([] ∷ ws) h = absurd h.0
words-join_space ((c ∷ w) ∷ []) h =
    ap (λ t. words [] (c ∷ t)) (sym (append-nil w)) ∙ words_start c w [] h.0
words-join_space ((c ∷ w) ∷ v ∷ rest) h =
    words_start c w (b' ' ∷ join_space (v ∷ rest)) h.0
    ∙ ap (λ t. (c ∷ w) ∷ t) (words-join_space (v ∷ rest) h.1)

-- A phrase that was normalized is left as it is.
pub normalize_mnemonic_twice :
    (phrase : Text) → normalize_mnemonic (normalize_mnemonic phrase) ≡ normalize_mnemonic phrase
unfolding normalize_mnemonic
normalize_mnemonic_twice phrase =
    let clean = words-IsWord [] (to_lower_case phrase) tt (to_lower_case-IsLower phrase) in
    let ws = words [] (to_lower_case phrase) in
    ap (λ t. join_space (words [] t)) (lower_join ws clean)
    ∙ ap join_space (words-join_space ws clean)
